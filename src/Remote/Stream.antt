-- ===== src/Remote/Stream.antt =====
-- src/remote_server_stream.rs: a state goes to a client as the changes from the last one, or whole.
-- Nothing else runs between the two locks of a call.
use boo.Base.{
  ℕ, ◌==◌, Bool, true, false, Option, none, some, List, ◌++◌, find, insert, if◌then◌else◌,
}
use boo.Batcher.{screen_update, pane_update}
use boo.Wire.{MessageType, full_state, delta, ui_pane_full_state, ui_pane_delta}
use boo.Wire.Frames.{to_le_bytes, encode_message}
use boo.Wire.States.{RemoteFullState, encode_full_state}
use boo.Wire.Delta.{encode_delta}
use boo.Remote.{ClientRuntimeView, ClientState, State, send, with_view, update_client}

-- `encode_delta` on a state that may be missing
abbrev pub delta_from : Option RemoteFullState → RemoteFullState → Option ℕ → Bool → Option (List ℕ)
delta_from none next seq local = none
delta_from (some previous) next seq local = encode_delta previous next seq local

abbrev pub state_payload :
    Option RemoteFullState → RemoteFullState → Option ℕ → Bool → MessageType × List ℕ
state_payload previous next seq local = elim (delta_from previous next seq local) [
  | some payload ↦ (delta, payload)
  | none ↦ (full_state, encode_full_state next seq local)
]

abbrev pub sent_state : RemoteFullState → ClientState → ClientState
sent_state next client =
    let v = client.runtime_view in
    let message = state_payload v.last_state next v.latest_input_seq client.is_local in
    if v.subscribed_to_runtime
    then send (screen_update (encode_message message.0 message.1))
        (with_view (λ w. record w { last_state = some next }) client)
    else client

unfoldable pub send_state_to_client : State → ℕ → RemoteFullState → State
send_state_to_client s client_id next_state = update_client s client_id (sent_state next_state)

-- `encode_ui_pane_update_payload` of src/remote_wire.rs
unfoldable pub encode_ui_pane_update_payload : ℕ → ℕ → ℕ → ℕ → List ℕ → List ℕ
encode_ui_pane_update_payload tab_id pane_id pane_revision runtime_revision payload =
    to_le_bytes 4 tab_id
    ++ to_le_bytes 8 pane_id
    ++ to_le_bytes 8 pane_revision
    ++ to_le_bytes 8 runtime_revision
    ++ payload

abbrev pub pane_payload : Option RemoteFullState → RemoteFullState → MessageType × List ℕ
pane_payload previous next = elim (delta_from previous next none true) [
  | some payload ↦ (ui_pane_delta, payload)
  | none ↦ (ui_pane_full_state, encode_full_state next none true)
]

abbrev pub is_focused : Option ℕ → ℕ → Bool
is_focused focused pane_id = elim focused [ none ↦ false | some i ↦ i == pane_id ]

-- the numbers that a pane's update is sent with
pub record PaneUpdate : Type 0 where
  pub tab_id : ℕ
  pub pane_id : ℕ
  pub pane_revision : ℕ
  pub runtime_revision : ℕ

-- the type and the payload of the message for a pane
unfoldable pub pane_message :
    ClientRuntimeView → PaneUpdate → RemoteFullState → MessageType × List ℕ
unfolding encode_ui_pane_update_payload
pane_message v update next =
    let message = pane_payload (find update.pane_id v.pane_states) next in
    (
      message.0,
      encode_ui_pane_update_payload update.tab_id update.pane_id update.pane_revision
          update.runtime_revision message.1,
    )

abbrev pub with_pane_state : ℕ → RemoteFullState → ClientRuntimeView → ClientRuntimeView
with_pane_state pane_id next v = record v { pane_states = insert pane_id next v.pane_states }

unfoldable pub sent_pane_state : PaneUpdate → RemoteFullState → ClientState → ClientState
unfolding pane_message
sent_pane_state update next client =
    let v = client.runtime_view in
    let message = pane_message v update next in
    let bytes = encode_message message.0 message.1 in
    if v.subscribed_to_runtime
    then send (pane_update update.pane_id (is_focused v.focused_pane_id update.pane_id) bytes)
        (with_view (with_pane_state update.pane_id next) client)
    else client

unfoldable pub send_pane_state_to_client : State → ℕ → PaneUpdate → RemoteFullState → State
unfolding sent_pane_state
send_pane_state_to_client s client_id update next_state =
    update_client s client_id (sent_pane_state update next_state)
