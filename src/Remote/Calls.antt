-- ===== src/Remote/Calls.antt =====
-- The methods of `RemoteServer` in src/remote.rs that change what is kept of the clients.
use boo.Base.{
  ℕ, ◌-◌, ◌==◌, Bool, true, false, ◌||◌, not, Option, none, some, List, [], ◌∷◌, find, ltb, is_some,
  if◌then◌else◌,
}
use boo.Batcher.{frame}
use boo.Wire.{MessageType}
use boo.Wire.Frames.{encode_message}
use boo.Wire.States.{RemoteFullState}
use boo.Remote.{
  ClientRuntimeView, ClientState, State, clear_stream_state, touch_view, send, with_view,
  update_client, is_viewer, is_local_viewer, viewer_client_ids, local_viewer_client_ids,
}
use boo.Remote.Stream.{PaneUpdate, send_state_to_client, send_pane_state_to_client}

abbrev pub any_client : (ClientState → Bool) → List (ℕ × ClientState) → Bool
any_client test [] = false
any_client test ((client_id, client) ∷ rest) = test client || any_client test rest

abbrev pub has_runtime_viewers : State → Bool
has_runtime_viewers s = any_client is_viewer s.clients

abbrev pub has_local_runtime_viewers : State → Bool
has_local_runtime_viewers s = any_client is_local_viewer s.clients

abbrev pub client_subscribed_to_runtime : State → ℕ → Bool
client_subscribed_to_runtime s client_id = elim (find client_id s.clients) [
  | none ↦ false
  | some client ↦ is_viewer client
]

abbrev pub has_client : State → ℕ → Bool
has_client s client_id = is_some (find client_id s.clients)

unfoldable pub initialized :
    ℕ → Option ℕ → Option ℕ → List ℕ → ClientRuntimeView → ClientRuntimeView
unfolding touch_view
initialized client_id viewed_tab_id focused_pane_id visible_pane_ids v = touch_view (record v {
  view_id = if v.view_id == 0 then client_id else v.view_id;
  viewed_tab_id = viewed_tab_id;
  focused_pane_id = focused_pane_id;
  visible_pane_ids = visible_pane_ids;
  ui_attached = true;
  detached_at = none;
})

abbrev pub initialize_client_view : State → ℕ → Option ℕ → Option ℕ → List ℕ → State
initialize_client_view s client_id viewed_tab_id focused_pane_id visible_pane_ids =
    update_client s client_id
      (with_view (initialized client_id viewed_tab_id focused_pane_id visible_pane_ids))

abbrev pub update_client_view : State → ℕ → (ClientRuntimeView → ClientRuntimeView) → State
update_client_view s client_id f = update_client s client_id (with_view f)

unfoldable pub subscribed : ClientRuntimeView → ClientRuntimeView
unfolding clear_stream_state
subscribed v =
    if v.subscribed_to_runtime
    then v
    else clear_stream_state (record v { subscribed_to_runtime = true })

abbrev pub subscribe_client_to_runtime : State → ℕ → State
subscribe_client_to_runtime s client_id = update_client s client_id (with_view subscribed)

unfoldable pub unsubscribed : ClientRuntimeView → ClientRuntimeView
unfolding clear_stream_state
unsubscribed v = clear_stream_state (record v { subscribed_to_runtime = false })

abbrev pub unsubscribe_client_from_runtime : State → ℕ → State
unsubscribe_client_from_runtime s client_id = update_client s client_id (with_view unsubscribed)

-- whether a view was left for long enough; differences of instants stop at 0
abbrev pub is_expired : ℕ → ℕ → ClientRuntimeView → Bool
is_expired now idle_timeout v = elim v.detached_at [
  | none ↦ false
  | some detached_at ↦ if v.ui_attached then false else not (ltb (now - detached_at) idle_timeout)
]

unfoldable pub swept : ClientRuntimeView → ClientRuntimeView
unfolding clear_stream_state touch_view
swept v = touch_view (
    clear_stream_state (record v {
      subscribed_to_runtime = false;
      viewed_tab_id = none;
      focused_pane_id = none;
      visible_pane_ids = [];
      viewport_cols = none;
      viewport_rows = none;
      detached_at = none;
    }))

abbrev pub sweep_clients : ℕ → ℕ → List (ℕ × ClientState) → List ℕ × List (ℕ × ClientState)
sweep_clients now idle_timeout [] = ([], [])
sweep_clients now idle_timeout ((client_id, client) ∷ rest) =
    let later = sweep_clients now idle_timeout rest in
    if is_expired now idle_timeout client.runtime_view
    then (client_id ∷ later.0, (client_id, with_view swept client) ∷ later.1)
    else (later.0, (client_id, client) ∷ later.1)

-- the ids of the clients whose views are swept, and the state that follows
unfoldable pub sweep_idle_views : State → ℕ → ℕ → List ℕ × State
unfolding swept
sweep_idle_views s now idle_timeout =
    let result = sweep_clients now idle_timeout s.clients in
    (result.0, record { clients = result.1 })

abbrev pub send_to_client : State → ℕ → MessageType → List ℕ → State
send_to_client s client_id ty payload =
    update_client s client_id (send (frame (encode_message ty payload)))

abbrev pub send_states_to : List ℕ → RemoteFullState → State → State
send_states_to [] state s = s
send_states_to (client_id ∷ ids) state s =
    send_states_to ids state (send_state_to_client s client_id state)

abbrev pub send_full_state_to_viewers : State → RemoteFullState → State
send_full_state_to_viewers s state = send_states_to (viewer_client_ids s) state s

abbrev pub send_pane_states_to : List ℕ → PaneUpdate → RemoteFullState → State → State
send_pane_states_to [] update state s = s
send_pane_states_to (client_id ∷ ids) update state s =
    send_pane_states_to ids update state (send_pane_state_to_client s client_id update state)

abbrev pub send_pane_state_to_local_viewers : State → PaneUpdate → RemoteFullState → State
send_pane_state_to_local_viewers s update state =
    send_pane_states_to (local_viewer_client_ids s) update state s

abbrev pub input_recorded : Option ℕ → ClientRuntimeView → ClientRuntimeView
input_recorded input_seq v = elim input_seq [
  | none ↦ v
  | some seq ↦ record v { latest_input_seq = some seq }
]

abbrev pub record_input_seq : State → ℕ → Option ℕ → State
record_input_seq s client_id input_seq =
    update_client s client_id (with_view (input_recorded input_seq))
