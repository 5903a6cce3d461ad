-- ===== src/Remote/Control.antt =====
-- src/remote_server_control.rs: payloads that are sent again only when they change. What serde makes
-- of a runtime state or an appearance is given as its bytes.
use boo.Base.{ℕ, Bool, true, false, ◌&&◌, Option, none, some, List, [], ◌∷◌, ◌==◌, if◌then◌else◌}
use boo.Batcher.{frame}
use boo.Wire.{MessageType, tab_list, ui_runtime_state, ui_appearance}
use boo.Wire.Frames.{encode_message}
use boo.Wire.TabLists.{RemoteTabInfo, encode_tab_list}
use boo.Remote.{
  ClientRuntimeView, ClientState, State, send, with_view, update_client, local_client_ids,
  local_viewer_client_ids,
}

pub data CachedControlPayload : Type 0 where
  tab_list_payload ui_runtime_state_payload ui_appearance_payload : CachedControlPayload

-- `cache_slot_mut`, as a read and a write
abbrev pub cached : CachedControlPayload → ClientRuntimeView → Option (List ℕ)
cached tab_list_payload v = v.last_tab_list_payload
cached ui_runtime_state_payload v = v.last_ui_runtime_state_payload
cached ui_appearance_payload v = v.last_ui_appearance_payload

abbrev pub with_cached : CachedControlPayload → List ℕ → ClientRuntimeView → ClientRuntimeView
with_cached tab_list_payload p v = record v { last_tab_list_payload = some p }
with_cached ui_runtime_state_payload p v = record v { last_ui_runtime_state_payload = some p }
with_cached ui_appearance_payload p v = record v { last_ui_appearance_payload = some p }

abbrev pub same_bytes : List ℕ → List ℕ → Bool
same_bytes [] [] = true
same_bytes [] (b ∷ ys) = false
same_bytes (a ∷ xs) [] = false
same_bytes (a ∷ xs) (b ∷ ys) = (a == b) && same_bytes xs ys

abbrev pub is_cached : Option (List ℕ) → List ℕ → Bool
is_cached none payload = false
is_cached (some old) payload = same_bytes old payload

abbrev pub send_new : MessageType → List ℕ → CachedControlPayload → ClientState → ClientState
send_new ty payload slot client =
    if is_cached (cached slot client.runtime_view) payload
    then client
    else send (frame (encode_message ty payload)) (with_view (with_cached slot payload) client)

unfoldable pub send_cached_control_payload_bytes :
    State → ℕ → MessageType → List ℕ → CachedControlPayload → State
send_cached_control_payload_bytes s client_id ty payload slot =
    update_client s client_id (send_new ty payload slot)

-- The same for every id of a list.
abbrev pub send_cached_to : List ℕ → MessageType → List ℕ → CachedControlPayload → State → State
send_cached_to [] ty payload slot s = s
send_cached_to (client_id ∷ ids) ty payload slot s =
    send_cached_to ids ty payload slot
      (send_cached_control_payload_bytes s client_id ty payload slot)

abbrev pub send_tab_list : State → ℕ → List RemoteTabInfo → State
send_tab_list s client_id tabs =
    send_cached_control_payload_bytes s client_id tab_list (encode_tab_list tabs) tab_list_payload

abbrev pub reply_tab_list : State → ℕ → List RemoteTabInfo → State
reply_tab_list s client_id tabs =
    update_client s client_id (send (frame (encode_message tab_list (encode_tab_list tabs))))

abbrev pub send_tab_list_to_local_clients : State → List RemoteTabInfo → State
send_tab_list_to_local_clients s tabs =
    send_cached_to (local_client_ids s) tab_list (encode_tab_list tabs) tab_list_payload s

abbrev pub send_ui_runtime_state : State → ℕ → List ℕ → State
send_ui_runtime_state s client_id payload =
    send_cached_control_payload_bytes s client_id ui_runtime_state payload ui_runtime_state_payload

abbrev pub send_ui_runtime_state_to_local_viewers : State → List ℕ → State
send_ui_runtime_state_to_local_viewers s payload =
    send_cached_to (local_viewer_client_ids s) ui_runtime_state payload ui_runtime_state_payload s

abbrev pub send_ui_appearance : State → ℕ → List ℕ → State
send_ui_appearance s client_id payload =
    send_cached_control_payload_bytes s client_id ui_appearance payload ui_appearance_payload

abbrev pub send_ui_appearance_to_local_clients : State → List ℕ → State
send_ui_appearance_to_local_clients s payload =
    send_cached_to (local_client_ids s) ui_appearance payload ui_appearance_payload s
