-- ===== src/Remote.antt =====
-- What the server keeps of its remote clients: src/remote_state.rs and src/remote_server_targets.rs.
pub mod Control
pub mod Stream
pub mod Calls
pub mod Views
pub mod Steady
pub mod Caching
pub mod Sweeping
pub mod Idle
use boo.Base.{
  ℕ, ◌+◌, ◌-◌, ◌%◌, ◌^◌, Bool, true, false, ◌&&◌, Option, none, some, List, [], ◌∷◌, ◌++◌, contains,
  find, update, retain_keys, or_else, max, ltb, if◌then◌else◌,
}
use boo.Base.Int.{ℤ, pos}
use boo.Batcher.{OutboundMessage}
use boo.Wire.States.{RemoteFullState}

-- Instants are numbers of nanoseconds.
pub record ClientRuntimeView : Type 0 where
  pub view_id : ℕ
  pub subscribed_to_runtime : Bool
  pub view_revision : ℕ
  pub viewed_tab_id : Option ℕ
  pub focused_pane_id : Option ℕ
  pub viewport_cols : Option ℕ
  pub viewport_rows : Option ℕ
  pub visible_pane_ids : List ℕ
  pub ui_attached : Bool
  pub detached_at : Option ℕ
  pub acked_client_action_id : Option ℕ
  pub last_render_ack_at : Option ℕ
  pub last_rendered_pane_id : Option ℕ
  pub last_rendered_pane_revision : Option ℕ
  pub last_rendered_runtime_revision : Option ℕ
  pub scroll_offset_rows : ℤ
  pub copy_mode_active : Bool
  pub search_active : Bool
  pub search_query : List ℕ
  pub last_tab_list_payload : Option (List ℕ)
  pub last_ui_runtime_state_payload : Option (List ℕ)
  pub last_ui_appearance_payload : Option (List ℕ)
  pub last_state : Option RemoteFullState
  pub pane_states : List (ℕ × RemoteFullState)
  pub latest_input_seq : Option ℕ

-- `ClientRuntimeView::idle`
abbrev pub idle : ClientRuntimeView
idle = record {
  view_id = 0;
  subscribed_to_runtime = false;
  view_revision = 1;
  viewed_tab_id = none;
  focused_pane_id = none;
  viewport_cols = none;
  viewport_rows = none;
  visible_pane_ids = [];
  ui_attached = true;
  detached_at = none;
  acked_client_action_id = none;
  last_render_ack_at = none;
  last_rendered_pane_id = none;
  last_rendered_pane_revision = none;
  last_rendered_runtime_revision = none;
  scroll_offset_rows = pos 0;
  copy_mode_active = false;
  search_active = false;
  search_query = [];
  last_tab_list_payload = none;
  last_ui_runtime_state_payload = none;
  last_ui_appearance_payload = none;
  last_state = none;
  pane_states = [];
  latest_input_seq = none;
}

unfoldable pub clear_stream_state : ClientRuntimeView → ClientRuntimeView
clear_stream_state v = record v { last_state = none; pane_states = []; latest_input_seq = none }

unfoldable pub touch_view : ClientRuntimeView → ClientRuntimeView
unfolding clear_stream_state
touch_view v =
    clear_stream_state (record v { view_revision = max ((v.view_revision + 1) % 2 ^ 64) 1 })

unfoldable pub attach_ui : ClientRuntimeView → ClientRuntimeView
unfolding touch_view
attach_ui v = touch_view (record v { ui_attached = true; detached_at = none })

unfoldable pub detach_ui : ℕ → ClientRuntimeView → ClientRuntimeView
unfolding touch_view
detach_ui now v = touch_view (record v { ui_attached = false; detached_at = some now })

-- The channel to the writer of the client is the list of what was sent on it.
pub record ClientState : Type 0 where
  pub outbound : List OutboundMessage
  pub authenticated : Bool
  pub connected_at : ℕ
  pub authenticated_at : Option ℕ
  pub last_heartbeat_at : Option ℕ
  pub runtime_view : ClientRuntimeView
  pub is_local : Bool

-- The clients by their ids; the id of the instance, which no call here reads, is left out.
pub record State : Type 0 where
  pub clients : List (ℕ × ClientState)

-- what a channel is given; an error for a receiver that is gone is ignored
abbrev pub send : OutboundMessage → ClientState → ClientState
send m client = record client { outbound = client.outbound ++ m ∷ [] }

abbrev pub with_view : (ClientRuntimeView → ClientRuntimeView) → ClientState → ClientState
with_view f client = record client { runtime_view = f client.runtime_view }

-- `get_mut` on the clients
abbrev pub update_client : State → ℕ → (ClientState → ClientState) → State
update_client s client_id f = record { clients = update client_id f s.clients }

pub data DisconnectReason : Type 0 where
  heartbeat_timeout auth_timeout : DisconnectReason

-- The reason to disconnect a client, by whether it is authenticated and local, when it gave its last
-- sign of life and when it connected. Differences of instants stop at 0.
abbrev pub idle_reason : ℕ → ℕ → ℕ → Bool → Bool → Option ℕ → ℕ → Option DisconnectReason
idle_reason now auth_challenge_window heartbeat_window true true last_liveness connected_at = none
idle_reason now auth_challenge_window heartbeat_window true false none connected_at = none
idle_reason now auth_challenge_window heartbeat_window true false (some last_liveness)
      connected_at =
    if ltb heartbeat_window (now - last_liveness) then some heartbeat_timeout else none
idle_reason now auth_challenge_window heartbeat_window false is_local last_liveness connected_at =
    if ltb auth_challenge_window (now - connected_at) then some auth_timeout else none

unfoldable pub should_disconnect_idle_client : State → ℕ → ℕ → ℕ → ℕ → Option DisconnectReason
should_disconnect_idle_client s now client_id auth_challenge_window heartbeat_window =
    elim (find client_id s.clients) [
      | none ↦ none
      | some client ↦
          idle_reason now auth_challenge_window heartbeat_window client.authenticated
            client.is_local (or_else client.last_heartbeat_at client.authenticated_at)
            client.connected_at
    ]

-- The ids of the clients that a test picks.
abbrev pub picked_ids : (ClientState → Bool) → List (ℕ × ClientState) → List ℕ
picked_ids test [] = []
picked_ids test ((client_id, client) ∷ rest) =
    let later = picked_ids test rest in if test client then client_id ∷ later else later

abbrev pub is_viewer : ClientState → Bool
is_viewer client = client.runtime_view.subscribed_to_runtime

abbrev pub is_local_viewer : ClientState → Bool
is_local_viewer client = client.is_local && client.runtime_view.subscribed_to_runtime

abbrev pub local_viewer_client_ids : State → List ℕ
local_viewer_client_ids s = picked_ids is_local_viewer s.clients

abbrev pub local_client_ids : State → List ℕ
local_client_ids s = picked_ids (λ client. client.is_local) s.clients

abbrev pub viewer_client_ids : State → List ℕ
viewer_client_ids s = picked_ids is_viewer s.clients

abbrev pub retained : List ℕ → List (ℕ × ClientState) → List (ℕ × ClientState)
retained visible [] = []
retained visible ((client_id, client) ∷ rest) =
    let later = retained visible rest in
    if is_local_viewer client
    then (
      client_id,
      with_view
          (λ v. record v {
            pane_states = retain_keys (λ pane_id. contains pane_id visible) v.pane_states;
          })
          client,
    )
      ∷ later
    else (client_id, client) ∷ later

unfoldable pub retain_local_viewer_pane_states : State → List ℕ → State
retain_local_viewer_pane_states s visible_pane_ids = record {
  clients = retained visible_pane_ids s.clients;
}
