-- ===== src/Client/Session.antt =====
-- How `ClientApp` of src/client_gui.rs handles the events of the stream.
use boo.Base.{
  ℕ, suc, ◌+◌, ◌-◌, ◌%◌, ◌^◌, ◌==◌, Bool, true, false, not, ◌&&◌, ◌||◌, Option, none, some, List,
  [], ◌∷◌, ◌++◌, length, get_elem?, find, insert, update, min, max, ltb, leb, unwrap_or, next_64,
  if◌then◌else◌,
}
use boo.Wire.States.{RemoteFullState}
use boo.Wire.TabLists.{RemoteTabInfo}
use boo.Client.Snapshot.{TerminalSnapshot, remote_full_state_to_vt_snapshot}
use boo.Client.Decoding.{RemoteDelta}
use boo.Client.Applying.{apply_remote_delta_snapshot}
use boo.Client.State.{
  ClientApp, ClientMode, ClientTabState, ClientUiState, LocalStreamEvent, UiAppearance,
  UiRuntimeState, active_mode, bootstrapping, delta_event, disconnected_event, error_event,
  full_state_event, recovering, tab_exited_event, tab_list_event, ui_appearance_event,
  ui_pane_delta_event, ui_pane_full_state_event, ui_runtime_state_event,
}

-- `position` of a tab's id
abbrev pub tab_position : ℕ → List RemoteTabInfo → Option ℕ
tab_position tab_id [] = none
tab_position tab_id (tab ∷ tabs) =
    let rest = tab_position tab_id tabs in
    if tab.id == tab_id then some 0 else elim rest [ none ↦ none | some i ↦ some (suc i) ]

abbrev pub tab_states : ℕ → ℕ → List RemoteTabInfo → List ClientTabState
tab_states active_index index [] = []
tab_states active_index index (tab ∷ tabs) =
    record {
      index = index;
      tab_id = some tab.id;
      active = index == active_index;
      title = if length tab.title == 0 then tab.name else tab.title;
      pane_count = 1;
    }
    ∷ tab_states active_index (index + 1) tabs

abbrev pub active_index_of : List RemoteTabInfo → Option ℕ → ℕ
active_index_of tabs active_remote_tab_id = elim active_remote_tab_id [
  | none ↦ 0
  | some tab_id ↦ unwrap_or (tab_position tab_id tabs) 0
]

-- `ClientUiState::from_remote_tabs`
unfoldable pub from_remote_tabs : List RemoteTabInfo → Option ℕ → ClientUiState
from_remote_tabs tabs active_remote_tab_id =
    let active_index = active_index_of tabs active_remote_tab_id in
    record {
      tabs = tab_states active_index 0 tabs;
      active_tab = min active_index (length tabs - 1);
      pwd = elim (get_elem? tabs active_index) [ none ↦ [] | some tab ↦ tab.pwd ];
      pane_count = if length tabs == 0 then 0 else 1;
    }

-- `ClientUiState::from_runtime_state`
abbrev pub from_runtime_state : UiRuntimeState → ClientUiState
from_runtime_state state = record {
  tabs = state.tabs;
  active_tab = state.active_tab;
  pwd = state.pwd;
  pane_count = state.visible_panes;
}

abbrev pub focused_cursor_position : ℕ → List (ℕ × TerminalSnapshot) → Option (ℕ × (ℕ × ℕ))
focused_cursor_position focused_pane_id pane_snapshots =
    elim (find focused_pane_id pane_snapshots) [
      | none ↦ none
      | some snapshot ↦ some (focused_pane_id, (snapshot.cursor.x, snapshot.cursor.y))
    ]

abbrev pub observe_focused_cursor_position : ClientApp → ClientApp
observe_focused_cursor_position app = record app {
  focused_cursor_position = focused_cursor_position app.focused_pane_id app.pane_snapshots;
}

-- `allocate_full_snapshot_revision_seed`, as the number and the state after it
abbrev pub after_seed : ClientApp → ℕ → ClientApp
after_seed app row_count = record app {
  next_full_snapshot_revision = (app.next_full_snapshot_revision + max row_count 1) % 2 ^ 64;
}

-- `terminal_snapshot_generation` from `allocate_snapshot_generation`
abbrev pub next_generation : ClientApp → ClientApp
next_generation app = record app {
  terminal_snapshot_generation = app.next_snapshot_generation;
  next_snapshot_generation = next_64 app.next_snapshot_generation;
}

-- `take_acknowledged_input_latencies` leaves the numbers from the one behind the acknowledged on.
abbrev pub pending_after : ℕ → List ℕ → List ℕ
pending_after ack [] = []
pending_after ack (seq ∷ seqs) =
    let rest = pending_after ack seqs in if leb (next_64 ack) seq then seq ∷ rest else rest

abbrev pub acknowledge_input_latency : ClientApp → Option ℕ → ClientApp
acknowledge_input_latency app none = app
acknowledge_input_latency app (some ack) = record app {
  pending_inputs = pending_after ack app.pending_inputs;
}

abbrev pub send_new_tab : ClientApp → ClientApp
send_new_tab app =
    if app.connected
    then record app { new_tabs = app.new_tabs ++ app.runtime_view_id ∷ [] }
    else app

abbrev pub is_live : Option ℕ → List RemoteTabInfo → Bool
is_live none tabs = false
is_live (some tab_id) [] = false
is_live (some tab_id) (tab ∷ tabs) =
    (not tab.child_exited && (tab.id == tab_id)) || is_live (some tab_id) tabs

abbrev pub none_live : List RemoteTabInfo → Bool
none_live [] = true
none_live (tab ∷ tabs) = tab.child_exited && none_live tabs

abbrev pub is_active : ClientMode → Bool
is_active active_mode = true
is_active _ = false

abbrev pub is_bootstrapping : ClientMode → Bool
is_bootstrapping bootstrapping = true
is_bootstrapping _ = false

-- neither a picture nor anything else to show yet
abbrev pub is_blank : ClientApp → Bool
is_blank app = is_bootstrapping app.mode && (length app.pane_snapshots == 0)

unfoldable pub handle_tab_list : ClientApp → List RemoteTabInfo → ClientApp
unfolding from_remote_tabs
handle_tab_list app tabs =
    let app' = record app { ui_state = from_remote_tabs tabs app.active_remote_tab_id } in
    if is_active app.mode && is_live app.active_remote_tab_id tabs
    then record app' { should_exit = false }
    else if is_blank app && none_live tabs
    then send_new_tab app'
    else record app' { should_exit = none_live tabs }

abbrev pub with_active_tab : Option ℕ → ClientApp → ClientApp
with_active_tab none app = app
with_active_tab (some tab_id) app = record app {
  active_remote_tab_id = some tab_id;
  should_exit = false;
}

abbrev pub tab_id_at : ClientUiState → Option ℕ
tab_id_at ui = elim (get_elem? ui.tabs ui.active_tab) [ none ↦ none | some tab ↦ tab.tab_id ]

unfoldable pub apply_ui_runtime_state : ClientApp → UiRuntimeState → ClientApp
apply_ui_runtime_state app state =
    let ui = from_runtime_state state in
    let snapshots =
      if not (app.view_revision == 0) && not (state.view_revision == app.view_revision)
      then []
      else app.pane_snapshots in
    observe_focused_cursor_position (record (with_active_tab (tab_id_at ui) app) {
      pane_snapshots = snapshots;
      runtime_view_id = state.view_id;
      runtime_revision = state.runtime_revision;
      view_revision = state.view_revision;
      ui_state = ui;
      focused_pane_id = state.focused_pane;
      last_error = none;
    })

unfoldable pub handle_runtime_state : ClientApp → UiRuntimeState → ClientApp
unfolding apply_ui_runtime_state
handle_runtime_state app state =
    let app' = apply_ui_runtime_state app state in
    if is_blank app' && (length app'.ui_state.tabs == 0) then send_new_tab app' else app'

-- `apply_ui_appearance`
abbrev pub apply_ui_appearance : ClientApp → UiAppearance → ClientApp
apply_ui_appearance app appearance = record app {
  terminal_foreground = appearance.terminal_foreground;
  terminal_background = appearance.terminal_background;
  cursor_color = appearance.cursor_color;
  appearance_revision = next_64 app.appearance_revision;
}

-- the picture of a full state in the colours of the client
abbrev pub picture_of : ClientApp → RemoteFullState → TerminalSnapshot
picture_of app state =
    remote_full_state_to_vt_snapshot state app.next_full_snapshot_revision app.terminal_foreground
      app.terminal_background app.cursor_color

-- a full state of a pane, which all full states have in common
abbrev pub with_full_state : ℕ → RemoteFullState → ClientApp → ClientApp
with_full_state pane_id state app =
    observe_focused_cursor_position (record (next_generation (after_seed app state.rows)) {
      pane_snapshots = insert pane_id (picture_of app state) app.pane_snapshots;
      bootstrapped = true;
      last_error = none;
    })

unfoldable pub handle_pane_full_state : ClientApp → ℕ → ℕ → RemoteFullState → ClientApp
handle_pane_full_state app pane_id runtime_revision state =
    if not (runtime_revision == 0) && ltb runtime_revision app.runtime_revision
    then app
    else with_full_state pane_id state app

-- `get_mut` of a picture with the changes applied
abbrev pub with_delta : ℕ → RemoteDelta → ClientApp → ClientApp
with_delta pane_id delta app = observe_focused_cursor_position (record app {
  pane_snapshots = update pane_id (λ s. apply_remote_delta_snapshot s delta) app.pane_snapshots;
})

unfoldable pub handle_pane_delta : ClientApp → ℕ → ℕ → RemoteDelta → ClientApp
handle_pane_delta app pane_id runtime_revision delta =
    if not (runtime_revision == 0) && not (runtime_revision == app.runtime_revision)
    then app
    else with_delta pane_id delta app

unfoldable pub handle_full_state : ClientApp → Option ℕ → RemoteFullState → ClientApp
handle_full_state app ack state =
    let app' = record app { mode = active_mode } in
    acknowledge_input_latency
      (if app.focused_pane_id == 0
        then observe_focused_cursor_position
            (record (next_generation (after_seed app' state.rows)) {
              bootstrapped = true;
              last_error = none;
            })
        else with_full_state app.focused_pane_id state app')
      ack

abbrev pub handle_disconnected : ClientApp → List ℕ → ClientApp
handle_disconnected app message = record app {
  connected = false;
  mode = recovering;
  pending_inputs = [];
  should_exit = false;
  last_error = some message;
}

-- The text of the error after a disconnection is an argument.
unfoldable pub handle_stream_event : List ℕ → ClientApp → LocalStreamEvent → ClientApp
unfolding handle_tab_list handle_runtime_state handle_pane_full_state handle_pane_delta
    handle_full_state
handle_stream_event lost app (tab_list_event tabs) = handle_tab_list app tabs
handle_stream_event lost app (ui_runtime_state_event state) = handle_runtime_state app state
handle_stream_event lost app (ui_appearance_event appearance) = apply_ui_appearance app appearance
handle_stream_event lost app (ui_pane_full_state_event pane_id revision state) =
    handle_pane_full_state app pane_id revision state
handle_stream_event lost app (ui_pane_delta_event pane_id revision delta) =
    handle_pane_delta app pane_id revision delta
handle_stream_event lost app tab_exited_event = app
handle_stream_event lost app disconnected_event = handle_disconnected app lost
handle_stream_event lost app (full_state_event ack state) = handle_full_state app ack state
handle_stream_event lost app (delta_event ack delta) =
    acknowledge_input_latency (with_delta app.focused_pane_id delta app) ack
handle_stream_event lost app (error_event message) = record app { last_error = some message }
