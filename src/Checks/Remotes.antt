-- ===== src/Checks/Remotes.antt =====
-- The server's side and the client's side of a stream at concrete states and messages.
use boo.Base.{◌↔◌, ℕ, ◌≡◌, refl, true, false, none, some, List, [], ◌∷◌, arith, find, is_utf8}
use boo.Wire.{ui_runtime_state}
use boo.Wire.States.{Color, RemoteCell, RemoteFullState, Fits, encode_full_state}
use boo.Wire.Delta.{changed_segment, changed_rows, delta_payload, encode_delta}
use boo.Wire.TabLists.{RemoteTabInfo, encode_tab_list, decode_tab_list_payload, read}
use boo.Wire.TabTrips.{IsTab, decode_tab_list_payload-encode_tab_list}
use boo.Remote.{ClientState, State, idle, heartbeat_timeout, should_disconnect_idle_client}
use boo.Remote.Control.{ui_runtime_state_payload, send_cached_control_payload_bytes}
use boo.Remote.Stream.{PaneUpdate, pane_message, with_pane_state}
use boo.Remote.Views.{AllViews, Call, subscribe, send_pane, detach, sweep, run}
use boo.Remote.Steady.{run-AllViews}
use boo.Remote.Caching.{send_cached_control_payload_bytes-twice}
use boo.Remote.Idle.{IsIdle, should_disconnect_idle_client-IsIdle}
use boo.Client.TabLists.{decode_remote_tab_list}
use boo.Client.Agreeing.{SameTabs, decode_remote_tab_list-SameTabs}
use boo.Client.Snapshot.{default_terminal_foreground, default_terminal_background}
use boo.Client.Decoding.{RemoteDelta, ack_of, decode_remote_delta, decode_remote_full_state}
use boo.Client.Applying.{apply_remote_delta_snapshot}
use boo.Client.Grids.{shown}
use boo.Client.Mirror.{Shows, decode_remote_delta-encode_delta}
use boo.Client.Panes.{decode_remote_full_state-encode_full_state}
use boo.Wire.States.{without_rows}
use boo.Client.State.{ClientApp, active_mode}
use boo.Client.Reading.{Readers}
use boo.Client.Showing.{received, Keeps, Mirrors, Ready, IsUpdate, Mirrors-insert}
use boo.Client.Following.{views_after, client_after, client_after-Mirrors}
use boo.Client.Missing.{received-missed}

abbrev white : Color
white = record { red = 0xf0; green = 0xf0; blue = 0xf0 }

abbrev black : Color
black = record { red = 0; green = 0; blue = 0 }

abbrev cell_of : ℕ → RemoteCell
cell_of codepoint = record {
  codepoint = codepoint;
  fg = white;
  bg = black;
  style_flags = 1;
  wide = false;
}

-- A grid of one row and two columns.
abbrev state_of : List RemoteCell → ℕ → RemoteFullState
state_of cells cursor_x = record {
  epoch = 5;
  viewport_top = 40;
  scrollback_total = 60;
  rows = 1;
  cols = 2;
  cursor_x = cursor_x;
  cursor_y = 0;
  cursor_visible = true;
  cursor_blinking = false;
  cursor_style = 3;
  cells = cells;
}

-- The text of the second column changes.
abbrev before : RemoteFullState
before = state_of (cell_of 97 ∷ cell_of 98 ∷ []) 0

abbrev after : RemoteFullState
after = state_of (cell_of 97 ∷ cell_of 99 ∷ []) 1

before-Fits : Fits before
before-Fits = record {
  rows = omega arith;
  cols = omega arith;
  cursor_x = omega arith;
  cursor_y = omega arith;
  cursor_style = omega arith;
  cells = (omega arith, (omega arith, tt));
  grid = refl;
}

after-Fits : Fits after
after-Fits = record {
  rows = omega arith;
  cols = omega arith;
  cursor_x = omega arith;
  cursor_y = omega arith;
  cursor_style = omega arith;
  cells = (omega arith, (omega arith, tt));
  grid = refl;
}

abbrev sent_changes : List ℕ
sent_changes =
    delta_payload after none true (record { row = 0; start_col = 1; cells = cell_of 99 ∷ [] } ∷ [])

-- Only the second column is sent.
encode_delta_run : encode_delta before after none true ≡ some sent_changes
unfolding encode_delta changed_rows changed_segment
encode_delta_run = refl

decode_remote_delta-encode_delta_example :
    (changes : RemoteDelta) × ((decode_remote_delta sent_changes ≡ some (ack_of 0, changes))
      × Shows white (apply_remote_delta_snapshot (shown white before) changes) after)
decode_remote_delta-encode_delta_example =
    decode_remote_delta-encode_delta white (shown white before) before after none before-Fits
      after-Fits (omega arith) refl encode_delta_run

abbrev readers : Readers
readers = record { runtime_state = λ p. none; appearance = λ p. none; lossy = λ p. p }

abbrev update_of : ℕ → PaneUpdate
update_of revision = record {
  tab_id = 1;
  pane_id = 7;
  pane_revision = 2;
  runtime_revision = revision;
}

update_of-IsUpdate : IsUpdate (update_of 3)
update_of-IsUpdate = record { pane_id = omega arith; runtime_revision = omega arith }

later-IsUpdate : IsUpdate (update_of 4)
later-IsUpdate = record { pane_id = omega arith; runtime_revision = omega arith }

-- A client in revision 3 that shows the first state in pane 7.
abbrev showing : ClientApp
showing = record {
  connected = true;
  bootstrapped = true;
  ui_state = record { tabs = []; active_tab = 0; pwd = []; pane_count = 1 };
  mode = active_mode;
  runtime_view_id = 1;
  runtime_revision = 3;
  view_revision = 1;
  active_remote_tab_id = some 1;
  pane_snapshots = (7, shown white before) ∷ [];
  focused_pane_id = 7;
  last_error = none;
  terminal_foreground = default_terminal_foreground;
  terminal_background = default_terminal_background;
  cursor_color = white;
  focused_cursor_position = none;
  pending_inputs = [];
  should_exit = false;
  terminal_snapshot_generation = 0;
  appearance_revision = 1;
  next_full_snapshot_revision = 1;
  next_snapshot_generation = 1;
  new_tabs = [];
}

showing-Ready : Ready showing 3
showing-Ready = record { foreground = refl; background = refl; revision = refl }

idle-Mirrors : Mirrors idle showing
idle-Mirrors pane_id state found = cc

client_after-Mirrors_example :
    Mirrors
      (views_after idle ((update_of 3, before) ∷ (update_of 3, after) ∷ []))
      (client_after readers [] idle showing ((update_of 3, before) ∷ (update_of 3, after) ∷ []))
client_after-Mirrors_example =
    client_after-Mirrors readers [] idle showing 3
      ((update_of 3, before) ∷ (update_of 3, after) ∷ []) showing-Ready idle-Mirrors
      ((before-Fits, (update_of-IsUpdate, refl)), ((after-Fits, (update_of-IsUpdate, refl)), tt))

showing-Mirrors : Mirrors (with_pane_state 7 before idle) showing
showing-Mirrors =
    Mirrors-insert idle showing showing 7 before idle-Mirrors refl before-Fits
      (shown white before, (refl, refl)) (λ other apart. refl)

received-missed_example :
    Keeps
      (received readers [] showing
        (pane_message (with_pane_state 7 before idle) (update_of 4) after))
      7
      before
    × (find 7 (with_pane_state 7 after (with_pane_state 7 before idle)).pane_states ≡ some after)
received-missed_example =
    received-missed readers [] (with_pane_state 7 before idle) showing (update_of 4) before after
      showing-Mirrors after-Fits later-IsUpdate refl refl refl encode_delta_run

abbrev tab_a : RemoteTabInfo
tab_a = record {
  id = 3;
  name = 0x61 ∷ [];
  title = 0xc3 ∷ 0xa9 ∷ [];
  pwd = [];
  active = true;
  child_exited = false;
}

-- Each of the texts is one.
is_utf8_a : is_utf8 tab_a.name ≡ true
unfolding is_utf8
is_utf8_a = refl

is_utf8_e : is_utf8 tab_a.title ≡ true
unfolding is_utf8
is_utf8_e = refl

is_utf8_nil : is_utf8 tab_a.pwd ≡ true
unfolding is_utf8
is_utf8_nil = refl

tab_a-IsTab : IsTab tab_a
tab_a-IsTab = record {
  id = omega arith;
  name = record { valid = is_utf8_a; small = omega arith };
  title = record { valid = is_utf8_e; small = omega arith };
  pwd = record { valid = is_utf8_nil; small = omega arith };
}

decode_tab_list_payload-encode_tab_list_example :
    decode_tab_list_payload (encode_tab_list (tab_a ∷ tab_a ∷ [])) ≡ read (tab_a ∷ tab_a ∷ []) []
decode_tab_list_payload-encode_tab_list_example =
    decode_tab_list_payload-encode_tab_list (tab_a ∷ tab_a ∷ []) (omega arith)
      (tab_a-IsTab, (tab_a-IsTab, tt))

decode_remote_tab_list-SameTabs_example :
    SameTabs
      (decode_tab_list_payload (encode_tab_list (tab_a ∷ [])))
      (decode_remote_tab_list (encode_tab_list (tab_a ∷ [])))
decode_remote_tab_list-SameTabs_example =
    decode_remote_tab_list-SameTabs (encode_tab_list (tab_a ∷ []))

-- One local client that looks at no pane.
abbrev client : ClientState
client = record {
  outbound = [];
  authenticated = true;
  connected_at = 0;
  authenticated_at = some 5;
  last_heartbeat_at = none;
  runtime_view = idle;
  is_local = false;
}

abbrev one_client : State
one_client = record { clients = (1, client) ∷ [] }

one_client-AllViews : AllViews one_client
one_client-AllViews =
    (record { revision = omega arith; no_state = λ h. refl; no_panes = λ h. refl }, tt)

abbrev calls : List Call
calls = subscribe 1 ∷ send_pane 1 (update_of 3) before ∷ detach 1 10 ∷ sweep 100 30 ∷ []

run-AllViews_example : AllViews (run one_client calls)
run-AllViews_example = run-AllViews one_client calls one_client-AllViews

send_cached_control_payload_bytes-twice_example :
    send_cached_control_payload_bytes
      (send_cached_control_payload_bytes one_client 1 ui_runtime_state
        (1 ∷ [])
        ui_runtime_state_payload)
      1
      ui_runtime_state
      (1 ∷ [])
      ui_runtime_state_payload
    ≡ send_cached_control_payload_bytes one_client 1 ui_runtime_state
        (1 ∷ [])
        ui_runtime_state_payload
send_cached_control_payload_bytes-twice_example =
    send_cached_control_payload_bytes-twice one_client 1 ui_runtime_state (1 ∷ [])
      ui_runtime_state_payload

silent_at_30 : should_disconnect_idle_client one_client 30 1 10 20 ≡ some heartbeat_timeout
unfolding should_disconnect_idle_client
silent_at_30 = refl

should_disconnect_idle_client-IsIdle_example :
    (should_disconnect_idle_client one_client 30 1 10 20 ≡ some heartbeat_timeout) ↔ (
      (client : ClientState) × (find 1 one_client.clients ≡ some client)
      × IsIdle client 30 10 20 heartbeat_timeout)
should_disconnect_idle_client-IsIdle_example =
    should_disconnect_idle_client-IsIdle one_client 30 1 10 20 heartbeat_timeout

decode_remote_full_state-encode_full_state_example :
    decode_remote_full_state (encode_full_state before (some 9) true)
    ≡ some (ack_of 9, without_rows before)
decode_remote_full_state-encode_full_state_example =
    decode_remote_full_state-encode_full_state before (some 9) before-Fits (omega arith)
