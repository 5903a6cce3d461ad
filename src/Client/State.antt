-- ===== src/Client/State.antt =====
-- The state of the window client of src/client_gui.rs, and the events of its stream.
use boo.Base.{ℕ, Bool, Option, List}
use boo.Wire.States.{Color, RemoteFullState}
use boo.Wire.TabLists.{RemoteTabInfo}
use boo.Client.Snapshot.{TerminalSnapshot}
use boo.Client.Decoding.{RemoteDelta}

pub record ClientTabState : Type 0 where
  pub index : ℕ
  pub tab_id : Option ℕ
  pub active : Bool
  pub title : List ℕ
  pub pane_count : ℕ

-- The status bar, which is only drawn, is left out.
pub record ClientUiState : Type 0 where
  pub tabs : List ClientTabState
  pub active_tab : ℕ
  pub pwd : List ℕ
  pub pane_count : ℕ

pub data ClientMode : Type 0 where
  bootstrapping active_mode recovering : ClientMode

-- `UiRuntimeState` of src/control.rs, with what the client reads of it; of the visible panes it is
-- their number.
pub record UiRuntimeState : Type 0 where
  pub active_tab : ℕ
  pub focused_pane : ℕ
  pub tabs : List ClientTabState
  pub visible_panes : ℕ
  pub pwd : List ℕ
  pub runtime_revision : ℕ
  pub view_revision : ℕ
  pub view_id : ℕ

-- the colours of `UiAppearanceSnapshot` that pictures are made with
pub record UiAppearance : Type 0 where
  pub terminal_foreground : Color
  pub terminal_background : Color
  pub cursor_color : Color

pub data LocalStreamEvent : Type 0 where
  tab_list_event : List RemoteTabInfo → LocalStreamEvent
  ui_runtime_state_event : UiRuntimeState → LocalStreamEvent
  ui_appearance_event : UiAppearance → LocalStreamEvent
  ui_pane_full_state_event : ℕ → ℕ → RemoteFullState → LocalStreamEvent
  ui_pane_delta_event : ℕ → ℕ → RemoteDelta → LocalStreamEvent
  tab_exited_event disconnected_event : LocalStreamEvent
  full_state_event : Option ℕ → RemoteFullState → LocalStreamEvent
  delta_event : Option ℕ → RemoteDelta → LocalStreamEvent
  error_event : List ℕ → LocalStreamEvent

-- The state that the events change: fonts, metrics and the colours of the frame are left out, and so
-- are the clock of the cursor and of the latencies. `new_tabs` lists the views for which a new tab
-- was asked.
pub record ClientApp : Type 0 where
  pub connected : Bool
  pub bootstrapped : Bool
  pub ui_state : ClientUiState
  pub mode : ClientMode
  pub runtime_view_id : ℕ
  pub runtime_revision : ℕ
  pub view_revision : ℕ
  pub active_remote_tab_id : Option ℕ
  pub pane_snapshots : List (ℕ × TerminalSnapshot)
  pub focused_pane_id : ℕ
  pub last_error : Option (List ℕ)
  pub terminal_foreground : Color
  pub terminal_background : Color
  pub cursor_color : Color
  pub focused_cursor_position : Option (ℕ × (ℕ × ℕ))
  pub pending_inputs : List ℕ
  pub should_exit : Bool
  pub terminal_snapshot_generation : ℕ
  pub appearance_revision : ℕ
  pub next_full_snapshot_revision : ℕ
  pub next_snapshot_generation : ℕ
  pub new_tabs : List ℕ
