-- ===== src/Wire.antt =====
-- `MessageType` of src/remote_wire.rs, the tag of a frame, and its decoder.
pub mod Frames
pub mod States
pub mod Delta
pub mod Same
pub mod Changes
pub mod TabLists
pub mod TabTrips
use boo.Base.{ℕ, Option, none, some, List, [], ◌∷◌, ◌==◌, if◌then◌else◌}

pub data MessageType : Type 0 where
  auth list_tabs create input resize destroy scroll key execute_command app_action : MessageType
  app_key_event focus_pane app_mouse_event heartbeat runtime_action render_ack : MessageType
  row_range_request auth_ok auth_fail tab_list full_state delta error_msg tab_created : MessageType
  tab_exited scroll_data clipboard image ui_runtime_state ui_appearance : MessageType
  ui_pane_full_state ui_pane_delta heartbeat_ack ui_pane_rows : MessageType

abbrev pub codes : List (ℕ × MessageType)
codes =
    (0x01, auth)
    ∷ (0x02, list_tabs)
    ∷ (0x05, create)
    ∷ (0x06, input)
    ∷ (0x07, resize)
    ∷ (0x08, destroy)
    ∷ (0x0a, scroll)
    ∷ (0x0b, key)
    ∷ (0x0c, execute_command)
    ∷ (0x0d, app_action)
    ∷ (0x0e, app_key_event)
    ∷ (0x0f, focus_pane)
    ∷ (0x10, app_mouse_event)
    ∷ (0x11, heartbeat)
    ∷ (0x12, runtime_action)
    ∷ (0x13, render_ack)
    ∷ (0x14, row_range_request)
    ∷ (0x80, auth_ok)
    ∷ (0x81, auth_fail)
    ∷ (0x82, tab_list)
    ∷ (0x83, full_state)
    ∷ (0x84, delta)
    ∷ (0x87, error_msg)
    ∷ (0x88, tab_created)
    ∷ (0x89, tab_exited)
    ∷ (0x8a, scroll_data)
    ∷ (0x8b, clipboard)
    ∷ (0x8c, image)
    ∷ (0x8d, ui_runtime_state)
    ∷ (0x8e, ui_appearance)
    ∷ (0x90, ui_pane_full_state)
    ∷ (0x91, ui_pane_delta)
    ∷ (0x92, heartbeat_ack)
    ∷ (0x93, ui_pane_rows)
    ∷ []

-- the arm of the `match` whose code is the value
unfoldable pub arm : ℕ → List (ℕ × MessageType) → Option MessageType
arm value [] = none
arm value ((code, ty) ∷ rest) =
    let later = arm value rest in if code == value then some ty else later

-- `MessageType::try_from`
unfoldable pub try_from : ℕ → Option MessageType
unfolding arm
try_from value = arm value codes

-- `ty as u8`
abbrev pub code_of : MessageType → ℕ
code_of auth = 0x01
code_of list_tabs = 0x02
code_of create = 0x05
code_of input = 0x06
code_of resize = 0x07
code_of destroy = 0x08
code_of scroll = 0x0a
code_of key = 0x0b
code_of execute_command = 0x0c
code_of app_action = 0x0d
code_of app_key_event = 0x0e
code_of focus_pane = 0x0f
code_of app_mouse_event = 0x10
code_of heartbeat = 0x11
code_of runtime_action = 0x12
code_of render_ack = 0x13
code_of row_range_request = 0x14
code_of auth_ok = 0x80
code_of auth_fail = 0x81
code_of tab_list = 0x82
code_of full_state = 0x83
code_of delta = 0x84
code_of error_msg = 0x87
code_of tab_created = 0x88
code_of tab_exited = 0x89
code_of scroll_data = 0x8a
code_of clipboard = 0x8b
code_of image = 0x8c
code_of ui_runtime_state = 0x8d
code_of ui_appearance = 0x8e
code_of ui_pane_full_state = 0x90
code_of ui_pane_delta = 0x91
code_of heartbeat_ack = 0x92
code_of ui_pane_rows = 0x93
