-- ===== src/Client/Reading.antt =====
-- The thread of src/client_gui.rs that reads the stream: `read_local_stream_loop`.
use boo.Base.{ℕ, zero, suc, Option, none, some, List, [], ◌∷◌, length, ltb, if◌then◌else◌}
use mathlib.Core.Option
use boo.Wire.{
  MessageType, tab_list, ui_runtime_state, ui_appearance, ui_pane_full_state, ui_pane_delta,
  tab_exited, full_state, delta, error_msg,
}
use boo.Wire.Frames.{message, failed, read_message}
use boo.Client.TabLists.{decode_remote_tab_list}
use boo.Client.Decoding.{decode_remote_full_state, decode_remote_delta}
use boo.Client.Panes.{decode_remote_pane_full_state, decode_remote_pane_delta}
use boo.Client.State.{
  UiRuntimeState, UiAppearance, LocalStreamEvent, tab_list_event, ui_runtime_state_event,
  ui_appearance_event, ui_pane_full_state_event, ui_pane_delta_event, tab_exited_event,
  disconnected_event, full_state_event, delta_event, error_event,
}

-- The readers of JSON, which are serde's, and `String::from_utf8_lossy`.
pub record Readers : Type 0 where
  pub runtime_state : List ℕ → Option UiRuntimeState
  pub appearance : List ℕ → Option UiAppearance
  pub lossy : List ℕ → List ℕ

-- the event of a message, if it has one
unfoldable pub stream_event : Readers → MessageType → List ℕ → Option LocalStreamEvent
stream_event readers tab_list payload = Option.map tab_list_event (decode_remote_tab_list payload)
stream_event readers ui_runtime_state payload =
    Option.map ui_runtime_state_event (readers.runtime_state payload)
stream_event readers ui_appearance payload =
    Option.map ui_appearance_event (readers.appearance payload)
stream_event readers ui_pane_full_state payload =
    Option.map (λ e. ui_pane_full_state_event e.0 e.1.0 e.1.1)
      (decode_remote_pane_full_state payload)
stream_event readers ui_pane_delta payload =
    Option.map (λ e. ui_pane_delta_event e.0 e.1.0 e.1.1) (decode_remote_pane_delta payload)
stream_event readers tab_exited payload =
    if ltb (length payload) 4 then none else some tab_exited_event
stream_event readers full_state payload =
    Option.map (λ e. full_state_event e.0 e.1) (decode_remote_full_state payload)
stream_event readers delta payload =
    Option.map (λ e. delta_event e.0 e.1) (decode_remote_delta payload)
stream_event readers error_msg payload = some (error_event (readers.lossy payload))
stream_event readers _ payload = none

abbrev pub with_event : Option LocalStreamEvent → List LocalStreamEvent → List LocalStreamEvent
with_event none events = events
with_event (some event) events = event ∷ events

-- The events of a stream that ends after the given bytes, with fuel for the loop.
unfoldable pub read_local_stream_loop : Readers → ℕ → List ℕ → List LocalStreamEvent
unfolding stream_event
read_local_stream_loop readers zero stream = disconnected_event ∷ []
read_local_stream_loop readers (suc fuel) stream = elim (read_message stream) [
  | failed error ↦ disconnected_event ∷ []
  | message ty payload rest ↦
      with_event (stream_event readers ty payload) (read_local_stream_loop readers fuel rest)
]
