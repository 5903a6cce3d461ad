-- ===== src/Client/Missing.antt =====
-- An update of src/remote_server_stream.rs that src/client_gui.rs does not take.
use boo.Base.{
  ℕ, ◌≡◌, ◌∙◌, refl, sym, ap, true, false, ◌==◌, Option, none, some, List, find, find-insert_self,
  arith,
}
use mathlib.Core.Path.{subst}
use boo.Wire.{ui_pane_delta}
use boo.Wire.States.{RemoteFullState, Fits}
use boo.Wire.Delta.{encode_delta}
use boo.Remote.{ClientRuntimeView}
use boo.Remote.Stream.{PaneUpdate, pane_message, with_pane_state}
use boo.Client.Decoding.{RemoteDelta, decode_remote_delta}
use boo.Client.Mirror.{decode_remote_delta-encode_delta}
use boo.Client.Panes.{decode_pane-encode}
use boo.Client.State.{ClientApp}
use boo.Client.Session.{handle_stream_event, handle_pane_delta}
use boo.Client.Reading.{Readers, stream_event}
use boo.Client.Showing.{received, Keeps, Mirrors, IsUpdate}
use boo.Client.Following.{message_of, pane_message_of, pane_payload-delta}

delta_stops :
    (app : ClientApp) (pane_id revision : ℕ) (changes : RemoteDelta)
    → (revision == 0) ≡ false
    → (revision == app.runtime_revision) ≡ false
    → handle_pane_delta app pane_id revision changes ≡ app
unfolding handle_pane_delta
delta_stops app pane_id revision changes h h' = rw (h, h') refl

received-other :
    (readers : Readers) (lost : List ℕ) (app : ClientApp) (u : PaneUpdate) (payload : List ℕ)
    {ack : Option ℕ} {changes : RemoteDelta}
    → IsUpdate u
    → (u.runtime_revision == 0) ≡ false
    → (u.runtime_revision == app.runtime_revision) ≡ false
    → decode_remote_delta payload ≡ some (ack, changes)
    → received readers lost app (message_of u (ui_pane_delta, payload)) ≡ app
unfolding received stream_event handle_stream_event
received-other readers lost app u payload {ack} {changes} is h h' e =
    rw
      (
        decode_pane-encode decode_remote_delta u payload is.pane_id is.runtime_revision e,
        received,
        stream_event,
      )
      (delta_stops app u.pane_id u.runtime_revision changes h h')

-- When the server sends the changes of a pane in a revision that is neither 0 nor the client's, and
-- the client shows what the server keeps, then the client goes on to show the previous state of the
-- pane, while the server keeps the next one as sent.
pub received-missed :
    (readers : Readers) (lost : List ℕ) (v : ClientRuntimeView) (app : ClientApp) (u : PaneUpdate)
    (previous next : RemoteFullState) {payload : List ℕ}
    → Mirrors v app
    → Fits next
    → IsUpdate u
    → (u.runtime_revision == 0) ≡ false
    → (u.runtime_revision == app.runtime_revision) ≡ false
    → find u.pane_id v.pane_states ≡ some previous
    → encode_delta previous next none true ≡ some payload
    → Keeps (received readers lost app (pane_message v u next)) u.pane_id previous
      × (find u.pane_id (with_pane_state u.pane_id next v).pane_states ≡ some next)
received-missed readers lost v app u previous next {payload} mirrors fits is h h' there changed =
    let (fits', (snapshot, (kept, shows))) = mirrors u.pane_id previous there in
    let (changes, (read, shows')) =
      decode_remote_delta-encode_delta app.cursor_color snapshot previous next none fits' fits
        (omega arith) shows changed in
    let same : received readers lost app (pane_message v u next) ≡ app =
      ap (received readers lost app)
        (pane_message_of v u next there (pane_payload-delta next previous changed))
      ∙ received-other readers lost app u payload is h h' read in
    (
      subst (λ a. Keeps a u.pane_id previous) (sym same) (snapshot, (kept, shows)),
      find-insert_self u.pane_id next v.pane_states,
    )
