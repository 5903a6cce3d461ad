-- ===== src/Client/Showing.antt =====
-- What the client of src/client_gui.rs shows after one update of a pane.
use boo.Base.{
  ℕ, ◌^◌, ◌<◌, ◌≡◌, ◌∙◌, refl, sym, ap, inl, inr, true, false, not, ◌&&◌, ◌==◌, eq_of_==, Option,
  none, some, List, ltb, arith, find, insert, find-insert_self, find-insert_other, find-update,
  Bool-cases, some_injective,
}
use mathlib.Core.Option
use mathlib.Core.Path.{subst}
use boo.Wire.{MessageType, ui_pane_full_state, ui_pane_delta}
use boo.Wire.States.{RemoteFullState, Fits, encode_full_state, without_rows}
use boo.Remote.{ClientRuntimeView}
use boo.Remote.Stream.{PaneUpdate, encode_ui_pane_update_payload, with_pane_state}
use boo.Client.Snapshot.{
  TerminalSnapshot, default_terminal_foreground, default_terminal_background,
  remote_full_state_to_vt_snapshot,
}
use boo.Client.Decoding.{RemoteDelta, decode_remote_full_state, decode_remote_delta}
use boo.Client.Applying.{apply_remote_delta_snapshot}
use boo.Client.Mirror.{Shows}
use boo.Client.Replica.{picture}
use boo.Client.Panes.{decode_pane-encode, decode_remote_full_state-encode_full_state}
use boo.Client.State.{ClientApp}
use boo.Client.Session.{
  handle_stream_event, handle_pane_full_state, handle_pane_delta, with_full_state, with_delta,
  picture_of,
}
use boo.Client.Reading.{Readers, stream_event}

-- what the client makes of a message
unfoldable pub received : Readers → List ℕ → ClientApp → MessageType × List ℕ → ClientApp
received readers lost app (ty, payload) = elim (stream_event readers ty payload) [
  | none ↦ app
  | some event ↦ handle_stream_event lost app event
]

-- a pane of the client that shows a state
abbrev pub Keeps : ClientApp → ℕ → RemoteFullState → Type 0
Keeps app pane_id state =
    (snapshot : TerminalSnapshot) × ((find pane_id app.pane_snapshots ≡ some snapshot)
      × Shows app.cursor_color snapshot state)

-- Each state that the server keeps of a pane for a client is one that the client shows.
abbrev pub Mirrors : ClientRuntimeView → ClientApp → Type 0
Mirrors v app =
    (pane_id : ℕ) (state : RemoteFullState)
    → find pane_id v.pane_states ≡ some state
    → Fits state × Keeps app pane_id state

-- the colours that changes are drawn in, and the revision of the updates
pub record Ready (app : ClientApp) (runtime_revision : ℕ) : Type 0 where
  pub foreground : app.terminal_foreground ≡ default_terminal_foreground
  pub background : app.terminal_background ≡ default_terminal_background
  pub revision : app.runtime_revision ≡ runtime_revision

full_state_passes :
    (app : ClientApp) (pane_id revision : ℕ) (state : RemoteFullState)
    → app.runtime_revision ≡ revision
    → handle_pane_full_state app pane_id revision state ≡ with_full_state pane_id state app
unfolding handle_pane_full_state
full_state_passes app pane_id revision state h =
    let fresh : (not (revision == 0) && ltb revision app.runtime_revision) ≡ false = ground arith in
    rw fresh refl

delta_passes :
    (app : ClientApp) (pane_id revision : ℕ) (changes : RemoteDelta)
    → app.runtime_revision ≡ revision
    → handle_pane_delta app pane_id revision changes ≡ with_delta pane_id changes app
unfolding handle_pane_delta
delta_passes app pane_id revision changes h =
    let fresh : (not (revision == 0) && not (revision == app.runtime_revision)) ≡ false =
      ground arith in
    rw fresh refl

-- Another pane than the one that changes is as it was.
pub Mirrors-insert :
    (v : ClientRuntimeView) (app app' : ClientApp) (pane_id : ℕ) (next : RemoteFullState)
    → Mirrors v app
    → app'.cursor_color ≡ app.cursor_color
    → Fits next
    → Keeps app' pane_id next
    → ((other : ℕ)
        → (pane_id == other) ≡ false
        → find other app'.pane_snapshots ≡ find other app.pane_snapshots)
    → Mirrors (with_pane_state pane_id next v) app'
Mirrors-insert v app app' pane_id next mirrors color fits keeps same other state found =
    elim (Bool-cases (pane_id == other)) [
      | inl here ↦
          let place = eq_of_== pane_id other here in
          let stored : next ≡ state = some_injective (
            sym (find-insert_self pane_id next v.pane_states)
            ∙ (ap (λ k. find k (insert pane_id next v.pane_states)) place ∙ found)) in
          subst (λ k. Fits state × Keeps app' k state) place
            (subst (λ s. Fits s × Keeps app' pane_id s) stored (fits, keeps))
      | inr apart ↦
          let before = sym (find-insert_other other pane_id next v.pane_states apart) ∙ found in
          let (fits', (snapshot, (there, shows))) = mirrors other state before in
          (fits', (snapshot, (same other apart ∙ there, rw color shows)))
    ]

-- what a full state puts in the place of a pane's picture
pub full_state-Keeps :
    (app : ClientApp) (pane_id revision : ℕ) (next : RemoteFullState)
    → Ready app revision
    → Keeps (with_full_state pane_id (without_rows next) app) pane_id next
unfolding remote_full_state_to_vt_snapshot
full_state-Keeps app pane_id revision next h = (
  picture_of app (without_rows next),
  (
    find-insert_self pane_id (picture_of app (without_rows next)) app.pane_snapshots,
    λ i. picture (
        remote_full_state_to_vt_snapshot next 0 (h.foreground i) (h.background i) app.cursor_color),
  ),
)

pub delta-Keeps :
    (app : ClientApp) (pane_id : ℕ) (next : RemoteFullState) (changes : RemoteDelta)
    (snapshot : TerminalSnapshot)
    → find pane_id app.pane_snapshots ≡ some snapshot
    → Shows app.cursor_color (apply_remote_delta_snapshot snapshot changes) next
    → Keeps (with_delta pane_id changes app) pane_id next
delta-Keeps app pane_id next changes snapshot there shows = (
  apply_remote_delta_snapshot snapshot changes,
  (
    find-update pane_id (λ s. apply_remote_delta_snapshot s changes) app.pane_snapshots
        ∙ ap (Option.map (λ s. apply_remote_delta_snapshot s changes)) there,
    shows,
  ),
)

-- the numbers of an update that the client reads
pub record IsUpdate (u : PaneUpdate) : Type 0 where
  pub pane_id : u.pane_id < 2 ^ 64
  pub runtime_revision : u.runtime_revision < 2 ^ 64

pub received-full_state :
    (readers : Readers) (lost : List ℕ) (app : ClientApp) (u : PaneUpdate) (next : RemoteFullState)
    → Fits next
    → IsUpdate u
    → app.runtime_revision ≡ u.runtime_revision
    → received readers lost app (
      ui_pane_full_state,
      encode_ui_pane_update_payload u.tab_id u.pane_id u.pane_revision u.runtime_revision
          (encode_full_state next none true),
    )
      ≡ with_full_state u.pane_id (without_rows next) app
unfolding received stream_event handle_stream_event
received-full_state readers lost app u next fits is h =
    let inner = decode_remote_full_state-encode_full_state next none fits (omega arith) in
    rw
      (
        decode_pane-encode decode_remote_full_state u (encode_full_state next none true) is.pane_id
            is.runtime_revision inner,
        received,
        stream_event,
      )
      (full_state_passes app u.pane_id u.runtime_revision (without_rows next) h)

pub received-delta :
    (readers : Readers) (lost : List ℕ) (app : ClientApp) (u : PaneUpdate) (payload : List ℕ)
    {ack : Option ℕ} {changes : RemoteDelta}
    → IsUpdate u
    → app.runtime_revision ≡ u.runtime_revision
    → decode_remote_delta payload ≡ some (ack, changes)
    → received readers lost app (
      ui_pane_delta,
      encode_ui_pane_update_payload u.tab_id u.pane_id u.pane_revision u.runtime_revision payload,
    )
      ≡ with_delta u.pane_id changes app
unfolding received stream_event handle_stream_event
received-delta readers lost app u payload {ack} {changes} is h e =
    rw
      (
        decode_pane-encode decode_remote_delta u payload is.pane_id is.runtime_revision e,
        received,
        stream_event,
      )
      (delta_passes app u.pane_id u.runtime_revision changes h)

-- The client after one update of a pane, with what does not change.
pub record Followed (v : ClientRuntimeView) (app app' : ClientApp) (u : PaneUpdate)
    (next : RemoteFullState) : Type 0 where
  pub mirrors : Mirrors (with_pane_state u.pane_id next v) app'
  pub ready : Ready app' u.runtime_revision
