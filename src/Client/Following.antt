-- ===== src/Client/Following.antt =====
-- The panes that src/remote_server_stream.rs sends to a client, as src/client_gui.rs keeps them.
use boo.Base.{
  ℕ, ◌≡◌, ◌∙◌, refl, sym, ap, inl, inr, true, Option, none, some, List, [], ◌∷◌, arith, All, find,
  find-insert_other, find-update_other, Option-cases,
}
use mathlib.Core.Path.{subst}
use boo.Wire.{MessageType, ui_pane_full_state, ui_pane_delta}
use boo.Wire.States.{RemoteFullState, Fits, encode_full_state, without_rows}
use boo.Wire.Delta.{encode_delta}
use boo.Remote.{ClientRuntimeView}
use boo.Remote.Stream.{
  PaneUpdate, encode_ui_pane_update_payload, pane_message, pane_payload, with_pane_state,
}
use boo.Client.Applying.{apply_remote_delta_snapshot}
use boo.Client.Mirror.{decode_remote_delta-encode_delta}
use boo.Client.State.{ClientApp}
use boo.Client.Session.{with_full_state, with_delta, picture_of}
use boo.Client.Reading.{Readers}
use boo.Client.Showing.{
  received, Mirrors, Ready, Mirrors-insert, full_state-Keeps, delta-Keeps, IsUpdate,
  received-full_state, received-delta, Followed,
}

-- the messages for a pane
abbrev pub message_of : PaneUpdate → MessageType × List ℕ → MessageType × List ℕ
message_of u (ty, payload) = (
  ty,
  encode_ui_pane_update_payload u.tab_id u.pane_id u.pane_revision u.runtime_revision payload,
)

abbrev whole_message : RemoteFullState → MessageType × List ℕ
whole_message next = (ui_pane_full_state, encode_full_state next none true)

module _ (v : ClientRuntimeView) (u : PaneUpdate) (next : RemoteFullState) where
  pub pane_message_of :
      {previous : Option RemoteFullState} {inner : MessageType × List ℕ}
      → find u.pane_id v.pane_states ≡ previous
      → pane_payload previous next ≡ inner
      → pane_message v u next ≡ message_of u inner
  unfolding pane_message
  pane_message_of e e' = ap (λ p. message_of u (pane_payload p next)) e ∙ ap (message_of u) e'

module _ (next : RemoteFullState) where
  pane_payload-whole :
      (previous : RemoteFullState)
      → encode_delta previous next none true ≡ none
      → pane_payload (some previous) next ≡ whole_message next
  pane_payload-whole previous e = rw (e, pane_payload) refl

  pub pane_payload-delta :
      (previous : RemoteFullState) {payload : List ℕ}
      → encode_delta previous next none true ≡ some payload
      → pane_payload (some previous) next ≡ (ui_pane_delta, payload)
  pane_payload-delta previous e = rw (e, pane_payload) refl

module _ (readers : Readers) (lost : List ℕ) (v : ClientRuntimeView) (app : ClientApp)
    (u : PaneUpdate) (next : RemoteFullState) (fits : Fits next) (is : IsUpdate u)
    (ready : Ready app u.runtime_revision) (mirrors : Mirrors v app) where
  received-whole :
      pane_message v u next ≡ message_of u (whole_message next)
      → Followed v app (received readers lost app (pane_message v u next)) u next
  received-whole message =
      let app' = with_full_state u.pane_id (without_rows next) app in
      let after : received readers lost app (pane_message v u next) ≡ app' =
        ap (received readers lost app) message
        ∙ received-full_state readers lost app u next fits is ready.revision in
      subst (λ a. Followed v app a u next) (sym after)
        (record {
          mirrors =
              Mirrors-insert v app app' u.pane_id next mirrors refl fits
                (full_state-Keeps app u.pane_id u.runtime_revision next ready)
                (λ other apart.
                  find-insert_other other u.pane_id (picture_of app (without_rows next))
                    app.pane_snapshots apart);
          ready = record {
            foreground = ready.foreground;
            background = ready.background;
            revision = ready.revision;
          };
        })

  received-changes :
      (previous : RemoteFullState) {payload : List ℕ}
      → find u.pane_id v.pane_states ≡ some previous
      → encode_delta previous next none true ≡ some payload
      → Followed v app (received readers lost app (pane_message v u next)) u next
  received-changes previous {payload} there changed =
      let (fits', (snapshot, (kept, shows))) = mirrors u.pane_id previous there in
      let (changes, (read, shows')) =
        decode_remote_delta-encode_delta app.cursor_color snapshot previous next none fits' fits
          (omega arith) shows changed in
      let app' = with_delta u.pane_id changes app in
      let after : received readers lost app (pane_message v u next) ≡ app' =
        ap (received readers lost app)
          (pane_message_of v u next there (pane_payload-delta next previous changed))
        ∙ received-delta readers lost app u payload is ready.revision read in
      subst (λ a. Followed v app a u next) (sym after)
        (record {
          mirrors =
              Mirrors-insert v app app' u.pane_id next mirrors refl fits
                (delta-Keeps app u.pane_id next changes snapshot kept shows')
                (λ other apart.
                  find-update_other other u.pane_id (λ s. apply_remote_delta_snapshot s changes)
                    app.pane_snapshots apart);
          ready = record {
            foreground = ready.foreground;
            background = ready.background;
            revision = ready.revision;
          };
        })

  received-pane_message : Followed v app (received readers lost app (pane_message v u next)) u next
  received-pane_message = elim (Option-cases (find u.pane_id v.pane_states)) [
    | inl e ↦ received-whole (pane_message_of v u next e refl)
    | inr (previous, e) ↦ elim (Option-cases (encode_delta previous next none true)) [
      | inl e' ↦ received-whole (pane_message_of v u next e (pane_payload-whole next previous e'))
      | inr (payload, e') ↦ received-changes previous e e'
    ]
  ]

-- Updates of panes, each of which the server sends and the client handles before the next.
abbrev pub views_after : ClientRuntimeView → List (PaneUpdate × RemoteFullState) → ClientRuntimeView
views_after v [] = v
views_after v ((u, next) ∷ updates) = views_after (with_pane_state u.pane_id next v) updates

abbrev pub client_after :
    Readers
    → List ℕ
    → ClientRuntimeView
    → ClientApp
    → List (PaneUpdate × RemoteFullState)
    → ClientApp
client_after readers lost v app [] = app
client_after readers lost v app ((u, next) ∷ updates) =
    client_after readers lost (with_pane_state u.pane_id next v)
      (received readers lost app (pane_message v u next)) updates

-- an update in one revision of the runtime
abbrev pub IsSent : ℕ → PaneUpdate × RemoteFullState → Type 0
IsSent revision (u, next) = Fits next × (IsUpdate u × (u.runtime_revision ≡ revision))

-- For any sequence of updates of panes that the server sends to a client in one revision of the
-- runtime, each handled before the next is sent: if at the start every state that the server keeps
-- of a pane for this client is one that the client shows, so it is at the end. An update goes out
-- as the changes or as a full state, as the server decides, and the client reads the bytes of the
-- payload. The states must be in the ranges of their types with a cell for each place, and the
-- client must have the default colours and the revision of the updates.
pub client_after-Mirrors :
    (readers : Readers) (lost : List ℕ) (v : ClientRuntimeView) (app : ClientApp) (revision : ℕ)
    (updates : List (PaneUpdate × RemoteFullState))
    → Ready app revision
    → Mirrors v app
    → All (IsSent revision) updates
    → Mirrors (views_after v updates) (client_after readers lost v app updates)
client_after-Mirrors readers lost v app revision [] ready mirrors all = mirrors
client_after-Mirrors readers lost v app revision ((u, next) ∷ updates) ready mirrors all =
    let (fits, (is, same)) = all.0 in
    let followed =
      received-pane_message readers lost v app u next fits is (subst (Ready app) (sym same) ready)
        mirrors in
    client_after-Mirrors readers lost (with_pane_state u.pane_id next v)
      (received readers lost app (pane_message v u next)) revision updates
      (subst (Ready (received readers lost app (pane_message v u next))) same followed.ready)
      followed.mirrors all.1
