-- ===== src/Remote/Views.antt =====
-- What single calls of src/remote.rs do to the views of src/remote_state.rs.
use boo.Base.{
  ℕ, ◌<◌, ◌≡◌, refl, ap, inl, inr, Bool, true, false, Option, none, some, List, [], ◌∷◌, arith,
  update, retain_keys, Bool-cases, All, ◌==◌, contains, if◌then◌else◌,
}
use boo.Wire.{MessageType}
use boo.Wire.States.{RemoteFullState}
use boo.Remote.{
  ClientRuntimeView, ClientState, State, touch_view, attach_ui, detach_ui, with_view, update_client,
  retained, retain_local_viewer_pane_states, is_local_viewer,
}
use boo.Remote.Control.{
  CachedControlPayload, with_cached, send_cached_control_payload_bytes, tab_list_payload,
  ui_runtime_state_payload, ui_appearance_payload,
}
use boo.Remote.Stream.{PaneUpdate, send_state_to_client, send_pane_state_to_client}
use boo.Remote.Calls.{
  initialize_client_view, initialized, subscribe_client_to_runtime, subscribed,
  unsubscribe_client_from_runtime, unsubscribed, is_expired, swept, sweep_clients, sweep_idle_views,
  send_to_client, input_recorded, record_input_seq,
}

-- A view that is not subscribed keeps no states of panes, and its revision is not 0.
pub record IsView (v : ClientRuntimeView) : Type 0 where
  pub revision : 0 < v.view_revision
  pub no_state : v.subscribed_to_runtime ≡ false → v.last_state ≡ none
  pub no_panes : v.subscribed_to_runtime ≡ false → v.pane_states ≡ []

abbrev pub HasView : ℕ × ClientState → Type 0
HasView (client_id, client) = IsView client.runtime_view

abbrev pub AllViews : State → Type 0
AllViews s = All HasView s.clients

-- one call
pub data Call : Type 0 where
  initialize_view : ℕ → Option ℕ → Option ℕ → List ℕ → Call
  subscribe unsubscribe touch attach : ℕ → Call
  detach : ℕ → ℕ → Call
  sweep : ℕ → ℕ → Call
  retain_panes : List ℕ → Call
  record_seq : ℕ → Option ℕ → Call
  send_state : ℕ → RemoteFullState → Call
  send_pane : ℕ → PaneUpdate → RemoteFullState → Call
  send_control : ℕ → MessageType → List ℕ → CachedControlPayload → Call
  send_frame : ℕ → MessageType → List ℕ → Call

unfoldable pub call : State → Call → State
call s (initialize_view client_id tab pane visible) =
    initialize_client_view s client_id tab pane visible
call s (subscribe client_id) = subscribe_client_to_runtime s client_id
call s (unsubscribe client_id) = unsubscribe_client_from_runtime s client_id
call s (touch client_id) = update_client s client_id (with_view touch_view)
call s (attach client_id) = update_client s client_id (with_view attach_ui)
call s (detach client_id now) = update_client s client_id (with_view (detach_ui now))
call s (sweep now idle_timeout) = (sweep_idle_views s now idle_timeout).1
call s (retain_panes visible) = retain_local_viewer_pane_states s visible
call s (record_seq client_id seq) = record_input_seq s client_id seq
call s (send_state client_id state) = send_state_to_client s client_id state
call s (send_pane client_id update state) = send_pane_state_to_client s client_id update state
call s (send_control client_id ty payload slot) =
    send_cached_control_payload_bytes s client_id ty payload slot
call s (send_frame client_id ty payload) = send_to_client s client_id ty payload

unfoldable pub run : State → List Call → State
unfolding call
run s [] = s
run s (c ∷ cs) = run (call s c) cs

pub update-HasView :
    (client_id : ℕ) (f : ClientState → ClientState) (m : List (ℕ × ClientState))
    → ((client : ClientState) → IsView client.runtime_view → IsView (f client).runtime_view)
    → All HasView m
    → All HasView (update client_id f m)
update-HasView client_id f [] keep h = tt
update-HasView client_id f ((i, client) ∷ m) keep h = elim (Bool-cases (i == client_id)) [
  | inl same ↦ rw same (keep client h.0, h.1)
  | inr other ↦ rw other (h.0, update-HasView client_id f m keep h.1)
]

pub touch_view-IsView : (v : ClientRuntimeView) → IsView (touch_view v)
unfolding touch_view
touch_view-IsView v = record { revision = omega arith; no_state = λ h. refl; no_panes = λ h. refl }

IsView-if : (b : Bool) {v w : ClientRuntimeView} → IsView v → IsView w → IsView (if b then v else w)
IsView-if true h h' = h
IsView-if false h h' = h'

pub subscribed-IsView : (v : ClientRuntimeView) → IsView v → IsView (subscribed v)
unfolding subscribed
subscribed-IsView v h =
    IsView-if v.subscribed_to_runtime h
      (record { revision = h.revision; no_state = λ e. refl; no_panes = λ e. refl })

pub unsubscribed-IsView : (v : ClientRuntimeView) → IsView v → IsView (unsubscribed v)
unfolding unsubscribed
unsubscribed-IsView v h = record {
  revision = h.revision;
  no_state = λ e. refl;
  no_panes = λ e. refl;
}

pub initialized-IsView :
    (client_id : ℕ) (tab pane : Option ℕ) (visible : List ℕ) (v : ClientRuntimeView)
    → IsView (initialized client_id tab pane visible v)
unfolding initialized
initialized-IsView client_id tab pane visible v = record {
  revision = omega arith;
  no_state = λ h. refl;
  no_panes = λ h. refl;
}

pub attach_ui-IsView : (v : ClientRuntimeView) → IsView (attach_ui v)
unfolding attach_ui
attach_ui-IsView v = record { revision = omega arith; no_state = λ h. refl; no_panes = λ h. refl }

pub detach_ui-IsView : (now : ℕ) (v : ClientRuntimeView) → IsView (detach_ui now v)
unfolding detach_ui
detach_ui-IsView now v = record {
  revision = omega arith;
  no_state = λ h. refl;
  no_panes = λ h. refl;
}

swept-IsView : (v : ClientRuntimeView) → IsView (swept v)
unfolding swept
swept-IsView v = record { revision = omega arith; no_state = λ h. refl; no_panes = λ h. refl }

pub sweep_clients-HasView :
    (now idle_timeout : ℕ) (m : List (ℕ × ClientState))
    → All HasView m
    → All HasView (sweep_clients now idle_timeout m).1
sweep_clients-HasView now idle_timeout [] h = tt
sweep_clients-HasView now idle_timeout ((i, client) ∷ m) h =
    let later = sweep_clients-HasView now idle_timeout m h.1 in
    elim (Bool-cases (is_expired now idle_timeout client.runtime_view)) [
      | inl expired ↦ rw expired (swept-IsView client.runtime_view, later)
      | inr live ↦ rw live (h.0, later)
    ]

pub retained-HasView :
    (visible : List ℕ) (m : List (ℕ × ClientState))
    → All HasView m
    → All HasView (retained visible m)
retained-HasView visible [] h = tt
retained-HasView visible ((i, client) ∷ m) h =
    let later = retained-HasView visible m h.1 in
    elim (Bool-cases (is_local_viewer client)) [
      | inl local_viewer ↦ rw local_viewer (
        record {
          revision = h.0.revision;
          no_state = h.0.no_state;
          no_panes = λ e. ap (retain_keys (λ pane_id. contains pane_id visible)) (h.0.no_panes e);
        },
        later,
      )
      | inr other ↦ rw other (h.0, later)
    ]

pub input_recorded-IsView :
    (seq : Option ℕ) (v : ClientRuntimeView) → IsView v → IsView (input_recorded seq v)
input_recorded-IsView none v h = h
input_recorded-IsView (some seq) v h = record {
  revision = h.revision;
  no_state = h.no_state;
  no_panes = h.no_panes;
}

pub with_cached-IsView :
    (slot : CachedControlPayload) (payload : List ℕ) (v : ClientRuntimeView)
    → IsView v
    → IsView (with_cached slot payload v)
with_cached-IsView tab_list_payload payload v h = record {
  revision = h.revision;
  no_state = h.no_state;
  no_panes = h.no_panes;
}
with_cached-IsView ui_runtime_state_payload payload v h = record {
  revision = h.revision;
  no_state = h.no_state;
  no_panes = h.no_panes;
}
with_cached-IsView ui_appearance_payload payload v h = record {
  revision = h.revision;
  no_state = h.no_state;
  no_panes = h.no_panes;
}

pub if-true : {A : Type 0} (b : Bool) (x y : A) → b ≡ true → (if b then x else y) ≡ x
if-true true x y h = refl
if-true false x y h = cc

pub if-false : {A : Type 0} (b : Bool) (x y : A) → b ≡ false → (if b then x else y) ≡ y
if-false true x y h = cc
if-false false x y h = refl
