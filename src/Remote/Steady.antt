-- ===== src/Remote/Steady.antt =====
-- The views of src/remote_state.rs under sequences of the calls of src/remote.rs.
use boo.Base.{ℕ, ◌≡◌, refl, inl, inr, true, List, [], ◌∷◌, arith, update, Bool-cases}
use boo.Wire.{MessageType}
use boo.Wire.States.{RemoteFullState}
use boo.Remote.{ClientRuntimeView, ClientState, State, retain_local_viewer_pane_states}
use boo.Remote.Control.{
  CachedControlPayload, send_new, is_cached, cached, send_cached_control_payload_bytes,
}
use boo.Remote.Stream.{
  PaneUpdate, sent_state, sent_pane_state, send_state_to_client, send_pane_state_to_client,
}
use boo.Remote.Calls.{sweep_idle_views}
use boo.Remote.Views.{
  IsView, AllViews, Call, initialize_view, detach, sweep, retain_panes, record_seq, send_state,
  send_pane, send_control, send_frame, call, run, update-HasView, touch_view-IsView,
  subscribed-IsView, unsubscribed-IsView, initialized-IsView, attach_ui-IsView, detach_ui-IsView,
  sweep_clients-HasView, retained-HasView, input_recorded-IsView, with_cached-IsView, if-true,
  if-false, subscribe, unsubscribe, touch, attach,
}

module _ (client : ClientState) (h : IsView client.runtime_view) where
  -- What a subscribed view keeps does not matter.
  keeping :
      (v : ClientRuntimeView)
      → client.runtime_view.subscribed_to_runtime ≡ true
      → v.subscribed_to_runtime ≡ client.runtime_view.subscribed_to_runtime
      → v.view_revision ≡ client.runtime_view.view_revision
      → IsView v
  keeping v viewer same revision = record {
    revision = omega (arith, h.revision);
    no_state = λ e. cc;
    no_panes = λ e. cc;
  }

  sent_state-IsView : (next : RemoteFullState) → IsView (sent_state next client).runtime_view
  sent_state-IsView next = elim (Bool-cases client.runtime_view.subscribed_to_runtime) [
    | inl viewer ↦ rw (if-true _ _ _ viewer) (keeping _ viewer refl refl)
    | inr other ↦ rw (if-false _ _ _ other) h
  ]

  sent_pane_state-IsView :
      (update : PaneUpdate) (next : RemoteFullState)
      → IsView (sent_pane_state update next client).runtime_view
  unfolding sent_pane_state
  sent_pane_state-IsView update next = elim (Bool-cases client.runtime_view.subscribed_to_runtime) [
    | inl viewer ↦ rw (if-true _ _ _ viewer) (keeping _ viewer refl refl)
    | inr other ↦ rw (if-false _ _ _ other) h
  ]

  send_new-IsView :
      (ty : MessageType) (payload : List ℕ) (slot : CachedControlPayload)
      → IsView (send_new ty payload slot client).runtime_view
  send_new-IsView ty payload slot =
      elim (Bool-cases (is_cached (cached slot client.runtime_view) payload)) [
        | inl old ↦ rw (if-true _ _ _ old) h
        | inr new ↦ rw (if-false _ _ _ new) (with_cached-IsView slot payload _ h)
      ]

call-AllViews : (s : State) (c : Call) → AllViews s → AllViews (call s c)
unfolding call sweep_idle_views retain_local_viewer_pane_states send_state_to_client
    send_pane_state_to_client send_cached_control_payload_bytes
call-AllViews s (initialize_view i tab pane visible) h =
    update-HasView i _ s.clients (λ c v. initialized-IsView i tab pane visible c.runtime_view) h
call-AllViews s (subscribe i) h =
    update-HasView i _ s.clients (λ c v. subscribed-IsView c.runtime_view v) h
call-AllViews s (unsubscribe i) h =
    update-HasView i _ s.clients (λ c v. unsubscribed-IsView c.runtime_view v) h
call-AllViews s (touch i) h =
    update-HasView i _ s.clients (λ c v. touch_view-IsView c.runtime_view) h
call-AllViews s (attach i) h =
    update-HasView i _ s.clients (λ c v. attach_ui-IsView c.runtime_view) h
call-AllViews s (detach i now) h =
    update-HasView i _ s.clients (λ c v. detach_ui-IsView now c.runtime_view) h
call-AllViews s (sweep now idle_timeout) h = sweep_clients-HasView now idle_timeout s.clients h
call-AllViews s (retain_panes visible) h = retained-HasView visible s.clients h
call-AllViews s (record_seq i seq) h =
    update-HasView i _ s.clients (λ c v. input_recorded-IsView seq c.runtime_view v) h
call-AllViews s (send_state i state) h =
    update-HasView i _ s.clients (λ c v. sent_state-IsView c v state) h
call-AllViews s (send_pane i update state) h =
    update-HasView i _ s.clients (λ c v. sent_pane_state-IsView c v update state) h
call-AllViews s (send_control i ty payload slot) h =
    update-HasView i _ s.clients (λ c v. send_new-IsView c v ty payload slot) h
call-AllViews s (send_frame i ty payload) h = update-HasView i _ s.clients (λ c v. v) h

-- Any sequence of calls keeps of every client's view that its revision is not 0 and that, while it
-- is not subscribed, no state of a screen or a pane is kept for it. The calls initialize,
-- subscribe, unsubscribe, touch, attach, detach and sweep views, retain panes, record inputs, and
-- send states, cached payloads and frames.
pub run-AllViews : (s : State) (calls : List Call) → AllViews s → AllViews (run s calls)
unfolding run
run-AllViews s [] h = h
run-AllViews s (c ∷ cs) h = run-AllViews (call s c) cs (call-AllViews s c h)
