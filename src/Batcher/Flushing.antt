-- ===== src/Batcher/Flushing.antt =====
-- The loops of src/remote_batcher.rs that send what waits, and the counts of messages.
use boo.Base.{
  ℕ, ◌+◌, ◌-◌, ◌^◌, ◌<◌, ◌≤◌, ◌≡◌, refl, sym, ap, ◌∙◌, inl, inr, none, List, [], ◌∷◌, ◌++◌, arith,
  length, length-append, length-map, is_some, if◌then◌else◌, Option-cases,
}
use boo.Batcher.{
  Frame, PendingOutboundFrames, drain_control, take_all_control, PendingPaneFrames, Collecting,
  flush_control, flush_focused, flush_passive, flush_screen, flush_pane_updates, emit,
}
use boo.Batcher.Pending.{
  values, IsOrder, slot-order, count_kind, take_all_panes_lem, Counted, drain_control_lem,
}

-- Of `n` messages each is among the frames, waits, or is counted as coalesced.
pub record Balanced (n : ℕ) (s : Collecting) : Type 0 where
  pub control : Counted s.control.order s.control
  pub focused : IsOrder s.focused
  pub passive : IsOrder s.passive
  pub emitted : s.emitted_screen_frames ≤ length s.frames
  pub screens : s.emitted_screen_frames + (if is_some s.screen then 1 else 0) ≤ s.screen_updates
  pub balance :
      length s.frames
        + length s.control.order
        + length s.focused.order
        + length s.passive.order
        + (s.screen_updates - s.emitted_screen_frames)
        + s.coalesced_control_frames
        + s.focused.coalesced
        + s.passive.coalesced
      ≡ n

length-values : (p : PendingPaneFrames) → IsOrder p → length (values p.frames) ≡ length p.order
length-values p h =
    length-map (λ (e : ℕ × Frame). e.1) p.frames
    ∙ sym (length-map (λ (e : ℕ × Frame). e.0) p.frames)
    ∙ ap length h

pub flush_focused_lem :
    (s : Collecting)
    → IsOrder s.focused
    → flush_focused s ≡ record s {
      frames = s.frames ++ values s.focused.frames;
      focused = record { order = []; frames = []; coalesced = s.focused.coalesced };
    }
unfolding flush_focused
flush_focused_lem s h =
    ap
      (λ (x : List Frame × PendingPaneFrames). record s { frames = s.frames ++ x.0; focused = x.1 })
      (take_all_panes_lem s.focused h)

pub flush_passive_lem :
    (s : Collecting)
    → IsOrder s.passive
    → flush_passive s ≡ record s {
      frames = s.frames ++ values s.passive.frames;
      passive = record { order = []; frames = []; coalesced = s.passive.coalesced };
    }
unfolding flush_passive
flush_passive_lem s h =
    ap
      (λ (x : List Frame × PendingPaneFrames). record s { frames = s.frames ++ x.0; passive = x.1 })
      (take_all_panes_lem s.passive h)

module _ (n : ℕ) (s : Collecting) where
  pub flush_control-Balanced :
      Balanced n s → Balanced n (flush_control s) × ((flush_control s).control.order ≡ [])
  unfolding flush_control take_all_control
  flush_control-Balanced b =
      let start : PendingOutboundFrames = record s.control { order = [] } in
      let full : Counted s.control.order start =
        λ k. ground (arith, b.control k, slot-order s.control [] k) in
      let (sizes, empty, left) = drain_control_lem s.control.order start full in
      let fs = (drain_control s.control.order start).0 in
      (
        record {
          control = λ k. ap (count_kind k) empty ∙ left k;
          focused = b.focused;
          passive = b.passive;
          emitted = omega (arith, b.emitted, length-append s.frames fs);
          screens = b.screens;
          balance = omega (arith, b.balance, sizes, ap length empty, length-append s.frames fs);
        },
        empty,
      )

  pub flush_focused-Balanced :
      Balanced n s → Balanced n (flush_focused s) × ((flush_focused s).focused.order ≡ [])
  flush_focused-Balanced b =
      let e = flush_focused_lem s b.focused in
      let sizes = length-values s.focused b.focused in
      rw e (
        record {
          control = b.control;
          focused = refl;
          passive = b.passive;
          emitted = omega (arith, b.emitted, length-append s.frames (values s.focused.frames));
          screens = b.screens;
          balance =
              omega (arith, b.balance, sizes, length-append s.frames (values s.focused.frames));
        },
        refl,
      )

  pub flush_passive-Balanced :
      Balanced n s → Balanced n (flush_passive s) × ((flush_passive s).passive.order ≡ [])
  flush_passive-Balanced b =
      let e = flush_passive_lem s b.passive in
      let sizes = length-values s.passive b.passive in
      rw e (
        record {
          control = b.control;
          focused = b.focused;
          passive = refl;
          emitted = omega (arith, b.emitted, length-append s.frames (values s.passive.frames));
          screens = b.screens;
          balance =
              omega (arith, b.balance, sizes, length-append s.frames (values s.passive.frames));
        },
        refl,
      )

  pub flush_screen-Balanced : n < 2 ^ 64 → Balanced n s → Balanced n (flush_screen s)
  unfolding flush_screen
  flush_screen-Balanced h b = elim (Option-cases s.screen) [
    | inl e ↦ rw (e, flush_screen) b
    | inr (f, e) ↦
        let sizes = length-append s.frames (f ∷ []) in
        let screens : s.emitted_screen_frames + 1 ≤ s.screen_updates = rw e at (b.screens) in
        let less = b.balance in
        rw (e, flush_screen)
          (record {
            control = b.control;
            focused = b.focused;
            passive = b.passive;
            emitted = omega (arith, b.emitted);
            screens = omega (arith, screens, b.emitted);
            balance = omega (arith, screens, b.emitted);
          })
  ]

pub emit-Balanced :
    (n : ℕ) (f : Frame) (s : Collecting) → Balanced n s → Balanced (n + 1) (emit f s)
emit-Balanced n f s b =
    let sizes = length-append s.frames (f ∷ []) in
    record {
      control = b.control;
      focused = b.focused;
      passive = b.passive;
      emitted = omega (arith, b.emitted, sizes);
      screens = b.screens;
      balance = omega (arith, b.balance, sizes);
    }

pub flush_screen_keeps :
    (s : Collecting)
    → ((flush_screen s).control ≡ s.control)
      × ((flush_screen s).focused ≡ s.focused)
      × ((flush_screen s).passive ≡ s.passive)
      × ((flush_screen s).screen ≡ none)
      × ((flush_screen s).message_count ≡ s.message_count)
unfolding flush_screen
flush_screen_keeps s = elim (Option-cases s.screen) [
  | inl e ↦ rw (e, flush_screen) (refl, refl, refl, e, refl)
  | inr (f, e) ↦ rw (e, flush_screen) (refl, refl, refl, refl, refl)
]

pub flush_pane_updates-Balanced :
    (n : ℕ) (s : Collecting) → n < 2 ^ 64 → Balanced n s → Balanced n (flush_pane_updates s)
unfolding flush_pane_updates
flush_pane_updates-Balanced n s h b =
    let focused = (flush_focused-Balanced n s b).0 in
    let screen = flush_screen-Balanced n (flush_focused s) h focused in
    (flush_passive-Balanced n (flush_screen (flush_focused s)) screen).0
