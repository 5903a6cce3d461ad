-- ===== src/Batcher/Pushing.antt =====
-- `push` in src/remote_batcher.rs on each kind of message, and the counts of messages.
use boo.Base.{
  ℕ, ◌+◌, ◌^◌, ◌<◌, ◌≤◌, ◌≡◌, refl, inl, inr, Bool, true, false, none, [], ◌∷◌, arith,
  length-append, next_64, Bool-cases, Option-cases,
}
use boo.Batcher.{
  Frame, coalescible_frame_kind, priority_frame, Collecting, flush_control, flush_screen,
  flush_pane_updates, emit, push_frame, push_screen, push_pane,
}
use boo.Batcher.Pending.{set_pane-IsOrder, length-set_pane, set_control_lem}
use boo.Batcher.Flushing.{
  Balanced, flush_control-Balanced, flush_screen-Balanced, emit-Balanced, flush_screen_keeps,
  flush_pane_updates-Balanced,
}

pub push_frame-Balanced :
    (n : ℕ) (f : Frame) (s : Collecting)
    → n + 1 < 2 ^ 64
    → Balanced n s
    → Balanced (n + 1) (push_frame f s)
unfolding push_frame
push_frame-Balanced n f s h b = elim (Option-cases (coalescible_frame_kind f)) [
  | inr (kind, e) ↦
      let (sizes, counted) = set_control_lem s.control kind f b.control in
      let total = b.balance in
      rw (e, push_frame)
        (record {
          control = counted;
          focused = b.focused;
          passive = b.passive;
          emitted = b.emitted;
          screens = b.screens;
          balance = ground (arith, sizes, total, h);
        })
  | inl e ↦
      let t = flush_control s in
      let flushed = (flush_control-Balanced n s b).0 in
      elim (Bool-cases (priority_frame f)) [
        | inl first ↦ rw (e, first, push_frame) (emit-Balanced n f t flushed)
        | inr other ↦
            let panes = flush_pane_updates-Balanced n t (omega arith) flushed in
            rw (e, other, push_frame) (emit-Balanced n f (flush_pane_updates t) panes)
      ]
]

pub push_pane-Balanced :
    (n : ℕ) (coalesce : Bool) (k : ℕ) (focused : Bool) (f : Frame) (s : Collecting)
    → n + 1 < 2 ^ 64
    → Balanced n s
    → Balanced (n + 1) (push_pane coalesce k focused f s)
unfolding push_pane
push_pane-Balanced n coalesce k true f s h b =
    let sizes = length-set_pane s.focused k f (let total = b.balance in omega arith) in
    record {
      control = b.control;
      focused = set_pane-IsOrder s.focused k f b.focused;
      passive = b.passive;
      emitted = b.emitted;
      screens = b.screens;
      balance = omega (arith, sizes, b.balance);
    }
push_pane-Balanced n true k false f s h b =
    let sizes = length-set_pane s.passive k f (let total = b.balance in omega arith) in
    record {
      control = b.control;
      focused = b.focused;
      passive = set_pane-IsOrder s.passive k f b.passive;
      emitted = b.emitted;
      screens = b.screens;
      balance = omega (arith, sizes, b.balance);
    }
push_pane-Balanced n false k false f s h b =
    let flushed = (flush_control-Balanced n s b).0 in
    emit-Balanced n f (flush_pane_updates (flush_control s))
      (flush_pane_updates-Balanced n (flush_control s) (omega arith) flushed)

-- A screen update that is sent at once: both counters of screen updates go up.
sent_screen-Balanced :
    (n : ℕ) (f : Frame) (u : Collecting)
    → n + 1 < 2 ^ 64
    → u.screen ≡ none
    → Balanced n u
    → Balanced (n + 1) (
        emit f (record u {
          screen_updates = next_64 u.screen_updates;
          emitted_screen_frames = next_64 u.emitted_screen_frames;
        }))
sent_screen-Balanced n f u h e b =
    let total = b.balance in
    let sizes = length-append u.frames (f ∷ []) in
    let screens : u.emitted_screen_frames + 0 ≤ u.screen_updates = rw e at (b.screens) in
    let emitted = b.emitted in
    record {
      control = b.control;
      focused = b.focused;
      passive = b.passive;
      emitted = omega (arith, sizes);
      screens = rw e (omega arith);
      balance = omega (arith, sizes);
    }

pub flush_screen-updates :
    (s : Collecting) (k : ℕ)
    → flush_screen (record s { screen_updates = k })
      ≡ record (flush_screen s) { screen_updates = k }
unfolding flush_screen
flush_screen-updates s k = elim (Option-cases s.screen) [
  | inl e ↦ rw (e, flush_screen) refl
  | inr (f, e) ↦ rw (e, flush_screen) refl
]

updates-flush_screen : (s : Collecting) → (flush_screen s).screen_updates ≡ s.screen_updates
unfolding flush_screen
updates-flush_screen s = elim (Option-cases s.screen) [
  | inl e ↦ rw (e, flush_screen) refl
  | inr (f, e) ↦ rw (e, flush_screen) refl
]

pub push_screen-Balanced :
    (n : ℕ) (coalesce : Bool) (f : Frame) (s : Collecting)
    → n + 1 < 2 ^ 64
    → Balanced n s
    → Balanced (n + 1) (push_screen coalesce f s)
unfolding push_screen flush_control
push_screen-Balanced n true f s h b =
    let total = b.balance in
    record {
      control = b.control;
      focused = b.focused;
      passive = b.passive;
      emitted = b.emitted;
      screens = let x = b.screens in let y = b.emitted in ground arith;
      balance = let x = b.screens in let y = b.emitted in ground arith;
    }
push_screen-Balanced n false f s h b =
    let t = flush_control s in
    let u = flush_screen t in
    let less : n < 2 ^ 64 = omega arith in
    let flushed = flush_screen-Balanced n t less (flush_control-Balanced n s b).0 in
    let sent = sent_screen-Balanced n f u h (flush_screen_keeps t).3 flushed in
    let same = updates-flush_screen t in
    rw (flush_screen-updates t (next_64 s.screen_updates)) (rw same at sent)
