-- ===== src/Batcher/Accounting.antt =====
-- Counting the messages of a batch in src/remote_batcher.rs: sent, waiting or coalesced.
use boo.Base.{
  ℕ, suc, ◌+◌, ◌^◌, ◌<◌, ◌≡◌, refl, ap, ◌∙◌, inl, inr, Bool, true, false, List, [], ◌∷◌, arith,
  length, next_64, Bool-cases, Option-cases,
}
use boo.Batcher.{
  Frame, OutboundMessage, frame, screen_update, pane_update, tab_lists, runtime_states, appearances,
  no_frames, coalescible_frame_kind, priority_frame, Collecting, collecting, flush_control,
  flush_focused, flush_passive, flush_screen, flush_pane_updates, push_frame, push_screen,
  push_pane, push, push_all, finish, collect_outbound_batch,
}
use boo.Batcher.Pending.{Counted}
use boo.Batcher.Flushing.{
  Balanced, flush_control-Balanced, flush_focused-Balanced, flush_passive-Balanced,
  flush_screen-Balanced, flush_screen_keeps,
}
use boo.Batcher.Pushing.{push_frame-Balanced, push_pane-Balanced, push_screen-Balanced}

-- The number of messages goes up by one with each message.
count-push_frame : (f : Frame) (s : Collecting) → (push_frame f s).message_count ≡ s.message_count
unfolding push_frame
count-push_frame f s = elim (Option-cases (coalescible_frame_kind f)) [
  | inr (kind, e) ↦ rw (e, push_frame) refl
  | inl e ↦ elim (Bool-cases (priority_frame f)) [
    | inl first ↦ rw (e, first, push_frame) refl
    | inr other ↦
        rw (e, other, push_frame) ((flush_screen_keeps (flush_focused (flush_control s))).4)
  ]
]

count-push_screen :
    (coalesce : Bool) (f : Frame) (s : Collecting)
    → (push_screen coalesce f s).message_count ≡ s.message_count
unfolding push_screen
count-push_screen true f s = refl
count-push_screen false f s =
    (flush_screen_keeps (flush_control (record s { screen_updates = next_64 s.screen_updates }))).4

count-push_pane :
    (coalesce : Bool) (k : ℕ) (focused : Bool) (f : Frame) (s : Collecting)
    → (push_pane coalesce k focused f s).message_count ≡ s.message_count
unfolding push_pane
count-push_pane coalesce k true f s = refl
count-push_pane true k false f s = refl
count-push_pane false k false f s = (flush_screen_keeps (flush_focused (flush_control s))).4

count-push :
    (coalesce : Bool) (s : Collecting) (m : OutboundMessage)
    → (push coalesce s m).message_count ≡ next_64 s.message_count
unfolding push
count-push coalesce s (frame f) =
    count-push_frame f (record s { message_count = next_64 s.message_count })
count-push coalesce s (screen_update f) =
    count-push_screen coalesce f (record s { message_count = next_64 s.message_count })
count-push coalesce s (pane_update k focused f) =
    count-push_pane coalesce k focused f (record s { message_count = next_64 s.message_count })

pub renumbered :
    (n k : ℕ) (s : Collecting) → Balanced n s → Balanced n (record s { message_count = k })
renumbered n k s b = record {
  control = b.control;
  focused = b.focused;
  passive = b.passive;
  emitted = b.emitted;
  screens = b.screens;
  balance = b.balance;
}

pub push-Balanced :
    (n : ℕ) (coalesce : Bool) (s : Collecting) (m : OutboundMessage)
    → n + 1 < 2 ^ 64
    → Balanced n s
    → Balanced (n + 1) (push coalesce s m)
unfolding push
push-Balanced n coalesce s (frame f) h b =
    push_frame-Balanced n f _ h (renumbered n (next_64 s.message_count) s b)
push-Balanced n coalesce s (screen_update f) h b =
    push_screen-Balanced n coalesce f _ h (renumbered n (next_64 s.message_count) s b)
push-Balanced n coalesce s (pane_update k focused f) h b =
    push_pane-Balanced n coalesce k focused f _ h (renumbered n (next_64 s.message_count) s b)

pub push_all-Balanced :
    (n : ℕ) (coalesce : Bool) (s : Collecting) (ms : List OutboundMessage)
    → n + length ms < 2 ^ 64
    → s.message_count ≡ n
    → Balanced n s
    → ((push_all coalesce s ms).message_count ≡ n + length ms)
      × Balanced (n + length ms) (push_all coalesce s ms)
unfolding push_all
push_all-Balanced n coalesce s [] h c b = let same : n + 0 ≡ n = omega arith in rw same (c, b)
push_all-Balanced n coalesce s (m ∷ ms) h c b =
    let less : n + 1 < 2 ^ 64 = omega arith in
    let count : (push coalesce s m).message_count ≡ n + 1 =
      omega (arith, count-push coalesce s m) in
    let later =
      push_all-Balanced (n + 1) coalesce (push coalesce s m) ms (omega arith) count
        (push-Balanced n coalesce s m less b) in
    let same : n + suc (length ms) ≡ n + 1 + length ms = omega arith in rw same later

no_frames-Counted : Counted [] no_frames
no_frames-Counted tab_lists = refl
no_frames-Counted runtime_states = refl
no_frames-Counted appearances = refl

pub collecting-Balanced : Balanced 0 collecting
collecting-Balanced = record {
  control = no_frames-Counted;
  focused = refl;
  passive = refl;
  emitted = omega arith;
  screens = omega arith;
  balance = refl;
}

finish_lem :
    (n : ℕ) (s : Collecting)
    → n < 2 ^ 64
    → Balanced n s
    → ((finish s).message_count ≡ s.message_count)
      × (length (finish s).frames
            + (finish s).coalesced_screen_updates
            + (finish s).coalesced_pane_updates
            + (finish s).coalesced_control_frames
          ≡ n)
unfolding finish flush_pane_updates
finish_lem n s h b =
    let t = flush_control s in
    let (bt, no_control) = flush_control-Balanced n s b in
    let u = flush_focused t in
    let (bu, no_focused) = flush_focused-Balanced n t bt in
    let v = flush_screen u in
    let keeps = flush_screen_keeps u in
    let bv = flush_screen-Balanced n u h bu in
    let w = flush_passive v in
    let (bw, no_passive) = flush_passive-Balanced n v bv in
    let control : length w.control.order ≡ 0 =
      ap (λ p. length p.order) keeps.0 ∙ ap length no_control in
    let focused : length w.focused.order ≡ 0 =
      ap (λ p. length p.order) keeps.1 ∙ ap length no_focused in
    let total = bw.balance in (keeps.4, omega (arith, total, ap length no_passive))

-- For fewer than 2 ^ 64 messages, the message count of a batch is the number of messages, and each
-- message is accounted for once: the frames of the batch and its three counts of coalesced messages
-- add up to that number, whether screen updates are coalesced or not.
pub collect_outbound_batch_lem :
    (first : OutboundMessage) (rest : List OutboundMessage) (coalesce : Bool)
    → length (first ∷ rest) < 2 ^ 64
    → ((collect_outbound_batch first rest coalesce).message_count ≡ length (first ∷ rest))
      × (length (collect_outbound_batch first rest coalesce).frames
            + (collect_outbound_batch first rest coalesce).coalesced_screen_updates
            + (collect_outbound_batch first rest coalesce).coalesced_pane_updates
            + (collect_outbound_batch first rest coalesce).coalesced_control_frames
          ≡ length (first ∷ rest))
unfolding collect_outbound_batch
collect_outbound_batch_lem first rest coalesce h =
    let ms = first ∷ rest in
    let (count, balanced) =
      push_all-Balanced 0 coalesce collecting ms (omega arith) refl collecting-Balanced in
    let (kept, total) =
      finish_lem (0 + length ms) (push_all coalesce collecting ms) (omega arith) balanced in
    (omega (arith, count, kept), omega (arith, total))
