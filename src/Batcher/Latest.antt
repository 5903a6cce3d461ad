-- ===== src/Batcher/Latest.antt =====
-- `collect_outbound_batch` of src/remote_batcher.rs and a message that no later one replaces.
use boo.Base.{
  ℕ, suc, ◌+◌, ◌^◌, ◌<◌, ◌≡◌, refl, ap, ◌∙◌, inl, inr, Bool, true, false, none, some, List, [], ◌∷◌,
  ◌++◌, arith, length, length-append, All,
}
use boo.Batcher.{
  Frame, OutboundMessage, frame, screen_update, pane_update, CoalescibleFrameKind, slot,
  PendingOutboundFrames, find_frame, Collecting, collecting, flush_control, flush_focused,
  flush_passive, flush_screen, flush_pane_updates, push, push_all, finish, collect_outbound_batch,
  frame_of,
}
use boo.Batcher.Pending.{keys, Counted, count_kind}
use boo.Batcher.Flushing.{
  Balanced, flush_control-Balanced, flush_focused-Balanced, flush_passive-Balanced,
  flush_screen-Balanced, flush_screen_keeps,
}
use boo.Batcher.Accounting.{push-Balanced, push_all-Balanced, collecting-Balanced}
use boo.Batcher.Delivery.{Sent, Holds}
use boo.Batcher.Replacing.{replaces, push-own, flushed-Holds, push_all-Holds}

find_frame-empty :
    (k : ℕ) (m : List (ℕ × Frame)) {f : Frame} → length (keys m) ≡ 0 → find_frame k m ≡ some f → ⊥
find_frame-empty k [] h e = absurd (cc)
find_frame-empty k (x ∷ m) h e = absurd (omega arith)

count_kind-empty :
    (k : CoalescibleFrameKind) (ks : List CoalescibleFrameKind)
    → length ks ≡ 0
    → count_kind k ks ≡ 0
count_kind-empty k [] h = refl
count_kind-empty k (j ∷ ks) h = absurd (omega arith)

slot-empty :
    (p : PendingOutboundFrames) (k : CoalescibleFrameKind) {f : Frame}
    → Counted p.order p
    → length p.order ≡ 0
    → slot p k ≡ some f
    → ⊥
slot-empty p k counted h e = absurd (ground (arith, counted k, count_kind-empty k p.order h, e))

-- where nothing waits, no message waits
nothing_waits :
    (n : ℕ) (s : Collecting) (m : OutboundMessage)
    → Balanced n s
    → length s.control.order ≡ 0
    → s.screen ≡ none
    → length s.focused.order ≡ 0
    → length s.passive.order ≡ 0
    → Holds m s
    → Sent (frame_of m) s.frames
nothing_waits n s m b hc hs hf hp (inl w) = w
nothing_waits n s (frame f) b hc hs hf hp (inr (kind, e, full)) =
    absurd (slot-empty s.control kind b.control hc full)
nothing_waits n s (screen_update f) b hc hs hf hp (inr w) = absurd (ground (arith, hs, w))
nothing_waits n s (pane_update k true f) b hc hs hf hp (inr w) =
    absurd (find_frame-empty k s.focused.frames (ap length b.focused ∙ hf) w)
nothing_waits n s (pane_update k false f) b hc hs hf hp (inr w) =
    absurd (find_frame-empty k s.passive.frames (ap length b.passive ∙ hp) w)

finish-Sent :
    (n : ℕ) (s : Collecting) (m : OutboundMessage)
    → n + 1 < 2 ^ 64
    → Balanced n s
    → Holds m s
    → Sent (frame_of m) (finish s).frames
unfolding finish flush_pane_updates
finish-Sent n s m h b w =
    let t = flush_control s in
    let (bt, no_control) = flush_control-Balanced n s b in
    let u = flush_focused t in
    let (bu, no_focused) = flush_focused-Balanced n t bt in
    let v = flush_screen u in
    let keeps = flush_screen_keeps u in
    let bv = flush_screen-Balanced n u (omega arith) bu in
    let (bw, no_passive) = flush_passive-Balanced n v bv in
    nothing_waits n (flush_passive v) m bw (ap (λ p. length p.order) keeps.0 ∙ ap length no_control)
      keeps.3 (ap (λ p. length p.order) keeps.1 ∙ ap length no_focused) (ap length no_passive)
      (flushed-Holds n s h b m w)

push_all-append :
    (coalesce : Bool) (s : Collecting) (ms ms' : List OutboundMessage)
    → push_all coalesce s (ms ++ ms') ≡ push_all coalesce (push_all coalesce s ms) ms'
unfolding push_all
push_all-append coalesce s [] ms' = refl
push_all-append coalesce s (m ∷ ms) ms' = push_all-append coalesce (push coalesce s m) ms ms'

-- Of fewer than 2 ^ 64 - 1 messages, a batch sends the frame of every message that no later message
-- of the batch replaces. Only these replace each other: control frames of one kind that can be
-- coalesced, two screen updates, and updates of one pane with the same focus flag.
pub collect_outbound_batch-Sent :
    (first : OutboundMessage) (rest : List OutboundMessage) (coalesce : Bool)
    (before : List OutboundMessage) (m : OutboundMessage) (after : List OutboundMessage)
    → first ∷ rest ≡ before ++ (m ∷ after)
    → length (first ∷ rest) + 1 < 2 ^ 64
    → All (λ m'. replaces m' m ≡ false) after
    → Sent (frame_of m) (collect_outbound_batch first rest coalesce).frames
unfolding collect_outbound_batch
collect_outbound_batch-Sent first rest coalesce before m after e h r =
    let sizes : length before + suc (length after) ≡ length (first ∷ rest) =
      omega (arith, ap length e, length-append before (m ∷ after)) in
    let s = push_all coalesce collecting before in
    let bs =
      (push_all-Balanced 0 coalesce collecting before (omega arith) refl collecting-Balanced).1 in
    let n = 0 + length before in
    let bt = push-Balanced n coalesce s m (omega arith) bs in
    let t = push coalesce s m in
    let w = push_all-Holds (n + 1) coalesce t after m (omega arith) bt r (push-own coalesce s m) in
    let b =
      (push_all-Balanced 0 coalesce collecting (first ∷ rest) (omega arith) refl
        collecting-Balanced).1 in
    let same : push_all coalesce collecting (first ∷ rest) ≡ push_all coalesce t after =
      ap (push_all coalesce collecting) e
      ∙ push_all-append coalesce collecting before (m ∷ after) in
    finish-Sent (0 + length (first ∷ rest)) (push_all coalesce collecting (first ∷ rest)) m
      (omega arith) b (rw same w)
