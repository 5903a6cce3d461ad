-- ===== src/Batcher/Replacing.antt =====
-- `push` in src/remote_batcher.rs: which message replaces which, and one that is not replaced.
use boo.Base.{
  ℕ, ◌+◌, ◌^◌, ◌<◌, ◌≡◌, refl, ap, ◌∙◌, ◌⊎◌, inl, inr, Bool, true, false, ◌&&◌, Option, some, List,
  [], ◌∷◌, arith, length, next_64, ◌==◌, ==_refl, if◌then◌else◌, Bool-cases, Option-cases, All,
}
use boo.Batcher.{
  Frame, OutboundMessage, frame, screen_update, pane_update, CoalescibleFrameKind, same_kind, slot,
  set_control, PendingPaneFrames, find_frame, insert_frame, set_pane, coalescible_frame_kind,
  priority_frame, Collecting, flush_control, flush_screen, flush_pane_updates, push_frame,
  push_screen, push_pane, push, push_all, frame_of,
}
use boo.Batcher.Pending.{slot-set_control, same_kind_refl}
use boo.Batcher.Flushing.{Balanced, flush_control-Balanced}
use boo.Batcher.Pushing.{flush_screen-updates}
use boo.Batcher.Accounting.{push-Balanced, renumbered}
use boo.Batcher.Delivery.{
  Sent, WaitsIn, Holds, find-insert_frame, flush_control-Holds, flush_screen-Holds,
  flush_pane_updates-Holds, emit-Holds, emitted,
}

frames-set_pane :
    (p : PendingPaneFrames) (k : ℕ) (f : Frame)
    → (set_pane p k f).frames ≡ insert_frame k f p.frames
unfolding set_pane
frames-set_pane p k f = ground arith

find-set_pane :
    (p : PendingPaneFrames) (j k : ℕ) (f : Frame)
    → find_frame k (set_pane p j f).frames ≡ (if j == k then some f else find_frame k p.frames)
find-set_pane p j k f = ap (find_frame k) (frames-set_pane p j f) ∙ find-insert_frame k j f p.frames

-- A message waits, or is sent, as soon as it is pushed.
push_frame-own : (f : Frame) (s : Collecting) → Holds (frame f) (push_frame f s)
unfolding push_frame
push_frame-own f s = elim (Option-cases (coalescible_frame_kind f)) [
  | inr (kind, e) ↦
      let full : slot (set_control s.control kind f) kind ≡ some f =
        ground (arith, slot-set_control s.control kind kind f, same_kind_refl kind) in
      rw (e, push_frame) (inr (kind, refl, full))
  | inl e ↦ elim (Bool-cases (priority_frame f)) [
    | inl first ↦ rw (e, first, push_frame) (inl (emitted f (flush_control s)))
    | inr other ↦ rw (e, other, push_frame) (inl (emitted f (flush_pane_updates (flush_control s))))
  ]
]

push_screen-own :
    (coalesce : Bool) (f : Frame) (s : Collecting)
    → Holds (screen_update f) (push_screen coalesce f s)
unfolding push_screen
push_screen-own true f s = inr refl
push_screen-own false f s =
    let t : Collecting = record s { screen_updates = next_64 s.screen_updates } in
    inl (emitted f (flush_screen (flush_control t)))

push_pane-own :
    (coalesce : Bool) (k : ℕ) (focused : Bool) (f : Frame) (s : Collecting)
    → Holds (pane_update k focused f) (push_pane coalesce k focused f s)
unfolding push_pane
push_pane-own coalesce k true f s = inr (ground (arith, find-set_pane s.focused k k f, ==_refl k))
push_pane-own true k false f s = inr (ground (arith, find-set_pane s.passive k k f, ==_refl k))
push_pane-own false k false f s = inl (emitted f (flush_pane_updates (flush_control s)))

pub push-own :
    (coalesce : Bool) (s : Collecting) (m : OutboundMessage) → Holds m (push coalesce s m)
unfolding push
push-own coalesce s (frame f) =
    push_frame-own f (record s { message_count = next_64 s.message_count })
push-own coalesce s (screen_update f) =
    push_screen-own coalesce f (record s { message_count = next_64 s.message_count })
push-own coalesce s (pane_update k focused f) =
    push_pane-own coalesce k focused f (record s { message_count = next_64 s.message_count })

abbrev same_kinds : Option CoalescibleFrameKind → Option CoalescibleFrameKind → Bool
same_kinds (some j) (some k) = same_kind j k
same_kinds _ _ = false

abbrev same_focus : Bool → Bool → Bool
same_focus true true = true
same_focus false false = true
same_focus _ _ = false

-- The later message (first) takes the place of the earlier one: control frames of one kind that
-- can be coalesced, two screen updates, or updates of one pane with the same focus flag.
abbrev pub replaces : OutboundMessage → OutboundMessage → Bool
replaces (frame g) (frame f) = same_kinds (coalescible_frame_kind g) (coalescible_frame_kind f)
replaces (screen_update g) (screen_update f) = true
replaces (pane_update j b g) (pane_update k c f) = j == k && same_focus b c
replaces _ _ = false

module _ (n : ℕ) (s : Collecting) (h : n + 1 < 2 ^ 64) (b : Balanced n s) where
  pub flushed-Holds :
      (m : OutboundMessage) → Holds m s → Holds m (flush_pane_updates (flush_control s))
  flushed-Holds m w =
      flush_pane_updates-Holds (flush_control s) n (omega arith) (flush_control-Balanced n s b).0 m
        (flush_control-Holds s n b m w)

  push_frame-Holds :
      (g : Frame) (m : OutboundMessage)
      → replaces (frame g) m ≡ false
      → Holds m s
      → Holds m (push_frame g s)
  unfolding push_frame
  push_frame-Holds g m r w = elim (Option-cases (coalescible_frame_kind g)) [
    | inr (kind, e) ↦ rw (e, push_frame) (waiting m kind e r w)
    | inl e ↦ elim (Bool-cases (priority_frame g)) [
      | inl first ↦
          rw (e, first, push_frame)
            (emit-Holds g (flush_control s) m (flush_control-Holds s n b m w))
      | inr other ↦
          rw (e, other, push_frame)
            (emit-Holds g (flush_pane_updates (flush_control s)) m (flushed-Holds m w))
    ]
  ]
    where
      waiting :
          (m : OutboundMessage) (kind : CoalescibleFrameKind)
          → coalescible_frame_kind g ≡ some kind
          → replaces (frame g) m ≡ false
          → Holds m s
          → Sent (frame_of m) s.frames
            ⊎ WaitsIn m (set_control s.control kind g) s.screen s.focused.frames s.passive.frames
      waiting m kind e r (inl w) = inl w
      waiting (frame f) kind e r (inr (kind', e', full)) =
          let other : same_kind kind kind' ≡ false = ground (arith, e, e', r) in
          inr (kind', e', ground (arith, slot-set_control s.control kind kind' g, other, full))
      waiting (screen_update f) kind e r (inr w) = inr w
      waiting (pane_update k true f) kind e r (inr w) = inr w
      waiting (pane_update k false f) kind e r (inr w) = inr w

  push_screen-Holds :
      (coalesce : Bool) (g : Frame) (m : OutboundMessage)
      → replaces (screen_update g) m ≡ false
      → Holds m s
      → Holds m (push_screen coalesce g s)
  unfolding push_screen flush_control
  push_screen-Holds true g m r (inl w) = inl w
  push_screen-Holds true g (frame f) r (inr w) = inr w
  push_screen-Holds true g (screen_update f) r (inr w) = absurd (ground arith)
  push_screen-Holds true g (pane_update k true f) r (inr w) = inr w
  push_screen-Holds true g (pane_update k false f) r (inr w) = inr w
  push_screen-Holds false g m r w =
      let t = flush_control s in
      let kept : Holds m (flush_screen t) =
        flush_screen-Holds t m (flush_control-Holds s n b m w) in
      rw (flush_screen-updates t (next_64 s.screen_updates)) (emit-Holds g (flush_screen t) m kept)

  push_pane-Holds :
      (coalesce : Bool) (j : ℕ) (focused : Bool) (g : Frame) (m : OutboundMessage)
      → replaces (pane_update j focused g) m ≡ false
      → Holds m s
      → Holds m (push_pane coalesce j focused g s)
  unfolding push_pane
  push_pane-Holds false j false g m r w =
      emit-Holds g (flush_pane_updates (flush_control s)) m (flushed-Holds m w)
  push_pane-Holds coalesce j true g m r (inl w) = inl w
  push_pane-Holds true j false g m r (inl w) = inl w
  push_pane-Holds coalesce j true g (frame f) r (inr w) = inr w
  push_pane-Holds coalesce j true g (screen_update f) r (inr w) = inr w
  push_pane-Holds coalesce j true g (pane_update k true f) r (inr w) =
      inr (ground (arith, find-set_pane s.focused j k g, r, w))
  push_pane-Holds coalesce j true g (pane_update k false f) r (inr w) = inr w
  push_pane-Holds true j false g (frame f) r (inr w) = inr w
  push_pane-Holds true j false g (screen_update f) r (inr w) = inr w
  push_pane-Holds true j false g (pane_update k true f) r (inr w) = inr w
  push_pane-Holds true j false g (pane_update k false f) r (inr w) =
      inr (ground (arith, find-set_pane s.passive j k g, r, w))

push-Holds :
    (n : ℕ) (coalesce : Bool) (s : Collecting) (m' m : OutboundMessage)
    → n + 1 < 2 ^ 64
    → Balanced n s
    → replaces m' m ≡ false
    → Holds m s
    → Holds m (push coalesce s m')
unfolding push
push-Holds n coalesce s (frame g) m h b r w =
    let k = next_64 s.message_count in
    push_frame-Holds n (record s { message_count = k }) h (renumbered n k s b) g m r w
push-Holds n coalesce s (screen_update g) m h b r w =
    let k = next_64 s.message_count in
    push_screen-Holds n (record s { message_count = k }) h (renumbered n k s b) coalesce g m r w
push-Holds n coalesce s (pane_update j focused g) m h b r w =
    let k = next_64 s.message_count in
    push_pane-Holds n (record s { message_count = k }) h (renumbered n k s b) coalesce j focused g m
      r w

pub push_all-Holds :
    (n : ℕ) (coalesce : Bool) (s : Collecting) (ms : List OutboundMessage) (m : OutboundMessage)
    → n + length ms < 2 ^ 64
    → Balanced n s
    → All (λ m'. replaces m' m ≡ false) ms
    → Holds m s
    → Holds m (push_all coalesce s ms)
unfolding push_all
push_all-Holds n coalesce s [] m h b r w = w
push_all-Holds n coalesce s (m' ∷ ms) m h b (r, rs) w =
    let less : n + 1 < 2 ^ 64 = omega arith in
    push_all-Holds (n + 1) coalesce (push coalesce s m') ms m (omega arith)
      (push-Balanced n coalesce s m' less b) rs (push-Holds n coalesce s m' m less b r w)
