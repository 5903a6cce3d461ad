-- ===== src/Batcher/Delivery.antt =====
-- One message of src/remote_batcher.rs: where it waits, and the loops that send what waits.
use boo.Base.{
  ℕ, ◌^◌, ◌<◌, ◌≡◌, refl, sym, ap, ◌∙◌, ◌⊎◌, inl, inr, true, false, Option, none, some, List, [],
  ◌∷◌, ◌++◌, arith, ◌==◌, if◌then◌else◌, Bool-cases, Option-cases, Any, Any-append-left,
  Any-append-right,
}
use boo.Batcher.{
  Frame, OutboundMessage, frame, screen_update, pane_update, CoalescibleFrameKind, same_kind,
  PendingOutboundFrames, slot, with_slot, drain_control, take_all_control, find_frame, insert_frame,
  coalescible_frame_kind, Collecting, flush_control, flush_focused, flush_passive, flush_screen,
  flush_pane_updates, emit, frame_of,
}
use boo.Batcher.Pending.{values, slot-order, slot-with_slot, same_kind-eq, count_kind}
use boo.Batcher.Flushing.{
  Balanced, flush_focused-Balanced, flush_screen-Balanced, flush_focused_lem, flush_passive_lem,
}

-- the frame is among the frames
abbrev pub Sent : Frame → List Frame → Type 0
Sent f fs = Any (λ g. g ≡ f) fs

find_frame-values :
    (k : ℕ) (m : List (ℕ × Frame)) {f : Frame} → find_frame k m ≡ some f → Sent f (values m)
find_frame-values k [] h = absurd (cc)
find_frame-values k ((j, g) ∷ m) {f} h = elim (Bool-cases (j == k)) [
  | inl hit ↦ inl (ground (arith, hit, h))
  | inr miss ↦ inr (find_frame-values k m {f = f} (ground (arith, miss, h)))
]

pub find-insert_frame :
    (k j : ℕ) (f : Frame) (m : List (ℕ × Frame))
    → find_frame k (insert_frame j f m) ≡ (if j == k then some f else find_frame k m)
find-insert_frame k j f [] = refl
find-insert_frame k j f ((i, g) ∷ m) = ground (arith, find-insert_frame k j f m)

-- A full slot whose kind is in the order is drained.
drain_control-Sent :
    (ks : List CoalescibleFrameKind) (p : PendingOutboundFrames) (k : CoalescibleFrameKind)
    {f : Frame}
    → slot p k ≡ some f
    → 0 < count_kind k ks
    → Sent f (drain_control ks p).0
unfolding drain_control
drain_control-Sent [] p k e h = absurd (omega arith)
drain_control-Sent (j ∷ ks) p k {f} e h = elim (Bool-cases (same_kind j k)) [
  | inl same ↦
      let here : slot p j ≡ some f = ap (slot p) (same_kind-eq j k same) ∙ e in
      rw (here, drain_control) (inl refl)
  | inr other ↦
      let kept : slot (with_slot p j none) k ≡ slot p k = rw other at (slot-with_slot p j k none) in
      let later =
        drain_control-Sent ks (with_slot p j none) k {f = f} (kept ∙ e)
          (ground (arith, h, other)) in
      elim (Option-cases (slot p j)) [
        | inl empty ↦ rw (empty, drain_control) later
        | inr (g, full) ↦ rw (full, drain_control) (inr later)
      ]
]

-- Where a message waits until it is sent.
abbrev pub WaitsIn :
    OutboundMessage
    → PendingOutboundFrames
    → Option Frame
    → List (ℕ × Frame)
    → List (ℕ × Frame)
    → Type 0
WaitsIn (frame f) control screen focused passive =
    (kind : CoalescibleFrameKind) × (coalescible_frame_kind f ≡ some kind)
    × (slot control kind ≡ some f)
WaitsIn (screen_update f) control screen focused passive = screen ≡ some f
WaitsIn (pane_update k true f) control screen focused passive = find_frame k focused ≡ some f
WaitsIn (pane_update k false f) control screen focused passive = find_frame k passive ≡ some f

-- The message is sent, or it waits.
abbrev pub Holds : OutboundMessage → Collecting → Type 0
Holds m s =
    Sent (frame_of m) s.frames ⊎ WaitsIn m s.control s.screen s.focused.frames s.passive.frames

module _ (s : Collecting) (n : ℕ) (b : Balanced n s) where
  pub flush_control-Holds : (m : OutboundMessage) → Holds m s → Holds m (flush_control s)
  unfolding flush_control take_all_control
  flush_control-Holds m (inl h) = inl (Any-append-left _ s.frames _ h)
  flush_control-Holds (frame f) (inr (kind, e, full)) =
      let start : PendingOutboundFrames = record s.control { order = [] } in
      let there : slot start kind ≡ some f = slot-order s.control [] kind ∙ full in
      let counted : 0 < count_kind kind s.control.order = ground (arith, b.control kind, full) in
      inl (
        Any-append-right _ s.frames _ (drain_control-Sent s.control.order start kind there counted))
  flush_control-Holds (screen_update f) (inr w) = inr w
  flush_control-Holds (pane_update k true f) (inr w) = inr w
  flush_control-Holds (pane_update k false f) (inr w) = inr w

  flush_focused-Holds : (m : OutboundMessage) → Holds m s → Holds m (flush_focused s)
  flush_focused-Holds m (inl h) =
      rw (flush_focused_lem s b.focused) (inl (Any-append-left _ s.frames _ h))
  flush_focused-Holds (frame f) (inr w) = rw (flush_focused_lem s b.focused) (inr w)
  flush_focused-Holds (screen_update f) (inr w) = rw (flush_focused_lem s b.focused) (inr w)
  flush_focused-Holds (pane_update k true f) (inr w) =
      rw (flush_focused_lem s b.focused)
        (inl (Any-append-right _ s.frames _ (find_frame-values k s.focused.frames w)))
  flush_focused-Holds (pane_update k false f) (inr w) = rw (flush_focused_lem s b.focused) (inr w)

  flush_passive-Holds : (m : OutboundMessage) → Holds m s → Holds m (flush_passive s)
  flush_passive-Holds m (inl h) =
      rw (flush_passive_lem s b.passive) (inl (Any-append-left _ s.frames _ h))
  flush_passive-Holds (frame f) (inr w) = rw (flush_passive_lem s b.passive) (inr w)
  flush_passive-Holds (screen_update f) (inr w) = rw (flush_passive_lem s b.passive) (inr w)
  flush_passive-Holds (pane_update k true f) (inr w) = rw (flush_passive_lem s b.passive) (inr w)
  flush_passive-Holds (pane_update k false f) (inr w) =
      rw (flush_passive_lem s b.passive)
        (inl (Any-append-right _ s.frames _ (find_frame-values k s.passive.frames w)))

pub flush_screen-Holds :
    (s : Collecting) (m : OutboundMessage) → Holds m s → Holds m (flush_screen s)
unfolding flush_screen
flush_screen-Holds s m h = elim (Option-cases s.screen) [
  | inl e ↦ rw (e, flush_screen) h
  | inr (g, e) ↦ rw (e, flush_screen) (sent m g e h)
]
  where
    sent :
        (m : OutboundMessage) (g : Frame)
        → s.screen ≡ some g
        → Holds m s
        → Sent (frame_of m) (s.frames ++ (g ∷ []))
          ⊎ WaitsIn m s.control none s.focused.frames s.passive.frames
    sent m g e (inl h) = inl (Any-append-left _ s.frames _ h)
    sent (frame f) g e (inr w) = inr w
    sent (screen_update f) g e (inr w) =
        inl (Any-append-right _ s.frames _ (inl (ground (arith, sym e ∙ w))))
    sent (pane_update k true f) g e (inr w) = inr w
    sent (pane_update k false f) g e (inr w) = inr w

pub flush_pane_updates-Holds :
    (s : Collecting) (n : ℕ)
    → n < 2 ^ 64
    → Balanced n s
    → (m : OutboundMessage) → Holds m s
    → Holds m (flush_pane_updates s)
unfolding flush_pane_updates
flush_pane_updates-Holds s n h b m w =
    let t = flush_focused s in
    let bt = (flush_focused-Balanced n s b).0 in
    let u = flush_screen t in
    let bu = flush_screen-Balanced n t h bt in
    flush_passive-Holds u n bu m (flush_screen-Holds t m (flush_focused-Holds s n b m w))

pub emit-Holds : (f : Frame) (s : Collecting) (m : OutboundMessage) → Holds m s → Holds m (emit f s)
emit-Holds f s m (inl h) = inl (Any-append-left _ s.frames _ h)
emit-Holds f s m (inr w) = inr w

pub emitted : (f : Frame) (s : Collecting) → Sent f (emit f s).frames
emitted f s = Any-append-right _ s.frames _ (inl refl)
