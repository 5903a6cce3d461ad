-- ===== src/Batcher/Order.antt =====
-- The order of the frames that `collect_outbound_batch` of src/remote_batcher.rs sends.
use boo.Base.{
  ℕ, ◌≡◌, refl, sym, ap, ◌∙◌, ◌⊎◌, inl, inr, Bool, true, false, none, some, List, [], ◌∷◌, ◌++◌,
  append-nil, append_assoc, next_64, Bool-cases, Option-cases,
}
use boo.Batcher.{
  Frame, OutboundMessage, frame, screen_update, pane_update, coalescible_frame_kind, priority_frame,
  Collecting, collecting, flush_control, flush_focused, flush_passive, flush_screen,
  flush_pane_updates, emit, push_frame, push_screen, push_pane, push, push_all, finish,
  collect_outbound_batch,
}

-- The first frames are among the second ones, in the same order.
abbrev pub InOrder : List Frame → List Frame → Type 0
InOrder [] gs = Unit {0}
InOrder (f ∷ fs) [] = ⊥
InOrder (f ∷ fs) (g ∷ gs) = ((f ≡ g) × InOrder fs gs) ⊎ InOrder (f ∷ fs) gs

InOrder-later : (fs gs hs : List Frame) → InOrder fs hs → InOrder fs (gs ++ hs)
InOrder-later [] gs hs h = tt
InOrder-later (f ∷ fs) [] hs h = h
InOrder-later (f ∷ fs) (g ∷ gs) hs h = inr (InOrder-later (f ∷ fs) gs hs h)

InOrder-append :
    (fs gs fs' gs' : List Frame) → InOrder fs gs → InOrder fs' gs' → InOrder (fs ++ fs') (gs ++ gs')
InOrder-append [] gs fs' gs' h h' = InOrder-later fs' gs gs' h'
InOrder-append (f ∷ fs) [] fs' gs' h h' = absurd h
InOrder-append (f ∷ fs) (g ∷ gs) fs' gs' (inl (e, h)) h' =
    inl (e, InOrder-append fs gs fs' gs' h h')
InOrder-append (f ∷ fs) (g ∷ gs) fs' gs' (inr h) h' = inr (InOrder-append (f ∷ fs) gs fs' gs' h h')

-- A step appends frames, the given ones among them in order.
abbrev pub Appends : List Frame → Collecting → Collecting → Type 0
Appends fs s s' = (gs : List Frame) × (s'.frames ≡ s.frames ++ gs) × InOrder fs gs

Appends-trans :
    (fs fs' : List Frame) (s t u : Collecting)
    → Appends fs s t
    → Appends fs' t u
    → Appends (fs ++ fs') s u
Appends-trans fs fs' s t u (gs, e, h) (gs', e', h') = (
  gs ++ gs',
  e' ∙ ap (λ l. l ++ gs') e ∙ append_assoc s.frames gs gs',
  InOrder-append fs gs fs' gs' h h',
)

flush_control-Appends : (s : Collecting) → Appends [] s (flush_control s)
unfolding flush_control
flush_control-Appends s = (_, refl, tt)

flush_screen-Appends : (s : Collecting) → Appends [] s (flush_screen s)
unfolding flush_screen
flush_screen-Appends s = elim (Option-cases s.screen) [
  | inl e ↦ rw (e, flush_screen) ([], sym (append-nil s.frames), tt)
  | inr (f, e) ↦ rw (e, flush_screen) (f ∷ [], refl, tt)
]

flush_pane_updates-Appends : (s : Collecting) → Appends [] s (flush_pane_updates s)
unfolding flush_pane_updates
flush_pane_updates-Appends s =
    let t = flush_focused s in
    let u = flush_screen t in
    let focused : Appends [] s t = (_, refl, tt) in
    let passive : Appends [] u (flush_passive u) = (_, refl, tt) in
    Appends-trans [] [] s u (flush_passive u)
      (Appends-trans [] [] s t u focused (flush_screen-Appends t)) passive

flushed-Appends : (s : Collecting) → Appends [] s (flush_pane_updates (flush_control s))
flushed-Appends s =
    Appends-trans [] [] s (flush_control s) (flush_pane_updates (flush_control s))
      (flush_control-Appends s) (flush_pane_updates-Appends (flush_control s))

nothing_sent : (s : Collecting) → Appends [] s s
nothing_sent s = ([], sym (append-nil s.frames), tt)

-- what a step appends with one frame behind it
emit-Appends : (f : Frame) (s t : Collecting) → Appends [] s t → Appends (f ∷ []) s (emit f t)
emit-Appends f s t h = Appends-trans [] (f ∷ []) s t (emit f t) h (f ∷ [], refl, inl (refl, tt))

-- the frame of a message that is never coalesced, and those of some messages
abbrev pub ordinary_frame : OutboundMessage → List Frame
ordinary_frame (frame f) = elim (coalescible_frame_kind f) [ none ↦ f ∷ [] | some kind ↦ [] ]
ordinary_frame (screen_update f) = []
ordinary_frame (pane_update k focused f) = []

abbrev pub ordinary : List OutboundMessage → List Frame
ordinary [] = []
ordinary (m ∷ ms) = ordinary_frame m ++ ordinary ms

push_frame-Appends :
    (f : Frame) (s : Collecting) → Appends (ordinary_frame (frame f)) s (push_frame f s)
unfolding push_frame
push_frame-Appends f s = elim (Option-cases (coalescible_frame_kind f)) [
  | inr (kind, e) ↦ rw (e, push_frame, ordinary_frame) (nothing_sent s)
  | inl e ↦ elim (Bool-cases (priority_frame f)) [
    | inl first ↦
        rw (e, first, push_frame, ordinary_frame)
          (emit-Appends f s (flush_control s) (flush_control-Appends s))
    | inr other ↦
        rw (e, other, push_frame, ordinary_frame)
          (emit-Appends f s (flush_pane_updates (flush_control s)) (flushed-Appends s))
  ]
]

-- fewer frames may be asked for
Appends-fewer : (f : Frame) (s t : Collecting) → Appends (f ∷ []) s t → Appends [] s t
Appends-fewer f s t (gs, e, h) = (gs, e, tt)

push_screen-Appends :
    (coalesce : Bool) (f : Frame) (s : Collecting) → Appends [] s (push_screen coalesce f s)
unfolding push_screen flush_control
push_screen-Appends true f s = nothing_sent s
push_screen-Appends false f s =
    let t : Collecting = record s { screen_updates = next_64 s.screen_updates } in
    let c = flush_control t in
    let u = flush_screen c in
    let flushed : Appends [] s u =
      Appends-trans [] [] s c u (flush_control-Appends t) (flush_screen-Appends c) in
    Appends-fewer f s (emit f u) (emit-Appends f s u flushed)

push_pane-Appends :
    (coalesce : Bool) (k : ℕ) (focused : Bool) (f : Frame) (s : Collecting)
    → Appends [] s (push_pane coalesce k focused f s)
unfolding push_pane
push_pane-Appends coalesce k true f s = nothing_sent s
push_pane-Appends true k false f s = nothing_sent s
push_pane-Appends false k false f s =
    let t = flush_pane_updates (flush_control s) in
    Appends-fewer f s (emit f t) (emit-Appends f s t (flushed-Appends s))

push-Appends :
    (coalesce : Bool) (s : Collecting) (m : OutboundMessage)
    → Appends (ordinary_frame m) s (push coalesce s m)
unfolding push
push-Appends coalesce s (frame f) =
    push_frame-Appends f (record s { message_count = next_64 s.message_count })
push-Appends coalesce s (screen_update f) =
    push_screen-Appends coalesce f (record s { message_count = next_64 s.message_count })
push-Appends coalesce s (pane_update k focused f) =
    push_pane-Appends coalesce k focused f (record s { message_count = next_64 s.message_count })

push_all-Appends :
    (coalesce : Bool) (s : Collecting) (ms : List OutboundMessage)
    → Appends (ordinary ms) s (push_all coalesce s ms)
unfolding push_all
push_all-Appends coalesce s [] = nothing_sent s
push_all-Appends coalesce s (m ∷ ms) =
    let t = push coalesce s m in
    Appends-trans (ordinary_frame m) (ordinary ms) s t (push_all coalesce t ms)
      (push-Appends coalesce s m) (push_all-Appends coalesce t ms)

-- A batch sends the control frames that cannot be coalesced, all of them and in the order in which
-- they came; other frames may stand between them.
pub collect_outbound_batch-InOrder :
    (first : OutboundMessage) (rest : List OutboundMessage) (coalesce : Bool)
    → InOrder (ordinary (first ∷ rest)) (collect_outbound_batch first rest coalesce).frames
unfolding collect_outbound_batch finish
collect_outbound_batch-InOrder first rest coalesce =
    let s = push_all coalesce collecting (first ∷ rest) in
    let sent =
      Appends-trans (ordinary (first ∷ rest)) [] collecting s (flush_pane_updates (flush_control s))
        (push_all-Appends coalesce collecting (first ∷ rest)) (flushed-Appends s) in
    let (gs, e, h) = sent in rw e (rw (append-nil (ordinary (first ∷ rest))) at h)
