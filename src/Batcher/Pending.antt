-- ===== src/Batcher/Pending.antt =====
-- The frames that wait in src/remote_batcher.rs: what `set` and `take_all` do to them.
use boo.Base.{
  ℕ, suc, ◌+◌, ◌^◌, ◌<◌, ◌≡◌, refl, sym, ap, ◌∙◌, inl, inr, true, false, Option, none, some, List,
  [], ◌∷◌, ◌++◌, map, arith, length, length-append, is_some, if◌then◌else◌, Bool-cases,
  Option-cases,
}
use boo.Batcher.{
  Frame, CoalescibleFrameKind, tab_lists, runtime_states, appearances, same_kind,
  PendingOutboundFrames, slot, with_slot, has_kind, push_kind_once, set_control, drain_control,
  PendingPaneFrames, find_frame, insert_frame, remove_frame, set_pane, drain_panes, take_all_panes,
}

abbrev pub keys : List (ℕ × Frame) → List ℕ
keys = map λ e. e.0

abbrev pub values : List (ℕ × Frame) → List Frame
values = map λ e. e.1

-- The order of the panes is that of the keys in the map.
abbrev pub IsOrder : PendingPaneFrames → Type 0
IsOrder p = keys p.frames ≡ p.order

remove_frame-head : (k : ℕ) (f : Frame) (m : List (ℕ × Frame)) → remove_frame k ((k, f) ∷ m) ≡ m
remove_frame-head k f m = ground arith

drain_panes-keys : (m : List (ℕ × Frame)) → drain_panes (keys m) m ≡ (values m, [])
unfolding drain_panes
drain_panes-keys [] = refl
drain_panes-keys ((k, f) ∷ m) = ground (arith, remove_frame-head k f m, drain_panes-keys m)

-- Taking all gives the frames in the order of the panes, and leaves none.
pub take_all_panes_lem :
    (p : PendingPaneFrames)
    → IsOrder p
    → take_all_panes p
      ≡ (values p.frames, record { order = []; frames = []; coalesced = p.coalesced })
unfolding take_all_panes
take_all_panes_lem p h =
    ap
      (λ (ks : List ℕ). (
        (drain_panes ks p.frames).0,
        record { order = []; frames = (drain_panes ks p.frames).1; coalesced = p.coalesced },
      ))
      (sym h)
    ∙ ap
        (λ (x : List Frame × List (ℕ × Frame)).
          (x.0, record { order = []; frames = x.1; coalesced = p.coalesced }))
        (drain_panes-keys p.frames)

keys-insert_frame :
    (k : ℕ) (f : Frame) (m : List (ℕ × Frame))
    → keys (insert_frame k f m) ≡ (if is_some (find_frame k m) then keys m else keys m ++ (k ∷ []))
keys-insert_frame k f [] = refl
keys-insert_frame k f ((j, g) ∷ m) = ground (arith, keys-insert_frame k f m)

pub set_pane-IsOrder :
    (p : PendingPaneFrames) (k : ℕ) (f : Frame) → IsOrder p → IsOrder (set_pane p k f)
unfolding set_pane
set_pane-IsOrder p k f h = ground (arith, keys-insert_frame k f p.frames, h)

pub length-set_pane :
    (p : PendingPaneFrames) (k : ℕ) (f : Frame)
    → p.coalesced + 1 < 2 ^ 64
    → length (set_pane p k f).order + (set_pane p k f).coalesced
      ≡ suc (length p.order + p.coalesced)
unfolding set_pane
length-set_pane p k f h = ground (arith, length-append p.order (k ∷ []), h)

-- how often a kind stands in an order
abbrev pub count_kind : CoalescibleFrameKind → List CoalescibleFrameKind → ℕ
count_kind k [] = 0
count_kind k (j ∷ js) = (if same_kind j k then 1 else 0) + count_kind k js

-- Each kind whose slot is full stands in the order once, and no other does.
abbrev pub Counted : List CoalescibleFrameKind → PendingOutboundFrames → Type 0
Counted ks p = (k : CoalescibleFrameKind) → count_kind k ks ≡ (if is_some (slot p k) then 1 else 0)

pub slot-with_slot :
    (p : PendingOutboundFrames) (j k : CoalescibleFrameKind) (f : Option Frame)
    → slot (with_slot p j f) k ≡ (if same_kind j k then f else slot p k)
slot-with_slot p tab_lists tab_lists f = refl
slot-with_slot p tab_lists runtime_states f = refl
slot-with_slot p tab_lists appearances f = refl
slot-with_slot p runtime_states tab_lists f = refl
slot-with_slot p runtime_states runtime_states f = refl
slot-with_slot p runtime_states appearances f = refl
slot-with_slot p appearances tab_lists f = refl
slot-with_slot p appearances runtime_states f = refl
slot-with_slot p appearances appearances f = refl

order-with_slot :
    (p : PendingOutboundFrames) (j : CoalescibleFrameKind) (f : Option Frame)
    → (with_slot p j f).order ≡ p.order
order-with_slot p tab_lists f = refl
order-with_slot p runtime_states f = refl
order-with_slot p appearances f = refl

pub same_kind_refl : (k : CoalescibleFrameKind) → same_kind k k ≡ true
same_kind_refl tab_lists = refl
same_kind_refl runtime_states = refl
same_kind_refl appearances = refl

Counted-tail :
    (j : CoalescibleFrameKind) (ks : List CoalescibleFrameKind) (p : PendingOutboundFrames)
    → Counted (j ∷ ks) p
    → Counted ks (with_slot p j none)
Counted-tail j ks p h k = elim (Bool-cases (same_kind j k)) [
  | inl same ↦
      let e : slot (with_slot p j none) k ≡ none = rw same at (slot-with_slot p j k none) in
      ground (arith, h k, same, e)
  | inr other ↦
      let e : slot (with_slot p j none) k ≡ slot p k = rw other at (slot-with_slot p j k none) in
      ground (arith, h k, other, e)
]

Counted-head :
    (j : CoalescibleFrameKind) (ks : List CoalescibleFrameKind) (p : PendingOutboundFrames)
    → Counted (j ∷ ks) p
    → (f : Frame) × (slot p j ≡ some f)
Counted-head j ks p h = elim (Option-cases (slot p j)) [
  | inl e ↦ absurd (ground (arith, h j, same_kind_refl j, e))
  | inr (f, e) ↦ (f, e)
]

has_kind_count :
    (k : CoalescibleFrameKind) (ks : List CoalescibleFrameKind)
    → has_kind k ks ≡ false
    → count_kind k ks ≡ 0
has_kind_count k [] h = refl
has_kind_count k (j ∷ js) h = ground (arith, has_kind_count k js, h)

count_has_kind :
    (k : CoalescibleFrameKind) (ks : List CoalescibleFrameKind)
    → has_kind k ks ≡ true
    → 0 < count_kind k ks
count_has_kind k [] h = absurd (ground arith)
count_has_kind k (j ∷ js) h = ground (arith, count_has_kind k js, h)

-- Draining a counted order empties every slot, and takes as many frames as there are kinds.
pub drain_control_lem :
    (ks : List CoalescibleFrameKind) (p : PendingOutboundFrames)
    → Counted ks p
    → (length (drain_control ks p).0 ≡ length ks)
      × ((drain_control ks p).1.order ≡ p.order)
      × Counted [] (drain_control ks p).1
unfolding drain_control
drain_control_lem [] p h = (refl, refl, h)
drain_control_lem (j ∷ ks) p h =
    let (f, e) = Counted-head j ks p h in
    let (sizes, order, left) = drain_control_lem ks (with_slot p j none) (Counted-tail j ks p h) in
    rw (e, drain_control) (ap suc sizes, order ∙ order-with_slot p j none, left)

pub same_kind-eq : (j k : CoalescibleFrameKind) → same_kind j k ≡ true → j ≡ k
same_kind-eq tab_lists tab_lists h = refl
same_kind-eq tab_lists runtime_states h = absurd (ground arith)
same_kind-eq tab_lists appearances h = absurd (ground arith)
same_kind-eq runtime_states tab_lists h = absurd (ground arith)
same_kind-eq runtime_states runtime_states h = refl
same_kind-eq runtime_states appearances h = absurd (ground arith)
same_kind-eq appearances tab_lists h = absurd (ground arith)
same_kind-eq appearances runtime_states h = absurd (ground arith)
same_kind-eq appearances appearances h = refl

pub slot-order :
    (p : PendingOutboundFrames) (ks : List CoalescibleFrameKind) (k : CoalescibleFrameKind)
    → slot (record p { order = ks }) k ≡ slot p k
slot-order p ks tab_lists = refl
slot-order p ks runtime_states = refl
slot-order p ks appearances = refl

count_kind-append :
    (k : CoalescibleFrameKind) (xs ys : List CoalescibleFrameKind)
    → count_kind k (xs ++ ys) ≡ count_kind k xs + count_kind k ys
count_kind-append k [] ys = omega arith
count_kind-append k (x ∷ xs) ys = omega (arith, count_kind-append k xs ys)

-- the order after `set` of a kind, and its slots
order-set_control :
    (p : PendingOutboundFrames) (k : CoalescibleFrameKind) (f : Frame)
    → (set_control p k f).order ≡ (if has_kind k p.order then p.order else p.order ++ (k ∷ []))
unfolding set_control push_kind_once
order-set_control p k f = order-with_slot (push_kind_once p k) k (some f)

pub slot-set_control :
    (p : PendingOutboundFrames) (j k : CoalescibleFrameKind) (f : Frame)
    → slot (set_control p j f) k ≡ (if same_kind j k then some f else slot p k)
unfolding set_control push_kind_once
slot-set_control p j k f =
    slot-with_slot (push_kind_once p j) j k (some f)
    ∙ ap (λ (o : Option Frame). if same_kind j k then some f else o)
        (slot-order p (if has_kind j p.order then p.order else p.order ++ (j ∷ [])) k)

count-set_control :
    (p : PendingOutboundFrames) (j k : CoalescibleFrameKind)
    → Counted p.order p
    → count_kind k (if has_kind j p.order then p.order else p.order ++ (j ∷ []))
      ≡ (if same_kind j k then 1 else if is_some (slot p k) then 1 else 0)
count-set_control p j k h = elim (Bool-cases (same_kind j k)) [
  | inl same ↦ ground (
    arith,
    ap (λ i. count_kind i p.order) (same_kind-eq j k same),
    h k,
    has_kind_count j p.order,
    count_has_kind j p.order,
    count_kind-append k p.order (j ∷ []),
  )
  | inr other ↦ ground (arith, h k, count_kind-append k p.order (j ∷ []), other)
]

-- `set` of a kind keeps the order counted, and lengthens it unless the kind was there.
pub set_control_lem :
    (p : PendingOutboundFrames) (k : CoalescibleFrameKind) (f : Frame)
    → Counted p.order p
    → (length (set_control p k f).order
        ≡ (if is_some (slot p k) then length p.order else suc (length p.order)))
      × Counted (set_control p k f).order (set_control p k f)
set_control_lem p k f h = (
  ground (
    arith,
    ap length (order-set_control p k f),
    length-append p.order (k ∷ []),
    h k,
    has_kind_count k p.order,
    count_has_kind k p.order,
  ),
  λ j. ground (
    arith,
    ap (count_kind j) (order-set_control p k f),
    count-set_control p k j h,
    slot-set_control p k j f,
  ),
)
