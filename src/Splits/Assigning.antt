-- ===== src/Splits/Assigning.antt =====
-- Functions of src/splits.rs that put panes into existing leaves: swapping and reassigning.
use boo.Base.{
  ℕ, ◌+◌, ◌%◌, ◌^◌, ◌<◌, ◌≤◌, ◌≡◌, refl, sym, ap, ◌∙◌, true, none, some, List, [], ◌∷◌, ◌++◌, map,
  map-append, arith, length, length-append, length-map, get_or, position, contains, contains-append,
  count, IsUnique, Option-cases, inl, inr, position-none, ap₂,
}
use boo.Pane.{PaneHandle, null}
use boo.Splits.Node.{
  Node, leaf, split, find_leaf, set_leaf_pane, swap_leaf_panes, assign_leaf_panes_inner,
  assign_leaf_panes,
}
use boo.Splits.Entries.{
  Entry, ids, panes, find, put, ids-append, put-append_found, put-append_missing, put_missing,
  ids-put, find-contains,
}
use boo.Splits.Leaves.{leaves, find_leaf-eq-find}

-- The pane that `assign_leaf_panes_inner` gives to a leaf.
abbrev pub reassign : List ℕ → List PaneHandle → Entry → Entry
reassign is qs (i, p) = elim (position i is) [ none ↦ (i, p) | some k ↦ (i, get_or qs k null) ]

abbrev Known : List ℕ → List Entry → Type 0
Known is [] = Unit {0}
Known is (e ∷ es) = (0 < count e.0 is) × Known is es

count-head : (a : ℕ) (xs : List ℕ) → 0 < count a (a ∷ xs)
count-head a xs = ground arith

Known-split : (is : List ℕ) (xs ys : List Entry) → Known is (xs ++ ys) → Known is xs × Known is ys
Known-split is [] ys k = (tt, k)
Known-split is (x ∷ xs) ys k = let (a, b) = Known-split is xs ys k.1 in ((k.0, a), b)

Known-self :
    (is : List ℕ) (es : List Entry) → ((a : ℕ) → count a (ids es) ≤ count a is) → Known is es
Known-self is [] h = tt
Known-self is ((i, p) ∷ es) h =
    (omega (arith, h i, count-head i (ids es)), Known-self is es (λ a. omega (arith, h a)))

ids-reassign :
    (is : List ℕ) (qs : List PaneHandle) (es : List Entry) → ids (map (reassign is qs) es) ≡ ids es
ids-reassign is qs [] = refl
ids-reassign is qs ((i, p) ∷ es) = ground (arith, ids-reassign is qs es)

reassign_skip :
    (i : ℕ) (is : List ℕ) (q : PaneHandle) (qs : List PaneHandle) (es : List Entry)
    → count i (ids es) ≡ 0
    → map (reassign (i ∷ is) (q ∷ qs)) es ≡ map (reassign is qs) es
reassign_skip i is q qs [] h = refl
reassign_skip i is q qs ((j, p) ∷ es) h = ground (arith, reassign_skip i is q qs es)

reassign_head :
    (i : ℕ) (p : PaneHandle) (is : List ℕ) (q : PaneHandle) (qs : List PaneHandle)
    → (reassign (i ∷ is) (q ∷ qs) (i, p)).1 ≡ q
reassign_head i p is q qs = ground arith

-- With the leaves' own ids, distinct, the panes come in the given order.
pub panes-reassign :
    (es : List Entry) (qs : List PaneHandle)
    → IsUnique (ids es)
    → length qs ≡ length es
    → panes (map (reassign (ids es) qs) es) ≡ qs
panes-reassign [] [] u h = refl
panes-reassign [] (q ∷ qs) u h = absurd (omega arith)
panes-reassign ((i, p) ∷ es) [] u h = absurd (omega arith)
panes-reassign ((i, p) ∷ es) (q ∷ qs) u h =
    let alone : count i (ids es) ≡ 0 = ground (arith, u i) in
    let tail = panes-reassign es qs (λ a. omega (arith, u a)) (omega arith) in
    ap₂ (λ x xs. x ∷ xs) (reassign_head i p (ids es) q qs)
      (ap panes (reassign_skip i (ids es) q qs es alone) ∙ tail)

module _ {F : Type 0} where
  leaves-set_leaf_pane :
      (node : Node F) (i : ℕ) (q : PaneHandle)
      → (leaves (set_leaf_pane node i q).0 ≡ put i q (leaves node))
        × ((set_leaf_pane node i q).1 ≡ contains i (ids (leaves node)))
  unfolding set_leaf_pane
  leaves-set_leaf_pane (leaf j p) i q = (ground arith, ground arith)
  leaves-set_leaf_pane (split dir r first second) i q =
      let u = leaves-set_leaf_pane first i q in
      let v = leaves-set_leaf_pane second i q in
      (
        ground (
          arith,
          u.0,
          u.1,
          v.0,
          put-append_found i q (leaves first) (leaves second),
          put-append_missing i q (leaves first) (leaves second),
          put_missing i q (leaves first),
        ),
        ground (
          arith,
          u.1,
          v.1,
          ap (contains i) (ids-append (leaves first) (leaves second)),
          contains-append i (ids (leaves first)) (ids (leaves second)),
        ),
      )

  -- `swap_leaf_panes` of two leaves that are there gives each the pane of the other, keeps every
  -- other leaf, and reports success.
  pub swap_leaf_panes_lem :
      (node : Node F) (a b : ℕ) {p q : PaneHandle}
      → find a (leaves node) ≡ some p
      → find b (leaves node) ≡ some q
      → (leaves (swap_leaf_panes node a b).0 ≡ put b p (put a q (leaves node)))
        × ((swap_leaf_panes node a b).1 ≡ true)
  unfolding swap_leaf_panes
  swap_leaf_panes_lem node a b {p} {q} ha hb = ground (
    arith,
    find_leaf-eq-find node a,
    find_leaf-eq-find node b,
    leaves-set_leaf_pane node a q,
    leaves-set_leaf_pane (set_leaf_pane node a q).0 b p,
    find-contains a (leaves node) ha,
    find-contains b (leaves node) hb,
    ids-put a q (leaves node),
  )

  assign_inner :
      (node : Node F) (is : List ℕ) (qs : List PaneHandle) (n : ℕ)
      → n < 2 ^ 64
      → Known is (leaves node)
      → (leaves (assign_leaf_panes_inner node is qs n).0 ≡ map (reassign is qs) (leaves node))
        × ((assign_leaf_panes_inner node is qs n).1 ≡ (n + length (leaves node)) % 2 ^ 64)
  unfolding assign_leaf_panes_inner
  assign_inner (leaf i p) is qs n h k = ground (arith, position-none i is)
  assign_inner (split dir r first second) is qs n h k =
      let (known, known') = Known-split is (leaves first) (leaves second) k in
      let u = assign_inner first is qs n h known in
      let m = (assign_leaf_panes_inner first is qs n).1 in
      let v = assign_inner second is qs m (omega arith) known' in
      (
        ap₂ (λ xs ys. xs ++ ys) u.0 v.0
            ∙ sym (map-append (reassign is qs) (leaves first) (leaves second)),
        omega (arith, u.1, v.1, length-append (leaves first) (leaves second)),
      )

  -- New panes for all leaves, in their order, replace the old ones and leave the ids.
  pub assign_leaf_panes_lem :
      (node : Node F) (qs : List PaneHandle)
      → IsUnique (ids (leaves node))
      → length qs ≡ length (leaves node)
      → (panes (leaves (assign_leaf_panes node (ids (leaves node)) qs).0) ≡ qs)
        × (ids (leaves (assign_leaf_panes node (ids (leaves node)) qs).0) ≡ ids (leaves node))
        × (length qs < 2 ^ 64 → (assign_leaf_panes node (ids (leaves node)) qs).1 ≡ true)
  unfolding assign_leaf_panes
  assign_leaf_panes_lem node qs u h =
      let es = leaves node in
      let known = Known-self (ids es) es (λ a. omega arith) in
      let x = assign_inner node (ids es) qs 0 (omega arith) known in
      let size = length-map {0, 0} (λ (e : Entry). e.0) es in
      (
        ground (arith, size, x.0, panes-reassign es qs u h),
        ground (arith, size, x.0, ids-reassign (ids es) qs es),
        λ b. ground (arith, size, x.1, b),
      )

  -- The swap keeps the leaf ids, whatever it finds.
  pub ids-swap_leaf_panes :
      (node : Node F) (a b : ℕ) → ids (leaves (swap_leaf_panes node a b).0) ≡ ids (leaves node)
  unfolding swap_leaf_panes
  ids-swap_leaf_panes node a b = elim (Option-cases (find_leaf node a)) [
    | inl e ↦ rw (e, swap_leaf_panes)
    | inr (p, e) ↦ elim (Option-cases (find_leaf node b)) [
      | inl e' ↦ rw (e, swap_leaf_panes, e')
      | inr (q, e') ↦ ground (
        arith,
        e,
        e',
        (leaves-set_leaf_pane node a q).0,
        (leaves-set_leaf_pane (set_leaf_pane node a q).0 b p).0,
        ids-put a q (leaves node),
        ids-put b p (leaves (set_leaf_pane node a q).0),
      )
    ]
  ]
