-- ===== src/Splits/Rebuilding.antt =====
-- `rebuild_from_panes` of src/splits.rs, and panes under the ids 0, 1, 2 and so on.
use boo.Base.{
  ℕ, suc, ◌+◌, ◌-◌, ◌%◌, ◌^◌, ◌<◌, ◌≤◌, ◌≡◌, refl, sym, ap, ◌∙◌, true, Option, some, List, [], ◌∷◌,
  ◌++◌, append_assoc, append-nil, ap₂, arith, length, length-append, count, IsUnique, inr, next_64,
  get_elem?, unwrap_or, ◌⊎◌, inl, none, false, ◌==◌, Option-cases, Bool-cases, eq_of_==,
}
use boo.Double.{Double}
use boo.Pane.{PaneHandle}
use boo.Splits.Node.{Node, leaf, Direction, vertical, split_node_with_ratio}
use boo.Splits.Entries.{
  Entry, ids, panes, insert_after, find, find_pane, find-find_pane, count-find_pane,
}
use boo.Splits.Leaves.{
  leaves, leaves-split_node_with_ratio, find_leaf_id_by_pane-eq-find_pane, find_leaf-eq-find,
}
use boo.Splits.Tree.{
  SplitTree, tree, rebuild_loop, rebuild_from_panes, focus_rebuilt, set_focus_to_pane, focused_pane,
}
use boo.Splits.Invariant.{IsValid, entries}

-- panes under consecutive ids
abbrev pub numbered : ℕ → List PaneHandle → List Entry
numbered k [] = []
numbered k (p ∷ ps) = (k, p) ∷ numbered (suc k) ps

pub panes-numbered : (k : ℕ) (ps : List PaneHandle) → panes (numbered k ps) ≡ ps
panes-numbered k [] = refl
panes-numbered k (p ∷ ps) = ap (λ l. p ∷ l) (panes-numbered (suc k) ps)

pub count-numbered :
    (a k : ℕ) (ps : List PaneHandle)
    → count a (ids (numbered k ps)) ≤ 1
      × (a < k → count a (ids (numbered k ps)) ≡ 0)
      × (k + length ps ≤ a → count a (ids (numbered k ps)) ≡ 0)
      × (k ≤ a → a < k + length ps → 0 < count a (ids (numbered k ps)))
count-numbered a k [] = omega arith
count-numbered a k (p ∷ ps) = ground (arith, count-numbered a (suc k) ps)

insert_last :
    (k n : ℕ) (p q : PaneHandle) (ps : List PaneHandle)
    → n ≡ k + length ps
    → insert_after n (suc n, q) (numbered k (p ∷ ps)) ≡ numbered k (p ∷ ps ++ q ∷ [])
insert_last k n p q [] h = ground arith
insert_last k n p q (p' ∷ ps) h = ground (arith, insert_last (suc k) n p' q ps)

find_pane_missing :
    (k i : ℕ) (es : List Entry) {p : PaneHandle}
    → find_pane k es ≡ none
    → find i es ≡ some p
    → (p.id == k) ≡ false
find_pane_missing k i [] h g = cc
find_pane_missing k i ((j, q) ∷ es) {p} h g = ground (arith, find_pane_missing k i es {p = p})

module _ {F : Type 0} ⦃d : Double F⦄ where
  rebuild_loop_lem :
      (root : Node F) (n idx : ℕ) (p : PaneHandle) (ps rest : List PaneHandle)
      (splits : List (Direction × F))
      → leaves root ≡ numbered 0 (p ∷ ps)
      → n ≡ suc (length ps)
      → n + length rest < 2 ^ 64
      → (leaves (rebuild_loop root n idx rest splits).0 ≡ numbered 0 (p ∷ ps ++ rest))
        × ((rebuild_loop root n idx rest splits).1 ≡ n + length rest)
  unfolding rebuild_loop
  rebuild_loop_lem root n idx p ps [] splits e h b =
      (e ∙ ap (λ l. numbered 0 (p ∷ l)) (sym (append-nil ps)), omega arith)
  rebuild_loop_lem root n idx p ps (q ∷ rest) splits e h b =
      let (dir, ratio) = unwrap_or (get_elem? splits (idx - 1)) (vertical, d.half) in
      let target = (n + 2 ^ 64 - 1) % 2 ^ 64 in
      let root' = split_node_with_ratio root target dir n q ratio in
      let grown : leaves root' ≡ numbered 0 (p ∷ ps ++ q ∷ []) =
        leaves-split_node_with_ratio root target dir n q ratio
        ∙ ap (insert_after target (n, q)) e
        ∙ ap₂ (λ t m. insert_after t (m, q) (numbered 0 (p ∷ ps)))
            (let e' : target ≡ length ps = omega arith in e') h
        ∙ insert_last 0 (length ps) p q ps (omega arith) in
      let x =
        rebuild_loop_lem root' (next_64 n) (idx + 1) p (ps ++ q ∷ []) rest splits grown
          (omega (arith, length-append ps (q ∷ []))) (omega arith) in
      (x.0 ∙ ap (λ l. numbered 0 (p ∷ l)) (append_assoc ps (q ∷ []) rest), omega (arith, x.1))

  entries-focus_rebuilt : (t : SplitTree F) (k : ℕ) → entries (focus_rebuilt t k) ≡ entries t
  unfolding focus_rebuilt set_focus_to_pane
  entries-focus_rebuilt t k = go t.root t.next_id t.focused_id
    where
      go :
          (r : Option (Node F)) (n f : ℕ)
          → entries (focus_rebuilt (tree r n f) k) ≡ entries (tree r n f)
      go none n f = ground arith
      go (some root) n f = ground arith

  focus_rebuilt_found :
      (root : Node F) (n f k : ℕ) {i : ℕ}
      → IsUnique (ids (leaves root))
      → find_pane k (leaves root) ≡ some i
      → focus_rebuilt (tree (some root) n f) k ≡ tree (some root) n i
  unfolding focus_rebuilt set_focus_to_pane focused_pane
  focus_rebuilt_found root n f k {i} u h =
      let (p, found, same) = find-find_pane k (leaves root) u h in
      ground
        (arith, find_leaf_id_by_pane-eq-find_pane root k, find_leaf-eq-find root i, found, same)

  numbered-IsValid :
      (root : Node F) (n i : ℕ) (ps : List PaneHandle)
      → leaves root ≡ numbered 0 ps
      → n ≡ length ps
      → n < 2 ^ 64
      → 0 < count i (ids (leaves root))
      → IsValid (tree (some root) n i)
  numbered-IsValid root n i ps e h b c = record {
    unique = λ a. rw e (omega (arith, count-numbered a 0 ps));
    fresh = λ a le. rw e ((count-numbered a 0 ps).2 (omega arith));
    bounded = b;
    focused = inr c;
  }

  -- The case of a list with a pane that has the id to focus.
  pub rebuild_found :
      (t : SplitTree F) (p : PaneHandle) (rest : List PaneHandle) (splits : List (Direction × F))
      (k : ℕ) {i : ℕ}
      → length (p ∷ rest) < 2 ^ 64
      → find_pane k (numbered 0 (p ∷ rest)) ≡ some i
      → (entries (rebuild_from_panes t (p ∷ rest) splits k).0 ≡ numbered 0 (p ∷ rest))
        × ((rebuild_from_panes t (p ∷ rest) splits k).0.focused_id ≡ i)
        × ((rebuild_from_panes t (p ∷ rest) splits k).1 ≡ true)
        × IsValid (rebuild_from_panes t (p ∷ rest) splits k).0
  unfolding rebuild_from_panes
  rebuild_found t p rest splits k {i} b h =
      let x = rebuild_loop_lem (leaf 0 p) 1 1 p [] rest splits refl refl (omega arith) in
      let root = (rebuild_loop (leaf 0 p) 1 1 rest splits).0 in
      let n = (rebuild_loop (leaf 0 p) 1 1 rest splits).1 in
      let found = ap (find_pane k) x.0 ∙ h in
      let unique : IsUnique (ids (leaves root)) =
        λ a. rw (x.0) (omega (arith, count-numbered a 0 (p ∷ rest))) in
      let e = focus_rebuilt_found root n t.focused_id k unique found in
      (
        ap entries e ∙ x.0,
        ap (λ u. u.focused_id) e,
        refl,
        rw e (
            numbered-IsValid root n i (p ∷ rest) x.0 (omega (arith, x.1)) (omega (arith, x.1))
              (count-find_pane k (leaves root) found)),
      )

  -- Whether a pane of the list gets the focus: the first with the id, or else leaf 0. The id 0 is
  -- that of the null pane, which stands for a focus on no leaf.
  abbrev pub Focused : SplitTree F → ℕ → List PaneHandle → Type 0
  Focused t k ps =
      ((i : ℕ) × (find_pane k (numbered 0 ps) ≡ some i) × (t.focused_id ≡ i) × IsValid t)
      ⊎ (find_pane k (numbered 0 ps) ≡ none) × ((k ≡ 0) ⊎ ((t.focused_id ≡ 0) × IsValid t))

  focus_rebuilt_missing :
      (root : Node F) (n f k : ℕ)
      → find_pane k (leaves root) ≡ none
      → (0 == k) ≡ false
      → focus_rebuilt (tree (some root) n f) k ≡ tree (some root) n 0
  unfolding focus_rebuilt set_focus_to_pane focused_pane
  focus_rebuilt_missing root n f k h positive = elim (Option-cases (find f (leaves root))) [
    | inl gone ↦
        ground (
          arith,
          find_leaf_id_by_pane-eq-find_pane root k,
          find_leaf-eq-find root f,
          gone,
          positive,
        )
    | inr (p, there) ↦ ground (
      arith,
      find_leaf_id_by_pane-eq-find_pane root k,
      find_leaf-eq-find root f,
      there,
      find_pane_missing k f (leaves root) {p = p} h there,
    )
  ]

  rebuild_entries :
      (t : SplitTree F) (p : PaneHandle) (rest : List PaneHandle) (splits : List (Direction × F))
      (k : ℕ)
      → length (p ∷ rest) < 2 ^ 64
      → entries (rebuild_from_panes t (p ∷ rest) splits k).0 ≡ numbered 0 (p ∷ rest)
  unfolding rebuild_from_panes
  rebuild_entries t p rest splits k b =
      let x = rebuild_loop_lem (leaf 0 p) 1 1 p [] rest splits refl refl (omega arith) in
      let root = (rebuild_loop (leaf 0 p) 1 1 rest splits).0 in
      let n = (rebuild_loop (leaf 0 p) 1 1 rest splits).1 in
      entries-focus_rebuilt (tree (some root) n t.focused_id) k ∙ x.0

  rebuild_missing :
      (t : SplitTree F) (p : PaneHandle) (rest : List PaneHandle) (splits : List (Direction × F))
      (k : ℕ)
      → length (p ∷ rest) < 2 ^ 64
      → find_pane k (numbered 0 (p ∷ rest)) ≡ none
      → (0 == k) ≡ false
      → ((rebuild_from_panes t (p ∷ rest) splits k).0.focused_id ≡ 0)
        × IsValid (rebuild_from_panes t (p ∷ rest) splits k).0
  unfolding rebuild_from_panes
  rebuild_missing t p rest splits k b h positive =
      let x = rebuild_loop_lem (leaf 0 p) 1 1 p [] rest splits refl refl (omega arith) in
      let root = (rebuild_loop (leaf 0 p) 1 1 rest splits).0 in
      let n = (rebuild_loop (leaf 0 p) 1 1 rest splits).1 in
      let e = focus_rebuilt_missing root n t.focused_id k (ap (find_pane k) x.0 ∙ h) positive in
      let first : 0 < count 0 (ids (leaves root)) =
        rw (x.0) ((count-numbered 0 0 (p ∷ rest)).3 (omega arith) (omega arith)) in
      (
        ap (λ u. u.focused_id) e,
        rw e (
            numbered-IsValid root n 0 (p ∷ rest) x.0 (omega (arith, x.1)) (omega (arith, x.1))
              first),
      )

  -- A tree rebuilt from a list of at least one and fewer than 2 ^ 64 panes has these panes in the
  -- given order under the ids 0, 1, 2 and so on, whatever the splits are, and the method reports
  -- success. Either a pane has the id to focus, and then the first such pane has the focus and the
  -- tree is valid; or none has, and then that id is 0, or leaf 0 has the focus and the tree is
  -- valid.
  pub rebuild_from_panes_lem :
      (t : SplitTree F) (p : PaneHandle) (rest : List PaneHandle) (splits : List (Direction × F))
      (k : ℕ)
      → length (p ∷ rest) < 2 ^ 64
      → (entries (rebuild_from_panes t (p ∷ rest) splits k).0 ≡ numbered 0 (p ∷ rest))
        × ((rebuild_from_panes t (p ∷ rest) splits k).1 ≡ true)
        × Focused (rebuild_from_panes t (p ∷ rest) splits k).0 k (p ∷ rest)
  unfolding rebuild_from_panes
  rebuild_from_panes_lem t p rest splits k b = (
    rebuild_entries t p rest splits k b,
    refl,
    elim (Option-cases (find_pane k (numbered 0 (p ∷ rest)))) [
      | inr (i, found) ↦ let x = rebuild_found t p rest splits k b found in inl (i, found, x.1, x.3)
      | inl missing ↦ elim (Bool-cases (0 == k)) [
        | inl zero_id ↦ inr (missing, inl (sym (eq_of_== 0 k zero_id)))
        | inr positive ↦ inr (missing, inr (rebuild_missing t p rest splits k b missing positive))
      ]
    ],
  )
