-- ===== src/Splits/Arranging.antt =====
-- The methods of src/splits.rs that arrange the panes of a tree anew.
use boo.Base.{
  ℕ, suc, ◌^◌, ◌<◌, ◌≤◌, ◌≡◌, refl, sym, ap, ◌∙◌, inl, inr, Bool, Option, none, some, List, [], ◌∷◌,
  arith, length, length-map, count, ◌==◌, ltb, Option-cases, Bool-cases, position, position_lt,
  dec_lt, get_or,
}
use boo.Double.{Double}
use boo.Pane.{PaneHandle}
use boo.Splits.Node.{Node, Direction, find_leaf, collect_leaf_ids, assign_leaf_panes}
use boo.Splits.Entries.{Entry, ids, panes, find, find_pane, find-count}
use boo.Splits.Leaves.{leaves, find_leaf-eq-find, leaves-rebalance_node, collect_panes-eq-panes}
use boo.Splits.Tree.{
  SplitTree, tree, all_panes, focused_pane, set_focus_to_pane, rotate_panes,
  swap_focused_with_adjacent, rebuild_from_panes, rebalance, neighbour, rotated,
}
use boo.Splits.Invariant.{
  IsValid, entries, focus_found, root_changed, set_focus_to_pane-IsValid, count-leaf_at,
}
use boo.Splits.Counting.{tree_count, count_panes, pane_ids, count-rotated, count_panes-swap}
use boo.Splits.Assigning.{swap_leaf_panes_lem, ids-swap_leaf_panes}
use boo.Splits.Rotation.{rotate_few, rotate_root, rotate_panes_root}
use boo.Splits.Rebuilding.{numbered, panes-numbered, rebuild_found}
use boo.Splits.Moves.{neighbour_lt, size_ids}

size_of_ids : (xs ys : List Entry) → ids xs ≡ ids ys → length xs ≡ length ys
size_of_ids xs ys e = sym (length-map (λ z. z.0) xs) ∙ ap length e ∙ length-map (λ z. z.0) ys

-- A pane of some leaves is found again by its id when the panes are numbered anew.
find-numbered :
    (i m : ℕ) (es : List Entry) {p : PaneHandle}
    → find i es ≡ some p
    → (j : ℕ) × (find_pane p.id (numbered m (panes es)) ≡ some j)
find-numbered i m [] h = cc
find-numbered i m ((a, q) ∷ es) {p} h = elim (Bool-cases (q.id == p.id)) [
  | inl hit ↦ (m, rw hit)
  | inr miss ↦
      let deeper : find i es ≡ some p = ground arith in
      let (j, found) = find-numbered i (suc m) es deeper in (j, rw miss found)
]

module _ {F : Type 0} where
  pub record Arranged (t t' : SplitTree F) : Type 0 where
    pub valid : IsValid t'
    pub counts : (k : ℕ) → tree_count k t' ≡ tree_count k t
    pub sizes : length (entries t') ≡ length (entries t)

  pub Arranged-refl : (t : SplitTree F) → IsValid t → Arranged t t
  Arranged-refl t v = record { valid = v; counts = λ k. refl; sizes = refl }

  -- the root that a rotation of two leaves or more puts in place
  abbrev rotate_result : Node F → Bool → Node F
  rotate_result root forward =
      (assign_leaf_panes root (ids (leaves root)) (rotated forward (panes (leaves root)))).0

  entries-set_focus : (t : SplitTree F) (k : ℕ) → entries (set_focus_to_pane t k).0 ≡ entries t
  unfolding set_focus_to_pane
  entries-set_focus t k = ground arith

  pub rotate_panes-Arranged :
      (t : SplitTree F) (forward : Bool) → IsValid t → Arranged t (rotate_panes t forward).0
  unfolding rotate_panes
  rotate_panes-Arranged t forward = go t.root t.next_id t.focused_id
    where
      go :
          (r : Option (Node F)) (n f : ℕ)
          → IsValid (tree r n f)
          → Arranged (tree r n f) (rotate_panes (tree r n f) forward).0
      go none n f v = Arranged-refl (tree none n f) v
      go (some root) n f v = elim (dec_lt (length (leaves root)) 2) [
        | yes few ↦ rw (rotate_few root n f forward few) (Arranged-refl (tree (some root) n f) v)
        | no many ↦
            let h : 2 ≤ length (leaves root) = omega arith in
            let e = rotate_root root n f forward v.unique h in
            let x = rotate_panes_root root n f forward v.unique h in
            let size = length-map {0, 0} (λ (z : Entry). z.1) (leaves root) in
            let ps : panes (leaves (rotate_result root forward))
                ≡ rotated forward (panes (leaves root)) =
              rw e at (x.0) in
            let is : ids (leaves (rotate_result root forward)) ≡ ids (leaves root) =
              rw e at (x.1) in
            rw e (record {
              valid = root_changed v is;
              counts = λ k.
                  ap (λ l. count k (pane_ids l)) ps
                  ∙ count-rotated k forward (panes (leaves root)) (omega (arith, size));
              sizes = size_of_ids _ _ is;
            })
      ]

  pub swap-Arranged :
      (t : SplitTree F) (next : Bool) → IsValid t → Arranged t (swap_focused_with_adjacent t next).0
  unfolding swap_focused_with_adjacent
  swap-Arranged t next = go t.root t.next_id t.focused_id
    where
      go :
          (r : Option (Node F)) (n f : ℕ)
          → IsValid (tree r n f)
          → Arranged (tree r n f) (swap_focused_with_adjacent (tree r n f) next).0
      go none n f v = Arranged-refl (tree none n f) v
      go (some root) n f v = elim (Option-cases (position f (collect_leaf_ids root))) [
        | inl e ↦ rw (e, swap_focused_with_adjacent) (Arranged-refl (tree (some root) n f) v)
        | inr (k, e) ↦ elim (Bool-cases (ltb (length (collect_leaf_ids root)) 2)) [
          | inl few ↦
              rw (e, swap_focused_with_adjacent, few) (Arranged-refl (tree (some root) n f) v)
          | inr many ↦
              let size = length (collect_leaf_ids root) in
              let other = get_or (collect_leaf_ids root) (neighbour next k size) 0 in
              let lt = position_lt f (collect_leaf_ids root) e in
              let (p, here) = find-count f (leaves root) (focus_found v) in
              let (q, there) = find-count other (leaves root) (
                count-leaf_at root (neighbour next k size) 0
                  (omega (arith, size_ids root, neighbour_lt next k size (omega arith)))) in
              let swapped = swap_leaf_panes_lem root f other here there in
              rw (e, swap_focused_with_adjacent, many)
                (record {
                  valid = root_changed v (ids-swap_leaf_panes root f other);
                  counts = λ j.
                      ap (count_panes j) swapped.0
                      ∙ count_panes-swap j f other (leaves root) here there;
                  sizes = size_of_ids _ _ (ids-swap_leaf_panes root f other);
                })
        ]
      ]

  pub set_focus_to_pane-Arranged :
      (t : SplitTree F) (k : ℕ) → IsValid t → Arranged t (set_focus_to_pane t k).0
  set_focus_to_pane-Arranged t k v =
      let e = entries-set_focus t k in
      record {
        valid = set_focus_to_pane-IsValid t k v;
        counts = λ j. ap (count_panes j) e;
        sizes = ap length e;
      }

module _ {F : Type 0} ⦃d : Double F⦄ where
  pub rebalance-Arranged : (t : SplitTree F) → IsValid t → Arranged t (rebalance t).0
  unfolding rebalance
  rebalance-Arranged t = go t.root t.next_id t.focused_id
    where
      go :
          (r : Option (Node F)) (n f : ℕ)
          → IsValid (tree r n f)
          → Arranged (tree r n f) (rebalance (tree r n f)).0
      go none n f v = Arranged-refl (tree none n f) v
      go (some root) n f v =
          let e = leaves-rebalance_node root in
          record {
            valid = root_changed v (ap ids e);
            counts = λ j. ap (count_panes j) e;
            sizes = ap length e;
          }

  -- A tree rebuilt from a list with a pane in it that has the given id.
  rebuilt :
      (t : SplitTree F) (ps : List PaneHandle) (specs : List (Direction × F)) (k : ℕ) {i : ℕ}
      → length ps < 2 ^ 64
      → find_pane k (numbered 0 ps) ≡ some i
      → (entries (rebuild_from_panes t ps specs k).0 ≡ numbered 0 ps)
        × IsValid (rebuild_from_panes t ps specs k).0
  rebuilt t [] specs k b h = absurd (cc)
  rebuilt t (p ∷ ps) specs k b h = let x = rebuild_found t p ps specs k b h in (x.0, x.3)

  -- Rebuilding a valid tree of fewer than 2 ^ 64 panes from its own panes and its focused pane
  -- keeps the panes in their order and leaves a valid tree, whatever the splits are.
  pub rebuild-panes :
      (root : Node F) (n f : ℕ) (specs : List (Direction × F))
      → IsValid (tree (some root) n f)
      → length (leaves root) < 2 ^ 64
      → (panes (
            entries
              (rebuild_from_panes
                (tree (some root) n f)
                (panes (leaves root))
                specs
                (focused_pane (tree (some root) n f)).id).0)
          ≡ panes (leaves root))
        × IsValid
            (rebuild_from_panes
              (tree (some root) n f)
              (panes (leaves root))
              specs
              (focused_pane (tree (some root) n f)).id).0
  unfolding focused_pane
  rebuild-panes root n f specs v b =
      let (p, e) = find-count f (leaves root) (focus_found v) in
      let found : find_leaf root f ≡ some p = find_leaf-eq-find root f ∙ e in
      let (j, again) = find-numbered f 0 (leaves root) e in
      let size = length-map {0, 0} (λ (z : Entry). z.1) (leaves root) in
      let x =
        rebuilt (tree (some root) n f) (panes (leaves root)) specs p.id (omega (arith, size))
          again in
      rw found (ap panes x.0 ∙ panes-numbered 0 (panes (leaves root)), x.1)

  pub rebuild-Arranged :
      (t : SplitTree F) (specs : List (Direction × F))
      → IsValid t
      → 0 < length (entries t)
      → length (entries t) < 2 ^ 64
      → Arranged t (rebuild_from_panes t (all_panes t) specs (focused_pane t).id).0
  unfolding all_panes
  rebuild-Arranged t specs = go t.root t.next_id t.focused_id
    where
      go :
          (r : Option (Node F)) (n f : ℕ)
          → IsValid (tree r n f)
          → 0 < length (entries (tree r n f))
          → length (entries (tree r n f)) < 2 ^ 64
          → Arranged
              (tree r n f)
              (rebuild_from_panes
                (tree r n f)
                (all_panes (tree r n f))
                specs
                (focused_pane (tree r n f)).id).0
      go none n f v h b = absurd (omega arith)
      go (some root) n f v h b =
          let x = rebuild-panes root n f specs v b in
          rw (collect_panes-eq-panes root []) (record {
            valid = x.1;
            counts = λ k. ap (λ l. count k (pane_ids l)) x.0;
            sizes =
                sym (length-map (λ (z : Entry). z.1) _)
                ∙ ap length x.0
                ∙ length-map (λ (z : Entry). z.1) (leaves root);
          })
