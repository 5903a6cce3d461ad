-- ===== src/Splits/Moves.antt =====
-- Moving the focus in src/splits.rs to the next or the previous leaf.
use boo.Base.{
  ℕ, ◌<◌, ◌≡◌, refl, ap, ◌∙◌, Bool, true, false, Option, none, some, arith, length, length-map,
  Option-cases, inl, inr, get_or, IsUnique, position, position_lt, position-get_or, position_at,
  not,
}
use boo.Splits.Node.{Node, collect_leaf_ids}
use boo.Splits.Leaves.{leaves, collect_leaf_ids-eq-ids}
use boo.Splits.Tree.{SplitTree, tree, neighbour}
use boo.Splits.Focus.{focus_neighbour, focus_next, focus_prev}
use boo.Splits.Invariant.{IsValid, focus_moved, count-leaf_at}

pub neighbour_lt : (next : Bool) (k n : ℕ) → 0 < n → neighbour next k n < n
neighbour_lt true k n h = omega arith
neighbour_lt false k n h = omega arith

neighbour_back : (next : Bool) (k n : ℕ) → k < n → neighbour (not next) (neighbour next k n) n ≡ k
neighbour_back true k n h = grind arith
neighbour_back false k n h = grind arith

module _ {F : Type 0} where
  pub size_ids : (root : Node F) → length (collect_leaf_ids root) ≡ length (leaves root)
  size_ids root = ap length (collect_leaf_ids-eq-ids root) ∙ length-map (λ e. e.0) (leaves root)

  -- `focus_neighbour` at a tree whose focus is a leaf.
  focus_neighbour_at :
      (next : Bool) (root : Node F) (n f k : ℕ)
      → position f (collect_leaf_ids root) ≡ some k
      → focus_neighbour next (tree (some root) n f)
        ≡ tree
            (some root)
            n
            (get_or (collect_leaf_ids root) (neighbour next k (length (collect_leaf_ids root))) 0)
  focus_neighbour_at next root n f k e = rw (e, focus_neighbour)

  focus_neighbour_lost :
      (next : Bool) (root : Node F) (n f : ℕ)
      → position f (collect_leaf_ids root) ≡ none
      → focus_neighbour next (tree (some root) n f) ≡ tree (some root) n f
  focus_neighbour_lost next root n f e = rw (e, focus_neighbour)

  focus_neighbour-IsValid :
      (next : Bool) (t : SplitTree F) → IsValid t → IsValid (focus_neighbour next t)
  focus_neighbour-IsValid next t = go t.root t.next_id t.focused_id
    where
      go :
          (r : Option (Node F)) (n f : ℕ)
          → IsValid (tree r n f)
          → IsValid (focus_neighbour next (tree r n f))
      go none n f v = v
      go (some root) n f v = elim (Option-cases (position f (collect_leaf_ids root))) [
        | inl e ↦ rw (focus_neighbour_lost next root n f e) v
        | inr (k, e) ↦
            let size = length (collect_leaf_ids root) in
            let lt = position_lt f (collect_leaf_ids root) e in
            rw (focus_neighbour_at next root n f k e) (
              focus_moved v (
                count-leaf_at root (neighbour next k size) 0
                  (omega (arith, size_ids root, neighbour_lt next k size (omega arith)))))
      ]

  pub focus_next-IsValid : (t : SplitTree F) → IsValid t → IsValid (focus_next t)
  unfolding focus_next
  focus_next-IsValid = focus_neighbour-IsValid true

  pub focus_prev-IsValid : (t : SplitTree F) → IsValid t → IsValid (focus_prev t)
  unfolding focus_prev
  focus_prev-IsValid = focus_neighbour-IsValid false

  focus_neighbour_back :
      (next : Bool) (t : SplitTree F)
      → IsValid t
      → focus_neighbour (not next) (focus_neighbour next t) ≡ t
  focus_neighbour_back next t = go t.root t.next_id t.focused_id
    where
      go :
          (r : Option (Node F)) (n f : ℕ)
          → IsValid (tree r n f)
          → focus_neighbour (not next) (focus_neighbour next (tree r n f)) ≡ tree r n f
      go none n f v = refl
      go (some root) n f v = elim (Option-cases (position f (collect_leaf_ids root))) [
        | inl e ↦
            ap (focus_neighbour (not next)) (focus_neighbour_lost next root n f e)
            ∙ focus_neighbour_lost (not next) root n f e
        | inr (k, e) ↦
            let is = collect_leaf_ids root in
            let j = neighbour next k (length is) in
            let lt = position_lt f is e in
            let unique : IsUnique is = λ a. rw (collect_leaf_ids-eq-ids root) (v.unique a) in
            ap (focus_neighbour (not next)) (focus_neighbour_at next root n f k e)
            ∙ focus_neighbour_at (not next) root n (get_or is j 0) j
                (position_at is j 0 (neighbour_lt next k (length is) (omega arith)) unique)
            ∙ ap (λ m. tree (some root) n (get_or is m 0)) (neighbour_back next k (length is) lt)
            ∙ ap (tree (some root) n) (position-get_or f is 0 e)
      ]

  -- In a valid tree, `focus_prev` undoes `focus_next`, and `focus_next` undoes `focus_prev`.
  pub focus_prev-focus_next :
      (t : SplitTree F)
      → IsValid t
      → (focus_prev (focus_next t) ≡ t) × (focus_next (focus_prev t) ≡ t)
  unfolding focus_next focus_prev
  focus_prev-focus_next t v = (focus_neighbour_back true t v, focus_neighbour_back false t v)
