-- ===== src/Splits/Resizing.antt =====
-- Resizing, rebalancing and splitting in src/splits.rs: leaves and ratios.
use boo.Base.{
  ℕ, ◌≡◌, refl, ap, ◌∙◌, Bool, false, ◌&&◌, ◌||◌, not, arith, ◌==◌, if◌then◌else◌, contains,
  contains-append,
}
use boo.Base.Int.{ℤ}
use boo.Double.{Double, IsOrdered, IsRatio, clamp-IsRatio}
use boo.Geometry.{Rect}
use boo.Pane.{PaneHandle}
use boo.Splits.Node.{
  Node, leaf, split, Direction, same_direction, split_node_with_ratio, rebalance_node,
}
use boo.Splits.Entries.{ids, ids-append}
use boo.Splits.Leaves.{leaves}
use boo.Splits.Frames.{
  split_frame, resize_toward_leaf_by_cells, resize_toward_leaf_to_ratio, moved_ratio, resize_step,
}

module _ {F : Type 0} where
  abbrev pub has_leaf : Node F → ℕ → Bool
  has_leaf node i = contains i (ids (leaves node))

  -- Some split along the axis holds the leaf.
  abbrev pub has_ancestor : Node F → ℕ → Direction → Bool
  has_ancestor (leaf i pane) target axis = false
  has_ancestor (split dir r first second) target axis =
      if has_leaf first target
      then has_ancestor first target axis || same_direction dir axis
      else has_leaf second target && (has_ancestor second target axis || same_direction dir axis)

  has_leaf-split :
      (dir : Direction) (r : F) (first second : Node F) (i : ℕ)
      → has_leaf (split dir r first second) i ≡ (has_leaf first i || has_leaf second i)
  has_leaf-split dir r first second i =
      ap (contains i) (ids-append (leaves first) (leaves second))
      ∙ contains-append i (ids (leaves first)) (ids (leaves second))

module _ {F : Type 0} ⦃d : Double F⦄ where
  -- Every split's ratio is in the range 0.1 to 0.9.
  abbrev pub HasRatios : Node F → Type 0
  HasRatios (leaf i pane) = Unit {0}
  HasRatios (split dir r first second) = IsRatio r × HasRatios first × HasRatios second

  no_ancestor :
      (node : Node F) (i : ℕ) (axis : Direction)
      → has_leaf node i ≡ false
      → has_ancestor node i axis ≡ false
  no_ancestor (leaf j pane) i axis h = refl
  no_ancestor (split dir r first second) i axis h =
      ground (arith, has_leaf-split dir r first second i, h)

  -- The tree with a new ratio at the deepest split along the axis that holds the leaf, if there is
  -- one. The ratio comes from the frame and the ratio of that split.
  abbrev pub resize_nearest : (Rect F → F → F) → Node F → Rect F → ℕ → Direction → Node F
  resize_nearest g (leaf j pane) frame i axis = leaf j pane
  resize_nearest g (split dir r first second) frame i axis =
      let (a, b) = split_frame frame dir r in
      let in_first = resize_nearest g first a i axis in
      let in_second = resize_nearest g second b i axis in
      if has_leaf first i && has_ancestor first i axis
      then split dir r in_first second
      else if has_leaf second i && not (has_leaf first i) && has_ancestor second i axis
      then split dir r first in_second
      else if (has_leaf first i || has_leaf second i) && same_direction dir axis
      then split dir (g frame r) first second
      else split dir r first second

  -- What the code makes of a subtree when it resizes towards a leaf: it says whether the leaf is
  -- there and whether a split along the axis above it was resized, and keeps leaves and ratios.
  pub record Resized (g : Rect F → F → F) (node : Node F) (frame : Rect F) (i : ℕ)
      (axis : Direction) (x : Node F × Bool × Bool) : Type 0 where
    pub found : x.1 ≡ has_leaf node i
    pub done : x.2 ≡ has_ancestor node i axis
    pub same_leaves : leaves x.0 ≡ leaves node
    pub untouched : has_ancestor node i axis ≡ false → x.0 ≡ node
    pub nearest : x.0 ≡ resize_nearest g node frame i axis
    pub ratios : HasRatios node → HasRatios x.0

  leaf-Resized :
      (g : Rect F → F → F) (j : ℕ) (pane : PaneHandle) (frame : Rect F) (i : ℕ) (axis : Direction)
      → Resized g (leaf j pane) frame i axis (leaf j pane, j == i, false)
  leaf-Resized g j pane frame i axis = record {
    found = ground arith;
    done = refl;
    same_leaves = refl;
    untouched = λ _. refl;
    nearest = refl;
    ratios = λ h. h;
  }

  step-Resized :
      (g : Rect F → F → F) (dir axis : Direction) (r : F) (first second : Node F) (frame : Rect F)
      (i : ℕ) {x y : Node F × Bool × Bool}
      → IsRatio (g frame r)
      → Resized g first (split_frame frame dir r).0 i axis x
      → Resized g second (split_frame frame dir r).1 i axis y
      → Resized g
          (split dir r first second)
          frame
          i
          axis
          (resize_step dir axis r (g frame r) second x y)
  unfolding resize_step
  step-Resized g dir axis r first second frame i {x} {y} c u v = record {
    found = ground (arith, has_leaf-split dir r first second i, u.found, v.found);
    done = ground (arith, u.found, v.found, u.done, v.done);
    same_leaves = ground (arith, u.same_leaves, v.same_leaves);
    untouched = λ e. ground (
      arith,
      e,
      u.found,
      v.found,
      u.done,
      v.done,
      u.untouched,
      v.untouched,
      no_ancestor first i axis,
      no_ancestor second i axis,
    );
    nearest = ground (
      arith,
      u.found,
      v.found,
      u.done,
      v.done,
      u.untouched,
      v.untouched,
      u.nearest,
      v.nearest,
      no_ancestor first i axis,
      no_ancestor second i axis,
    );
    ratios = λ h. ground (arith, c, h, u.ratios h.1, v.ratios h.2);
  }

  pub resize_by_cells-Resized :
      IsOrdered F
      → (node : Node F) (frame : Rect F) (i : ℕ) (axis : Direction) (n : ℤ) (extent : F)
      → Resized
          (λ at r. moved_ratio r at axis n extent)
          node
          frame
          i
          axis
          (resize_toward_leaf_by_cells node frame i axis n extent)
  unfolding resize_toward_leaf_by_cells moved_ratio
  resize_by_cells-Resized o (leaf j pane) frame i axis n extent = leaf-Resized _ j pane frame i axis
  resize_by_cells-Resized o (split dir r first second) frame i axis n extent =
      step-Resized _ dir axis r first second frame i (clamp-IsRatio o _)
        (resize_by_cells-Resized o first (split_frame frame dir r).0 i axis n extent)
        (resize_by_cells-Resized o second (split_frame frame dir r).1 i axis n extent)

  pub resize_to_ratio-Resized :
      (node : Node F) (frame : Rect F) (i : ℕ) (axis : Direction) (ratio : F)
      → IsRatio ratio
      → Resized
          (λ _ _. ratio)
          node
          frame
          i
          axis
          (resize_toward_leaf_to_ratio node frame i axis ratio)
  unfolding resize_toward_leaf_to_ratio
  resize_to_ratio-Resized (leaf j pane) frame i axis ratio c = leaf-Resized _ j pane frame i axis
  resize_to_ratio-Resized (split dir r first second) frame i axis ratio c =
      step-Resized _ dir axis r first second frame i c
        (resize_to_ratio-Resized first (split_frame frame dir r).0 i axis ratio c)
        (resize_to_ratio-Resized second (split_frame frame dir r).1 i axis ratio c)

  Resized-whole :
      (g : Rect F → F → F) (node : Node F) (frame : Rect F) (i : ℕ) (axis : Direction)
      {x : Node F × Bool × Bool}
      → Resized g node frame i axis x
      → x ≡ (resize_nearest g node frame i axis, has_leaf node i, has_ancestor node i axis)
  Resized-whole g node frame i axis r = λ k. (r.nearest k, r.found k, r.done k)

  -- When the comparisons of numbers are ordered, resizing by cells towards a leaf moves the ratio
  -- of the deepest split along the axis that holds the leaf, and changes nothing else. It reports
  -- whether the leaf is there, and whether there is such a split.
  pub resize_toward_leaf_by_cells_lem :
      IsOrdered F
      → (node : Node F) (frame : Rect F) (i : ℕ) (axis : Direction) (n : ℤ) (extent : F)
      → resize_toward_leaf_by_cells node frame i axis n extent ≡ (
        resize_nearest (λ at r. moved_ratio r at axis n extent) node frame i axis,
        has_leaf node i,
        has_ancestor node i axis,
      )
  resize_toward_leaf_by_cells_lem o node frame i axis n extent =
      Resized-whole _ node frame i axis (resize_by_cells-Resized o node frame i axis n extent)

  -- Resizing towards a leaf to a ratio that is neither below 0.1 nor above 0.9 gives this ratio to
  -- the deepest split along the axis that holds the leaf, and changes nothing else. It reports
  -- whether the leaf is there, and whether there is such a split.
  pub resize_toward_leaf_to_ratio_lem :
      (node : Node F) (frame : Rect F) (i : ℕ) (axis : Direction) (ratio : F)
      → IsRatio ratio
      → resize_toward_leaf_to_ratio node frame i axis ratio ≡ (
        resize_nearest (λ _ _. ratio) node frame i axis,
        has_leaf node i,
        has_ancestor node i axis,
      )
  resize_toward_leaf_to_ratio_lem node frame i axis ratio h =
      Resized-whole _ node frame i axis (resize_to_ratio-Resized node frame i axis ratio h)

  pub split_node-HasRatios :
      IsOrdered F
      → (node : Node F) (i : ℕ) (dir : Direction) (new_id : ℕ) (pane : PaneHandle) (ratio : F)
      → HasRatios node
      → HasRatios (split_node_with_ratio node i dir new_id pane ratio)
  unfolding split_node_with_ratio
  split_node-HasRatios o (leaf j q) i dir new_id pane ratio h =
      ground (arith, clamp-IsRatio o ratio)
  split_node-HasRatios o (split dir' r first second) i dir new_id pane ratio h = (
    h.0,
    split_node-HasRatios o first i dir new_id pane ratio h.1,
    split_node-HasRatios o second i dir new_id pane ratio h.2,
  )

  pub rebalance_node-HasRatios : IsOrdered F → (node : Node F) → HasRatios (rebalance_node node)
  unfolding rebalance_node
  rebalance_node-HasRatios o (leaf i pane) = tt
  rebalance_node-HasRatios o (split dir r first second) = (
    record {
      not_below = o.lt_asym d.tenth d.half o.tenth-lt-half;
      not_above = o.lt_asym d.half d.nine_tenths o.half-lt-nine_tenths;
    },
    rebalance_node-HasRatios o first,
    rebalance_node-HasRatios o second,
  )
