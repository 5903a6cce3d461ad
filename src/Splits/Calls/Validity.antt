-- ===== src/Splits/Calls/Validity.antt =====
-- The invariant of the split tree after calls of the methods in src/splits.rs.
use boo.Base.{
  ℕ, refl, sym, ap, Bool, Option, none, some, List, [], ◌∷◌, arith, Option-cases, inl, inr, length,
  ltb, position, Bool-cases,
}
use mathlib.Core.List.{nil≢cons}
use boo.Base.Int.{ℤ}
use boo.Double.{Double, IsOrdered, clamp, clamp-IsRatio}
use boo.Geometry.{Rect}
use boo.Pane.{PaneHandle}
use boo.Splits.Node.{Node, Direction, find_leaf_id_by_pane, collect_leaf_ids}
use boo.Splits.Entries.{ids}
use boo.Splits.Leaves.{leaves-rebalance_node}
use boo.Splits.Tree.{
  SplitTree, tree, swap_focused_with_adjacent, rebuild_from_panes, rebalance,
  resize_focused_by_cells, resize_drag, resize_pane_to_ratio,
}
use boo.Splits.Focus.{set_focus}
use boo.Splits.Invariant.{
  IsValid, root_changed, add_root-IsValid, split-IsValid, set_focus_to_pane-IsValid,
  remove_focused-IsValid, remove_pane-IsValid,
}
use boo.Splits.Moves.{focus_next-IsValid, focus_prev-IsValid}
use boo.Splits.Pointing.{focus_at-IsValid, focus_direction-IsValid}
use boo.Splits.Assigning.{ids-swap_leaf_panes}
use boo.Splits.Rotation.{rotate_panes-IsValid}
use boo.Splits.Rebuilding.{rebuild_found}
use boo.Splits.Resizing.{resize_by_cells-Resized, resize_to_ratio-Resized}
use boo.Splits.Dragging.{resize_drag_node-Dragged}
use boo.Splits.Calls.{
  Call, adds_root, splits, sets_focus, focuses_pane, focuses_next, focuses_prev, removes_focused,
  rebalances, removes_pane, swaps, rotates, rebuilds, resizes, drags, resizes_to, focuses_at,
  focuses_toward, step, run, Allowed, AllAllowed,
}

module _ {F : Type 0} ⦃d : Double F⦄ where
  swap-IsValid :
      (t : SplitTree F) (next : Bool) → IsValid t → IsValid (swap_focused_with_adjacent t next).0
  unfolding swap_focused_with_adjacent
  swap-IsValid t next = go t.root t.next_id t.focused_id
    where
      go :
          (r : Option (Node F)) (n f : ℕ)
          → IsValid (tree r n f)
          → IsValid (swap_focused_with_adjacent (tree r n f) next).0
      go none n f v = v
      go (some root) n f v = elim (Option-cases (position f (collect_leaf_ids root))) [
        | inl e ↦ rw (e, swap_focused_with_adjacent) v
        | inr (k, e) ↦ elim (Bool-cases (ltb (length (collect_leaf_ids root)) 2)) [
          | inl few ↦ rw (e, swap_focused_with_adjacent, few) v
          | inr many ↦
              rw (e, swap_focused_with_adjacent, many)
                (root_changed v (ids-swap_leaf_panes root f _))
        ]
      ]

  rebalance-IsValid : (t : SplitTree F) → IsValid t → IsValid (rebalance t).0
  unfolding rebalance
  rebalance-IsValid t = go t.root t.next_id t.focused_id
    where
      go :
          (r : Option (Node F)) (n f : ℕ)
          → IsValid (tree r n f)
          → IsValid (rebalance (tree r n f)).0
      go none n f v = v
      go (some root) n f v = root_changed v (ap ids (leaves-rebalance_node root))

  module _ (o : IsOrdered F) where
    resize-IsValid :
        (t : SplitTree F) (frame : Rect F) (axis : Direction) (n : ℤ) (extent : F)
        → IsValid t
        → IsValid (resize_focused_by_cells t frame axis n extent)
    unfolding resize_focused_by_cells
    resize-IsValid t frame axis n extent = go t.root t.next_id t.focused_id
      where
        go :
            (r : Option (Node F)) (m f : ℕ)
            → IsValid (tree r m f)
            → IsValid (resize_focused_by_cells (tree r m f) frame axis n extent)
        go none m f v = v
        go (some root) m f v =
            root_changed v
              (ap ids ((resize_by_cells-Resized o root frame f axis n extent).same_leaves))

    drag-IsValid :
        (t : SplitTree F) (frame : Rect F) (dir : Direction) (p : F × F)
        → IsValid t
        → IsValid (resize_drag t frame dir p)
    unfolding resize_drag
    drag-IsValid t frame dir p = go t.root t.next_id t.focused_id
      where
        go :
            (r : Option (Node F)) (m f : ℕ)
            → IsValid (tree r m f)
            → IsValid (resize_drag (tree r m f) frame dir p)
        go none m f v = v
        go (some root) m f v =
            root_changed v (ap ids ((resize_drag_node-Dragged o root frame dir p).same_leaves))

    resize_to-IsValid :
        (t : SplitTree F) (frame : Rect F) (k : ℕ) (axis : Direction) (ratio : F)
        → IsValid t
        → IsValid (resize_pane_to_ratio t frame k axis ratio).0
    unfolding resize_pane_to_ratio
    resize_to-IsValid t frame k axis ratio = go t.root t.next_id t.focused_id
      where
        go :
            (r : Option (Node F)) (m f : ℕ)
            → IsValid (tree r m f)
            → IsValid (resize_pane_to_ratio (tree r m f) frame k axis ratio).0
        go none m f v = v
        go (some root) m f v = elim (Option-cases (find_leaf_id_by_pane root k)) [
          | inl e ↦ rw (e, resize_pane_to_ratio) v
          | inr (i, e) ↦
              rw (e, resize_pane_to_ratio)
                (root_changed v (
                  ap ids
                    (resize_to_ratio-Resized root frame i axis (clamp ratio)
                      (clamp-IsRatio o ratio)).same_leaves))
        ]

    rebuild-IsValid :
        (t : SplitTree F) (ps : List PaneHandle) (specs : List (Direction × F)) (k : ℕ)
        → Allowed t (rebuilds ps specs k)
        → IsValid t
        → IsValid (rebuild_from_panes t ps specs k).0
    unfolding rebuild_from_panes
    rebuild-IsValid t [] specs k h v = record {
      unique = λ a. omega arith;
      fresh = λ a le. refl;
      bounded = v.bounded;
      focused = inl refl;
    }
    rebuild-IsValid t (p ∷ ps) specs k (b, inl e) v = absurd (nil≢cons (sym e))
    rebuild-IsValid t (p ∷ ps) specs k (b, inr (i, e)) v = (rebuild_found t p ps specs k b e).3

    pub step-IsValid : (t : SplitTree F) (c : Call F) → Allowed t c → IsValid t → IsValid (step t c)
    unfolding step set_focus
    step-IsValid t (adds_root pane) h v = add_root-IsValid t pane v h
    step-IsValid t (splits dir pane ratio) h v = split-IsValid t dir pane ratio v h
    step-IsValid t (sets_focus i) h v = record {
      unique = v.unique;
      fresh = v.fresh;
      bounded = v.bounded;
      focused = inr h;
    }
    step-IsValid t (focuses_pane k) h v = set_focus_to_pane-IsValid t k v
    step-IsValid t focuses_next h v = focus_next-IsValid t v
    step-IsValid t focuses_prev h v = focus_prev-IsValid t v
    step-IsValid t removes_focused h v = remove_focused-IsValid t v
    step-IsValid t rebalances h v = rebalance-IsValid t v
    step-IsValid t (removes_pane k) h v = remove_pane-IsValid t k v
    step-IsValid t (swaps next) h v = swap-IsValid t next v
    step-IsValid t (rotates forward) h v = rotate_panes-IsValid t forward v
    step-IsValid t (rebuilds panes specs k) h v = rebuild-IsValid t panes specs k h v
    step-IsValid t (resizes frame axis n extent) h v = resize-IsValid t frame axis n extent v
    step-IsValid t (drags frame dir p) h v = drag-IsValid t frame dir p v
    step-IsValid t (resizes_to frame k axis ratio) h v = resize_to-IsValid t frame k axis ratio v
    step-IsValid t (focuses_at frame p) h v = focus_at-IsValid t frame p v
    step-IsValid t (focuses_toward frame dir) h v = focus_direction-IsValid t frame dir v

    -- When the comparisons of numbers are ordered, any sequence of calls of the methods that change
    -- a split tree keeps it valid: leaf ids stay distinct and below the next id, the next id below
    -- 2 ^ 64, and the focus is a leaf of a tree that has one. The calls must be allowed: a call
    -- that gives out an id has one left below 2 ^ 64, `set_focus` is given a leaf, and
    -- `rebuild_from_panes` is given fewer than 2 ^ 64 panes and, unless there is none, the id of
    -- one of them.
    pub run-IsValid :
        (t : SplitTree F) (cs : List (Call F)) → AllAllowed t cs → IsValid t → IsValid (run t cs)
    unfolding run
    run-IsValid t [] h v = v
    run-IsValid t (c ∷ cs) h v = run-IsValid (step t c) cs h.1 (step-IsValid t c h.0 v)
