-- ===== src/Splits/Calls.antt =====
-- Every method of `SplitTree` in src/splits.rs that changes the tree, as one step function.
pub mod Validity
pub mod Ratios
use boo.Base.{
  ℕ, ◌+◌, ◌<◌, ◌^◌, ◌≡◌, refl, sym, ap, ◌∙◌, Bool, true, false, Option, none, some, List, [], ◌∷◌,
  arith, Option-cases, inl, inr, ◌⊎◌, length, count, ltb, get_or, position, ◌==◌, Bool-cases,
  if◌then◌else◌,
}
use mathlib.Core.List.{nil≢cons}
use boo.Base.Int.{ℤ}
use boo.Double.{Double, IsOrdered, IsRatio, clamp, clamp-IsRatio}
use boo.Geometry.{Rect}
use boo.Pane.{PaneHandle}
use boo.Splits.Node.{
  Node, leaf, Direction, find_leaf_id_by_pane, collect_leaf_ids, swap_leaf_panes, remove_leaf,
  split_node_with_ratio, rebalance_node,
}
use boo.Splits.Entries.{Entry, ids, find_pane}
use boo.Splits.Leaves.{leaves, leaves-rebalance_node}
use boo.Splits.Frames.{resize_toward_leaf_by_cells, resize_toward_leaf_to_ratio, resize_drag_node}
use boo.Splits.Tree.{
  SplitTree, tree, new_tree, add_root, split_focused_with_ratio, set_focus_to_pane, remove_focused,
  remove_pane, swap_focused_with_adjacent, rotate_panes, rebuild_from_panes, rebalance,
  resize_focused_by_cells, resize_drag, resize_pane_to_ratio, neighbour,
}
use boo.Splits.Focus.{
  set_focus, focus_next, focus_prev, focus_at, focus_direction, PaneFocusDirection,
}
use boo.Splits.Invariant.{
  IsValid, entries, focus_moved, root_changed, new_tree-IsValid, add_root-IsValid, split-IsValid,
  set_focus_to_pane-IsValid, remove_focused-IsValid, remove_pane-IsValid,
}
use boo.Splits.Moves.{focus_next-IsValid, focus_prev-IsValid}
use boo.Splits.Pointing.{focus_at-IsValid, focus_direction-IsValid}
use boo.Splits.Assigning.{ids-swap_leaf_panes}
use boo.Splits.Rotation.{rotate_panes-IsValid}
use boo.Splits.Rebuilding.{numbered, rebuild_found}
use boo.Splits.Resizing.{resize_by_cells-Resized, resize_to_ratio-Resized}
use boo.Splits.Dragging.{resize_drag_node-Dragged}

pub data Call (F : Type 0) : Type 0 where
  adds_root : PaneHandle → Call F
  splits : Direction → PaneHandle → F → Call F
  sets_focus : ℕ → Call F
  focuses_pane : ℕ → Call F
  focuses_next focuses_prev removes_focused rebalances : Call F
  removes_pane : ℕ → Call F
  swaps rotates : Bool → Call F
  rebuilds : List PaneHandle → List (Direction × F) → ℕ → Call F
  resizes : Rect F → Direction → ℤ → F → Call F
  drags : Rect F → Direction → F × F → Call F
  resizes_to : Rect F → ℕ → Direction → F → Call F
  focuses_at : Rect F → F × F → Call F
  focuses_toward : Rect F → PaneFocusDirection → Call F

module _ {F : Type 0} ⦃d : Double F⦄ where
  unfoldable pub step : SplitTree F → Call F → SplitTree F
  step t (adds_root pane) = (add_root t pane).0
  step t (splits dir pane ratio) = (split_focused_with_ratio t dir pane ratio).0
  step t (sets_focus i) = set_focus t i
  step t (focuses_pane k) = (set_focus_to_pane t k).0
  step t focuses_next = focus_next t
  step t focuses_prev = focus_prev t
  step t removes_focused = (remove_focused t).0
  step t rebalances = (rebalance t).0
  step t (removes_pane k) = (remove_pane t k).0
  step t (swaps next) = (swap_focused_with_adjacent t next).0
  step t (rotates forward) = (rotate_panes t forward).0
  step t (rebuilds panes specs k) = (rebuild_from_panes t panes specs k).0
  step t (resizes frame axis n extent) = resize_focused_by_cells t frame axis n extent
  step t (drags frame dir p) = resize_drag t frame dir p
  step t (resizes_to frame k axis ratio) = (resize_pane_to_ratio t frame k axis ratio).0
  step t (focuses_at frame p) = (focus_at t frame p).0
  step t (focuses_toward frame dir) = (focus_direction t frame dir).0

  unfoldable pub run : SplitTree F → List (Call F) → SplitTree F
  unfolding step
  run t [] = t
  run t (c ∷ cs) = run (step t c) cs

  -- What a caller must see to: ids are left to give out, a focus is set to a leaf only, and a
  -- rebuild names one of its panes, of which there are less than 2 ^ 64.
  abbrev pub Allowed : SplitTree F → Call F → Type 0
  Allowed t (adds_root pane) = t.next_id + 1 < 2 ^ 64
  Allowed t (splits dir pane ratio) = t.next_id + 1 < 2 ^ 64
  Allowed t (sets_focus i) = 0 < count i (ids (entries t))
  Allowed t (rebuilds panes specs k) =
      (length panes < 2 ^ 64)
      × ((panes ≡ []) ⊎ ((i : ℕ) × (find_pane k (numbered 0 panes) ≡ some i)))
  Allowed t _ = Unit {0}

  abbrev pub AllAllowed : SplitTree F → List (Call F) → Type 0
  AllAllowed t [] = Unit {0}
  AllAllowed t (c ∷ cs) = Allowed t c × AllAllowed (step t c) cs
