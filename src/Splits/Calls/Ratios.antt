-- ===== src/Splits/Calls/Ratios.antt =====
-- The ratios of the splits after calls of the methods in src/splits.rs.
use boo.Base.{
  ℕ, ◌≡◌, refl, Option, none, some, List, [], ◌∷◌, arith, Option-cases, inl, inr, ◌⊎◌, length,
  get_or, position,
}
use boo.Double.{Double, IsOrdered, clamp, clamp-IsRatio}
use boo.Pane.{PaneHandle}
use boo.Splits.Node.{Node, leaf, Direction, find_leaf_id_by_pane, collect_leaf_ids, remove_leaf}
use boo.Splits.Tree.{
  SplitTree, tree, add_root, split_focused_with_ratio, set_focus_to_pane, remove_focused,
  remove_pane, swap_focused_with_adjacent, rotate_panes, rebuild_from_panes, rebalance,
  resize_focused_by_cells, resize_drag, resize_pane_to_ratio, neighbour,
}
use boo.Splits.Focus.{set_focus, focus_next, focus_prev, focus_at}
use boo.Splits.Pointing.{focus_direction_keeps}
use boo.Splits.Resizing.{resize_by_cells-Resized, resize_to_ratio-Resized}
use boo.Splits.Dragging.{resize_drag_node-Dragged}
use boo.Splits.Calls.{
  Call, adds_root, splits, sets_focus, focuses_pane, focuses_next, focuses_prev, removes_focused,
  rebalances, removes_pane, swaps, rotates, rebuilds, resizes, drags, resizes_to, focuses_at,
  focuses_toward, step, run,
}
use boo.Splits.Tree.{finish_removal, rebuild_loop, rotated, panes_of, focus_rebuilt}
use boo.Splits.Node.{RemoveResult, removed, not_found}
use boo.Splits.Resizing.{HasRatios, split_node-HasRatios, rebalance_node-HasRatios}
use boo.Splits.Ratios.{
  RestRatios, Kept, swap_leaf_panes-HasRatios, assign_leaf_panes-HasRatios, remove_leaf-Kept,
  rebuild_loop-HasRatios,
}

module _ {F : Type 0} ⦃d : Double F⦄ (o : IsOrdered F) where
  finish_removal-Ratios :
      (t : SplitTree F) (x : RemoveResult F) → Kept x → RestRatios (finish_removal t x).0.root
  finish_removal-Ratios t (removed pane rest) h = h
  finish_removal-Ratios t (not_found node) h = h

  root-focus_rebuilt : (t : SplitTree F) (k : ℕ) → (focus_rebuilt t k).root ≡ t.root
  unfolding focus_rebuilt set_focus_to_pane
  root-focus_rebuilt t k = ground arith

  rebuilt-Ratios :
      (t : SplitTree F) (ps : List PaneHandle) (specs : List (Direction × F)) (k : ℕ)
      → RestRatios (rebuild_from_panes t ps specs k).0.root
  unfolding rebuild_from_panes
  rebuilt-Ratios t [] specs k = tt
  rebuilt-Ratios t (p ∷ ps) specs k =
      let (root, n) = rebuild_loop (leaf 0 p) 1 1 ps specs in
      rw (root-focus_rebuilt (record t { root = some root; next_id = n }) k)
        (rebuild_loop-HasRatios o (leaf 0 p) 1 1 ps specs tt)

  module _ (n f : ℕ) where
    -- the calls that only move the focus
    root-step_focus :
        (r : Option (Node F)) (c : Call F)
        → (c ≡ focuses_next) ⊎ (c ≡ focuses_prev)
        → (step (tree r n f) c).root ≡ r
    unfolding step focus_next focus_prev
    root-step_focus r c h = ground arith

    removed-Ratios :
        (root : Node F) (i : ℕ)
        → HasRatios root
        → RestRatios (finish_removal (tree (some root) n f) (remove_leaf root i)).0.root
    removed-Ratios root i h =
        finish_removal-Ratios (tree (some root) n f) (remove_leaf root i)
          (remove_leaf-Kept root i h)

    some-Ratios :
        (root : Node F) (c : Call F)
        → HasRatios root
        → RestRatios (step (tree (some root) n f) c).root
    unfolding step add_root split_focused_with_ratio set_focus set_focus_to_pane remove_focused
        rebalance remove_pane swap_focused_with_adjacent rotate_panes resize_focused_by_cells
        resize_drag resize_pane_to_ratio focus_at
    some-Ratios root (adds_root pane) h = tt
    some-Ratios root (splits dir pane ratio) h = split_node-HasRatios o root f dir n pane ratio h
    some-Ratios root (sets_focus i) h = h
    some-Ratios root (focuses_pane k) h = ground arith
    some-Ratios root focuses_next h = rw (root-step_focus (some root) focuses_next (inl refl)) h
    some-Ratios root focuses_prev h = rw (root-step_focus (some root) focuses_prev (inr refl)) h
    some-Ratios root removes_focused h = removed-Ratios root f h
    some-Ratios root rebalances h = rebalance_node-HasRatios o root
    some-Ratios root (removes_pane k) h = elim (Option-cases (find_leaf_id_by_pane root k)) [
      | inl e ↦ rw (e, step, remove_pane) h
      | inr (i, e) ↦ rw (e, step, remove_pane) (removed-Ratios root i h)
    ]
    some-Ratios root (swaps next) h = elim (Option-cases (position f (collect_leaf_ids root))) [
      | inl e ↦ rw (e, step, swap_focused_with_adjacent) h
      | inr (k, e) ↦
          let is = collect_leaf_ids root in
          let other = get_or is (neighbour next k (length is)) 0 in
          ground (arith, e, swap_leaf_panes-HasRatios root f other h)
    ]
    some-Ratios root (rotates forward) h =
        let is = collect_leaf_ids root in
        let qs = rotated forward (panes_of root is) in
        ground (arith, assign_leaf_panes-HasRatios root is qs h)
    some-Ratios root (rebuilds ps specs k) h = rebuilt-Ratios (tree (some root) n f) ps specs k
    some-Ratios root (resizes frame axis m extent) h =
        (resize_by_cells-Resized o root frame f axis m extent).ratios h
    some-Ratios root (drags frame dir p) h = (resize_drag_node-Dragged o root frame dir p).ratios h
    some-Ratios root (resizes_to frame k axis ratio) h =
        elim (Option-cases (find_leaf_id_by_pane root k)) [
          | inl e ↦ rw (e, step, resize_pane_to_ratio) h
          | inr (i, e) ↦
              rw (e, step, resize_pane_to_ratio)
                ((resize_to_ratio-Resized root frame i axis (clamp ratio)
                    (clamp-IsRatio o ratio)).ratios
                  h)
        ]
    some-Ratios root (focuses_at frame p) h = ground arith
    some-Ratios root (focuses_toward frame dir) h =
        rw (focus_direction_keeps (tree (some root) n f) frame dir) h

    none-Ratios : (c : Call F) → RestRatios (step (tree none n f) c).root
    unfolding step add_root split_focused_with_ratio set_focus set_focus_to_pane remove_focused
        rebalance remove_pane swap_focused_with_adjacent rotate_panes resize_focused_by_cells
        resize_drag resize_pane_to_ratio focus_at focus_next focus_prev
    none-Ratios (rebuilds ps specs k) = rebuilt-Ratios (tree none n f) ps specs k
    none-Ratios (focuses_toward frame dir) = rw (focus_direction_keeps (tree none n f) frame dir) tt
    none-Ratios _ = tt

  -- Every call keeps the ratios of all splits in range.
  pub step-Ratios : (t : SplitTree F) (c : Call F) → RestRatios t.root → RestRatios (step t c).root
  step-Ratios t c = go t.root t.next_id t.focused_id
    where
      go : (r : Option (Node F)) (n f : ℕ) → RestRatios r → RestRatios (step (tree r n f) c).root
      go none n f h = none-Ratios n f c
      go (some root) n f h = some-Ratios n f root c h

  -- When the comparisons of numbers are ordered, any sequence of calls keeps all ratios of the tree
  -- in range: none is below 0.1 or above 0.9.
  pub run-Ratios :
      (t : SplitTree F) (cs : List (Call F)) → RestRatios t.root → RestRatios (run t cs).root
  unfolding run
  run-Ratios t [] h = h
  run-Ratios t (c ∷ cs) h = run-Ratios (step t c) cs (step-Ratios t c h)
