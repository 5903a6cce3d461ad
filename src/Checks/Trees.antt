-- ===== src/Checks/Trees.antt =====
-- Runs of src/splits.rs and its theorems at concrete trees.
use boo.Base.{◌≡◌, ◌⊎◌, refl, none, some, List, [], ◌∷◌, ◌++◌, inr, arith, true, false, map}
use boo.Base.Int.{ℤ, pos}
use boo.Double.Fixed.{thousandths, thousandths-IsOrdered}
use boo.Double.{clamp}
use boo.Geometry.{Rect, rect, point, size_of}
use boo.Pane.{PaneHandle}
use boo.Splits.Node.{Node, leaf, split, horizontal, vertical, remove_leaf, split_node_with_ratio}
use boo.Splits.Tree.{
  SplitTree, tree, new_tree, add_root, remove_focused, remove_pane, focused_pane, rotate_panes,
  rotated, rebuild_from_panes, split_focused_with_ratio, export_panes_with_frames,
}
use boo.Splits.Frames.{
  export_node, leaf_at_point, resize_drag_node, drag_ratio, divider_at_node, on_divider,
  split_frame, resize_toward_leaf_by_cells, moved_ratio,
}
use boo.Splits.Focus.{set_focus, focus_next, focus_prev, focus_direction, left}
use boo.Splits.Entries.{insert_after, take_out, ids, panes}
use boo.Splits.Leaves.{leaves, taken, remove_leaf-eq-take_out, leaves-split_node_with_ratio}
use boo.Splits.Invariant.{IsValid, entries, new_tree-IsValid}
use boo.Splits.Counting.{Removes, remove_focused_lem, remove_pane-Removes}
use boo.Splits.Rebuilding.{numbered, Focused, rebuild_from_panes_lem}
use boo.Splits.Rotation.{Rotated, rotate_panes_lem, rotated_back}
use boo.Splits.Moves.{focus_prev-focus_next}
use boo.Splits.Pointing.{Directed, focus_direction_lem}
use boo.Splits.Blocking.{Blocked}
use boo.Splits.Hits.{entry, frames, first_hit, export_node-leaves, leaf_at_point-eq-first_hit}
use boo.Splits.Resizing.{resize_nearest, resize_toward_leaf_by_cells_lem}
use boo.Splits.Dragging.{Drags, drag_divider}
use boo.Splits.Losing.{split_focused_with_ratio-set_focus}
use boo.Splits.Ratios.{RestRatios}
use boo.Splits.Calls.{Call, adds_root, splits, removes_pane, focuses_next, step, run, AllAllowed}
use boo.Splits.Calls.Validity.{run-IsValid}
use boo.Splits.Calls.Ratios.{run-Ratios}

abbrev pub pane_a : PaneHandle
pane_a = record { id = 11; surface = 1; view = 1 }

abbrev pub pane_b : PaneHandle
pane_b = record { id = 12; surface = 2; view = 2 }

abbrev pub pane_c : PaneHandle
pane_c = record { id = 13; surface = 3; view = 3 }

abbrev stack : Node ℤ
stack = split vertical (pos 500) (leaf 1 pane_b) (leaf 2 pane_c)

-- One pane on the left; two on the right, one above the other.
abbrev three : Node ℤ
three = split horizontal (pos 500) (leaf 0 pane_a) stack

abbrev pub three_tree : SplitTree ℤ
three_tree = tree (some three) 3 1

pub three-IsValid : IsValid three_tree
three-IsValid = record {
  unique = λ a. ground arith;
  fresh = λ a le. ground arith;
  bounded = omega arith;
  focused = inr (omega arith);
}

abbrev pub window : Rect ℤ
window = rect (point (pos 0) (pos 0)) (size_of (pos 800000) (pos 600000))

abbrev calls : List (Call ℤ)
calls =
    adds_root pane_a
    ∷ splits horizontal pane_b (pos 300)
    ∷ splits vertical pane_c (pos 500)
    ∷ removes_pane 12
    ∷ focuses_next
    ∷ []

calls-AllAllowed : AllAllowed new_tree calls
unfolding step add_root split_focused_with_ratio remove_pane
calls-AllAllowed = (omega arith, (omega arith, (omega arith, (tt, (tt, tt)))))

run-IsValid_example : IsValid (run new_tree calls)
run-IsValid_example =
    run-IsValid thousandths-IsOrdered new_tree calls calls-AllAllowed new_tree-IsValid

run-Ratios_example : RestRatios (run new_tree calls).root
run-Ratios_example = run-Ratios thousandths-IsOrdered new_tree calls tt

remove_leaf-eq-take_out_example : taken (remove_leaf three 1) ≡ take_out 1 (leaves three)
remove_leaf-eq-take_out_example = remove_leaf-eq-take_out three 1

leaves-split_node_with_ratio_example :
    leaves (split_node_with_ratio three 1 horizontal 3 pane_a (pos 250))
    ≡ insert_after 1 (3, pane_a) (leaves three)
leaves-split_node_with_ratio_example =
    leaves-split_node_with_ratio three 1 horizontal 3 pane_a (pos 250)

remove_focused_lem_example :
    Removes three_tree (focused_pane three_tree) (remove_focused three_tree)
remove_focused_lem_example = remove_focused_lem three_tree three-IsValid (omega arith)

remove_pane-Removes_example :
    (p : PaneHandle) × (p.id ≡ 13) × Removes three_tree p (remove_pane three_tree 13)
remove_pane-Removes_example = remove_pane-Removes three_tree 13 {i = 2} three-IsValid refl

rebuild_from_panes_lem_example :
    (entries (rebuild_from_panes three_tree (pane_a ∷ pane_b ∷ []) [] 12).0
      ≡ numbered 0 (pane_a ∷ pane_b ∷ []))
    × ((rebuild_from_panes three_tree (pane_a ∷ pane_b ∷ []) [] 12).1 ≡ true)
    × Focused
        (rebuild_from_panes three_tree (pane_a ∷ pane_b ∷ []) [] 12).0
        12
        (pane_a ∷ pane_b ∷ [])
rebuild_from_panes_lem_example =
    rebuild_from_panes_lem three_tree pane_a (pane_b ∷ []) [] 12 (omega arith)

rotate_panes_lem_example :
    (root' : Node ℤ) × (rotate_panes three_tree true ≡ (tree (some root') 3 1, true))
    × Rotated true (panes (leaves three)) (panes (leaves root'))
    × (ids (leaves root') ≡ ids (leaves three))
rotate_panes_lem_example = rotate_panes_lem three 3 1 true three-IsValid (omega arith) (omega arith)

rotated_back_example :
    rotated false (rotated true (pane_a ∷ pane_b ∷ pane_c ∷ [])) ≡ pane_a ∷ pane_b ∷ pane_c ∷ []
rotated_back_example = rotated_back (pane_a ∷ pane_b ∷ pane_c ∷ []) (omega arith)

focus_prev-focus_next_example :
    (focus_prev (focus_next three_tree) ≡ three_tree)
    × (focus_next (focus_prev three_tree) ≡ three_tree)
focus_prev-focus_next_example = focus_prev-focus_next three_tree three-IsValid

focus_direction_lem_example :
    (((focus_direction three_tree window left).1 ≡ true)
      × Directed left 1
          (focus_direction three_tree window left).0.focused_id
          (export_panes_with_frames three_tree window))
    ⊎ (focus_direction three_tree window left ≡ (three_tree, false))
      × Blocked left 1 (export_panes_with_frames three_tree window)
focus_direction_lem_example = focus_direction_lem three_tree window left

leaf_at_point-eq-first_hit_example :
    leaf_at_point three window (pos 500000, pos 400000)
    ≡ first_hit (pos 500000, pos 400000) (frames three window)
leaf_at_point-eq-first_hit_example =
    leaf_at_point-eq-first_hit three window (pos 500000, pos 400000)

export_node-leaves_example : map entry (export_node three none []) ≡ [] ++ leaves three
export_node-leaves_example = export_node-leaves three none []

resize_toward_leaf_by_cells_lem_example :
    resize_toward_leaf_by_cells three window 1 vertical (pos 2) (pos 16000) ≡ (
      resize_nearest
          (λ at r. moved_ratio r at vertical (pos 2) (pos 16000))
          three
          window
          1
          vertical,
      true,
      true,
    )
resize_toward_leaf_by_cells_lem_example =
    resize_toward_leaf_by_cells_lem thousandths-IsOrdered three window 1 vertical (pos 2)
      (pos 16000)

drag_divider_example :
    ((resize_drag_node three window horizontal (pos 400000, pos 10000)).1 ≡ true)
    × Drags horizontal
        (pos 400000, pos 10000)
        window
        three
        (resize_drag_node three window horizontal (pos 400000, pos 10000)).0
unfolding divider_at_node on_divider split_frame
drag_divider_example =
    drag_divider thousandths-IsOrdered three window (pos 400000, pos 10000) horizontal refl

-- Two splits side by side: the divider at a quarter of the window is the inner one, and a drag at it
-- moves the outer one.
abbrev quarters : Node ℤ
quarters = split horizontal (pos 500) (leaf 0 pane_a) (leaf 1 pane_b)

abbrev halves : Node ℤ
halves = split horizontal (pos 500) quarters (leaf 2 pane_c)

inner_divider :
    divider_at_node quarters (split_frame window horizontal (pos 500)).0 (pos 200000, pos 0)
    ≡ some horizontal
unfolding divider_at_node on_divider split_frame
inner_divider = refl

outer_moves :
    resize_drag_node halves window horizontal (pos 200000, pos 0)
    ≡ (split horizontal (pos 250) quarters (leaf 2 pane_c), true)
unfolding resize_drag_node drag_ratio split_frame clamp
outer_moves = refl

split_focused_with_ratio-set_focus_example :
    ((split_focused_with_ratio (set_focus three_tree 9) vertical pane_c (pos 500)).1 ≡ some 3)
    × (entries (split_focused_with_ratio (set_focus three_tree 9) vertical pane_c (pos 500)).0
        ≡ leaves three)
split_focused_with_ratio-set_focus_example =
    split_focused_with_ratio-set_focus three 3 1 9 vertical pane_c (pos 500) refl
