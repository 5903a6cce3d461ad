-- ===== src/Checks/Columns.antt =====
-- Moves of the focus by direction at three panes side by side.
use boo.Base.{All, Any, ℕ, ◌≡◌, refl, some, inl, inr, true, arith}
use boo.Base.Int.{ℤ, pos}
use boo.Double.Fixed.{thousandths}
use boo.Geometry.{Rect, rect, point, size_of}
use boo.Splits.Node.{leaf, split, horizontal}
use boo.Splits.Tree.{SplitTree, tree, export_panes_with_frames}
use boo.Splits.Frames.{ExportedPane, export_node_with_frame, split_frame, axis_separation}
use boo.Splits.Focus.{focus_direction, find_exported, right}
use boo.Splits.Pointing.{Candidate}
use boo.Splits.Distances.{nearer}
use boo.Splits.Nearest.{Beaten, focus_direction-nearest}
use boo.Checks.Trees.{pane_a, pane_b, pane_c, window}

-- Three panes side by side: the move to the right from the first takes the second.
abbrev columns : SplitTree ℤ
columns =
    tree
      (some (
        split horizontal (pos 500) (leaf 0 pane_a)
          (split horizontal (pos 500) (leaf 1 pane_b) (leaf 2 pane_c))))
      3 0

abbrev column : ℤ → ℤ → Rect ℤ
column x width = rect (point x (pos 0)) (size_of width (pos 600000))

abbrev first_column : Rect ℤ
first_column = column (pos 0) (pos 399500)

abbrev first_pane : ExportedPane ℤ
first_pane = record {
  leaf_id = 0;
  pane = pane_a;
  frame = some first_column;
  parent_split = some (horizontal, pos 500);
}

abbrev second : ℕ × ℤ × ℤ
second = (1, pos 1000, pos 0)

focused_found : find_exported 0 (export_panes_with_frames columns window) ≡ some first_pane
unfolding find_exported export_panes_with_frames export_node_with_frame split_frame
focused_found = refl

second-Candidate : Candidate right 0 first_column second (record {
  leaf_id = 1;
  pane = pane_b;
  frame = some (column (pos 400500) (pos 199250));
  parent_split = some (horizontal, pos 500);
})
unfolding axis_separation
second-Candidate =
    (refl, (λ e. omega arith), (column (pos 400500) (pos 199250), refl, (refl, refl, refl)))

columns-Candidate :
    Any (Candidate right 0 first_column second) (export_panes_with_frames columns window)
unfolding export_panes_with_frames export_node_with_frame split_frame
columns-Candidate = inr (inl second-Candidate)

columns-Beaten : All (Beaten right 0 first_column second) (export_panes_with_frames columns window)
unfolding export_panes_with_frames axis_separation export_node_with_frame split_frame
columns-Beaten = (
  inl (inl refl),
  (
    inr (inl second-Candidate),
    (
      inr (
          inr (
            column (pos 600750) (pos 199250),
            (pos 201250, pos 0),
            refl,
            (refl, refl, refl),
            nearer refl refl refl,
          )),
      tt,
    ),
  ),
)

focus_direction-nearest_example :
    focus_direction columns window right ≡ (record columns { focused_id = 1 }, true)
focus_direction-nearest_example =
    focus_direction-nearest columns window right first_pane first_column second focused_found refl
      columns-Candidate columns-Beaten
