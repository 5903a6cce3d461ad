-- ===== src/Splits/Frames.antt =====
-- The functions of src/splits.rs that walk the tree with a frame: layout, export, hit tests and
-- resizing. Calls into the platform layer are listed in order, beside the result.
use boo.Base.{
  ℕ, Bool, true, false, ◌&&◌, not, Option, none, some, List, [], ◌∷◌, ◌++◌, or_else, ◌==◌,
  if◌then◌else◌,
}
use boo.Base.Int.{ℤ}
use boo.Double.{Double, clamp}
use boo.Geometry.{Rect, point, size_of, rect}
use boo.Pane.{PaneHandle}
use boo.Splits.Node.{Node, leaf, split, Direction, horizontal, vertical, same_direction}

-- `platform::set_view_frame` and `platform::set_view_hidden`, by the address of the view
pub data ViewCall (F : Type 0) : Type 0 where
  set_view_frame : ℕ → Rect F → ViewCall F
  set_view_hidden : ℕ → Bool → ViewCall F

pub record ExportedPane (F : Type 0) : Type 0 where
  pub leaf_id : ℕ
  pub pane : PaneHandle
  pub frame : Option (Rect F)
  pub parent_split : Option (Direction × F)

module _ {F : Type 0} where
  unfoldable pub set_hidden_recursive : Node F → Bool → List (ViewCall F)
  set_hidden_recursive (leaf i pane) hidden = set_view_hidden pane.view hidden ∷ []
  set_hidden_recursive (split dir r first second) hidden =
      set_hidden_recursive first hidden ++ set_hidden_recursive second hidden

  unfoldable pub export_node :
      Node F → Option (Direction × F) → List (ExportedPane F) → List (ExportedPane F)
  export_node (leaf i p) parent out =
      out ++ (record { leaf_id = i; pane = p; frame = none; parent_split = parent } ∷ [])
  export_node (split dir r first second) parent out =
      export_node second (some (dir, r)) (export_node first (some (dir, r)) out)

module _ {F : Type 0} ⦃d : Double F⦄ where
  -- `SPLIT_BORDER` and `DIVIDER_HIT_MARGIN`
  abbrev pub split_border : F
  split_border = d.one

  abbrev pub divider_hit_margin : F
  divider_hit_margin = d.three

  unfoldable pub split_frame : Rect F → Direction → F → Rect F × Rect F
  split_frame frame horizontal ratio =
      let usable = d.sub frame.size.width split_border in
      let w1 = d.mul usable ratio in
      let w2 = d.sub usable w1 in
      (
        rect frame.origin (size_of w1 frame.size.height),
        rect (point (d.add (d.add frame.origin.x w1) split_border) frame.origin.y)
            (size_of w2 frame.size.height),
      )
  split_frame frame vertical ratio =
      let usable = d.sub frame.size.height split_border in
      let h1 = d.mul usable ratio in
      let h2 = d.sub usable h1 in
      (
        rect frame.origin (size_of frame.size.width h1),
        rect (point frame.origin.x (d.add (d.add frame.origin.y h1) split_border))
            (size_of frame.size.width h2),
      )

  -- appends the sizes to `out`, and gives the platform calls
  unfoldable pub layout_node :
      Node F
      → Rect F
      → F
      → List (PaneHandle × ℕ × ℕ)
      → List (PaneHandle × ℕ × ℕ) × List (ViewCall F)
  layout_node (leaf i pane) frame scale out =
      let w = d.to_u32 (d.mul frame.size.width scale) in
      let h = d.to_u32 (d.mul frame.size.height scale) in
      (out ++ ((pane, w, h) ∷ []), set_view_frame pane.view frame ∷ [])
  layout_node (split dir r first second) frame scale out =
      let (first_frame, second_frame) = split_frame frame dir r in
      let (out', calls) = layout_node first first_frame scale out in
      let (out'', calls') = layout_node second second_frame scale out' in (out'', calls ++ calls')

  unfoldable pub export_node_with_frame :
      Node F → Rect F → Option (Direction × F) → List (ExportedPane F) → List (ExportedPane F)
  export_node_with_frame (leaf i p) at parent out =
      out ++ (record { leaf_id = i; pane = p; frame = some at; parent_split = parent } ∷ [])
  export_node_with_frame (split dir r first second) at parent out =
      let (first_frame, second_frame) = split_frame at dir r in
      export_node_with_frame second second_frame (some (dir, r))
        (export_node_with_frame first first_frame (some (dir, r)) out)

  -- the tests `point.0 >= frame.origin.x && point.0 <= frame.origin.x + frame.size.width`, and in y
  abbrev pub inside_x : Rect F → F × F → Bool
  inside_x frame p = d.le frame.origin.x p.0 && d.le p.0 (d.add frame.origin.x frame.size.width)

  abbrev pub inside_y : Rect F → F × F → Bool
  inside_y frame p = d.le frame.origin.y p.1 && d.le p.1 (d.add frame.origin.y frame.size.height)

  -- Within a split's extent along its divider.
  abbrev pub along : Direction → Rect F → F × F → Bool
  along horizontal frame p = inside_y frame p
  along vertical frame p = inside_x frame p

  unfoldable pub on_divider : Direction → Rect F → Rect F → F × F → Bool
  on_divider dir frame first_frame p =
      let half_width = d.add (d.div split_border d.two) divider_hit_margin in
      elim dir [
        | horizontal ↦
            let div_x =
              d.add (d.add first_frame.origin.x first_frame.size.width)
                (d.div split_border d.two) in
            d.lt (d.abs (d.sub p.0 div_x)) half_width && inside_y frame p
        | vertical ↦
            let div_y =
              d.add (d.add first_frame.origin.y first_frame.size.height)
                (d.div split_border d.two) in
            d.lt (d.abs (d.sub p.1 div_y)) half_width && inside_x frame p
      ]

  unfoldable pub divider_at_node : Node F → Rect F → F × F → Option Direction
  divider_at_node (leaf i pane) frame p = none
  divider_at_node (split dir r first second) frame p =
      let (first_frame, second_frame) = split_frame frame dir r in
      let deeper =
        or_else (divider_at_node first first_frame p) (divider_at_node second second_frame p) in
      if on_divider dir frame first_frame p then some dir else deeper

  unfoldable pub leaf_at_point : Node F → Rect F → F × F → Option ℕ
  leaf_at_point (leaf i pane) frame p =
      if inside_x frame p && inside_y frame p then some i else none
  leaf_at_point (split dir r first second) frame p =
      let (first_frame, second_frame) = split_frame frame dir r in
      or_else (leaf_at_point first first_frame p) (leaf_at_point second second_frame p)

  -- The new ratio of a dragged split.
  unfoldable pub drag_ratio : Direction → Rect F → F × F → F
  drag_ratio horizontal frame p =
      clamp (d.div (d.sub p.0 frame.origin.x) (d.maximum frame.size.width d.one))
  drag_ratio vertical frame p =
      clamp (d.div (d.sub p.1 frame.origin.y) (d.maximum frame.size.height d.one))

  unfoldable pub resize_drag_node : Node F → Rect F → Direction → F × F → Node F × Bool
  resize_drag_node (leaf i pane) frame dir p = (leaf i pane, false)
  resize_drag_node (split direction r first second) frame dir p =
      let (first_frame, second_frame) = split_frame frame direction r in
      let (first', done) = resize_drag_node first first_frame dir p in
      let (second', done') = resize_drag_node second second_frame dir p in
      if same_direction direction dir && along dir frame p
      then (split direction (drag_ratio dir frame p) first second, true)
      else if done
      then (split direction r first' second, true)
      else (split direction r first' second', done')

  -- The last step of the two functions below at a split that holds the target: the ratio changes if
  -- the split lies along the axis.
  abbrev pub settle : Direction → Direction → F → F → Node F → Node F → Node F × Bool × Bool
  settle direction axis r new first second =
      if same_direction direction axis
      then (split direction new first second, true, true)
      else (split direction r first second, true, false)

  -- The body that the two functions below share, over the results for the first and for the second
  -- subtree; the second is not visited where the first holds the target.
  unfoldable pub resize_step :
      Direction
      → Direction
      → F
      → F
      → Node F
      → Node F × Bool × Bool
      → Node F × Bool × Bool
      → Node F × Bool × Bool
  resize_step direction axis r new second (first', found, done) (second', found', done') =
      if found && done
      then (split direction r first' second, true, true)
      else if found
      then settle direction axis r new first' second
      else if not found'
      then (split direction r first' second', false, false)
      else if done'
      then (split direction r first' second', true, true)
      else settle direction axis r new first' second'

  unfoldable pub usable_extent : Direction → Rect F → F
  usable_extent horizontal frame = d.maximum (d.sub frame.size.width split_border) d.one
  usable_extent vertical frame = d.maximum (d.sub frame.size.height split_border) d.one

  unfoldable pub moved_ratio : F → Rect F → Direction → ℤ → F → F
  moved_ratio r frame axis delta_cells cell_extent =
      clamp (d.add r (d.div (d.mul (d.of_i32 delta_cells) cell_extent) (usable_extent axis frame)))

  -- the results are `found` and `done`
  unfoldable pub resize_toward_leaf_by_cells :
      Node F → Rect F → ℕ → Direction → ℤ → F → Node F × Bool × Bool
  resize_toward_leaf_by_cells (leaf i pane) frame target axis delta extent =
      (leaf i pane, i == target, false)
  resize_toward_leaf_by_cells (split direction r first second) frame target axis delta extent =
      resize_step direction axis r (moved_ratio r frame axis delta extent) second
        (resize_toward_leaf_by_cells first (split_frame frame direction r).0 target axis delta
          extent)
        (resize_toward_leaf_by_cells second (split_frame frame direction r).1 target axis delta
          extent)

  unfoldable pub resize_toward_leaf_to_ratio :
      Node F → Rect F → ℕ → Direction → F → Node F × Bool × Bool
  resize_toward_leaf_to_ratio (leaf i pane) frame target axis ratio =
      (leaf i pane, i == target, false)
  resize_toward_leaf_to_ratio (split direction r first second) frame target axis ratio =
      resize_step direction axis r ratio second
        (resize_toward_leaf_to_ratio first (split_frame frame direction r).0 target axis ratio)
        (resize_toward_leaf_to_ratio second (split_frame frame direction r).1 target axis ratio)

  unfoldable pub axis_separation : F → F → F → F → F
  axis_separation a_min a_max b_min b_max =
      if d.lt a_max b_min
      then d.sub b_min a_max
      else if d.lt b_max a_min
      then d.sub a_min b_max
      else d.nought
