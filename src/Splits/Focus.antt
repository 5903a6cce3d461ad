-- ===== src/Splits/Focus.antt =====
-- The methods of `SplitTree` in src/splits.rs that move the focus, and `surface_info`.
use boo.Base.{
  ℕ, Bool, true, false, ◌&&◌, ◌||◌, Option, none, some, List, [], ◌∷◌, length, get_or, map,
  position, ◌==◌, if◌then◌else◌,
}
use boo.Double.{Double}
use boo.Geometry.{Rect}
use boo.Splits.Node.{collect_leaf_ids}
use boo.Splits.Frames.{ExportedPane, leaf_at_point, axis_separation}
use boo.Splits.Tree.{SplitTree, neighbour, export_panes_with_frames}

-- `bindings::PaneFocusDirection`
pub data PaneFocusDirection : Type 0 where
  left right up down : PaneFocusDirection

module _ {F : Type 0} where
  unfoldable pub set_focus : SplitTree F → ℕ → SplitTree F
  set_focus t i = record t { focused_id = i }

  -- `focus_next` and `focus_prev` differ in the neighbour that they take.
  abbrev pub focus_neighbour : Bool → SplitTree F → SplitTree F
  focus_neighbour next t = elim t.root [
    | none ↦ t
    | some root ↦
        let leaves = collect_leaf_ids root in
        elim (position t.focused_id leaves) [
          | none ↦ t
          | some pos ↦ record t {
            focused_id = get_or leaves (neighbour next pos (length leaves)) 0;
          }
        ]
  ]

  unfoldable pub focus_next : SplitTree F → SplitTree F
  focus_next = focus_neighbour true

  unfoldable pub focus_prev : SplitTree F → SplitTree F
  focus_prev = focus_neighbour false

  unfoldable pub surface_info : SplitTree F → List (ℕ × Bool)
  surface_info t = elim t.root [
    | none ↦ []
    | some root ↦ map (λ i. (i, i == t.focused_id)) (collect_leaf_ids root)
  ]

module _ {F : Type 0} ⦃d : Double F⦄ where
  unfoldable pub focus_at : SplitTree F → Rect F → F × F → SplitTree F × Bool
  focus_at t frame p = elim t.root [
    | none ↦ (t, false)
    | some root ↦ elim (leaf_at_point root frame p) [
      | none ↦ (t, false)
      | some i ↦ if i == t.focused_id then (t, false) else (record t { focused_id = i }, true)
    ]
  ]

  abbrev pub max_x : Rect F → F
  max_x r = d.add r.origin.x r.size.width

  abbrev pub max_y : Rect F → F
  max_y r = d.add r.origin.y r.size.height

  abbrev pub center_x : Rect F → F
  center_x r = d.add r.origin.x (d.div r.size.width d.two)

  abbrev pub center_y : Rect F → F
  center_y r = d.add r.origin.y (d.div r.size.height d.two)

  -- the second distance, for a step along x and one along y
  abbrev pub off_axis_y : Rect F → Rect F → F
  off_axis_y current r =
      d.minimum (axis_separation current.origin.y (max_y current) r.origin.y (max_y r))
        (d.abs (d.sub (center_y r) (center_y current)))

  abbrev pub off_axis_x : Rect F → Rect F → F
  off_axis_x current r =
      d.minimum (axis_separation current.origin.x (max_x current) r.origin.x (max_x r))
        (d.abs (d.sub (center_x r) (center_x current)))

  -- The primary and secondary distance, or `none` where the loop continues.
  unfoldable pub distances : PaneFocusDirection → Rect F → Rect F → Option (F × F)
  distances left current r =
      if d.lt current.origin.x (max_x r)
      then none
      else some (d.sub current.origin.x (max_x r), off_axis_y current r)
  distances right current r =
      if d.lt r.origin.x (max_x current)
      then none
      else some (d.sub r.origin.x (max_x current), off_axis_y current r)
  distances up current r =
      if d.lt current.origin.y (max_y r)
      then none
      else some (d.sub current.origin.y (max_y r), off_axis_x current r)
  distances down current r =
      if d.lt r.origin.y (max_y current)
      then none
      else some (d.sub r.origin.y (max_y current), off_axis_x current r)

  abbrev pub is_better : F × F → Option (ℕ × F × F) → Bool
  is_better c none = true
  is_better c (some (i, primary, secondary)) =
      d.lt c.0 primary || (d.lt (d.abs (d.sub c.0 primary)) d.epsilon && d.lt c.1 secondary)

  -- one round of the loop
  unfoldable pub consider :
      PaneFocusDirection → ℕ → Rect F → ExportedPane F → Option (ℕ × F × F) → Option (ℕ × F × F)
  consider dir current_id current pane best =
      if pane.leaf_id == current_id then best else elim pane.frame [
        | none ↦ best
        | some r ↦ elim (distances dir current r) [
          | none ↦ best
          | some c ↦ if is_better c best then some (pane.leaf_id, c.0, c.1) else best
        ]
      ]

  unfoldable pub best_pane :
      PaneFocusDirection
      → ℕ
      → Rect F
      → List (ExportedPane F)
      → Option (ℕ × F × F)
      → Option (ℕ × F × F)
  best_pane dir current_id current [] best = best
  best_pane dir current_id current (pane ∷ rest) best =
      best_pane dir current_id current rest (consider dir current_id current pane best)

  -- `panes.iter().find(|pane| pane.leaf_id == self.focused_id)`
  unfoldable pub find_exported : ℕ → List (ExportedPane F) → Option (ExportedPane F)
  find_exported i [] = none
  find_exported i (pane ∷ rest) = if pane.leaf_id == i then some pane else find_exported i rest

  unfoldable pub focus_direction : SplitTree F → Rect F → PaneFocusDirection → SplitTree F × Bool
  focus_direction t frame dir =
      let panes = export_panes_with_frames t frame in
      elim (find_exported t.focused_id panes) [
        | none ↦ (t, false)
        | some pane ↦ elim pane.frame [
          | none ↦ (t, false)
          | some current ↦ elim (best_pane dir pane.leaf_id current panes none) [
            | none ↦ (t, false)
            | some (i, primary, secondary) ↦
                if i == t.focused_id then (t, false) else (record t { focused_id = i }, true)
          ]
        ]
      ]
