-- ===== src/Splits/Tree.antt =====
-- `SplitTree` of src/splits.rs and its methods, but for those that move the focus, which are in
-- Splits/Focus.antt. A method returns the new tree, with its result beside it.
use boo.Base.{
  ℕ, ◌+◌, ◌-◌, ◌%◌, ◌^◌, Bool, true, false, Option, none, some, List, [], ◌∷◌, ◌++◌, length, get_or,
  get_elem?, take, drop, last_or, position, unwrap_or, ltb, ◌==◌, if◌then◌else◌, next_64,
}
use boo.Base.Int.{ℤ}
use boo.Double.{Double, clamp}
use boo.Geometry.{Rect}
use boo.Pane.{PaneHandle, null}
use boo.Splits.Node.{
  Node, leaf, Direction, vertical, RemoveResult, removed, not_found, find_leaf,
  find_leaf_id_by_pane, collect_leaf_ids, collect_panes, count_leaves, swap_leaf_panes,
  assign_leaf_panes, remove_leaf, split_node_with_ratio, rebalance_node,
}
use boo.Splits.Frames.{
  ViewCall, ExportedPane, set_hidden_recursive, export_node, export_node_with_frame, layout_node,
  divider_at_node, resize_drag_node, resize_toward_leaf_by_cells, resize_toward_leaf_to_ratio,
}

pub record SplitTree (F : Type 0) : Type 0 where
  pub root : Option (Node F)
  pub next_id : ℕ
  pub focused_id : ℕ

-- the index of the next or the previous leaf, around the end
abbrev pub neighbour : Bool → ℕ → ℕ → ℕ
neighbour next pos n = if next then (pos + 1) % n else (pos + n - 1) % n

unfoldable pub rotated : Bool → List PaneHandle → List PaneHandle
rotated forward panes =
    if forward
    then last_or null panes ∷ take (length panes - 1) panes
    else drop 1 panes ++ (get_or panes 0 null ∷ [])

module _ {F : Type 0} where
  abbrev pub tree : Option (Node F) → ℕ → ℕ → SplitTree F
  tree root next_id focused_id = record { root = root; next_id = next_id; focused_id = focused_id }

  abbrev pub new_tree : SplitTree F
  new_tree = record { root = none; next_id = 0; focused_id = 0 }

  unfoldable pub add_root : SplitTree F → PaneHandle → SplitTree F × ℕ
  add_root t pane = (
    record {
      root = some (leaf t.next_id pane);
      next_id = next_64 t.next_id;
      focused_id = t.next_id;
    },
    t.next_id,
  )

  unfoldable pub focused_pane : SplitTree F → PaneHandle
  focused_pane t = elim t.root [
    | none ↦ null
    | some root ↦ unwrap_or (find_leaf root t.focused_id) null
  ]

  unfoldable pub set_focus_to_pane : SplitTree F → ℕ → SplitTree F × Bool
  set_focus_to_pane t pane_id = elim t.root [
    | none ↦ (t, false)
    | some root ↦ elim (find_leaf_id_by_pane root pane_id) [
      | none ↦ (t, false)
      | some i ↦ (record t { focused_id = i }, true)
    ]
  ]

  unfoldable pub export_panes : SplitTree F → List (ExportedPane F)
  export_panes t = elim t.root [ none ↦ [] | some root ↦ export_node root none [] ]

  unfoldable pub all_panes : SplitTree F → List PaneHandle
  all_panes t = elim t.root [ none ↦ [] | some root ↦ collect_panes root [] ]

  unfoldable pub len : SplitTree F → ℕ
  len t = elim t.root [ none ↦ 0 | some root ↦ count_leaves root ]

  unfoldable pub set_hidden : SplitTree F → Bool → List (ViewCall F)
  set_hidden t hidden = elim t.root [ none ↦ [] | some root ↦ set_hidden_recursive root hidden ]

  -- the focus after a removal: the first leaf that is left
  abbrev pub refocus : ℕ → Option (Node F) → ℕ
  refocus focused none = focused
  refocus focused (some root) = get_or (collect_leaf_ids root) 0 focused

  abbrev pub finish_removal : SplitTree F → RemoveResult F → SplitTree F × Option PaneHandle
  finish_removal t (removed pane remaining) =
      (record t { root = remaining; focused_id = refocus t.focused_id remaining }, some pane)
  finish_removal t (not_found node) = (record t { root = some node }, none)

  unfoldable pub remove_focused : SplitTree F → SplitTree F × Option PaneHandle
  remove_focused t = elim t.root [
    | none ↦ (t, none)
    | some root ↦ finish_removal t (remove_leaf root t.focused_id)
  ]

  unfoldable pub remove_pane : SplitTree F → ℕ → SplitTree F × Option PaneHandle
  remove_pane t pane_id = elim t.root [
    | none ↦ (t, none)
    | some root ↦ elim (find_leaf_id_by_pane root pane_id) [
      | none ↦ (t, none)
      | some target ↦ finish_removal t (remove_leaf root target)
    ]
  ]

  unfoldable pub swap_focused_with_adjacent : SplitTree F → Bool → SplitTree F × Bool
  swap_focused_with_adjacent t next = elim t.root [
    | none ↦ (t, false)
    | some root ↦
        let leaves = collect_leaf_ids root in
        elim (position t.focused_id leaves) [
          | none ↦ (t, false)
          | some pos ↦
              if ltb (length leaves) 2
              then (t, false)
              else let other_id = get_or leaves (neighbour next pos (length leaves)) 0 in
                let (root', done) = swap_leaf_panes root t.focused_id other_id in
                (record t { root = some root' }, done)
        ]
  ]

  -- `filter_map(|id| find_leaf(root, *id))`
  unfoldable pub panes_of : Node F → List ℕ → List PaneHandle
  panes_of root [] = []
  panes_of root (i ∷ is) =
      let rest = panes_of root is in elim (find_leaf root i) [ none ↦ rest | some p ↦ p ∷ rest ]

  unfoldable pub rotate_panes : SplitTree F → Bool → SplitTree F × Bool
  rotate_panes t forward = elim t.root [
    | none ↦ (t, false)
    | some root ↦
        let leaves = collect_leaf_ids root in
        let panes = panes_of root leaves in
        let (root', done) = assign_leaf_panes root leaves (rotated forward panes) in
        if ltb (length leaves) 2
        then (t, false)
        else if length panes == length leaves
        then (record t { root = some root' }, done)
        else (t, false)
  ]

module _ {F : Type 0} ⦃d : Double F⦄ where
  unfoldable pub split_focused_with_ratio :
      SplitTree F → Direction → PaneHandle → F → SplitTree F × Option ℕ
  split_focused_with_ratio t dir pane ratio =
      let new_id = t.next_id in
      elim t.root [
        | none ↦ (record t { next_id = next_64 t.next_id }, none)
        | some root ↦ (
          record {
            root = some (split_node_with_ratio root t.focused_id dir new_id pane ratio);
            next_id = next_64 t.next_id;
            focused_id = new_id;
          },
          some new_id,
        )
      ]

  unfoldable pub split_focused : SplitTree F → Direction → PaneHandle → SplitTree F × Option ℕ
  unfolding split_focused_with_ratio
  split_focused t dir pane = split_focused_with_ratio t dir pane d.half

  unfoldable pub layout : SplitTree F → Rect F → F → List (PaneHandle × ℕ × ℕ) × List (ViewCall F)
  layout t frame scale = elim t.root [
    | none ↦ ([], [])
    | some root ↦ layout_node root frame scale []
  ]

  unfoldable pub export_panes_with_frames : SplitTree F → Rect F → List (ExportedPane F)
  export_panes_with_frames t frame = elim t.root [
    | none ↦ []
    | some root ↦ export_node_with_frame root frame none []
  ]

  -- the loop over the panes behind the first; `idx` is the index of the next one
  unfoldable pub rebuild_loop : Node F → ℕ → ℕ → List PaneHandle → List (Direction × F) → Node F × ℕ
  rebuild_loop root next_id idx [] splits = (root, next_id)
  rebuild_loop root next_id idx (pane ∷ rest) splits =
      let (dir, ratio) = unwrap_or (get_elem? splits (idx - 1)) (vertical, d.half) in
      rebuild_loop
        (split_node_with_ratio root ((next_id + 2 ^ 64 - 1) % 2 ^ 64) dir next_id pane ratio)
        (next_64 next_id) (idx + 1) rest splits

  -- the last lines of `rebuild_from_panes`
  unfoldable pub focus_rebuilt : SplitTree F → ℕ → SplitTree F
  focus_rebuilt t pane_id =
      let t' = (set_focus_to_pane t pane_id).0 in
      if (focused_pane t').id == pane_id then t' else record t' { focused_id = 0 }

  unfoldable pub rebuild_from_panes :
      SplitTree F → List PaneHandle → List (Direction × F) → ℕ → SplitTree F × Bool
  rebuild_from_panes t [] splits pane_id = (record t { root = none }, false)
  rebuild_from_panes t (pane ∷ rest) splits pane_id =
      let (root, next_id) = rebuild_loop (leaf 0 pane) 1 1 rest splits in
      (focus_rebuilt (record t { root = some root; next_id = next_id }) pane_id, true)

  unfoldable pub rebalance : SplitTree F → SplitTree F × Bool
  rebalance t = elim t.root [
    | none ↦ (t, false)
    | some root ↦ (record t { root = some (rebalance_node root) }, true)
  ]

  unfoldable pub resize_focused_by_cells : SplitTree F → Rect F → Direction → ℤ → F → SplitTree F
  resize_focused_by_cells t frame axis delta extent = elim t.root [
    | none ↦ t
    | some root ↦ record t {
      root = some (resize_toward_leaf_by_cells root frame t.focused_id axis delta extent).0;
    }
  ]

  unfoldable pub divider_at : SplitTree F → Rect F → F × F → Option Direction
  divider_at t frame p = elim t.root [ none ↦ none | some root ↦ divider_at_node root frame p ]

  unfoldable pub resize_drag : SplitTree F → Rect F → Direction → F × F → SplitTree F
  resize_drag t frame dir p = elim t.root [
    | none ↦ t
    | some root ↦ record t { root = some (resize_drag_node root frame dir p).0 }
  ]

  unfoldable pub resize_pane_to_ratio :
      SplitTree F → Rect F → ℕ → Direction → F → SplitTree F × Bool
  resize_pane_to_ratio t frame pane_id axis ratio = elim t.root [
    | none ↦ (t, false)
    | some root ↦ elim (find_leaf_id_by_pane root pane_id) [
      | none ↦ (t, false)
      | some target ↦
          let (root', found, done) =
            resize_toward_leaf_to_ratio root frame target axis (clamp ratio) in
          (record t { root = some root' }, done)
    ]
  ]
