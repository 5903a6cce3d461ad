-- ===== src/Splits/Node.antt =====
-- The nodes of the split tree and the functions of src/splits.rs that walk them without a frame.
-- `Vec` outputs are lists; an `&mut Node` argument is returned, with the function's result beside it.
use boo.Base.{
  ℕ, ◌+◌, Bool, true, false, Option, none, some, List, [], ◌∷◌, ◌++◌, length, get_or, position,
  or_else, ◌==◌, if◌then◌else◌, next_64,
}
use boo.Double.{Double, clamp}
use boo.Pane.{PaneHandle, null}

pub data Direction : Type 0 where
  horizontal vertical : Direction

abbrev pub same_direction : Direction → Direction → Bool
same_direction horizontal horizontal = true
same_direction vertical vertical = true
same_direction _ _ = false

pub data Node (F : Type 0) : Type 0 where
  leaf : ℕ → PaneHandle → Node F
  split : Direction → F → Node F → Node F → Node F

-- `pane` is the removed one.
pub data RemoveResult (F : Type 0) : Type 0 where
  removed : PaneHandle → Option (Node F) → RemoveResult F
  not_found : Node F → RemoveResult F

module _ {F : Type 0} where
  unfoldable pub find_leaf : Node F → ℕ → Option PaneHandle
  find_leaf (leaf i pane) target = if i == target then some pane else none
  find_leaf (split dir r first second) target =
      or_else (find_leaf first target) (find_leaf second target)

  unfoldable pub find_leaf_id_by_pane : Node F → ℕ → Option ℕ
  find_leaf_id_by_pane (leaf i pane) pane_id = if pane.id == pane_id then some i else none
  find_leaf_id_by_pane (split dir r first second) pane_id =
      or_else (find_leaf_id_by_pane first pane_id) (find_leaf_id_by_pane second pane_id)

  unfoldable pub collect_leaf_ids : Node F → List ℕ
  collect_leaf_ids (leaf i pane) = i ∷ []
  collect_leaf_ids (split dir r first second) = collect_leaf_ids first ++ collect_leaf_ids second

  -- appends to `out`
  unfoldable pub collect_panes : Node F → List PaneHandle → List PaneHandle
  collect_panes (leaf i pane) out = out ++ (pane ∷ [])
  collect_panes (split dir r first second) out = collect_panes second (collect_panes first out)

  unfoldable pub count_leaves : Node F → ℕ
  count_leaves (leaf i pane) = 1
  count_leaves (split dir r first second) = count_leaves first + count_leaves second

  unfoldable pub set_leaf_pane : Node F → ℕ → PaneHandle → Node F × Bool
  set_leaf_pane (leaf i pane) target new_pane =
      if i == target then (leaf i new_pane, true) else (leaf i pane, false)
  set_leaf_pane (split dir r first second) target new_pane =
      let (first', done) = set_leaf_pane first target new_pane in
      let (second', done') = set_leaf_pane second target new_pane in
      if done then (split dir r first' second, true) else (split dir r first' second', done')

  unfoldable pub swap_leaf_panes : Node F → ℕ → ℕ → Node F × Bool
  swap_leaf_panes node a b = elim (find_leaf node a) [
    | none ↦ (node, false)
    | some pane_a ↦ elim (find_leaf node b) [
      | none ↦ (node, false)
      | some pane_b ↦
          let (node', done) = set_leaf_pane node a pane_b in
          let second = set_leaf_pane node' b pane_a in if done then second else (node', false)
    ]
  ]

  -- The callers pass a `panes` as long as `leaf_ids`, so the index is never out of range.
  unfoldable pub assign_leaf_panes_inner : Node F → List ℕ → List PaneHandle → ℕ → Node F × ℕ
  assign_leaf_panes_inner (leaf i pane) leaf_ids panes assigned = elim (position i leaf_ids) [
    | none ↦ (leaf i pane, assigned)
    | some index ↦ (leaf i (get_or panes index null), next_64 assigned)
  ]
  assign_leaf_panes_inner (split dir r first second) leaf_ids panes assigned =
      let (first', n) = assign_leaf_panes_inner first leaf_ids panes assigned in
      let (second', m) = assign_leaf_panes_inner second leaf_ids panes n in
      (split dir r first' second', m)

  unfoldable pub assign_leaf_panes : Node F → List ℕ → List PaneHandle → Node F × Bool
  assign_leaf_panes node leaf_ids panes =
      let (node', assigned) = assign_leaf_panes_inner node leaf_ids panes 0 in
      if length leaf_ids == length panes then (node', assigned == length panes) else (node, false)

  unfoldable pub remove_leaf : Node F → ℕ → RemoveResult F
  remove_leaf (leaf i pane) target =
      if i == target then removed pane none else not_found (leaf i pane)
  remove_leaf (split dir r first second) target =
      let in_second = remove_leaf second target in
      elim (remove_leaf first target) [
        | removed pane (some rest) ↦ removed pane (some (split dir r rest second))
        | removed pane none ↦ removed pane (some second)
        | not_found first' ↦ elim in_second [
          | removed pane (some rest) ↦ removed pane (some (split dir r first' rest))
          | removed pane none ↦ removed pane (some first')
          | not_found second' ↦ not_found (split dir r first' second')
        ]
      ]

module _ {F : Type 0} ⦃d : Double F⦄ where
  unfoldable pub split_node_with_ratio : Node F → ℕ → Direction → ℕ → PaneHandle → F → Node F
  split_node_with_ratio (leaf i pane) target dir new_id new_pane ratio =
      if i == target
      then split dir (clamp ratio) (leaf i pane) (leaf new_id new_pane)
      else leaf i pane
  split_node_with_ratio (split dir' r first second) target dir new_id new_pane ratio =
      split dir' r (split_node_with_ratio first target dir new_id new_pane ratio)
        (split_node_with_ratio second target dir new_id new_pane ratio)

  unfoldable pub rebalance_node : Node F → Node F
  rebalance_node (leaf i pane) = leaf i pane
  rebalance_node (split dir r first second) =
      split dir d.half (rebalance_node first) (rebalance_node second)
