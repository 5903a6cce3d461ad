-- ===== src/Splits/Leaves.antt =====
-- Each function of src/splits.rs that walks the tree, as an operation on the list of its leaves.
use boo.Base.{
  ℕ, ◌≡◌, refl, sym, Option, none, some, List, [], ◌∷◌, ◌++◌, map-append, append_assoc, append-nil,
  arith, length, length-append,
}
use boo.Double.{Double}
use boo.Pane.{PaneHandle}
use boo.Splits.Node.{
  Node, leaf, split, Direction, RemoveResult, removed, not_found, find_leaf, find_leaf_id_by_pane,
  collect_leaf_ids, collect_panes, count_leaves, remove_leaf, split_node_with_ratio, rebalance_node,
}
use boo.Splits.Entries.{
  Entry, ids, panes, find, find_pane, insert_after, take_out, find-append, find_pane-append,
  insert_after-append, take_out-append,
}

module _ {F : Type 0} where
  abbrev pub leaves : Node F → List Entry
  leaves (leaf i pane) = (i, pane) ∷ []
  leaves (split dir r first second) = leaves first ++ leaves second

  -- the leaves that are left when a leaf is removed
  abbrev pub rest_leaves : Option (Node F) → List Entry
  rest_leaves none = []
  rest_leaves (some node) = leaves node

  pub collect_leaf_ids-eq-ids : (node : Node F) → collect_leaf_ids node ≡ ids (leaves node)
  unfolding collect_leaf_ids
  collect_leaf_ids-eq-ids (leaf i pane) = refl
  collect_leaf_ids-eq-ids (split dir r first second) =
      rw (collect_leaf_ids-eq-ids first, collect_leaf_ids-eq-ids second)
        (sym (map-append _ (leaves first) (leaves second)))

  pub collect_panes-eq-panes :
      (node : Node F) (out : List PaneHandle) → collect_panes node out ≡ out ++ panes (leaves node)
  unfolding collect_panes
  collect_panes-eq-panes (leaf i pane) out = refl
  collect_panes-eq-panes (split dir r first second) out =
      simp (collect_panes-eq-panes first, collect_panes-eq-panes second, map-append, append_assoc)

  pub count_leaves-eq-length : (node : Node F) → count_leaves node ≡ length (leaves node)
  unfolding count_leaves
  count_leaves-eq-length (leaf i pane) = refl
  count_leaves-eq-length (split dir r first second) = omega (
    arith,
    count_leaves-eq-length first,
    count_leaves-eq-length second,
    length-append (leaves first) (leaves second),
  )

  -- `find_leaf` answers the pane of the first leaf, from left to right, that has the id.
  pub find_leaf-eq-find : (node : Node F) (i : ℕ) → find_leaf node i ≡ find i (leaves node)
  unfolding find_leaf
  find_leaf-eq-find (leaf j pane) i = refl
  find_leaf-eq-find (split dir r first second) i =
      rw (find_leaf-eq-find first i, find_leaf-eq-find second i)
        (sym (find-append i (leaves first) (leaves second)))

  pub find_leaf_id_by_pane-eq-find_pane :
      (node : Node F) (k : ℕ) → find_leaf_id_by_pane node k ≡ find_pane k (leaves node)
  unfolding find_leaf_id_by_pane
  find_leaf_id_by_pane-eq-find_pane (leaf j pane) k = refl
  find_leaf_id_by_pane-eq-find_pane (split dir r first second) k =
      rw (find_leaf_id_by_pane-eq-find_pane first k, find_leaf_id_by_pane-eq-find_pane second k)
        (sym (find_pane-append k (leaves first) (leaves second)))

  -- the abstract result of a removal
  abbrev pub taken : RemoveResult F → Option (PaneHandle × List Entry)
  taken (removed pane rest) = some (pane, rest_leaves rest)
  taken (not_found node) = none

  -- the tree that a removal without a match gives back, and the one given where there is a match
  abbrev pub restored : RemoveResult F → Node F → Node F
  restored (removed pane rest) node = node
  restored (not_found node') node = node'

  -- When `remove_leaf` finds no leaf with the id, the tree that it gives back is the tree that it
  -- was given.
  pub restored-remove_leaf : (node : Node F) (i : ℕ) → restored (remove_leaf node i) node ≡ node
  unfolding remove_leaf
  restored-remove_leaf (leaf j pane) i = ground arith
  restored-remove_leaf (split dir r first second) i =
      ground (arith, restored-remove_leaf first i, restored-remove_leaf second i)

  -- `remove_leaf` refines the removal of the first entry with an id from the list of leaves: it
  -- finds a leaf when the list has it, gives back its pane, and leaves the other leaves in their
  -- order.
  pub remove_leaf-eq-take_out :
      (node : Node F) (i : ℕ) → taken (remove_leaf node i) ≡ take_out i (leaves node)
  unfolding remove_leaf
  remove_leaf-eq-take_out (leaf j pane) i = ground arith
  remove_leaf-eq-take_out (split dir r first second) i = ground (
    arith,
    take_out-append i (leaves first) (leaves second),
    remove_leaf-eq-take_out first i,
    remove_leaf-eq-take_out second i,
    restored-remove_leaf first i,
    append-nil (leaves first),
  )

module _ {F : Type 0} ⦃d : Double F⦄ where
  -- `split_node_with_ratio` puts the new leaf right behind every leaf with the target id, and keeps
  -- the other leaves and their order.
  pub leaves-split_node_with_ratio :
      (node : Node F) (i : ℕ) (dir : Direction) (new_id : ℕ) (pane : PaneHandle) (ratio : F)
      → leaves (split_node_with_ratio node i dir new_id pane ratio)
        ≡ insert_after i (new_id, pane) (leaves node)
  unfolding split_node_with_ratio
  leaves-split_node_with_ratio (leaf j q) i dir new_id pane ratio = ground arith
  leaves-split_node_with_ratio (split dir' r first second) i dir new_id pane ratio =
      rw
        (
          leaves-split_node_with_ratio first i dir new_id pane ratio,
          leaves-split_node_with_ratio second i dir new_id pane ratio,
        )
        (sym (insert_after-append i (new_id, pane) (leaves first) (leaves second)))

  pub leaves-rebalance_node : (node : Node F) → leaves (rebalance_node node) ≡ leaves node
  unfolding rebalance_node
  leaves-rebalance_node (leaf i pane) = refl
  leaves-rebalance_node (split dir r first second) =
      rw (leaves-rebalance_node first, leaves-rebalance_node second)
