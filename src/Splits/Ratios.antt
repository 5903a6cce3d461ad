-- ===== src/Splits/Ratios.antt =====
-- The ratios of the splits under the functions of src/splits.rs on nodes.
use boo.Base.{
  ℕ, ◌+◌, ◌-◌, ◌%◌, ◌^◌, Option, none, some, List, [], ◌∷◌, arith, Option-cases, inl, inr,
  get_elem?, unwrap_or, next_64, Bool-cases,
}
use boo.Double.{Double, IsOrdered}
use boo.Pane.{PaneHandle}
use boo.Splits.Node.{
  Node, leaf, split, Direction, vertical, RemoveResult, removed, not_found, set_leaf_pane,
  swap_leaf_panes, assign_leaf_panes_inner, assign_leaf_panes, remove_leaf, split_node_with_ratio,
  find_leaf,
}
use boo.Splits.Resizing.{HasRatios, split_node-HasRatios}
use boo.Splits.Tree.{rebuild_loop}

module _ {F : Type 0} ⦃d : Double F⦄ where
  abbrev pub RestRatios : Option (Node F) → Type 0
  RestRatios none = Unit {0}
  RestRatios (some node) = HasRatios node

  abbrev pub Kept : RemoveResult F → Type 0
  Kept (removed pane rest) = RestRatios rest
  Kept (not_found node) = HasRatios node

  set_leaf_pane-HasRatios :
      (node : Node F) (i : ℕ) (q : PaneHandle)
      → HasRatios node
      → HasRatios (set_leaf_pane node i q).0
  unfolding set_leaf_pane
  set_leaf_pane-HasRatios (leaf j p) i q h = ground arith
  set_leaf_pane-HasRatios (split dir r first second) i q h =
      ground (arith, set_leaf_pane-HasRatios first i q h.1, set_leaf_pane-HasRatios second i q h.2)

  pub swap_leaf_panes-HasRatios :
      (node : Node F) (a b : ℕ) → HasRatios node → HasRatios (swap_leaf_panes node a b).0
  unfolding swap_leaf_panes
  swap_leaf_panes-HasRatios node a b h = elim (Option-cases (find_leaf node a)) [
    | inl e ↦ rw (e, swap_leaf_panes) h
    | inr (p, e) ↦ elim (Option-cases (find_leaf node b)) [
      | inl e' ↦ rw (e, swap_leaf_panes, e') h
      | inr (q, e') ↦
          let once = set_leaf_pane-HasRatios node a q h in
          let twice = set_leaf_pane-HasRatios (set_leaf_pane node a q).0 b p once in
          elim (Bool-cases (set_leaf_pane node a q).1) [
            | inl done ↦ rw (e, swap_leaf_panes, e', done) twice
            | inr lost ↦ rw (e, swap_leaf_panes, e', lost) once
          ]
    ]
  ]

  assign_inner-HasRatios :
      (node : Node F) (is : List ℕ) (qs : List PaneHandle) (n : ℕ)
      → HasRatios node
      → HasRatios (assign_leaf_panes_inner node is qs n).0
  unfolding assign_leaf_panes_inner
  assign_inner-HasRatios (leaf i p) is qs n h = ground arith
  assign_inner-HasRatios (split dir r first second) is qs n h = (
    h.0,
    assign_inner-HasRatios first is qs n h.1,
    assign_inner-HasRatios second is qs (assign_leaf_panes_inner first is qs n).1 h.2,
  )

  pub assign_leaf_panes-HasRatios :
      (node : Node F) (is : List ℕ) (qs : List PaneHandle)
      → HasRatios node
      → HasRatios (assign_leaf_panes node is qs).0
  unfolding assign_leaf_panes
  assign_leaf_panes-HasRatios node is qs h = ground (arith, assign_inner-HasRatios node is qs 0 h)

  pub remove_leaf-Kept : (node : Node F) (i : ℕ) → HasRatios node → Kept (remove_leaf node i)
  unfolding remove_leaf
  remove_leaf-Kept (leaf j p) i h = ground arith
  remove_leaf-Kept (split dir r first second) i h =
      ground (arith, remove_leaf-Kept first i h.1, remove_leaf-Kept second i h.2)

  pub rebuild_loop-HasRatios :
      IsOrdered F
      → (root : Node F) (n idx : ℕ) (ps : List PaneHandle) (splits : List (Direction × F))
      → HasRatios root
      → HasRatios (rebuild_loop root n idx ps splits).0
  unfolding rebuild_loop
  rebuild_loop-HasRatios o root n idx [] splits h = h
  rebuild_loop-HasRatios o root n idx (q ∷ ps) splits h =
      let (dir, ratio) = unwrap_or (get_elem? splits (idx - 1)) (vertical, d.half) in
      let target = (n + 2 ^ 64 - 1) % 2 ^ 64 in
      rebuild_loop-HasRatios o (split_node_with_ratio root target dir n q ratio) (next_64 n)
        (idx + 1) ps splits (split_node-HasRatios o root target dir n q ratio h)
