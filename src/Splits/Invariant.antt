-- ===== src/Splits/Invariant.antt =====
-- The invariant of `SplitTree`: leaf ids are distinct and below the next id, and the focus is a leaf.
use boo.Base.{
  ℕ, ◌+◌, ◌^◌, ◌≤◌, ◌<◌, ◌≡◌, refl, sym, ap, ◌∙◌, ◌⊎◌, inl, inr, Option, none, some, List, arith,
  length, length-append, length-map, count, count-get_or, get_or, Option-cases,
}
use boo.Double.{Double}
use boo.Pane.{PaneHandle}
use boo.Splits.Node.{
  Node, leaf, split, Direction, RemoveResult, removed, not_found, remove_leaf, collect_leaf_ids,
  find_leaf_id_by_pane,
}
use boo.Splits.Entries.{Entry, ids, count-take_out, count-insert_after, count-find_pane}
use boo.Splits.Leaves.{
  leaves, rest_leaves, restored-remove_leaf, remove_leaf-eq-take_out, collect_leaf_ids-eq-ids,
  leaves-split_node_with_ratio, find_leaf_id_by_pane-eq-find_pane,
}
use boo.Splits.Tree.{
  SplitTree, tree, new_tree, add_root, split_focused_with_ratio, remove_focused, remove_pane,
  refocus, finish_removal, set_focus_to_pane,
}

module _ {F : Type 0} where
  -- The leaves of a tree, from left to right.
  abbrev pub entries : SplitTree F → List Entry
  entries t = rest_leaves t.root

  pub record IsValid (t : SplitTree F) : Type 0 where
    pub unique : (a : ℕ) → count a (ids (entries t)) ≤ 1
    pub fresh : (a : ℕ) → t.next_id ≤ a → count a (ids (entries t)) ≡ 0
    pub bounded : t.next_id < 2 ^ 64
    pub focused : (t.root ≡ none) ⊎ (0 < count t.focused_id (ids (entries t)))

  pub leaves_nonempty : (node : Node F) → 0 < length (leaves node)
  leaves_nonempty (leaf i p) = omega arith
  leaves_nonempty (split dir r first second) =
      omega (arith, leaves_nonempty first, length-append (leaves first) (leaves second))

  -- An index into the leaf ids of a node names a leaf.
  pub count-leaf_at :
      (node : Node F) (k d : ℕ)
      → k < length (leaves node)
      → 0 < count (get_or (collect_leaf_ids node) k d) (ids (leaves node))
  count-leaf_at node k d h =
      rw (collect_leaf_ids-eq-ids node)
        (count-get_or _ k d (omega (arith, length-map {0, 0} (λ (e : Entry). e.0) (leaves node))))

  pub new_tree-IsValid : IsValid new_tree
  new_tree-IsValid = record {
    unique = λ a. omega arith;
    fresh = λ a le. omega arith;
    bounded = omega arith;
    focused = inl refl;
  }

  module _ {root : Node F} {n f : ℕ} (v : IsValid (tree (some root) n f)) where
    pub focus_found : 0 < count f (ids (leaves root))
    focus_found = elim v.focused [ inl h ↦ absurd (cc) | inr h ↦ h ]

    -- The focus may move to any leaf.
    pub focus_moved : {i : ℕ} → 0 < count i (ids (leaves root)) → IsValid (tree (some root) n i)
    focus_moved h = record {
      unique = v.unique;
      fresh = v.fresh;
      bounded = v.bounded;
      focused = inr h;
    }

    -- The nodes may change as long as the leaf ids stay.
    pub root_changed :
        {root' : Node F} → ids (leaves root') ≡ ids (leaves root) → IsValid (tree (some root') n f)
    root_changed e = record {
      unique = λ a. rw e (v.unique a);
      fresh = λ a le. rw e (v.fresh a le);
      bounded = v.bounded;
      focused = inr (rw e focus_found);
    }

    refocused :
        (rest : Option (Node F))
        → (rest ≡ none) ⊎ (0 < count (refocus f rest) (ids (rest_leaves rest)))
    refocused none = inl refl
    refocused (some node) = inr (count-leaf_at node 0 f (leaves_nonempty node))

    -- Both ways of removing a leaf end so.
    pub finish_removal-IsValid :
        (i : ℕ) → IsValid (finish_removal (tree (some root) n f) (remove_leaf root i)).0
    finish_removal-IsValid i = go (remove_leaf root i) refl
      where
        go :
            (r : RemoveResult F)
            → remove_leaf root i ≡ r
            → IsValid (finish_removal (tree (some root) n f) r).0
        go (removed pane rest) h =
            let e = rw h at (sym (remove_leaf-eq-take_out root i)) in
            record {
              unique = λ a. omega (arith, v.unique a, count-take_out a i (leaves root) e);
              fresh = λ a le. omega (arith, v.fresh a le, count-take_out a i (leaves root) e);
              bounded = v.bounded;
              focused = refocused rest;
            }
        go (not_found node) h =
            root_changed (ap (λ m. ids (leaves m)) (rw h at (restored-remove_leaf root i)))

  pub add_root-IsValid :
      (t : SplitTree F) (pane : PaneHandle)
      → IsValid t
      → t.next_id + 1 < 2 ^ 64
      → IsValid (add_root t pane).0
  unfolding add_root
  add_root-IsValid t pane v h = record {
    unique = λ a. ground arith;
    fresh = λ a le. ground arith;
    bounded = omega arith;
    focused = inr (ground arith);
  }

  pub remove_focused-IsValid : (t : SplitTree F) → IsValid t → IsValid (remove_focused t).0
  unfolding remove_focused
  remove_focused-IsValid t = go t.root t.next_id t.focused_id
    where
      go :
          (r : Option (Node F)) (n f : ℕ)
          → IsValid (tree r n f)
          → IsValid (remove_focused (tree r n f)).0
      go none n f v = v
      go (some root) n f v = finish_removal-IsValid v f

  pub remove_pane-IsValid : (t : SplitTree F) (k : ℕ) → IsValid t → IsValid (remove_pane t k).0
  unfolding remove_pane
  remove_pane-IsValid t k = go t.root t.next_id t.focused_id
    where
      go :
          (r : Option (Node F)) (n f : ℕ)
          → IsValid (tree r n f)
          → IsValid (remove_pane (tree r n f) k).0
      go none n f v = v
      go (some root) n f v = elim (Option-cases (find_leaf_id_by_pane root k)) [
        | inl e ↦ rw (e, remove_pane) v
        | inr (i, e) ↦ rw (e, remove_pane) (finish_removal-IsValid v i)
      ]

  pub set_focus_to_pane-IsValid :
      (t : SplitTree F) (k : ℕ) → IsValid t → IsValid (set_focus_to_pane t k).0
  unfolding set_focus_to_pane
  set_focus_to_pane-IsValid t k = go t.root t.next_id t.focused_id
    where
      go :
          (r : Option (Node F)) (n f : ℕ)
          → IsValid (tree r n f)
          → IsValid (set_focus_to_pane (tree r n f) k).0
      go none n f v = v
      go (some root) n f v = elim (Option-cases (find_leaf_id_by_pane root k)) [
        | inl e ↦ rw (e, set_focus_to_pane) v
        | inr (i, e) ↦
            rw (e, set_focus_to_pane)
              (focus_moved v (
                count-find_pane k (leaves root)
                  (sym (find_leaf_id_by_pane-eq-find_pane root k) ∙ e)))
      ]

module _ {F : Type 0} ⦃d : Double F⦄ where
  pub split-IsValid :
      (t : SplitTree F) (dir : Direction) (pane : PaneHandle) (ratio : F)
      → IsValid t
      → t.next_id + 1 < 2 ^ 64
      → IsValid (split_focused_with_ratio t dir pane ratio).0
  unfolding split_focused_with_ratio
  split-IsValid t dir pane ratio = go t.root t.next_id t.focused_id
    where
      go :
          (r : Option (Node F)) (n f : ℕ)
          → IsValid (tree r n f)
          → n + 1 < 2 ^ 64
          → IsValid (split_focused_with_ratio (tree r n f) dir pane ratio).0
      go none n f v h = record {
        unique = v.unique;
        fresh = λ a le. refl;
        bounded = omega arith;
        focused = inl refl;
      }
      go (some root) n f v h =
          let counts = λ (a : ℕ).
            ap (λ l. count a (ids l)) (leaves-split_node_with_ratio root f dir n pane ratio)
            ∙ count-insert_after a f (n, pane) (leaves root) in
          record {
            unique = λ a. ground (arith, counts a, v.unique a, v.unique f, v.fresh a);
            fresh = λ a le. ground (arith, counts a, v.fresh a);
            bounded = omega arith;
            focused = inr (ground (arith, counts n, focus_found v));
          }
