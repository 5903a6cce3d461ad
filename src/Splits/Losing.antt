-- ===== src/Splits/Losing.antt =====
-- `set_focus` of src/splits.rs with an id that is no leaf, and the split that comes after it.
use boo.Base.{ℕ, ◌≡◌, refl, ◌∙◌, some, List, [], ◌∷◌, arith, count}
use boo.Double.{Double}
use boo.Pane.{PaneHandle}
use boo.Splits.Node.{Node, Direction}
use boo.Splits.Entries.{Entry, ids, insert_after}
use boo.Splits.Leaves.{leaves, leaves-split_node_with_ratio}
use boo.Splits.Tree.{tree, split_focused_with_ratio}
use boo.Splits.Focus.{set_focus}
use boo.Splits.Invariant.{entries}

insert_after_missing :
    (i : ℕ) (e : Entry) (es : List Entry) → count i (ids es) ≡ 0 → insert_after i e es ≡ es
insert_after_missing i e [] h = refl
insert_after_missing i e ((j, p) ∷ es) h = ground (arith, insert_after_missing i e es)

module _ {F : Type 0} ⦃d : Double F⦄ where
  -- When the focus is set to an id that no leaf has, splitting the focused pane reports a new id,
  -- but the tree keeps its leaves and their panes: no leaf is added for the new pane.
  pub split_focused_with_ratio-set_focus :
      (root : Node F) (n f i : ℕ) (dir : Direction) (pane : PaneHandle) (ratio : F)
      → count i (ids (leaves root)) ≡ 0
      → ((split_focused_with_ratio (set_focus (tree (some root) n f) i) dir pane ratio).1 ≡ some n)
        × (entries (split_focused_with_ratio (set_focus (tree (some root) n f) i) dir pane ratio).0
            ≡ leaves root)
  unfolding split_focused_with_ratio set_focus
  split_focused_with_ratio-set_focus root n f i dir pane ratio h = (
    refl,
    leaves-split_node_with_ratio root i dir n pane ratio
        ∙ insert_after_missing i (n, pane) (leaves root) h,
  )
