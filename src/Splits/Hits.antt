-- ===== src/Splits/Hits.antt =====
-- Exports of the tree and hit tests in src/splits.rs, against the list of leaves.
use boo.Base.{
  ℕ, ◌≡◌, refl, sym, ap, ◌∙◌, ◌&&◌, Option, none, some, List, [], ◌∷◌, ◌++◌, map, map-append,
  append_assoc, arith, if◌then◌else◌, or_else, count, ◌<◌,
}
use boo.Double.{Double}
use boo.Geometry.{Rect}
use boo.Pane.{PaneHandle}
use boo.Splits.Node.{Node, leaf, split, Direction}
use boo.Splits.Entries.{Entry, ids, count-ids_append}
use boo.Splits.Leaves.{leaves}
use boo.Splits.Frames.{
  ExportedPane, export_node, export_node_with_frame, split_frame, leaf_at_point, inside_x, inside_y,
  layout_node,
}

module _ {F : Type 0} where
  abbrev pub entry : ExportedPane F → Entry
  entry e = (e.leaf_id, e.pane)

  pub export_node-leaves :
      (node : Node F) (parent : Option (Direction × F)) (out : List (ExportedPane F))
      → map entry (export_node node parent out) ≡ map entry out ++ leaves node
  unfolding export_node
  export_node-leaves (leaf i p) parent out = map-append entry out _
  export_node-leaves (split dir r first second) parent out =
      export_node-leaves second (some (dir, r)) (export_node first (some (dir, r)) out)
      ∙ ap (λ l. l ++ leaves second) (export_node-leaves first (some (dir, r)) out)
      ∙ append_assoc (map entry out) (leaves first) (leaves second)

module _ {F : Type 0} ⦃d : Double F⦄ where
  pub export_node_with_frame-leaves :
      (node : Node F) (frame : Rect F) (parent : Option (Direction × F))
      (out : List (ExportedPane F))
      → map entry (export_node_with_frame node frame parent out) ≡ map entry out ++ leaves node
  unfolding export_node_with_frame
  export_node_with_frame-leaves (leaf i p) frame parent out = map-append entry out _
  export_node_with_frame-leaves (split dir r first second) frame parent out =
      let (a, b) = split_frame frame dir r in
      export_node_with_frame-leaves second b (some (dir, r))
        (export_node_with_frame first a (some (dir, r)) out)
      ∙ ap (λ l. l ++ leaves second) (export_node_with_frame-leaves first a (some (dir, r)) out)
      ∙ append_assoc (map entry out) (leaves first) (leaves second)

  -- `layout_node` lays out the pane of every leaf once, from left to right, behind those that are
  -- already laid out.
  pub layout_node-leaves :
      (node : Node F) (frame : Rect F) (scale : F) (out : List (PaneHandle × ℕ × ℕ))
      → map (λ x. x.0) (layout_node node frame scale out).0
        ≡ map (λ x. x.0) out ++ map (λ e. e.1) (leaves node)
  unfolding layout_node
  layout_node-leaves (leaf i p) frame scale out = map-append _ out _
  layout_node-leaves (split dir r first second) frame scale out =
      let (a, b) = split_frame frame dir r in
      layout_node-leaves second b scale (layout_node first a scale out).0
      ∙ ap (λ l. l ++ map (λ e. e.1) (leaves second)) (layout_node-leaves first a scale out)
      ∙ append_assoc (map (λ x. x.0) out) (map (λ e. e.1) (leaves first))
          (map (λ e. e.1) (leaves second))
      ∙ ap (λ l. map (λ x. x.0) out ++ l)
          (sym (map-append (λ e. e.1) (leaves first) (leaves second)))

  -- The leaves with their frames, from left to right, without an accumulator.
  abbrev pub frames : Node F → Rect F → List (ℕ × Rect F)
  frames (leaf i p) frame = (i, frame) ∷ []
  frames (split dir r first second) frame =
      frames first (split_frame frame dir r).0 ++ frames second (split_frame frame dir r).1

  -- the first of them that holds a point
  abbrev pub first_hit : F × F → List (ℕ × Rect F) → Option ℕ
  first_hit p [] = none
  first_hit p ((i, frame) ∷ fs) =
      let rest = first_hit p fs in if inside_x frame p && inside_y frame p then some i else rest

  first_hit-append :
      (p : F × F) (xs ys : List (ℕ × Rect F))
      → first_hit p (xs ++ ys) ≡ or_else (first_hit p xs) (first_hit p ys)
  first_hit-append p [] ys = refl
  first_hit-append p ((i, frame) ∷ xs) ys = ground (arith, first_hit-append p xs ys)

  -- `leaf_at_point` answers the first leaf, from left to right, whose frame holds the point, among
  -- the frames that `split_frame` gives to the leaves.
  pub leaf_at_point-eq-first_hit :
      (node : Node F) (frame : Rect F) (p : F × F)
      → leaf_at_point node frame p ≡ first_hit p (frames node frame)
  unfolding leaf_at_point
  leaf_at_point-eq-first_hit (leaf i pane) frame p = ground arith
  leaf_at_point-eq-first_hit (split dir r first second) frame p =
      let (a, b) = split_frame frame dir r in
      ground (
        arith,
        first_hit-append p (frames first a) (frames second b),
        leaf_at_point-eq-first_hit first a p,
        leaf_at_point-eq-first_hit second b p,
      )

  abbrev pub framed : ExportedPane F → ℕ × Option (Rect F)
  framed e = (e.leaf_id, e.frame)

  abbrev pub with_frame : ℕ × Rect F → ℕ × Option (Rect F)
  with_frame f = (f.0, some f.1)

  -- `export_node_with_frame` exports every leaf once, from left to right, with the frame that
  -- `split_frame` gives to it.
  pub export_node_with_frame-frames :
      (node : Node F) (frame : Rect F) (parent : Option (Direction × F))
      (out : List (ExportedPane F))
      → map framed (export_node_with_frame node frame parent out)
        ≡ map framed out ++ map with_frame (frames node frame)
  unfolding export_node_with_frame
  export_node_with_frame-frames (leaf i p) frame parent out = map-append framed out _
  export_node_with_frame-frames (split dir r first second) frame parent out =
      let (a, b) = split_frame frame dir r in
      let rest = export_node_with_frame first a (some (dir, r)) out in
      export_node_with_frame-frames second b (some (dir, r)) rest
      ∙ ap (λ l. l ++ map with_frame (frames second b))
          (export_node_with_frame-frames first a (some (dir, r)) out)
      ∙ append_assoc (map framed out) (map with_frame (frames first a))
          (map with_frame (frames second b))
      ∙ ap (λ l. map framed out ++ l)
          (sym (map-append with_frame (frames first a) (frames second b)))

  -- A hit is a leaf of the tree.
  pub count-leaf_at_point :
      (node : Node F) (frame : Rect F) (p : F × F) {i : ℕ}
      → leaf_at_point node frame p ≡ some i
      → 0 < count i (ids (leaves node))
  unfolding leaf_at_point
  count-leaf_at_point (leaf j pane) frame p {i} h = ground arith
  count-leaf_at_point (split dir r first second) frame p {i} h =
      let (a, b) = split_frame frame dir r in
      ground (
        arith,
        count-ids_append i (leaves first) (leaves second),
        count-leaf_at_point first a p {i = i},
        count-leaf_at_point second b p {i = i},
      )
