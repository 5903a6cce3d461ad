-- ===== src/Splits/Dragging.antt =====
-- Dragging a divider: `resize_drag_node` and `divider_at_node` of src/splits.rs.
use boo.Base.{
  ◌≡◌, refl, ◌∙◌, Bool, true, false, ◌&&◌, ◌||◌, some, arith, Bool-cases, inl, inr, &&-left,
  &&-right, sym,
}
use boo.Double.{clamp, Double, IsOrdered, IsRatio, clamp-IsRatio}
use boo.Geometry.{Rect}
use boo.Splits.Node.{Node, leaf, split, Direction, horizontal, vertical, same_direction}
use boo.Splits.Leaves.{leaves}
use boo.Splits.Frames.{
  split_frame, resize_drag_node, drag_ratio, along, on_divider, divider_at_node,
}
use boo.Splits.Resizing.{HasRatios}

same_direction-eq : (a b : Direction) → same_direction a b ≡ true → a ≡ b
same_direction-eq horizontal horizontal e = refl
same_direction-eq vertical vertical e = refl
same_direction-eq horizontal vertical e = cc
same_direction-eq vertical horizontal e = cc

module _ {F : Type 0} ⦃d : Double F⦄ where
  drag_ratio-IsRatio :
      IsOrdered F
      → (dir : Direction) (frame : Rect F) (p : F × F) → IsRatio (drag_ratio dir frame p)
  unfolding drag_ratio
  drag_ratio-IsRatio o horizontal frame p = clamp-IsRatio o _
  drag_ratio-IsRatio o vertical frame p = clamp-IsRatio o _

  -- the first split that a drag accepts, in preorder
  abbrev pub accepts : Node F → Rect F → Direction → F × F → Bool
  accepts (leaf i pane) frame dir p = false
  accepts (split direction r first second) frame dir p =
      let (a, b) = split_frame frame direction r in
      (same_direction direction dir && along dir frame p)
      || accepts first a dir p
      || accepts second b dir p

  pub record Dragged (node : Node F) (frame : Rect F) (dir : Direction) (p : F × F)
      (x : Node F × Bool) : Type 0 where
    pub moved : x.1 ≡ accepts node frame dir p
    pub same_leaves : leaves x.0 ≡ leaves node
    pub untouched : x.1 ≡ false → x.0 ≡ node
    pub ratios : HasRatios node → HasRatios x.0

  pub resize_drag_node-Dragged :
      IsOrdered F
      → (node : Node F) (frame : Rect F) (dir : Direction) (p : F × F)
      → Dragged node frame dir p (resize_drag_node node frame dir p)
  unfolding resize_drag_node
  resize_drag_node-Dragged o (leaf i pane) frame dir p = record {
    moved = refl;
    same_leaves = refl;
    untouched = λ _. refl;
    ratios = λ h. h;
  }
  resize_drag_node-Dragged o (split direction r first second) frame dir p =
      let u = resize_drag_node-Dragged o first (split_frame frame direction r).0 dir p in
      let v = resize_drag_node-Dragged o second (split_frame frame direction r).1 dir p in
      let c = drag_ratio-IsRatio o dir frame p in
      record {
        moved = ground (arith, u.moved, v.moved);
        same_leaves = ground (arith, u.same_leaves, v.same_leaves);
        untouched = λ e. ground (arith, e, u.moved, v.moved, u.untouched, v.untouched);
        ratios = λ h. ground (arith, c, h, u.ratios h.1, v.ratios h.2);
      }

  -- A drag at a point: the outermost split of the direction whose frame holds the point across the
  -- divider gets the place of the point in that frame as its ratio, and nothing else changes.
  pub data Drags (dir : Direction) (p : F × F) : Rect F → Node F → Node F → Type 0 where
    drags_x :
        (frame : Rect F) (r : F) (first second : Node F)
        → dir ≡ horizontal
        → along dir frame p ≡ true
        → Drags dir p frame (split dir r first second) (
            split dir
              (clamp (d.div (d.sub p.0 frame.origin.x) (d.maximum frame.size.width d.one)))
              first
              second)
    drags_y :
        (frame : Rect F) (r : F) (first second : Node F)
        → dir ≡ vertical
        → along dir frame p ≡ true
        → Drags dir p frame (split dir r first second) (
            split dir
              (clamp (d.div (d.sub p.1 frame.origin.y) (d.maximum frame.size.height d.one)))
              first
              second)
    in_first :
        (frame : Rect F) (direction : Direction) (r : F) (first second first' : Node F)
        → same_direction direction dir && along dir frame p ≡ false
        → Drags dir p (split_frame frame direction r).0 first first'
        → Drags dir p frame (split direction r first second) (split direction r first' second)
    in_second :
        (frame : Rect F) (direction : Direction) (r : F) (first second second' : Node F)
        → same_direction direction dir && along dir frame p ≡ false
        → accepts first (split_frame frame direction r).0 dir p ≡ false
        → Drags dir p (split_frame frame direction r).1 second second'
        → Drags dir p frame (split direction r first second) (split direction r first second')

  drag_ratio-Drags :
      (dir : Direction) (frame : Rect F) (r : F) (first second : Node F) (p : F × F)
      → along dir frame p ≡ true
      → Drags dir p frame
          (split dir r first second)
          (split dir (drag_ratio dir frame p) first second)
  unfolding drag_ratio
  drag_ratio-Drags horizontal frame r first second p h = drags_x frame r first second refl h
  drag_ratio-Drags vertical frame r first second p h = drags_y frame r first second refl h

  resize_drag_node-Drags :
      IsOrdered F
      → (node : Node F) (frame : Rect F) (dir : Direction) (p : F × F)
      → (resize_drag_node node frame dir p).1 ≡ true
      → Drags dir p frame node (resize_drag_node node frame dir p).0
  unfolding resize_drag_node
  resize_drag_node-Drags o (leaf i pane) frame dir p h = cc
  resize_drag_node-Drags o (split direction r first second) frame dir p h =
      let a = (split_frame frame direction r).0 in
      let b = (split_frame frame direction r).1 in
      let u = resize_drag_node-Dragged o first a dir p in
      let v = resize_drag_node-Dragged o second b dir p in
      let first' = resize_drag_node first a dir p in
      let second' = resize_drag_node second b dir p in
      elim (Bool-cases (same_direction direction dir && along dir frame p)) [
        | inl here ↦
            let step : resize_drag_node (split direction r first second) frame dir p
                ≡ (split direction (drag_ratio dir frame p) first second, true) =
              ground arith in
            let same = same_direction-eq direction dir (&&-left _ _ here) in
            rw step (rw same (drag_ratio-Drags dir frame r first second p (&&-right _ _ here)))
        | inr there ↦ elim (Bool-cases first'.1) [
          | inl done ↦
              let step : resize_drag_node (split direction r first second) frame dir p
                  ≡ (split direction r first'.0 second, true) =
                ground arith in
              rw step (
                in_first frame direction r first second first'.0 there
                  (resize_drag_node-Drags o first a dir p done))
          | inr missed ↦
              let same : first'.0 ≡ first = u.untouched missed in
              let step : resize_drag_node (split direction r first second) frame dir p
                  ≡ (split direction r first second'.0, second'.1) =
                ground (arith, same) in
              let done : second'.1 ≡ true = rw step at h in
              rw step (
                in_second frame direction r first second second'.0 there (sym u.moved ∙ missed)
                  (resize_drag_node-Drags o second b dir p done))
        ]
      ]

  on_divider-along :
      (dir : Direction) (frame first_frame : Rect F) (p : F × F)
      → on_divider dir frame first_frame p ≡ true
      → along dir frame p ≡ true
  unfolding on_divider
  on_divider-along horizontal frame first_frame p h = ground arith
  on_divider-along vertical frame first_frame p h = ground arith

  accepts_divider :
      (node : Node F) (frame : Rect F) (p : F × F) (dir : Direction)
      → divider_at_node node frame p ≡ some dir
      → accepts node frame dir p ≡ true
  unfolding divider_at_node
  accepts_divider (leaf i pane) frame p dir h = cc
  accepts_divider (split direction r first second) frame p dir h =
      let (a, b) = split_frame frame direction r in
      ground (
        arith,
        on_divider-along direction frame a p,
        accepts_divider first a p dir,
        accepts_divider second b p dir,
      )

  -- When the comparisons of numbers are ordered and `divider_at_node` finds a divider at a point, a
  -- drag at this point in the direction of the divider reports success and changes one ratio and
  -- nothing else: that of the first split, the outer before the inner, that has this direction and
  -- whose frame holds the point across the divider. The new ratio is the place of the point in that
  -- frame, clamped to 0.1 and 0.9.
  pub drag_divider :
      IsOrdered F
      → (node : Node F) (frame : Rect F) (p : F × F) (dir : Direction)
      → divider_at_node node frame p ≡ some dir
      → ((resize_drag_node node frame dir p).1 ≡ true)
        × Drags dir p frame node (resize_drag_node node frame dir p).0
  drag_divider o node frame p dir h =
      let moved =
        (resize_drag_node-Dragged o node frame dir p).moved ∙ accepts_divider node frame p dir h in
      (moved, resize_drag_node-Drags o node frame dir p moved)
