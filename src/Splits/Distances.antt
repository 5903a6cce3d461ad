-- ===== src/Splits/Distances.antt =====
-- The places of panes that `focus_direction` of src/splits.rs compares, described by their edges.
use boo.Base.{ℕ, ◌≡◌, true, false, none, some, arith}
use boo.Double.{Double}
use boo.Geometry.{Rect}
use boo.Splits.Focus.{
  PaneFocusDirection, left, right, up, down, distances, off_axis_x, off_axis_y, is_better,
}

module _ {F : Type 0} ⦃d : Double F⦄ where
  -- A frame lies beyond another in a direction, with the gap between the edges that face each other
  -- and the distance off the axis.
  abbrev pub Beyond : PaneFocusDirection → Rect F → Rect F → F × F → Type 0
  Beyond left current r c =
      (d.lt current.origin.x (d.add r.origin.x r.size.width) ≡ false)
      × (c.0 ≡ d.sub current.origin.x (d.add r.origin.x r.size.width))
      × (c.1 ≡ off_axis_y current r)
  Beyond right current r c =
      (d.lt r.origin.x (d.add current.origin.x current.size.width) ≡ false)
      × (c.0 ≡ d.sub r.origin.x (d.add current.origin.x current.size.width))
      × (c.1 ≡ off_axis_y current r)
  Beyond up current r c =
      (d.lt current.origin.y (d.add r.origin.y r.size.height) ≡ false)
      × (c.0 ≡ d.sub current.origin.y (d.add r.origin.y r.size.height))
      × (c.1 ≡ off_axis_x current r)
  Beyond down current r c =
      (d.lt r.origin.y (d.add current.origin.y current.size.height) ≡ false)
      × (c.0 ≡ d.sub r.origin.y (d.add current.origin.y current.size.height))
      × (c.1 ≡ off_axis_x current r)

  -- A frame does not lie beyond another in a direction.
  abbrev pub Short : PaneFocusDirection → Rect F → Rect F → Type 0
  Short left current r = d.lt current.origin.x (d.add r.origin.x r.size.width) ≡ true
  Short right current r = d.lt r.origin.x (d.add current.origin.x current.size.width) ≡ true
  Short up current r = d.lt current.origin.y (d.add r.origin.y r.size.height) ≡ true
  Short down current r = d.lt r.origin.y (d.add current.origin.y current.size.height) ≡ true

  pub distances-Beyond :
      (dir : PaneFocusDirection) (current r : Rect F) (c : F × F)
      → distances dir current r ≡ some c
      → Beyond dir current r c
  unfolding distances
  distances-Beyond left current r c e = ground arith
  distances-Beyond right current r c e = ground arith
  distances-Beyond up current r c e = ground arith
  distances-Beyond down current r c e = ground arith

  pub distances-Short :
      (dir : PaneFocusDirection) (current r : Rect F)
      → distances dir current r ≡ none
      → Short dir current r
  unfolding distances
  distances-Short left current r e = ground arith
  distances-Short right current r e = ground arith
  distances-Short up current r e = ground arith
  distances-Short down current r e = ground arith

  pub Short-distances :
      (dir : PaneFocusDirection) (current r : Rect F)
      → Short dir current r
      → distances dir current r ≡ none
  unfolding distances
  Short-distances left current r e = ground arith
  Short-distances right current r e = ground arith
  Short-distances up current r e = ground arith
  Short-distances down current r e = ground arith

  pub Beyond-distances :
      (dir : PaneFocusDirection) (current r : Rect F) (c : F × F)
      → Beyond dir current r c
      → distances dir current r ≡ some c
  unfolding distances
  Beyond-distances left current r c h = ground arith
  Beyond-distances right current r c h = ground arith
  Beyond-distances up current r c h = ground arith
  Beyond-distances down current r c h = ground arith

  -- The first gap and distance are ahead of the second: the gap is smaller by at least epsilon, or
  -- else the gaps are level and the distance off the axis is smaller.
  pub data Ahead (c c' : F × F) : Type 0 where
    nearer :
        d.lt c.0 c'.0 ≡ true
        → d.lt c'.0 c.0 ≡ false
        → d.lt (d.abs (d.sub c'.0 c.0)) d.epsilon ≡ false
        → Ahead c c'
    level :
        d.lt c'.0 c.0 ≡ false
        → d.lt (d.abs (d.sub c.0 c'.0)) d.epsilon ≡ true
        → d.lt c.1 c'.1 ≡ true
        → d.lt c'.1 c.1 ≡ false
        → Ahead c c'

  pub Ahead-is_better :
      (i : ℕ) (c c' : F × F) → Ahead c c' → is_better c (some (i, c'.0, c'.1)) ≡ true
  Ahead-is_better i c c' (nearer near far apart) = ground arith
  Ahead-is_better i c c' (level far close off on) = ground arith

  pub Ahead-is_worse :
      (i : ℕ) (c c' : F × F) → Ahead c c' → is_better c' (some (i, c.0, c.1)) ≡ false
  Ahead-is_worse i c c' (nearer near far apart) = ground arith
  Ahead-is_worse i c c' (level far close off on) = ground arith
