-- ===== src/Geometry.antt =====
-- The geometry types of src/platform/mod.rs.
pub record Point (F : Type 0) : Type 0 where
  pub x : F
  pub y : F

pub record Size (F : Type 0) : Type 0 where
  pub width : F
  pub height : F

pub record Rect (F : Type 0) : Type 0 where
  pub origin : Point F
  pub size : Size F

module _ {F : Type 0} where
  abbrev pub point : F → F → Point F
  point a b = record { x = a; y = b }

  abbrev pub size_of : F → F → Size F
  size_of w h = record { width = w; height = h }

  abbrev pub rect : Point F → Size F → Rect F
  rect o s = record { origin = o; size = s }
