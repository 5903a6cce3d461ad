-- ===== src/Double.antt =====
-- `f64`, as the geometry of src/splits.rs and the presets of src/layout.rs use it: an abstract type
-- with the operations, comparisons and constants that the code names. Rounding and NaN are not
-- fixed: `IsOrdered` holds the laws of IEEE comparisons that proofs rest on, NaN included.
pub mod Fixed
use boo.Base.{ℕ, ◌≡◌, Bool, true, false, if◌then◌else◌, arith}
use boo.Base.Int.{ℤ}

pub record Double (F : Type 0) : Type 0 where
  pub add : F → F → F
  pub sub : F → F → F
  pub mul : F → F → F
  pub div : F → F → F
  pub abs : F → F
  pub minimum : F → F → F
  pub maximum : F → F → F
  pub lt : F → F → Bool
  pub le : F → F → Bool
  pub of_i32 : ℤ → F
  pub of_usize : ℕ → F
  -- `x as u32`, which saturates
  pub to_u32 : F → ℕ
  -- 0.0, 1.0, 2.0, 3.0, 0.1, 0.5, 0.6, 0.9 and `f64::EPSILON`
  pub nought : F
  pub one : F
  pub two : F
  pub three : F
  pub tenth : F
  pub half : F
  pub three_fifths : F
  pub nine_tenths : F
  pub epsilon : F

-- Comparisons with NaN are false, so `lt` is irreflexive and asymmetric on all values.
pub record IsOrdered (F : Type 0) ⦃d : Double F⦄ : Type 0 where
  pub lt_irrefl : (x : F) → d.lt x x ≡ false
  pub lt_asym : (x y : F) → d.lt x y ≡ true → d.lt y x ≡ false
  pub tenth-lt-nine_tenths : d.lt d.tenth d.nine_tenths ≡ true
  pub tenth-lt-half : d.lt d.tenth d.half ≡ true
  pub half-lt-nine_tenths : d.lt d.half d.nine_tenths ≡ true

module _ {F : Type 0} ⦃d : Double F⦄ where
  -- `x.clamp(0.1, 0.9)`, which keeps NaN
  unfoldable pub clamp : F → F
  clamp x = if d.lt x d.tenth then d.tenth else if d.lt d.nine_tenths x then d.nine_tenths else x

  -- A ratio that lies in the range that the split tree allows, or is NaN.
  pub record IsRatio (x : F) : Type 0 where
    pub not_below : d.lt x d.tenth ≡ false
    pub not_above : d.lt d.nine_tenths x ≡ false

  pub clamp-IsRatio : IsOrdered F → (x : F) → IsRatio (clamp x)
  unfolding clamp
  clamp-IsRatio o x = ground (
    arith,
    o.lt_irrefl d.tenth,
    o.lt_irrefl d.nine_tenths,
    o.lt_asym d.tenth d.nine_tenths,
    o.tenth-lt-nine_tenths,
  )
