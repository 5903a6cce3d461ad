-- ===== src/Layout.antt =====
-- The layout presets of src/layout.rs: the sequence of splits that arranges a number of panes.
pub mod Shape
use boo.Base.{
  ℕ, zero, suc, ◌+◌, ◌-◌, ◌%◌, Bool, true, false, List, [], ◌∷◌, map, leb, ◌==◌, if◌then◌else◌,
}
use boo.Double.{Double}

pub data TabLayout : Type 0 where
  manual even_horizontal even_vertical main_horizontal main_vertical tiled : TabLayout

-- the derived `==`
abbrev pub same_layout : TabLayout → TabLayout → Bool
same_layout manual manual = true
same_layout even_horizontal even_horizontal = true
same_layout even_vertical even_vertical = true
same_layout main_horizontal main_horizontal = true
same_layout main_vertical main_vertical = true
same_layout tiled tiled = true
same_layout _ _ = false

-- `SplitDir::Right` and `SplitDir::Down`
pub data SplitDir : Type 0 where
  to_right downward : SplitDir

pub record SplitSpec (F : Type 0) : Type 0 where
  pub direction : SplitDir
  pub ratio : F

-- `(i..n)` as the `count` numbers from `i` on
abbrev pub range : ℕ → ℕ → List ℕ
range i zero = []
range i (suc count) = i ∷ range (i + 1) count

abbrev pub tiled_dir : ℕ → SplitDir
tiled_dir i = if i % 2 == 1 then to_right else downward

module _ {F : Type 0} ⦃d : Double F⦄ where
  -- The share of the next pane at split `i` of `n` panes; `i < n` at every call.
  abbrev pub share : ℕ → ℕ → F
  share n i = d.div d.one (d.of_usize (n - i + 1))

  abbrev pub spec : SplitDir → F → SplitSpec F
  spec dir r = record { direction = dir; ratio = r }

  unfoldable pub layout_splits : TabLayout → ℕ → List (SplitSpec F)
  layout_splits layout n = if leb n 1 then [] else elim layout [
    | manual ↦ map (λ i. spec downward d.half) (range 1 (n - 1))
    | even_horizontal ↦ map (λ i. spec to_right (share n i)) (range 1 (n - 1))
    | even_vertical ↦ map (λ i. spec downward (share n i)) (range 1 (n - 1))
    | main_vertical ↦
        spec to_right d.three_fifths ∷ map (λ i. spec downward (share n i)) (range 2 (n - 2))
    | main_horizontal ↦
        spec downward d.three_fifths ∷ map (λ i. spec to_right (share n i)) (range 2 (n - 2))
    | tiled ↦ map (λ i. spec (tiled_dir i) (share n i)) (range 1 (n - 1))
  ]
