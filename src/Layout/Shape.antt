-- ===== src/Layout/Shape.antt =====
-- How many splits a preset of src/layout.rs asks for.
use boo.Base.{ℕ, zero, suc, ◌+◌, ◌-◌, ◌≡◌, refl, ap, ◌∙◌, map, length, length-map, arith}
use boo.Double.{Double}
use boo.Layout.{
  TabLayout, manual, even_horizontal, even_vertical, main_horizontal, main_vertical, tiled,
  to_right, downward, SplitSpec, range, share, spec, tiled_dir, layout_splits,
}

length-range : (i n : ℕ) → length (range i n) ≡ n
length-range i zero = refl
length-range i (suc n) = ap suc (length-range (i + 1) n)

module _ (F : Type 0) ⦃d : Double F⦄ where
  length-specs : (f : ℕ → SplitSpec F) (i n : ℕ) → length (map f (range i n)) ≡ n
  length-specs f i n = length-map f (range i n) ∙ length-range i n

  -- Every preset for a number of panes has one split for each pane but the first.
  pub length-layout_splits :
      (layout : TabLayout) (n : ℕ) → length (layout_splits {F = F} layout n) ≡ n - 1
  unfolding layout_splits
  length-layout_splits manual n = ground (arith, length-specs (λ i. spec downward d.half) 1 (n - 1))
  length-layout_splits even_horizontal n =
      ground (arith, length-specs (λ i. spec to_right (share n i)) 1 (n - 1))
  length-layout_splits even_vertical n =
      ground (arith, length-specs (λ i. spec downward (share n i)) 1 (n - 1))
  length-layout_splits main_vertical n =
      ground (arith, length-specs (λ i. spec downward (share n i)) 2 (n - 2))
  length-layout_splits main_horizontal n =
      ground (arith, length-specs (λ i. spec to_right (share n i)) 2 (n - 2))
  length-layout_splits tiled n =
      ground (arith, length-specs (λ i. spec (tiled_dir i) (share n i)) 1 (n - 1))
