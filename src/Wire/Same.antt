-- ===== src/Wire/Same.antt =====
-- What the comparisons of src/remote_wire.rs say of the cells that they compare.
use boo.Base.{◌≡◌, refl, ap₂, Bool, true, false, ◌&&◌, List, [], ◌∷◌, eq_of_==, ◌==◌}
use boo.Wire.States.{Color, RemoteCell, RemoteFullState}
use boo.Wire.Delta.{same_bool, same_color, same_cell, same_cells, same_state}

pub both_true : (b c : Bool) → (b && c) ≡ true → (b ≡ true) × (c ≡ true)
both_true true c h = (refl, h)
both_true false c h = cc

same_bool-eq : (a b : Bool) → same_bool a b ≡ true → a ≡ b
same_bool-eq true true h = refl
same_bool-eq true false h = cc
same_bool-eq false true h = cc
same_bool-eq false false h = refl

same_color-eq : (a b : Color) → same_color a b ≡ true → a ≡ b
same_color-eq a b h =
    let (red, rest) = both_true _ _ h in
    let (green, blue) = both_true _ _ rest in
    λ i. record {
      red = eq_of_== a.red b.red red i;
      green = eq_of_== a.green b.green green i;
      blue = eq_of_== a.blue b.blue blue i;
    }

pub same_cell-eq : (a b : RemoteCell) → same_cell a b ≡ true → a ≡ b
same_cell-eq a b h =
    let (codepoint, later) = both_true _ _ h in
    let (fg, later) = both_true _ _ later in
    let (bg, later) = both_true _ _ later in
    let (style_flags, wide) = both_true _ _ later in
    λ i. record {
      codepoint = eq_of_== a.codepoint b.codepoint codepoint i;
      fg = same_color-eq a.fg b.fg fg i;
      bg = same_color-eq a.bg b.bg bg i;
      style_flags = eq_of_== a.style_flags b.style_flags style_flags i;
      wide = same_bool-eq a.wide b.wide wide i;
    }

pub same_cells-eq : (xs ys : List RemoteCell) → same_cells xs ys ≡ true → xs ≡ ys
same_cells-eq [] [] h = refl
same_cells-eq [] (b ∷ ys) h = cc
same_cells-eq (a ∷ xs) [] h = cc
same_cells-eq (a ∷ xs) (b ∷ ys) h =
    let (first, rest) = both_true _ _ h in
    ap₂ (λ c cs. c ∷ cs) (same_cell-eq a b first) (same_cells-eq xs ys rest)

pub same_state-cells : (a b : RemoteFullState) → same_state a b ≡ true → a.cells ≡ b.cells
same_state-cells a b h =
    let (_, later) = both_true (a.epoch == b.epoch) _ h in
    let (_, later) = both_true (a.viewport_top == b.viewport_top) _ later in
    let (_, later) = both_true (a.scrollback_total == b.scrollback_total) _ later in
    let (_, later) = both_true (a.rows == b.rows) _ later in
    let (_, later) = both_true (a.cols == b.cols) _ later in
    let (_, later) = both_true (a.cursor_x == b.cursor_x) _ later in
    let (_, later) = both_true (a.cursor_y == b.cursor_y) _ later in
    let (_, later) = both_true (same_bool a.cursor_visible b.cursor_visible) _ later in
    let (_, later) = both_true (same_bool a.cursor_blinking b.cursor_blinking) _ later in
    let (_, cells) = both_true (a.cursor_style == b.cursor_style) _ later in
    same_cells-eq a.cells b.cells cells
