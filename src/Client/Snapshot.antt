-- ===== src/Client/Snapshot.antt =====
-- Pictures of a pane: `TerminalSnapshot` of src/vt_backend_core.rs, and how src/client_gui.rs makes
-- one from a full state.
use boo.Base.{
  has_bit, ℕ, zero, suc, ◌+◌, ◌%◌, ◌^◌, Bool, true, false, not, ◌&&◌, ◌||◌, List, [], ◌∷◌, length,
  map, take, drop, max, ltb, leb, ◌==◌, if◌then◌else◌,
}
use boo.Wire.States.{Color, RemoteCell, RemoteFullState}

-- The text is a list of characters.
pub record CellSnapshot : Type 0 where
  pub text : List ℕ
  pub display_width : ℕ
  pub fg : Color
  pub bg : Color
  pub bg_is_default : Bool
  pub bold : Bool
  pub italic : Bool
  pub underline : ℕ
  pub hyperlink : Bool

-- The style is kept as the number that `CursorStyle::from` reads.
pub record CursorSnapshot : Type 0 where
  pub visible : Bool
  pub blinking : Bool
  pub x : ℕ
  pub y : ℕ
  pub style : ℕ

-- The scroll bar, and of the colours the palette, have their default values and are left out.
pub record TerminalSnapshot : Type 0 where
  pub cols : ℕ
  pub rows : ℕ
  pub title : List ℕ
  pub pwd : List ℕ
  pub cursor : CursorSnapshot
  pub rows_data : List (List CellSnapshot)
  pub row_revisions : List ℕ
  pub foreground : Color
  pub background : Color
  pub cursor_color : Color

-- `DEFAULT_TERMINAL_FOREGROUND` and `DEFAULT_TERMINAL_BACKGROUND` of src/main.rs
abbrev pub default_terminal_foreground : Color
default_terminal_foreground = record { red = 0xf0; green = 0xf0; blue = 0xf0 }

abbrev pub default_terminal_background : Color
default_terminal_background = record { red = 0; green = 0; blue = 0 }

-- `CellSnapshot::default()`
abbrev pub blank_cell : CellSnapshot
blank_cell = record {
  text = [];
  display_width = 0;
  fg = record { red = 0; green = 0; blue = 0 };
  bg = record { red = 0; green = 0; blue = 0 };
  bg_is_default = true;
  bold = false;
  italic = false;
  underline = 0;
  hyperlink = false;
}

-- `char::from_u32`, which gives no character for a surrogate or past the last code point
abbrev pub is_char : ℕ → Bool
is_char c = ltb c 0xd800 || (leb 0xe000 c && ltb c 0x110000)

abbrev pub text_of : ℕ → List ℕ
text_of codepoint = if codepoint == 0 then [] else if is_char codepoint then codepoint ∷ [] else []

abbrev pub remote_cell_to_snapshot : Color → Color → RemoteCell → CellSnapshot
remote_cell_to_snapshot default_fg default_bg cell = record {
  text = text_of cell.codepoint;
  display_width = if cell.wide then 2 else 1;
  fg = if has_bit cell.style_flags 0x20 then cell.fg else default_fg;
  bg = if has_bit cell.style_flags 0x40 then cell.bg else default_bg;
  bg_is_default = not (has_bit cell.style_flags 0x40);
  bold = has_bit cell.style_flags 0x01;
  italic = has_bit cell.style_flags 0x02;
  underline = 0;
  hyperlink = has_bit cell.style_flags 0x04;
}

abbrev pub remote_cell_to_snapshot_default : RemoteCell → CellSnapshot
remote_cell_to_snapshot_default cell =
    remote_cell_to_snapshot default_terminal_foreground default_terminal_background cell

-- `chunks`, with the length of the list as fuel
abbrev pub chunks {ℓ} : {A : Type ℓ} → ℕ → ℕ → List A → List (List A)
chunks zero n xs = []
chunks (suc fuel) n [] = []
chunks (suc fuel) n (x ∷ xs) = take n (x ∷ xs) ∷ chunks fuel n (drop n (x ∷ xs))

-- the revisions that count up from the seed
abbrev pub revisions_from : ℕ → ℕ → ℕ → List ℕ
revisions_from seed index zero = []
revisions_from seed index (suc count) =
    (seed + index) % 2 ^ 64 ∷ revisions_from seed (index + 1) count

unfoldable pub remote_full_state_to_vt_snapshot :
    RemoteFullState → ℕ → Color → Color → Color → TerminalSnapshot
remote_full_state_to_vt_snapshot state revision_seed foreground background cursor_color = record {
  cols = state.cols;
  rows = state.rows;
  title = [];
  pwd = [];
  cursor = record {
    visible = state.cursor_visible;
    blinking = state.cursor_blinking;
    x = state.cursor_x;
    y = state.cursor_y;
    style = state.cursor_style;
  };
  rows_data =
      map (λ row. map (remote_cell_to_snapshot foreground background) row)
        (chunks (length state.cells) (max state.cols 1) state.cells);
  row_revisions = revisions_from revision_seed 0 state.rows;
  foreground = foreground;
  background = background;
  cursor_color = cursor_color;
}
