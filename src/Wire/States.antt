-- ===== src/Wire/States.antt =====
-- The full state of a pane in src/remote_wire.rs: `encode_full_state` and its decoder.
use Prim.Native.Nat.{min}
use boo.Base.{
  ℕ, zero, suc, ◌+◌, ◌*◌, ◌-◌, ◌^◌, ◌<◌, ◌≡◌, refl, ap, ap₂, ◌∙◌, sym, Bool, true, false, not,
  Option, List, [], ◌∷◌, ◌++◌, arith, length, length-append, take, drop, get_or, ltb, ◌==◌,
  if◌then◌else◌, unwrap_or, All,
}
use boo.Wire.Frames.{to_le_bytes, from_le_bytes, from_le_bytes-to_le_bytes}

-- three bytes, as `[u8; 3]`
pub record Color : Type 0 where
  pub red : ℕ
  pub green : ℕ
  pub blue : ℕ

pub record RemoteCell : Type 0 where
  pub codepoint : ℕ
  pub fg : Color
  pub bg : Color
  pub style_flags : ℕ
  pub wide : Bool

-- The style of the cursor, an `i32`, is kept as its 32 bits.
pub record RemoteFullState : Type 0 where
  pub epoch : ℕ
  pub viewport_top : ℕ
  pub scrollback_total : ℕ
  pub rows : ℕ
  pub cols : ℕ
  pub cursor_x : ℕ
  pub cursor_y : ℕ
  pub cursor_visible : Bool
  pub cursor_blinking : Bool
  pub cursor_style : ℕ
  pub cells : List RemoteCell

-- `u8::from` of a `bool`
abbrev pub byte_of : Bool → ℕ
byte_of b = if b then 1 else 0

abbrev pub saturating_add : ℕ → ℕ → ℕ
saturating_add a b = min (a + b) (2 ^ 64 - 1)

unfoldable pub encode_cells : List RemoteCell → List ℕ
encode_cells [] = []
encode_cells (cell ∷ cells) =
    to_le_bytes 4 cell.codepoint
    ++ cell.fg.red
      ∷ cell.fg.green
      ∷ cell.fg.blue
      ∷ cell.bg.red
      ∷ cell.bg.green
      ∷ cell.bg.blue
      ∷ cell.style_flags
      ∷ byte_of cell.wide
      ∷ encode_cells cells

-- the ids of the rows from `row` on, as many as `count`
abbrev pub row_ids : ℕ → ℕ → ℕ → List ℕ
row_ids viewport_top row zero = []
row_ids viewport_top row (suc count) =
    saturating_add viewport_top row ∷ row_ids viewport_top (row + 1) count

abbrev pub encode_ids : List ℕ → List ℕ
encode_ids [] = []
encode_ids (i ∷ is) = to_le_bytes 8 i ++ encode_ids is

-- `append_row_replica_trailer`, which begins with the bytes of `BRR1`
unfoldable pub row_replica_trailer : RemoteFullState → List ℕ → List ℕ
row_replica_trailer s ids =
    0x42 ∷ 0x52 ∷ 0x52 ∷ 0x31 ∷ to_le_bytes 8 s.epoch
    ++ to_le_bytes 8 s.viewport_top
    ++ to_le_bytes 8 s.scrollback_total
    ++ to_le_bytes 8 (saturating_add s.viewport_top s.cursor_y)
    ++ to_le_bytes 2 (min (length ids) 65535)
    ++ encode_ids (take 65535 ids)

abbrev pub prefix_len : Bool → ℕ
prefix_len local = if local then 8 else 0

unfoldable pub encode_full_state : RemoteFullState → Option ℕ → Bool → List ℕ
unfolding encode_cells row_replica_trailer
encode_full_state s latest_input_seq local =
    (if local then to_le_bytes 8 (unwrap_or latest_input_seq 0) else [])
    ++ to_le_bytes 2 s.rows
    ++ to_le_bytes 2 s.cols
    ++ to_le_bytes 2 s.cursor_x
    ++ to_le_bytes 2 s.cursor_y
    ++ byte_of s.cursor_visible ∷ byte_of s.cursor_blinking ∷ to_le_bytes 4 s.cursor_style
    ++ encode_cells s.cells
    ++ row_replica_trailer s (row_ids s.viewport_top 0 s.rows)

-- the cell in the twelve bytes at the start of what is left
abbrev pub decode_cell : List ℕ → RemoteCell
decode_cell bytes = record {
  codepoint = from_le_bytes (take 4 bytes);
  fg = record { red = get_or bytes 4 0; green = get_or bytes 5 0; blue = get_or bytes 6 0 };
  bg = record { red = get_or bytes 7 0; green = get_or bytes 8 0; blue = get_or bytes 9 0 };
  style_flags = get_or bytes 10 0;
  wide = not (get_or bytes 11 0 == 0);
}

-- the loop over the cells, on what is left behind `offset`
unfoldable pub decode_cells : ℕ → List ℕ → List RemoteCell
decode_cells zero bytes = []
decode_cells (suc count) bytes = decode_cell bytes ∷ decode_cells count (drop 12 bytes)

-- The messages of the two errors are left out.
pub data DecodeResult : Type 0 where
  decoded : RemoteFullState → DecodeResult
  too_short grid_mismatch : DecodeResult

abbrev pub u16_at : ℕ → List ℕ → ℕ
u16_at i payload = from_le_bytes (take 2 (drop i payload))

unfoldable pub decode_remote_full_state_payload : List ℕ → DecodeResult
unfolding decode_cells
decode_remote_full_state_payload payload =
    let rows = u16_at 0 payload in
    let cols = u16_at 2 payload in
    if ltb (length payload) 14
    then too_short
    else if ltb (length payload) (14 + rows * cols * 12)
    then grid_mismatch
    else decoded (record {
      epoch = 0;
      viewport_top = 0;
      scrollback_total = 0;
      rows = rows;
      cols = cols;
      cursor_x = u16_at 4 payload;
      cursor_y = u16_at 6 payload;
      cursor_visible = not (get_or payload 8 0 == 0);
      cursor_blinking = not (get_or payload 9 0 == 0);
      cursor_style = from_le_bytes (take 4 (drop 10 payload));
      cells = decode_cells (rows * cols) (drop 14 payload);
    })

pub from_le_bytes-to_le_bytes_two : (n : ℕ) → n < 2 ^ 16 → from_le_bytes (to_le_bytes 2 n) ≡ n
from_le_bytes-to_le_bytes_two n h = omega arith

pub byte_of_back : (b : Bool) → not (byte_of b == 0) ≡ b
byte_of_back true = refl
byte_of_back false = refl

pub length-encode_cells :
    (cells : List RemoteCell) → length (encode_cells cells) ≡ length cells * 12
unfolding encode_cells
length-encode_cells [] = refl
length-encode_cells (cell ∷ cells) = omega (arith, length-encode_cells cells)

-- a cell's code point is a `u32`
abbrev pub IsCell : RemoteCell → Type 0
IsCell cell = cell.codepoint < 2 ^ 32

pub decode_cell-encode_cells :
    (cell : RemoteCell) (cells : List RemoteCell) (rest : List ℕ)
    → IsCell cell
    → decode_cell (encode_cells (cell ∷ cells) ++ rest) ≡ cell
unfolding encode_cells
decode_cell-encode_cells cell cells rest h = λ i. record cell {
  codepoint = from_le_bytes-to_le_bytes cell.codepoint h i;
  wide = byte_of_back cell.wide i;
}

decode_cells-encode_cells :
    (cells : List RemoteCell) (rest : List ℕ)
    → All IsCell cells
    → decode_cells (length cells) (encode_cells cells ++ rest) ≡ cells
unfolding decode_cells encode_cells
decode_cells-encode_cells [] rest h = refl
decode_cells-encode_cells (cell ∷ cells) rest (h, hs) =
    ap₂ (λ c cs. c ∷ cs) (decode_cell-encode_cells cell cells rest h)
      (decode_cells-encode_cells cells rest hs)

-- Numbers are in the range of their types, and there is a cell for each place of the grid.
pub record Fits (s : RemoteFullState) : Type 0 where
  pub rows : s.rows < 2 ^ 16
  pub cols : s.cols < 2 ^ 16
  pub cursor_x : s.cursor_x < 2 ^ 16
  pub cursor_y : s.cursor_y < 2 ^ 16
  pub cursor_style : s.cursor_style < 2 ^ 32
  pub cells : All IsCell s.cells
  pub grid : length s.cells ≡ s.rows * s.cols

-- what the decoder cannot know
abbrev pub without_rows : RemoteFullState → RemoteFullState
without_rows s = record s { epoch = 0; viewport_top = 0; scrollback_total = 0 }

-- the bytes of a state in front of its trailer
abbrev body : RemoteFullState → List ℕ → List ℕ
body s trailer =
    to_le_bytes 2 s.rows
    ++ to_le_bytes 2 s.cols
    ++ to_le_bytes 2 s.cursor_x
    ++ to_le_bytes 2 s.cursor_y
    ++ byte_of s.cursor_visible ∷ byte_of s.cursor_blinking ∷ to_le_bytes 4 s.cursor_style
    ++ encode_cells s.cells
    ++ trailer

both_pass :
    (b c : Bool) (x : DecodeResult)
    → b ≡ false
    → c ≡ false
    → (if b then too_short else if c then grid_mismatch else x) ≡ x
both_pass true c x h h' = absurd (ground arith)
both_pass false true x h h' = absurd (ground arith)
both_pass false false x h h' = refl

length-body :
    (s : RemoteFullState) (trailer : List ℕ)
    → length (body s trailer) ≡ 14 + length s.cells * 12 + length trailer
length-body s trailer =
    omega (arith, length-append (encode_cells s.cells) trailer, length-encode_cells s.cells)

decode_remote_full_state_payload-body :
    (s : RemoteFullState) (trailer : List ℕ)
    → Fits s
    → decode_remote_full_state_payload (body s trailer) ≡ decoded (without_rows s)
unfolding decode_remote_full_state_payload
decode_remote_full_state_payload-body s trailer h =
    let payload = body s trailer in
    let size = length-body s trailer in
    let rows = from_le_bytes-to_le_bytes_two s.rows h.rows in
    let cols = from_le_bytes-to_le_bytes_two s.cols h.cols in
    let count : u16_at 0 payload * u16_at 2 payload ≡ length s.cells =
      ap₂ (λ a b. a * b) rows cols ∙ sym h.grid in
    let long_enough : ltb (length payload) 14 ≡ false = ground (arith, size) in
    let fits : ltb (length payload) (14 + length s.cells * 12) ≡ false = ground (arith, size) in
    let whole : ltb (length payload) (14 + u16_at 0 payload * u16_at 2 payload * 12) ≡ false =
      ap (λ k. ltb (length payload) (14 + k * 12)) count ∙ fits in
    let cells =
      ap (λ k. decode_cells k (encode_cells s.cells ++ trailer)) count
      ∙ decode_cells-encode_cells s.cells trailer h.cells in
    both_pass _ _ _ long_enough whole ∙ (λ i. decoded (record {
      epoch = 0;
      viewport_top = 0;
      scrollback_total = 0;
      rows = rows i;
      cols = cols i;
      cursor_x = from_le_bytes-to_le_bytes_two s.cursor_x h.cursor_x i;
      cursor_y = from_le_bytes-to_le_bytes_two s.cursor_y h.cursor_y i;
      cursor_visible = byte_of_back s.cursor_visible i;
      cursor_blinking = byte_of_back s.cursor_blinking i;
      cursor_style = from_le_bytes-to_le_bytes s.cursor_style h.cursor_style i;
      cells = cells i;
    }))

-- Decoding an encoded full state, without the sequence number that stands first for a local client,
-- gives back its size, cursor and cells; the epoch and the two numbers about rows, which the
-- decoder cannot know, are 0. The numbers must be in the range of their types, and there must be a
-- cell for each place of the grid.
pub decode_remote_full_state_payload-encode_full_state :
    (s : RemoteFullState) (seq : Option ℕ) (local : Bool)
    → Fits s
    → decode_remote_full_state_payload (drop (prefix_len local) (encode_full_state s seq local))
      ≡ decoded (without_rows s)
unfolding encode_full_state
decode_remote_full_state_payload-encode_full_state s seq false h =
    decode_remote_full_state_payload-body s
      (row_replica_trailer s (row_ids s.viewport_top 0 s.rows)) h
decode_remote_full_state_payload-encode_full_state s seq true h =
    decode_remote_full_state_payload-body s
      (row_replica_trailer s (row_ids s.viewport_top 0 s.rows)) h
