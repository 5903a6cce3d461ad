-- ===== src/Client/Decoding.antt =====
-- The decoders of src/client_gui.rs for the states and the changes that the server sends.
use boo.Base.{
  has_bit, ℕ, zero, suc, ◌-◌, ◌*◌, ◌+◌, Bool, not, Option, none, some, List, [], ◌∷◌, length, take,
  drop, get_or, ltb, ◌==◌, if◌then◌else◌,
}
use boo.Base.Int.{ℤ, pos, negsuc}
use boo.Wire.Frames.{from_le_bytes}
use boo.Wire.States.{RemoteCell, RemoteFullState, decode_cell, decode_cells, u16_at}
use boo.Wire.Delta.{RowDelta}

pub record RemoteDelta : Type 0 where
  pub cursor_x : ℕ
  pub cursor_y : ℕ
  pub cursor_visible : Bool
  pub cursor_blinking : Bool
  pub cursor_style : ℕ
  pub scroll_rows : ℤ
  pub changed_rows : List RowDelta

-- the number of an input that is acknowledged, for which 0 stands for none
abbrev pub ack_of : ℕ → Option ℕ
ack_of seq = if seq == 0 then none else some seq

-- A full state, behind the eight bytes of the acknowledged input.
unfoldable pub decode_remote_full_state : List ℕ → Option (Option ℕ × RemoteFullState)
unfolding decode_cells
decode_remote_full_state payload =
    let rows = u16_at 8 payload in
    let cols = u16_at 10 payload in
    if ltb (length payload) 22
    then none
    else if ltb (length payload) (22 + rows * cols * 12)
    then none
    else some (
      ack_of (from_le_bytes (take 8 payload)),
      record {
        epoch = 0;
        viewport_top = 0;
        scrollback_total = 0;
        rows = rows;
        cols = cols;
        cursor_x = u16_at 12 payload;
        cursor_y = u16_at 14 payload;
        cursor_visible = not (get_or payload 16 0 == 0);
        cursor_blinking = not (get_or payload 17 0 == 0);
        cursor_style = from_le_bytes (take 4 (drop 18 payload));
        cells = decode_cells (rows * cols) (drop 22 payload);
      },
    )

-- the loop over the cells of a row, with what is left behind them
unfoldable pub decode_row_cells : ℕ → List ℕ → Option (List RemoteCell × List ℕ)
decode_row_cells zero bytes = some ([], bytes)
decode_row_cells (suc count) bytes =
    let rest = decode_row_cells count (drop 12 bytes) in
    if ltb (length bytes) 12
    then none
    else elim rest [ none ↦ none | some (cells, left) ↦ some (decode_cell bytes ∷ cells, left) ]

-- the loop over the rows
unfoldable pub decode_rows : ℕ → List ℕ → Option (List RowDelta × List ℕ)
unfolding decode_row_cells
decode_rows zero bytes = some ([], bytes)
decode_rows (suc count) bytes =
    if ltb (length bytes) 6 then none else elim (decode_row_cells (u16_at 4 bytes) (drop 6 bytes)) [
      | none ↦ none
      | some (cells, left) ↦ elim (decode_rows count left) [
        | none ↦ none
        | some (rows, end) ↦
            some (
              record { row = u16_at 0 bytes; start_col = u16_at 2 bytes; cells = cells } ∷ rows,
              end,
            )
      ]
    ]

-- `i16::from_le_bytes` from the number of the two bytes
abbrev pub i16_of : ℕ → ℤ
i16_of n = if ltb n 0x8000 then pos n else negsuc (0xffff - n)

-- how far the rows scroll, when a flag says that it is there
abbrev pub decode_scroll : ℕ → List ℕ → Option (ℤ × List ℕ)
decode_scroll flags bytes =
    if has_bit flags 0x01
    then if ltb (length bytes) 2 then none else some (i16_of (u16_at 0 bytes), drop 2 bytes)
    else some (pos 0, bytes)

unfoldable pub decode_remote_delta : List ℕ → Option (Option ℕ × RemoteDelta)
unfolding decode_rows
decode_remote_delta payload =
    if ltb (length payload) 21
    then none
    else elim (decode_scroll (get_or payload 16 0) (drop 21 payload)) [
      | none ↦ none
      | some (scroll_rows, bytes) ↦ elim (decode_rows (u16_at 8 payload) bytes) [
        | none ↦ none
        | some (rows, left) ↦ some (
          ack_of (from_le_bytes (take 8 payload)),
          record {
            cursor_x = u16_at 10 payload;
            cursor_y = u16_at 12 payload;
            cursor_visible = not (get_or payload 14 0 == 0);
            cursor_blinking = not (get_or payload 15 0 == 0);
            cursor_style = from_le_bytes (take 4 (drop 17 payload));
            scroll_rows = scroll_rows;
            changed_rows = rows;
          },
        )
      ]
    ]
