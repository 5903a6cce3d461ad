-- ===== src/Client/Frames.antt =====
-- The changes that `encode_delta` of src/remote_wire.rs writes, as src/client_gui.rs reads them.
use boo.Base.{
  ℕ, ◌^◌, ◌<◌, ◌≡◌, ◌∙◌, refl, ap, ap₂, true, false, Option, some, List, [], ◌∷◌, ◌++◌, length,
  drop, All, ltb, arith, append_assoc, unwrap_or,
}
use boo.Base.Int.{pos}
use boo.Wire.Frames.{to_le_bytes, from_le_bytes, from_le_bytes-to_le_bytes}
use boo.Wire.States.{
  RemoteCell, RemoteFullState, IsCell, encode_cells, row_replica_trailer, byte_of_back,
  decode_cell-encode_cells, from_le_bytes-to_le_bytes_two, u16_at, Fits,
}
use boo.Wire.Delta.{RowDelta, encode_rows, delta_payload, changed_row_ids}
use boo.Client.Decoding.{RemoteDelta, ack_of, decode_row_cells, decode_rows, decode_remote_delta}

decode_row_cells-encode_cells :
    (cells : List RemoteCell) (rest : List ℕ)
    → All IsCell cells
    → decode_row_cells (length cells) (encode_cells cells ++ rest) ≡ some (cells, rest)
unfolding decode_row_cells encode_cells
decode_row_cells-encode_cells [] rest h = refl
decode_row_cells-encode_cells (cell ∷ cells) rest (h, hs) =
    let enough : ltb (length (encode_cells (cell ∷ cells) ++ rest)) 12 ≡ false = ground arith in
    rw (enough, decode_row_cells-encode_cells cells rest hs)
      (ap (λ c. some (c ∷ cells, rest)) (decode_cell-encode_cells cell cells rest h))

-- a change whose numbers are in the range of their types
pub record IsRowDelta (change : RowDelta) : Type 0 where
  pub row : change.row < 2 ^ 16
  pub start_col : change.start_col < 2 ^ 16
  pub count : length change.cells < 2 ^ 16
  pub cells : All IsCell change.cells

decode_rows-encode_rows :
    (rows : List RowDelta) (rest : List ℕ)
    → All IsRowDelta rows
    → decode_rows (length rows) (encode_rows rows ++ rest) ≡ some (rows, rest)
unfolding decode_rows encode_rows
decode_rows-encode_rows [] rest h = refl
decode_rows-encode_rows (r ∷ rs) rest (h, hs) =
    let later = encode_rows rs ++ rest in
    let enough : ltb (length (encode_rows (r ∷ rs) ++ rest)) 6 ≡ false = ground arith in
    let bytes = encode_rows (r ∷ rs) ++ rest in
    let cells : decode_row_cells (u16_at 4 bytes) (drop 6 bytes) ≡ some (r.cells, later) =
      ap₂ decode_row_cells (from_le_bytes-to_le_bytes_two (length r.cells) h.count)
        (append_assoc (encode_cells r.cells) (encode_rows rs) rest)
      ∙ decode_row_cells-encode_cells r.cells later h.cells in
    rw (enough, cells, decode_rows-encode_rows rs rest hs)
      (λ i. some (
        record {
          row = from_le_bytes-to_le_bytes_two r.row h.row i;
          start_col = from_le_bytes-to_le_bytes_two r.start_col h.start_col i;
          cells = r.cells;
        }
            ∷ rs,
        rest,
      ))

from_le_bytes-to_le_bytes_eight : (n : ℕ) → n < 2 ^ 64 → from_le_bytes (to_le_bytes 8 n) ≡ n
from_le_bytes-to_le_bytes_eight n h = omega arith

-- what the reader makes of a payload
abbrev pub delta_of : RemoteFullState → List RowDelta → RemoteDelta
delta_of current rows = record {
  cursor_x = current.cursor_x;
  cursor_y = current.cursor_y;
  cursor_visible = current.cursor_visible;
  cursor_blinking = current.cursor_blinking;
  cursor_style = current.cursor_style;
  scroll_rows = pos 0;
  changed_rows = rows;
}

pub decode_remote_delta-delta_payload :
    (current : RemoteFullState) (seq : Option ℕ) (rows : List RowDelta)
    → Fits current
    → unwrap_or seq 0 < 2 ^ 64
    → length rows < 2 ^ 16
    → All IsRowDelta rows
    → decode_remote_delta (delta_payload current seq true rows)
      ≡ some (ack_of (unwrap_or seq 0), delta_of current rows)
unfolding decode_remote_delta delta_payload
decode_remote_delta-delta_payload current seq rows h small few all =
    let trailer = row_replica_trailer current (changed_row_ids current rows) in
    let payload = delta_payload current seq true rows in
    let enough : ltb (length payload) 21 ≡ false = ground arith in
    let read : decode_rows (u16_at 8 payload) (encode_rows rows ++ trailer) ≡ some (rows, trailer) =
      ap (λ n. decode_rows n (encode_rows rows ++ trailer))
        (from_le_bytes-to_le_bytes_two (length rows) few)
      ∙ decode_rows-encode_rows rows trailer all in
    rw (enough, read)
      (λ i. some (
        ack_of (from_le_bytes-to_le_bytes_eight (unwrap_or seq 0) small i),
        record {
          cursor_x = from_le_bytes-to_le_bytes_two current.cursor_x h.cursor_x i;
          cursor_y = from_le_bytes-to_le_bytes_two current.cursor_y h.cursor_y i;
          cursor_visible = byte_of_back current.cursor_visible i;
          cursor_blinking = byte_of_back current.cursor_blinking i;
          cursor_style = from_le_bytes-to_le_bytes current.cursor_style h.cursor_style i;
          scroll_rows = pos 0;
          changed_rows = rows;
        },
      ))
