-- ===== src/Wire/Delta.antt =====
-- The changes from one state of a pane to the next in src/remote_wire.rs: `encode_delta`.
use boo.Base.{
  ℕ, zero, suc, ◌+◌, ◌-◌, ◌*◌, ◌%◌, ◌^◌, Bool, true, false, ◌&&◌, Option, none, some, List, [], ◌∷◌,
  ◌++◌, length, map, take, drop, ◌==◌, if◌then◌else◌, unwrap_or,
}
use boo.Wire.Frames.{to_le_bytes}
use boo.Wire.States.{
  Color, RemoteCell, RemoteFullState, byte_of, saturating_add, encode_cells, row_replica_trailer,
}

-- `==` on booleans, colours, cells and states, each as `#[derive(PartialEq)]` makes it
abbrev pub same_bool : Bool → Bool → Bool
same_bool true b = b
same_bool false b = if b then false else true

abbrev pub same_color : Color → Color → Bool
same_color a b = (a.red == b.red) && ((a.green == b.green) && (a.blue == b.blue))

abbrev pub same_cell : RemoteCell → RemoteCell → Bool
same_cell a b =
    (a.codepoint == b.codepoint)
    && (same_color a.fg b.fg
        && (same_color a.bg b.bg && ((a.style_flags == b.style_flags) && same_bool a.wide b.wide)))

abbrev pub same_cells : List RemoteCell → List RemoteCell → Bool
same_cells [] [] = true
same_cells [] (b ∷ ys) = false
same_cells (a ∷ xs) [] = false
same_cells (a ∷ xs) (b ∷ ys) = same_cell a b && same_cells xs ys

abbrev pub same_state : RemoteFullState → RemoteFullState → Bool
same_state a b =
    (a.epoch == b.epoch)
    && ((a.viewport_top == b.viewport_top)
        && ((a.scrollback_total == b.scrollback_total)
            && ((a.rows == b.rows)
                && ((a.cols == b.cols)
                    && ((a.cursor_x == b.cursor_x)
                        && ((a.cursor_y == b.cursor_y)
                            && (same_bool a.cursor_visible b.cursor_visible
                                && (same_bool a.cursor_blinking b.cursor_blinking
                                    && ((a.cursor_style == b.cursor_style)
                                        && same_cells a.cells b.cells)))))))))

-- `position` and `rposition` of the first and the last pair that differs
abbrev pub first_change : List RemoteCell → List RemoteCell → Option ℕ
first_change [] ys = none
first_change (a ∷ xs) [] = none
first_change (a ∷ xs) (b ∷ ys) =
    let rest = first_change xs ys in
    if same_cell a b then elim rest [ none ↦ none | some i ↦ some (suc i) ] else some 0

abbrev pub last_change : List RemoteCell → List RemoteCell → Option ℕ
last_change [] ys = none
last_change (a ∷ xs) [] = none
last_change (a ∷ xs) (b ∷ ys) = elim (last_change xs ys) [
  | none ↦ if same_cell a b then none else some 0
  | some i ↦ some (suc i)
]

-- the first column that changed, and the cells from there to the last that did
unfoldable pub changed_segment : List RemoteCell → List RemoteCell → ℕ × List RemoteCell
changed_segment previous current = elim (first_change previous current) [
  | none ↦ (0, [])
  | some first ↦
      let last = unwrap_or (last_change previous current) first in
      (first, take (last + 1 - first) (drop first current))
]

-- a changed row with its segment: an element of `changed_rows`
pub record RowDelta : Type 0 where
  pub row : ℕ
  pub start_col : ℕ
  pub cells : List RemoteCell

-- `cells[start..end]` for the row, which the code takes inside the bounds only
abbrev pub row_of : ℕ → List RemoteCell → ℕ → List RemoteCell
row_of cols cells row = take cols (drop (row * cols) cells)

-- the loop over the rows, from `row` on
unfoldable pub changed_rows : ℕ → List RemoteCell → List RemoteCell → ℕ → ℕ → List RowDelta
unfolding changed_segment
changed_rows cols previous current row zero = []
changed_rows cols previous current row (suc count) =
    let rest = changed_rows cols previous current (row + 1) count in
    let before = row_of cols previous row in
    let after = row_of cols current row in
    if same_cells before after
    then rest
    else record {
      row = row % 2 ^ 16;
      start_col = (changed_segment before after).0;
      cells = (changed_segment before after).1;
    }
      ∷ rest

-- whether every changed row is sent from its first column to its last
abbrev pub all_whole : ℕ → List RowDelta → Bool
all_whole cols [] = true
all_whole cols (r ∷ rs) = ((r.start_col == 0) && (length r.cells == cols)) && all_whole cols rs

unfoldable pub encode_rows : List RowDelta → List ℕ
encode_rows [] = []
encode_rows (r ∷ rs) =
    to_le_bytes 2 r.row
    ++ to_le_bytes 2 r.start_col
    ++ to_le_bytes 2 (length r.cells)
    ++ encode_cells r.cells
    ++ encode_rows rs

abbrev pub changed_row_ids : RemoteFullState → List RowDelta → List ℕ
changed_row_ids current rows = map (λ r. saturating_add current.viewport_top r.row) rows

-- The bytes of a payload, which the code writes out in each of its three branches.
unfoldable pub delta_payload : RemoteFullState → Option ℕ → Bool → List RowDelta → List ℕ
unfolding encode_rows
delta_payload current latest_input_seq local rows =
    (if local then to_le_bytes 8 (unwrap_or latest_input_seq 0) else [])
    ++ to_le_bytes 2 (length rows)
    ++ to_le_bytes 2 current.cursor_x
    ++ to_le_bytes 2 current.cursor_y
    ++ byte_of current.cursor_visible
      ∷ byte_of current.cursor_blinking
      ∷ 0
      ∷ to_le_bytes 4 current.cursor_style
    ++ encode_rows rows
    ++ row_replica_trailer current (changed_row_ids current rows)

-- what is done with the rows that changed
abbrev pub encode_changes : RemoteFullState → Option ℕ → Bool → List RowDelta → Option (List ℕ)
encode_changes current latest_input_seq local [] =
    some (delta_payload current latest_input_seq local [])
encode_changes current latest_input_seq local (r ∷ rs) =
    if (length (r ∷ rs) == current.rows) && all_whole current.cols (r ∷ rs)
    then none
    else some (delta_payload current latest_input_seq local (r ∷ rs))

unfoldable pub encode_delta : RemoteFullState → RemoteFullState → Option ℕ → Bool → Option (List ℕ)
unfolding delta_payload
encode_delta previous current latest_input_seq local =
    if (previous.rows == current.rows) && (previous.cols == current.cols)
    then if same_state previous current
      then some (delta_payload current latest_input_seq local [])
      else encode_changes current latest_input_seq local
          (changed_rows current.cols previous.cells current.cells 0 current.rows)
    else none
