-- ===== src/Client/Applying.antt =====
-- How src/client_gui.rs applies the changes of a pane to its picture.
use boo.Base.{
  ℕ, zero, suc, ◌+◌, ◌-◌, ◌==◌, none, some, List, [], ◌∷◌, ◌++◌, length, map, take, drop, get_elem?,
  set, resize, write, min, ltb, if◌then◌else◌, next_64, Bool, false,
}
use boo.Base.Int.{ℤ, pos, negsuc}
use boo.Wire.Delta.{RowDelta}
use boo.Client.Snapshot.{
  CellSnapshot, TerminalSnapshot, blank_cell, remote_cell_to_snapshot_default,
}
use boo.Client.Decoding.{RemoteDelta}

-- `get_mut` with the assignment of the number that follows
abbrev pub bump : List ℕ → ℕ → List ℕ
bump revisions i = elim (get_elem? revisions i) [
  | none ↦ revisions
  | some revision ↦ set revisions i (next_64 revision)
]

-- the loop that makes rows blank and moves their revisions, from `index` on
abbrev pub blank_rows :
    ℕ → List (List CellSnapshot) × List ℕ → ℕ → ℕ → List (List CellSnapshot) × List ℕ
blank_rows cols rows index zero = rows
blank_rows cols (rows_data, revisions) index (suc count) =
    blank_rows cols (set rows_data index (resize [] cols blank_cell), bump revisions index)
      (index + 1) count

abbrev pub rotate_left {ℓ} : {A : Type ℓ} → List A → ℕ → List A
rotate_left xs k = drop k xs ++ take k xs

abbrev pub rotate_right {ℓ} : {A : Type ℓ} → List A → ℕ → List A
rotate_right xs k = rotate_left xs (length xs - k)

-- `row_revisions.resize(.., 1)`, where the lengths differ
abbrev pub fitted : TerminalSnapshot → TerminalSnapshot
fitted s =
    if length s.row_revisions == length s.rows_data
    then s
    else record s { row_revisions = resize s.row_revisions (length s.rows_data) 1 }

abbrev pub with_rows : TerminalSnapshot → List (List CellSnapshot) × List ℕ → TerminalSnapshot
with_rows s (rows_data, revisions) = record s { rows_data = rows_data; row_revisions = revisions }

abbrev pub scrolled_up : TerminalSnapshot → ℕ → TerminalSnapshot
scrolled_up s shift = with_rows s (
    blank_rows s.cols (rotate_left s.rows_data shift, rotate_left s.row_revisions shift)
      (length s.rows_data - shift) shift)

abbrev pub scrolled_down : TerminalSnapshot → ℕ → TerminalSnapshot
scrolled_down s shift =
    with_rows s (
      blank_rows s.cols (rotate_right s.rows_data shift, rotate_right s.row_revisions shift) 0
        shift)

-- On the least `i16` the negation of the code wraps, and all rows become blank.
unfoldable pub apply_snapshot_scroll : TerminalSnapshot → ℤ → TerminalSnapshot
apply_snapshot_scroll s scroll_rows =
    let rows = length s.rows_data in
    if rows == 0 then s else elim scroll_rows [
      | pos zero ↦ scrolled_down (fitted s) 0
      | pos (suc k) ↦ scrolled_up (fitted s) (min (suc k) rows)
      | negsuc k ↦ scrolled_down (fitted s) (if k == 0x7fff then rows else min (suc k) rows)
    ]

-- the row with the cells of a change, and cells to its right that it lacks
abbrev pub changed_row : ℕ → List CellSnapshot → RowDelta → List CellSnapshot
changed_row cols row change =
    write (if ltb (length row) cols then resize row cols blank_cell else row) change.start_col
      (map remote_cell_to_snapshot_default (take (cols - change.start_col) change.cells))

-- One round of the loop over the changed rows. A row that is too short is made longer even when its
-- change starts past the last column.
unfoldable pub apply_row : TerminalSnapshot → RowDelta → TerminalSnapshot
apply_row s change = elim (get_elem? s.rows_data change.row) [
  | none ↦ s
  | some row ↦
      if ltb change.start_col s.cols
      then record s {
        rows_data = set s.rows_data change.row (changed_row s.cols row change);
        row_revisions = bump s.row_revisions change.row;
      }
      else record s {
        rows_data =
            set s.rows_data change.row
              (if ltb (length row) s.cols then resize row s.cols blank_cell else row);
      }
]

abbrev pub apply_rows : TerminalSnapshot → List RowDelta → TerminalSnapshot
apply_rows s [] = s
apply_rows s (change ∷ changes) = apply_rows (apply_row s change) changes

abbrev pub with_cursor : TerminalSnapshot → RemoteDelta → TerminalSnapshot
with_cursor s delta = record s {
  cursor = record {
    visible = delta.cursor_visible;
    blinking = delta.cursor_blinking;
    x = delta.cursor_x;
    y = delta.cursor_y;
    style = delta.cursor_style;
  };
}

abbrev pub is_zero : ℤ → Bool
is_zero (pos n) = n == 0
is_zero (negsuc n) = false

unfoldable pub apply_remote_delta_snapshot : TerminalSnapshot → RemoteDelta → TerminalSnapshot
unfolding apply_snapshot_scroll apply_row
apply_remote_delta_snapshot s delta =
    let ready = fitted (with_cursor s delta) in
    apply_rows
      (if is_zero delta.scroll_rows then ready else apply_snapshot_scroll ready delta.scroll_rows)
      delta.changed_rows
