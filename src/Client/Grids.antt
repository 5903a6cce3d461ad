-- ===== src/Client/Grids.antt =====
-- The rows of a grid: what `changed_rows` of src/remote_wire.rs sends of them, and what
-- src/client_gui.rs shows.
use boo.Base.{
  ℕ, zero, suc, ◌+◌, ◌*◌, ◌^◌, ◌≤◌, ◌<◌, ◌≡◌, ◌∙◌, refl, ap, inl, inr, List, [], ◌∷◌, ◌==◌, length,
  length-take, length-drop, map, take, drop, drop-drop, nil_of_length, All, All-take, All-drop, max,
  arith, Bool-cases,
}
use boo.Wire.States.{Color, RemoteCell, RemoteFullState, IsCell}
use boo.Wire.Delta.{same_cells, changed_rows, row_of}
use boo.Wire.Changes.{changed_segment_in, changed_segment-All}
use boo.Client.Snapshot.{
  TerminalSnapshot, chunks, remote_full_state_to_vt_snapshot, default_terminal_foreground,
  default_terminal_background,
}
use boo.Client.Applying.{fitted}
use boo.Client.Frames.{IsRowDelta}
use boo.Client.Replica.{drawn, grid, with_data, picture}

chunks-nil : {A : Type 0} (fuel n : ℕ) → chunks {A = A} fuel n [] ≡ []
chunks-nil zero n = refl
chunks-nil (suc fuel) n = refl

chunks-suc :
    {A : Type 0} (fuel n : ℕ) (xs : List A)
    → 0 < length xs
    → chunks (suc fuel) n xs ≡ take n xs ∷ chunks fuel n (drop n xs)
chunks-suc fuel n [] h = absurd (omega arith)
chunks-suc fuel n (x ∷ xs) h = refl

-- Where the cells fill whole rows, the chunks are the rows.
chunks-grid :
    (fuel cols row count : ℕ) (cells : List RemoteCell)
    → 0 < cols
    → length cells ≡ row * cols + count * cols
    → length (drop (row * cols) cells) ≤ fuel
    → chunks fuel cols (drop (row * cols) cells) ≡ grid cols cells row count
chunks-grid fuel cols row zero cells h e enough =
    let empty : drop (row * cols) cells ≡ [] =
      nil_of_length _ (omega (arith, length-drop (row * cols) cells)) in
    rw empty (chunks-nil fuel cols)
chunks-grid zero cols row (suc count) cells h e enough =
    absurd (omega (arith, length-drop (row * cols) cells))
chunks-grid (suc fuel) cols row (suc count) cells h e enough =
    let rest = drop (row * cols) cells in
    let size = length-drop (row * cols) cells in
    let next : drop cols rest ≡ drop ((row + 1) * cols) cells =
      drop-drop cols (row * cols) cells ∙ ap (λ k. drop k cells) (omega arith) in
    let later =
      chunks-grid fuel cols (row + 1) count cells h (omega arith)
        (omega (arith, length-drop ((row + 1) * cols) cells, size)) in
    chunks-suc fuel cols rest (omega (arith, size))
    ∙ ap (λ l. take cols rest ∷ l) (ap (chunks fuel cols) next ∙ later)

-- What the client shows of a state, with the colours that `apply_remote_delta_snapshot` draws in.
abbrev pub shown : Color → RemoteFullState → TerminalSnapshot
shown cursor_color state = picture (
    remote_full_state_to_vt_snapshot state 0 default_terminal_foreground default_terminal_background
      cursor_color)

pub shown-rows :
    (cursor_color : Color) (s : RemoteFullState)
    → 0 < s.cols
    → length s.cells ≡ s.rows * s.cols
    → shown cursor_color s
      ≡ with_data (shown cursor_color s) (map drawn (grid s.cols s.cells 0 s.rows)) []
unfolding remote_full_state_to_vt_snapshot
shown-rows cursor_color s h e =
    let from_0 : 0 ≡ 0 * s.cols = omega arith in
    let width : max s.cols 1 ≡ s.cols = omega arith in
    let rows : chunks (length s.cells) (max s.cols 1) s.cells ≡ grid s.cols s.cells 0 s.rows =
      ap (λ n. chunks (length s.cells) n s.cells) width
      ∙ (ap (λ k. chunks (length s.cells) s.cols (drop k s.cells)) from_0
          ∙ chunks-grid (length s.cells) s.cols 0 s.rows s.cells h (omega arith)
              (omega (arith, length-drop (0 * s.cols) s.cells))) in
    ap (λ l. with_data (shown cursor_color s) (map drawn l) []) rows

-- The lengths of the revisions do not matter for what is shown.
pub fitted-with_data :
    (s : TerminalSnapshot) → fitted s ≡ with_data s s.rows_data (fitted s).row_revisions
fitted-with_data s = elim (Bool-cases (length s.row_revisions == length s.rows_data)) [
  | inl same ↦ rw same refl
  | inr other ↦ rw other refl
]

-- In a grid without columns no row changes.
pub changed_rows-empty :
    (previous current : List RemoteCell) (row count : ℕ)
    → changed_rows 0 previous current row count ≡ []
unfolding changed_rows
changed_rows-empty previous current row zero = refl
changed_rows-empty previous current row (suc count) =
    changed_rows-empty previous current (row + 1) count

pub length-changed_rows :
    (cols : ℕ) (previous current : List RemoteCell) (row count : ℕ)
    → length (changed_rows cols previous current row count) ≤ count
unfolding changed_rows
length-changed_rows cols previous current row zero = omega arith
length-changed_rows cols previous current row (suc count) =
    let later = length-changed_rows cols previous current (row + 1) count in
    elim (Bool-cases (same_cells (row_of cols previous row) (row_of cols current row))) [
      | inl same ↦ rw same (omega arith)
      | inr other ↦ rw other (omega arith)
    ]

pub changed_rows-IsRowDelta :
    (cols : ℕ) (previous current : List RemoteCell) (row count : ℕ)
    → cols < 2 ^ 16
    → All IsCell current
    → All IsRowDelta (changed_rows cols previous current row count)
unfolding changed_rows
changed_rows-IsRowDelta cols previous current row zero small all = tt
changed_rows-IsRowDelta cols previous current row (suc count) small all =
    let later = changed_rows-IsRowDelta cols previous current (row + 1) count small all in
    let before = row_of cols previous row in
    let after = row_of cols current row in
    let size = length-take cols (drop (row * cols) current) in
    let inside = changed_segment_in before after in
    elim (Bool-cases (same_cells before after)) [
      | inl same ↦ rw same later
      | inr other ↦ rw other (
        record {
          row = omega arith;
          start_col = omega arith;
          count = omega arith;
          cells =
              changed_segment-All IsCell before after
                (All-take IsCell cols _ (All-drop IsCell (row * cols) current all));
        },
        later,
      )
    ]
