-- ===== src/Client/Replica.antt =====
-- The picture of src/client_gui.rs after the changes of `encode_delta` of src/remote_wire.rs.
use boo.Base.{
  ℕ, zero, suc, ◌+◌, ◌-◌, ◌*◌, ◌%◌, ◌^◌, ◌≤◌, ◌<◌, ◌≡◌, ◌∙◌, sym, refl, ap, inl, inr, true, false,
  List, [], ◌∷◌, ◌++◌, length, length-append, length-map, length-take, length-drop, map,
  append_assoc, take, take_all, drop, get_elem?-append_here, set, set-append_here, map-write, ltb,
  arith, Bool-cases,
}
use boo.Wire.States.{RemoteCell}
use boo.Wire.Delta.{RowDelta, same_cells, changed_segment, changed_rows, row_of}
use boo.Wire.Same.{same_cells-eq}
use boo.Wire.Changes.{write-changed_segment, changed_segment_in, changed_segment_start}
use boo.Client.Snapshot.{CellSnapshot, TerminalSnapshot, remote_cell_to_snapshot_default}
use boo.Client.Applying.{bump, changed_row, apply_row, apply_rows}

-- a row of cells as the client draws it
abbrev pub drawn : List RemoteCell → List CellSnapshot
drawn cells = map remote_cell_to_snapshot_default cells

-- the rows of a grid, from `row` on
abbrev pub grid : ℕ → List RemoteCell → ℕ → ℕ → List (List RemoteCell)
grid cols cells row zero = []
grid cols cells row (suc count) = row_of cols cells row ∷ grid cols cells (row + 1) count

-- a picture with other rows
abbrev pub with_data : TerminalSnapshot → List (List CellSnapshot) → List ℕ → TerminalSnapshot
with_data s rows revisions = record s { rows_data = rows; row_revisions = revisions }

changed_row-drawn :
    (cols row : ℕ) (before after : List RemoteCell)
    → length before ≡ cols
    → length after ≡ cols
    → changed_row cols (drawn before) (record {
      row = row;
      start_col = (changed_segment before after).0;
      cells = (changed_segment before after).1;
    })
      ≡ drawn after
changed_row-drawn cols row before after e e' =
    let start = (changed_segment before after).0 in
    let cells = (changed_segment before after).1 in
    let long_enough : ltb (length (drawn before)) cols ≡ false =
      ground (arith, length-map remote_cell_to_snapshot_default before) in
    let all : take (cols - start) cells ≡ cells =
      take_all (cols - start) cells (omega (arith, changed_segment_in before after)) in
    rw (long_enough, all)
      (sym (map-write remote_cell_to_snapshot_default before start cells)
        ∙ ap drawn (write-changed_segment before after (omega arith)))

-- one changed row, which stands behind `done`
apply_row-changed :
    (s : TerminalSnapshot) (done rest : List (List CellSnapshot)) (revisions : List ℕ)
    (before after : List RemoteCell)
    → 0 < s.cols
    → length before ≡ s.cols
    → length after ≡ s.cols
    → apply_row (with_data s (done ++ drawn before ∷ rest) revisions) (record {
      row = length done;
      start_col = (changed_segment before after).0;
      cells = (changed_segment before after).1;
    })
      ≡ with_data s (done ++ drawn after ∷ rest) (bump revisions (length done))
unfolding apply_row
apply_row-changed s done rest revisions before after h e e' =
    let inside : ltb (changed_segment before after).0 s.cols ≡ true =
      ground (arith, changed_segment_start before after (omega arith)) in
    rw (get_elem?-append_here done (drawn before) rest, inside, apply_row)
      (ap (λ rows. with_data s rows (bump revisions (length done)))
        (ap (set (done ++ drawn before ∷ rest) (length done))
            (changed_row-drawn s.cols (length done) before after e e')
          ∙ set-append_here done (drawn before) (drawn after) rest))

length-row_of :
    (cols : ℕ) (cells : List RemoteCell) (row n : ℕ)
    → length cells ≡ row * cols + suc n * cols
    → length (row_of cols cells row) ≡ cols
length-row_of cols cells row n h =
    omega (arith, length-take cols (drop (row * cols) cells), length-drop (row * cols) cells)

-- a picture without the revisions of its rows
abbrev pub picture : TerminalSnapshot → TerminalSnapshot
picture s = record s { row_revisions = [] }

-- what the changed rows from `row` on make of a picture whose rows before that are `done`
abbrev Follows :
    TerminalSnapshot → List RemoteCell → List RemoteCell → ℕ → ℕ → List (List CellSnapshot) → Type 0
Follows s previous current row count done =
    (revisions : List ℕ)
    → picture (
        apply_rows (with_data s (done ++ map drawn (grid s.cols previous row count)) revisions)
          (changed_rows s.cols previous current row count))
      ≡ with_data s (done ++ map drawn (grid s.cols current row count)) []

-- The rows from `row` on that changed turn the grid of the previous state into that of the current.
pub apply_rows-changed_rows :
    (s : TerminalSnapshot) (previous current : List RemoteCell) (row count : ℕ)
    (done : List (List CellSnapshot)) (revisions : List ℕ)
    → 0 < s.cols
    → length done ≡ row
    → length previous ≡ row * s.cols + count * s.cols
    → length current ≡ row * s.cols + count * s.cols
    → row + count ≤ 2 ^ 16
    → picture (
        apply_rows
          (with_data s (done ++ map drawn (grid s.cols previous row count)) revisions)
          (changed_rows s.cols previous current row count))
      ≡ with_data s (done ++ map drawn (grid s.cols current row count)) []
unfolding changed_rows
apply_rows-changed_rows s previous current row zero done revisions h at e e' small = refl
apply_rows-changed_rows s previous current row (suc count) done revisions h at e e' small =
    let cols = s.cols in
    let before = row_of cols previous row in
    let after = row_of cols current row in
    let old = map drawn (grid cols previous (row + 1) count) in
    let new = map drawn (grid cols current (row + 1) count) in
    let later = changed_rows cols previous current (row + 1) count in
    let further : (revisions : List ℕ)
        → picture (apply_rows (with_data s (done ++ drawn after ∷ old) revisions) later)
          ≡ with_data s (done ++ drawn after ∷ new) [] =
      λ revisions.
        let one_more = done ++ (drawn after ∷ []) in
        rw
          (
            sym (append_assoc done (drawn after ∷ []) old),
            sym (append_assoc done (drawn after ∷ []) new),
          )
          (apply_rows-changed_rows s previous current (row + 1) count one_more revisions h
            (omega (arith, length-append done (drawn after ∷ []))) (omega arith) (omega arith)
            (omega arith)) in
    elim (Bool-cases (same_cells before after)) [
      | inl same ↦ rw same (rw (same_cells-eq before after same) (further revisions))
      | inr other ↦
          let here : row % 2 ^ 16 ≡ length done = omega arith in
          let change : ℕ → RowDelta = λ r. record {
            row = r;
            start_col = (changed_segment before after).0;
            cells = (changed_segment before after).1;
          } in
          let picked = with_data s (done ++ drawn before ∷ old) revisions in
          rw other (
            ap (λ r. picture (apply_rows (apply_row picked (change r)) later)) here
            ∙ (ap (λ t. picture (apply_rows t later))
                  (apply_row-changed s done old revisions before after h
                    (length-row_of cols previous row count e)
                    (length-row_of cols current row count e'))
                ∙ further (bump revisions (length done))))
    ]
