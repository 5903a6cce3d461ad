-- ===== src/Client/Mirror.antt =====
-- A pane of the server as the window client shows it: src/remote_wire.rs and src/client_gui.rs
-- together.
use boo.Base.{
  ℕ, zero, suc, ◌*◌, ◌^◌, ◌<◌, ◌≡◌, ◌∙◌, sym, refl, ap, ap₂, inl, inr, Bool, true, Option, some,
  List, [], ◌∷◌, ◌==◌, ◌&&◌, ◌⊎◌, eq_of_==, length, map, nil_of_length, All, arith, Bool-cases,
  unwrap_or,
}
use boo.Wire.States.{Color, RemoteFullState, Fits}
use boo.Wire.Delta.{
  RowDelta, same_state, changed_rows, encode_changes, all_whole, delta_payload, encode_delta,
}
use boo.Wire.Same.{same_state-cells, both_true}
use boo.Client.Snapshot.{TerminalSnapshot, remote_full_state_to_vt_snapshot}
use boo.Client.Decoding.{RemoteDelta, ack_of, decode_remote_delta}
use boo.Client.Applying.{apply_rows, fitted, with_cursor, apply_remote_delta_snapshot}
use boo.Client.Frames.{IsRowDelta, delta_of, decode_remote_delta-delta_payload}
use boo.Client.Replica.{drawn, grid, with_data, picture, apply_rows-changed_rows}
use boo.Client.Grids.{
  shown, shown-rows, fitted-with_data, changed_rows-empty, length-changed_rows,
  changed_rows-IsRowDelta,
}

-- a state with the grid's size of another
abbrev sized : RemoteFullState → RemoteFullState → RemoteFullState
sized size s = record s { rows = size.rows; cols = size.cols }

-- the changed rows between two states of one size
abbrev changes : RemoteFullState → RemoteFullState → List RowDelta
changes previous current = changed_rows current.cols previous.cells current.cells 0 current.rows

apply-wide :
    (cursor_color : Color) (previous current : RemoteFullState) (revisions : List ℕ)
    → 0 < current.cols
    → length previous.cells ≡ current.rows * current.cols
    → length current.cells ≡ current.rows * current.cols
    → current.rows < 2 ^ 16
    → picture (
        apply_remote_delta_snapshot
          (record (shown cursor_color (sized current previous)) { row_revisions = revisions })
          (delta_of current (changes previous current)))
      ≡ shown cursor_color current
unfolding apply_remote_delta_snapshot remote_full_state_to_vt_snapshot
apply-wide cursor_color previous current revisions h e e' small =
    let rows = changes previous current in
    let before = shown-rows cursor_color (sized current previous) h e in
    let after = shown-rows cursor_color current h e' in
    let start =
      with_cursor
        (record (shown cursor_color (sized current previous)) { row_revisions = revisions })
        (delta_of current rows) in
    let old = map drawn (grid current.cols previous.cells 0 current.rows) in
    let ready : fitted start ≡ with_data start old (fitted start).row_revisions =
      fitted-with_data start
      ∙ ap (λ p. with_data start p.rows_data (fitted start).row_revisions) before in
    ap (λ s. picture (apply_rows s rows)) ready
    ∙ (apply_rows-changed_rows start previous.cells current.cells 0 current.rows []
          (fitted start).row_revisions h refl (omega arith) (omega arith) (omega arith)
        ∙ sym after)

-- Where no cell changed, the empty list of rows does.
apply-same :
    (cursor_color : Color) (previous current : RemoteFullState) (revisions : List ℕ)
    → previous.cells ≡ current.cells
    → picture (
        apply_remote_delta_snapshot
          (record (shown cursor_color (sized current previous)) { row_revisions = revisions })
          (delta_of current []))
      ≡ shown cursor_color current
unfolding apply_remote_delta_snapshot remote_full_state_to_vt_snapshot
apply-same cursor_color previous current revisions e =
    ap picture (
      fitted-with_data (
        with_cursor
          (record (shown cursor_color (sized current previous)) { row_revisions = revisions })
          (delta_of current [])))
    ∙ ap (λ cells. shown cursor_color (record current { cells = cells })) e

positive_or_zero : (n : ℕ) → (0 < n) ⊎ (n ≡ 0)
positive_or_zero zero = inr refl
positive_or_zero (suc n) = inl (omega arith)

apply-changes :
    (cursor_color : Color) (previous current : RemoteFullState) (revisions : List ℕ)
    → length previous.cells ≡ current.rows * current.cols
    → length current.cells ≡ current.rows * current.cols
    → current.rows < 2 ^ 16
    → picture (
        apply_remote_delta_snapshot
          (record (shown cursor_color (sized current previous)) { row_revisions = revisions })
          (delta_of current (changes previous current)))
      ≡ shown cursor_color current
apply-changes cursor_color previous current revisions e e' small =
    elim (positive_or_zero current.cols) [
      | inl h ↦ apply-wide cursor_color previous current revisions h e e' small
      | inr h ↦
          let none_changed : changes previous current ≡ [] =
            ap (λ n. changed_rows n previous.cells current.cells 0 current.rows) h
            ∙ changed_rows-empty previous.cells current.cells 0 current.rows in
          let no_cell : current.rows * current.cols ≡ 0 =
            ap (λ n. current.rows * n) h ∙ omega arith in
          let old = nil_of_length previous.cells (e ∙ no_cell) in
          let new = nil_of_length current.cells (e' ∙ no_cell) in
          rw none_changed (apply-same cursor_color previous current revisions (old ∙ sym new))
    ]

-- The rows that a payload of `encode_delta` is made of.
encode_changes-rows :
    (current : RemoteFullState) (seq : Option ℕ) (local : Bool) (rows : List RowDelta)
    {payload : List ℕ}
    → encode_changes current seq local rows ≡ some payload
    → payload ≡ delta_payload current seq local rows
encode_changes-rows current seq local [] h = cc
encode_changes-rows current seq local (r ∷ rs) h =
    elim (Bool-cases ((length (r ∷ rs) == current.rows) && all_whole current.cols (r ∷ rs))) [
      | inl whole ↦ absurd (ground (arith, whole, h))
      | inr part ↦ ground (arith, part, h)
    ]

-- what is sent: the sizes are equal, and the rows are none or those that changed
record Sent (previous current : RemoteFullState) (seq : Option ℕ) (local : Bool) (payload : List ℕ)
    : Type 0 where
  rows : List RowDelta
  same_rows : previous.rows ≡ current.rows
  same_cols : previous.cols ≡ current.cols
  encoded : payload ≡ delta_payload current seq local rows
  which : ((rows ≡ []) × (previous.cells ≡ current.cells)) ⊎ (rows ≡ changes previous current)

encode_delta-Sent :
    (previous current : RemoteFullState) (seq : Option ℕ) (local : Bool) {payload : List ℕ}
    → encode_delta previous current seq local ≡ some payload
    → Sent previous current seq local payload
unfolding encode_delta
encode_delta-Sent previous current seq local {payload} h =
    elim (Bool-cases ((previous.rows == current.rows) && (previous.cols == current.cols))) [
      | inr other ↦ absurd (ground (arith, other, h))
      | inl same ↦
          let (rows, cols) = both_true (previous.rows == current.rows) _ same in
          elim (Bool-cases (same_state previous current)) [
            | inl equal ↦ record {
              rows = [];
              same_rows = eq_of_== _ _ rows;
              same_cols = eq_of_== _ _ cols;
              encoded = ground (arith, same, equal, h);
              which = inl (refl, same_state-cells previous current equal);
            }
            | inr other ↦ record {
              rows = changes previous current;
              same_rows = eq_of_== _ _ rows;
              same_cols = eq_of_== _ _ cols;
              encoded =
                  encode_changes-rows current seq local (changes previous current)
                    (rw (same, other) at h);
              which = inr refl;
            }
          ]
    ]

-- The picture that the client keeps of a pane shows a state: apart from the revisions of its rows it
-- is what a full state would give.
abbrev pub Shows : Color → TerminalSnapshot → RemoteFullState → Type 0
Shows cursor_color s state = picture s ≡ shown cursor_color state

Sent-rows :
    (previous current : RemoteFullState) (seq : Option ℕ) (local : Bool) {payload : List ℕ}
    (sent : Sent previous current seq local payload)
    → Fits current
    → (length sent.rows < 2 ^ 16) × All IsRowDelta sent.rows
Sent-rows previous current seq local sent h = elim sent.which [
  | inl (e, same) ↦ rw e (omega arith, tt)
  | inr e ↦ rw e (
    omega (
      arith,
      h.rows,
      length-changed_rows current.cols previous.cells current.cells 0 current.rows,
    ),
    changed_rows-IsRowDelta current.cols previous.cells current.cells 0 current.rows h.cols h.cells,
  )
]

apply-Sent :
    (cursor_color : Color) (s : TerminalSnapshot) (previous current : RemoteFullState)
    (seq : Option ℕ) (local : Bool) {payload : List ℕ}
    (sent : Sent previous current seq local payload)
    → Fits previous
    → Fits current
    → Shows cursor_color s previous
    → Shows cursor_color (apply_remote_delta_snapshot s (delta_of current sent.rows)) current
apply-Sent cursor_color s previous current seq local sent h h' shows =
    let resized : shown cursor_color previous ≡ shown cursor_color (sized current previous) = λ i.
      shown cursor_color (record previous { rows = sent.same_rows i; cols = sent.same_cols i }) in
    let held : TerminalSnapshot = record (shown cursor_color (sized current previous)) {
      row_revisions = s.row_revisions;
    } in
    let whole : s ≡ held = λ i. record ((shows ∙ resized) i) { row_revisions = s.row_revisions } in
    let size : length previous.cells ≡ current.rows * current.cols =
      h.grid ∙ ap₂ (λ m n. m * n) sent.same_rows sent.same_cols in
    ap (λ t. picture (apply_remote_delta_snapshot t (delta_of current sent.rows))) whole
    ∙ elim sent.which [
      | inl (e, same) ↦
          ap (λ rows. picture (apply_remote_delta_snapshot held (delta_of current rows))) e
          ∙ apply-same cursor_color previous current s.row_revisions same
      | inr e ↦
          ap (λ rows. picture (apply_remote_delta_snapshot held (delta_of current rows))) e
          ∙ apply-changes cursor_color previous current s.row_revisions size h'.grid h'.rows
    ]

-- When `encode_delta` gives a payload for two states, with the number of an input in front, the
-- client can read it, finds the number unless it is 0, and after applying the changes to a picture
-- that shows the first state the picture shows the second: its size, cursor and cells are those of
-- a full state drawn in the default colours. Only the revisions of its rows may differ. Both states
-- must be in the ranges of their types with a cell for each place.
pub decode_remote_delta-encode_delta :
    (cursor_color : Color) (s : TerminalSnapshot) (previous current : RemoteFullState)
    (seq : Option ℕ) {payload : List ℕ}
    → Fits previous
    → Fits current
    → unwrap_or seq 0 < 2 ^ 64
    → Shows cursor_color s previous
    → encode_delta previous current seq true ≡ some payload
    → (changes : RemoteDelta) × ((decode_remote_delta payload
          ≡ some (ack_of (unwrap_or seq 0), changes))
        × Shows cursor_color (apply_remote_delta_snapshot s changes) current)
decode_remote_delta-encode_delta cursor_color s previous current seq h h' small shows e =
    let sent = encode_delta-Sent previous current seq true e in
    let (few, all) = Sent-rows previous current seq true sent h' in
    let read = decode_remote_delta-delta_payload current seq sent.rows h' small few all in
    (
      delta_of current sent.rows,
      (
        ap decode_remote_delta sent.encoded ∙ read,
        apply-Sent cursor_color s previous current seq true sent h h' shows,
      ),
    )
