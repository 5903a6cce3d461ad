-- ===== src/Wire/Changes.antt =====
-- The segment of a row that `encode_delta` of src/remote_wire.rs sends.
use boo.Base.{
  ℕ, suc, ◌+◌, ◌-◌, ◌≤◌, ◌<◌, ◌≡◌, ◌≢◌, ◌∙◌, refl, ap, ap₂, inl, inr, false, none, some, List, [],
  ◌∷◌, length, take, drop, All, ◌⊎◌, write-suc, length-take, length-drop, All-take, All-drop, arith,
  Bool-cases, Option-cases, unwrap_or, write,
}
use boo.Wire.States.{RemoteCell}
use boo.Wire.Delta.{same_cell, first_change, last_change, changed_segment}
use boo.Wire.Same.{same_cell-eq}

last_change-none :
    (xs ys : List RemoteCell) → length xs ≡ length ys → last_change xs ys ≡ none → xs ≡ ys
last_change-none [] [] e h = refl
last_change-none [] (b ∷ ys) e h = absurd (omega arith)
last_change-none (a ∷ xs) [] e h = absurd (omega arith)
last_change-none (a ∷ xs) (b ∷ ys) e h = elim (Option-cases (last_change xs ys)) [
  | inl later ↦ elim (Bool-cases (same_cell a b)) [
    | inl same ↦
        ap₂ (λ c cs. c ∷ cs) (same_cell-eq a b same) (last_change-none xs ys (omega arith) later)
    | inr other ↦ absurd (ground (arith, later, other, h))
  ]
  | inr (i, later) ↦ absurd (ground (arith, later, h))
]

-- what the last change is for two rows with a head
last_change-cases :
    (a b : RemoteCell) (xs ys : List RemoteCell) {last : ℕ}
    → last_change (a ∷ xs) (b ∷ ys) ≡ some last
    → ((last_change xs ys ≡ none) × (last ≡ 0))
      ⊎ ((i : ℕ) × ((last_change xs ys ≡ some i) × (last ≡ suc i)))
last_change-cases a b xs ys {last} h = elim (Option-cases (last_change xs ys)) [
  | inl later ↦ elim (Bool-cases (same_cell a b)) [
    | inl same ↦ absurd (ground (arith, later, same, h))
    | inr other ↦ inl (later, ground (arith, later, other, h))
  ]
  | inr (i, later) ↦ inr (i, (later, ground (arith, later, h)))
]

last_change_lt :
    (xs ys : List RemoteCell) {last : ℕ} → last_change xs ys ≡ some last → last < length ys
last_change_lt [] ys h = cc
last_change_lt (a ∷ xs) [] h = cc
last_change_lt (a ∷ xs) (b ∷ ys) h = elim (last_change-cases a b xs ys h) [
  | inl (later, e) ↦ omega arith
  | inr (i, (later, e)) ↦ omega (arith, last_change_lt xs ys later)
]

-- From the front on: writing up to the last change gives the whole row.
write-last_change :
    (xs ys : List RemoteCell) {last : ℕ}
    → length xs ≡ length ys
    → last_change xs ys ≡ some last
    → write xs 0 (take (suc last) ys) ≡ ys
write-last_change [] ys e h = cc
write-last_change (a ∷ xs) [] e h = cc
write-last_change (a ∷ xs) (b ∷ ys) {last} e h = elim (last_change-cases a b xs ys h) [
  | inl (later, e') ↦ rw e' (ap (λ l. b ∷ l) (last_change-none xs ys (omega arith) later))
  | inr (i, (later, e')) ↦ rw e' (
      write-suc b xs 0 (take (suc i) ys)
      ∙ ap (λ l. b ∷ l) (write-last_change xs ys (omega arith) later))
]

-- what the first change is for two rows with a head
first_change-cases :
    (a b : RemoteCell) (xs ys : List RemoteCell) {first : ℕ}
    → first_change (a ∷ xs) (b ∷ ys) ≡ some first
    → ((same_cell a b ≡ false) × (first ≡ 0))
      ⊎ ((i : ℕ) × ((a ≡ b) × ((first_change xs ys ≡ some i) × (first ≡ suc i))))
first_change-cases a b xs ys {first} h = elim (Bool-cases (same_cell a b)) [
  | inl same ↦ elim (Option-cases (first_change xs ys)) [
    | inl later ↦ absurd (ground (arith, later, same, h))
    | inr (i, later) ↦ inr (i, (same_cell-eq a b same, (later, ground (arith, later, same, h))))
  ]
  | inr other ↦ inl (other, ground (arith, other, h))
]

first_change_lt :
    (xs ys : List RemoteCell) {first : ℕ} → first_change xs ys ≡ some first → first < length ys
first_change_lt [] ys h = cc
first_change_lt (a ∷ xs) [] h = cc
first_change_lt (a ∷ xs) (b ∷ ys) h = elim (first_change-cases a b xs ys h) [
  | inl (other, e) ↦ omega arith
  | inr (i, (same, (later, e))) ↦ omega (arith, first_change_lt xs ys later)
]

last_change-other :
    (a b : RemoteCell) (xs ys : List RemoteCell)
    → same_cell a b ≡ false
    → last_change (a ∷ xs) (b ∷ ys) ≢ none
last_change-other a b xs ys other h = elim (Option-cases (last_change xs ys)) [
  | inl later ↦ ground (arith, later, other, h)
  | inr (i, later) ↦ ground (arith, later, h)
]

-- Where the rows differ first, there is a last change, which is not before it.
write-changes :
    (xs ys : List RemoteCell) {first : ℕ}
    → length xs ≡ length ys
    → first_change xs ys ≡ some first
    → (last : ℕ) × ((last_change xs ys ≡ some last)
        × ((first ≤ last) × (write xs first (take (suc last - first) (drop first ys)) ≡ ys)))
write-changes [] ys e h = cc
write-changes (a ∷ xs) [] e h = cc
write-changes (a ∷ xs) (b ∷ ys) {first} e h = elim (first_change-cases a b xs ys h) [
  | inl (other, at_0) ↦ elim (Option-cases (last_change (a ∷ xs) (b ∷ ys))) [
    | inl none_last ↦ absurd (last_change-other a b xs ys other none_last)
    | inr (last, found) ↦
        let all : suc last - 0 ≡ suc last = omega arith in
        (
          last,
          (found, (omega arith, rw at_0 (rw all (write-last_change (a ∷ xs) (b ∷ ys) e found)))),
        )
  ]
  | inr (i, (same, (later, e'))) ↦
      let (j, (found, (ordered, whole))) = write-changes xs ys (omega arith) later in
      let as_many : suc (suc j) - suc i ≡ suc j - i = omega arith in
      (
        suc j,
        (
          rw found refl,
          (
            omega arith,
            rw (e', as_many, same)
                (write-suc b xs i (take (suc j - i) (drop i ys)) ∙ ap (λ l. b ∷ l) whole),
          ),
        ),
      )
]

first_change-none :
    (xs ys : List RemoteCell) → length xs ≡ length ys → first_change xs ys ≡ none → xs ≡ ys
first_change-none [] [] e h = refl
first_change-none [] (b ∷ ys) e h = absurd (omega arith)
first_change-none (a ∷ xs) [] e h = absurd (omega arith)
first_change-none (a ∷ xs) (b ∷ ys) e h = elim (Bool-cases (same_cell a b)) [
  | inl same ↦ elim (Option-cases (first_change xs ys)) [
    | inl later ↦
        ap₂ (λ c cs. c ∷ cs) (same_cell-eq a b same) (first_change-none xs ys (omega arith) later)
    | inr (i, later) ↦ absurd (ground (arith, later, same, h))
  ]
  | inr other ↦ absurd (ground (arith, other, h))
]

abbrev segment : List RemoteCell → ℕ → ℕ → ℕ × List RemoteCell
segment ys first last = (first, take (last + 1 - first) (drop first ys))

changed_segment-none :
    (xs ys : List RemoteCell) → first_change xs ys ≡ none → changed_segment xs ys ≡ (0, [])
unfolding changed_segment
changed_segment-none xs ys h = rw (h, changed_segment) refl

changed_segment-some :
    (xs ys : List RemoteCell) {first : ℕ}
    → first_change xs ys ≡ some first
    → changed_segment xs ys ≡ segment ys first (unwrap_or (last_change xs ys) first)
unfolding changed_segment
changed_segment-some xs ys h = rw (h, changed_segment) refl

-- Writing the segment of a change over a row gives the row that it changes to, and does not pass
-- the end of the row. A cell of the segment is a cell of this row.
pub write-changed_segment :
    (xs ys : List RemoteCell)
    → length xs ≡ length ys
    → write xs (changed_segment xs ys).0 (changed_segment xs ys).1 ≡ ys
write-changed_segment xs ys e = elim (Option-cases (first_change xs ys)) [
  | inl same ↦ rw (changed_segment-none xs ys same) (first_change-none xs ys e same)
  | inr (first, found) ↦
      let (last, (found_last, (ordered, whole))) = write-changes xs ys e found in
      let as_many : last + 1 - first ≡ suc last - first = omega arith in
      rw (changed_segment-some xs ys found, found_last, as_many) whole
]

pub changed_segment_in :
    (xs ys : List RemoteCell)
    → (changed_segment xs ys).0 + length (changed_segment xs ys).1 ≤ length ys
changed_segment_in xs ys = elim (Option-cases (first_change xs ys)) [
  | inl same ↦ rw (changed_segment-none xs ys same) (omega arith)
  | inr (first, found) ↦
      let n = unwrap_or (last_change xs ys) first + 1 - first in
      rw (changed_segment-some xs ys found) (
        omega
          (arith, first_change_lt xs ys found, length-take n (drop first ys), length-drop first ys))
]

pub changed_segment-All {κ} :
    (P : RemoteCell → Type κ) (xs ys : List RemoteCell) → All P ys → All P (changed_segment xs ys).1
changed_segment-All P xs ys h = elim (Option-cases (first_change xs ys)) [
  | inl same ↦ rw (changed_segment-none xs ys same) tt
  | inr (first, found) ↦
      rw (changed_segment-some xs ys found) (All-take P _ (drop first ys) (All-drop P first ys h))
]

pub changed_segment_start :
    (xs ys : List RemoteCell) → 0 < length ys → (changed_segment xs ys).0 < length ys
changed_segment_start xs ys h = elim (Option-cases (first_change xs ys)) [
  | inl same ↦ rw (changed_segment-none xs ys same) h
  | inr (first, found) ↦ rw (changed_segment-some xs ys found) (first_change_lt xs ys found)
]
