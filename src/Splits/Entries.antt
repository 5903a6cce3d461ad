-- ===== src/Splits/Entries.antt =====
-- The abstract view of a split tree: its leaves from left to right, an id and a pane each, with the
-- operations that the tree functions of src/splits.rs implement.
use boo.Base.{
  ℕ, ◌+◌, ◌≡◌, ◌≢◌, refl, true, false, Option, none, some, List, [], ◌∷◌, ◌++◌, map, map-append,
  arith, or_else, ◌==◌, if◌then◌else◌, count, contains, Option-cases, Bool-cases, inl, inr, ◌<◌, ap,
  ◌∙◌, count-append, IsUnique,
}
use boo.Pane.{PaneHandle}

abbrev pub Entry : Type 0
Entry = ℕ × PaneHandle

abbrev pub ids : List Entry → List ℕ
ids = map λ e. e.0

abbrev pub panes : List Entry → List PaneHandle
panes = map λ e. e.1

-- the pane of the first entry with an id, and the id of the first entry with a pane's id
abbrev pub find : ℕ → List Entry → Option PaneHandle
find i [] = none
find i ((j, p) ∷ es) = if j == i then some p else find i es

abbrev pub find_pane : ℕ → List Entry → Option ℕ
find_pane k [] = none
find_pane k ((j, p) ∷ es) = if p.id == k then some j else find_pane k es

-- a new entry behind each entry with an id
abbrev pub insert_after : ℕ → Entry → List Entry → List Entry
insert_after i e [] = []
insert_after i e ((j, p) ∷ es) =
    let rest = insert_after i e es in if j == i then (j, p) ∷ e ∷ rest else (j, p) ∷ rest

-- the first entry with an id taken out
abbrev pub take_out : ℕ → List Entry → Option (PaneHandle × List Entry)
take_out i [] = none
take_out i ((j, p) ∷ es) =
    let rest = take_out i es in
    if j == i
    then some (p, es)
    else elim rest [ none ↦ none | some (q, fs) ↦ some (q, (j, p) ∷ fs) ]

-- another pane in the first entry with an id
abbrev pub put : ℕ → PaneHandle → List Entry → List Entry
put i q [] = []
put i q ((j, p) ∷ es) = let rest = put i q es in if j == i then (j, q) ∷ es else (j, p) ∷ rest

pub ids-append : (xs ys : List Entry) → ids (xs ++ ys) ≡ ids xs ++ ids ys
ids-append xs ys = map-append (λ e. e.0) xs ys

pub find-append : (i : ℕ) (xs ys : List Entry) → find i (xs ++ ys) ≡ or_else (find i xs) (find i ys)
find-append i [] ys = refl
find-append i ((j, p) ∷ xs) ys = ground (arith, find-append i xs ys)

pub find_pane-append :
    (k : ℕ) (xs ys : List Entry)
    → find_pane k (xs ++ ys) ≡ or_else (find_pane k xs) (find_pane k ys)
find_pane-append k [] ys = refl
find_pane-append k ((j, p) ∷ xs) ys = ground (arith, find_pane-append k xs ys)

pub insert_after-append :
    (i : ℕ) (e : Entry) (xs ys : List Entry)
    → insert_after i e (xs ++ ys) ≡ insert_after i e xs ++ insert_after i e ys
insert_after-append i e [] ys = refl
insert_after-append i e ((j, p) ∷ xs) ys = ground (arith, insert_after-append i e xs ys)

-- `take_out` on a concatenation, in terms of its results on the parts.
abbrev pub join_taken :
    List Entry
    → List Entry
    → Option (PaneHandle × List Entry)
    → Option (PaneHandle × List Entry)
    → Option (PaneHandle × List Entry)
join_taken xs ys (some (p, rest)) second = some (p, rest ++ ys)
join_taken xs ys none none = none
join_taken xs ys none (some (p, rest)) = some (p, xs ++ rest)

pub take_out-append :
    (i : ℕ) (xs ys : List Entry)
    → take_out i (xs ++ ys) ≡ join_taken xs ys (take_out i xs) (take_out i ys)
take_out-append i [] ys = ground arith
take_out-append i ((j, p) ∷ xs) ys = ground (arith, take_out-append i xs ys)

-- What `take_out` finds and leaves.
pub find-take_out :
    (i : ℕ) (es : List Entry)
    → find i es ≡ elim (take_out i es) [ none ↦ none | some (p, rest) ↦ some p ]
find-take_out i [] = refl
find-take_out i ((j, p) ∷ es) = ground (arith, find-take_out i es)

pub contains-find : (i : ℕ) (es : List Entry) → contains i (ids es) ≡ true → find i es ≢ none
contains-find i [] h = cc
contains-find i ((j, p) ∷ es) h = ground (arith, contains-find i es)

pub find-contains :
    (i : ℕ) (es : List Entry) {p : PaneHandle} → find i es ≡ some p → contains i (ids es) ≡ true
find-contains i [] h = cc
find-contains i ((j, q) ∷ es) {p} h = ground (arith, find-contains i es {p = p})

pub put-append_found :
    (i : ℕ) (q : PaneHandle) (xs ys : List Entry)
    → contains i (ids xs) ≡ true
    → put i q (xs ++ ys) ≡ put i q xs ++ ys
put-append_found i q [] ys h = cc
put-append_found i q ((j, p) ∷ xs) ys h = ground (arith, put-append_found i q xs ys)

pub put-append_missing :
    (i : ℕ) (q : PaneHandle) (xs ys : List Entry)
    → contains i (ids xs) ≡ false
    → put i q (xs ++ ys) ≡ xs ++ put i q ys
put-append_missing i q [] ys h = refl
put-append_missing i q ((j, p) ∷ xs) ys h = ground (arith, put-append_missing i q xs ys)

pub put_missing :
    (i : ℕ) (q : PaneHandle) (xs : List Entry) → contains i (ids xs) ≡ false → put i q xs ≡ xs
put_missing i q [] h = refl
put_missing i q ((j, p) ∷ xs) h = ground (arith, put_missing i q xs)

pub ids-put : (i : ℕ) (q : PaneHandle) (es : List Entry) → ids (put i q es) ≡ ids es
ids-put i q [] = refl
ids-put i q ((j, p) ∷ es) = ground (arith, ids-put i q es)

pub find-put :
    (i k : ℕ) (q : PaneHandle) (es : List Entry)
    → find k (put i q es)
      ≡ (if i == k then elim (find k es) [ none ↦ none | some _ ↦ some q ] else find k es)
find-put i k q [] = ground arith
find-put i k q ((j, p) ∷ es) = ground (arith, find-put i k q es)

-- Counting ids.
pub count-insert_after :
    (a i : ℕ) (e : Entry) (es : List Entry)
    → count a (ids (insert_after i e es))
      ≡ count a (ids es) + (if e.0 == a then count i (ids es) else 0)
count-insert_after a i e [] = ground arith
count-insert_after a i e ((j, p) ∷ es) = ground (arith, count-insert_after a i e es)

pub count-take_out :
    (a i : ℕ) (es : List Entry) {p : PaneHandle} {rest : List Entry}
    → take_out i es ≡ some (p, rest)
    → count a (ids es) ≡ count a (ids rest) + (if i == a then 1 else 0)
count-take_out a i [] h = cc
count-take_out a i ((j, q) ∷ es) {p} {rest} h = elim (Option-cases (take_out i es)) [
  | inl e ↦ ground arith
  | inr ((q', fs), e) ↦ ground (arith, count-take_out a i es e)
]

pub take_out_missing : (i : ℕ) (es : List Entry) → take_out i es ≡ none → count i (ids es) ≡ 0
take_out_missing i [] h = refl
take_out_missing i ((j, q) ∷ es) h = ground (arith, take_out_missing i es)

pub count-find_pane :
    (k : ℕ) (es : List Entry) {i : ℕ} → find_pane k es ≡ some i → 0 < count i (ids es)
count-find_pane k [] h = cc
count-find_pane k ((j, q) ∷ es) {i} h = ground (arith, count-find_pane k es {i = i})

pub find-count :
    (i : ℕ) (es : List Entry) → 0 < count i (ids es) → (p : PaneHandle) × (find i es ≡ some p)
find-count i [] h = absurd (omega arith)
find-count i ((j, q) ∷ es) h = elim (Bool-cases (j == i)) [
  | inl e ↦ (q, rw e)
  | inr e ↦ let (p, g) = find-count i es (ground arith) in (p, ground arith)
]

pub count-ids_append :
    (a : ℕ) (xs ys : List Entry) → count a (ids (xs ++ ys)) ≡ count a (ids xs) + count a (ids ys)
count-ids_append a xs ys = ap (count a) (ids-append xs ys) ∙ count-append a (ids xs) (ids ys)

-- In distinct ids the pane that `find_pane` names is found again by its id.
pub find-find_pane :
    (k : ℕ) (es : List Entry) {i : ℕ}
    → IsUnique (ids es)
    → find_pane k es ≡ some i
    → (p : PaneHandle) × (find i es ≡ some p) × (p.id ≡ k)
find-find_pane k [] u h = cc
find-find_pane k ((j, p) ∷ es) {i} u h = elim (Bool-cases (p.id == k)) [
  | inl hit ↦ (p, ground arith, ground arith)
  | inr miss ↦
      let g : find_pane k es ≡ some i = ground arith in
      let (q, found, same) = find-find_pane k es {i = i} (λ a. omega (arith, u a)) g in
      (q, ground (arith, u i, count-find_pane k es g), same)
]
