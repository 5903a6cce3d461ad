-- ===== src/Base/Search.antt =====
-- Searching lists of numbers: `position`, `count` and indexing together.
use Prim.Native.Nat.{ℕ, zero, suc, ◌<◌}
use mathlib.Core.Path.{◌≡◌, refl}
use mathlib.Core.Logic.{inl, inr}
use mathlib.Core.List.{List, [], ◌∷◌}
use mathlib.Core.Option.{none, some}
use native.Mathlib.Omega.{arith}
use boo.Base.Tests.{==_refl, eq_of_==, Option-cases}
use boo.Base.Lists.{length, get_or, count, position, IsUnique}

pub count-get_or : (xs : List ℕ) (k d : ℕ) → k < length xs → 0 < count (get_or xs k d) xs
count-get_or [] k d h = absurd (omega arith)
count-get_or (x ∷ xs) zero d h = rw (==_refl x) (omega arith)
count-get_or (x ∷ xs) (suc k) d h = omega (arith, count-get_or xs k d)

pub position_lt : (a : ℕ) (xs : List ℕ) {k : ℕ} → position a xs ≡ some k → k < length xs
position_lt a [] h = cc
position_lt a (x ∷ xs) {k} h = elim (Option-cases (position a xs)) [
  | inl e ↦ ground arith
  | inr (j, e) ↦ ground (arith, position_lt a xs e)
]

pub position-get_or :
    (a : ℕ) (xs : List ℕ) (d : ℕ) {k : ℕ} → position a xs ≡ some k → get_or xs k d ≡ a
position-get_or a [] d h = cc
position-get_or a (x ∷ xs) d {k = zero} h = ground arith
position-get_or a (x ∷ xs) d {k = suc k} h = elim (Option-cases (position a xs)) [
  | inl e ↦ ground arith
  | inr (j, e) ↦ ground (arith, position-get_or a xs d e)
]

pub position-none : (a : ℕ) (xs : List ℕ) → position a xs ≡ none → count a xs ≡ 0
position-none a [] h = refl
position-none a (x ∷ xs) h = ground (arith, position-none a xs)

-- In a list without repeats an element's position is where it stands.
pub position_at :
    (xs : List ℕ) (k d : ℕ) → k < length xs → IsUnique xs → position (get_or xs k d) xs ≡ some k
position_at [] k d h u = absurd (omega arith)
position_at (x ∷ xs) zero d h u = rw (==_refl x)
position_at (x ∷ xs) (suc k) d h u = ground (
  arith,
  u x,
  count-get_or xs k d,
  position_at xs k d (omega arith) (λ a. omega (arith, u a)),
  eq_of_== x (get_or xs k d),
)
