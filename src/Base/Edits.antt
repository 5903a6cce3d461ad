-- ===== src/Base/Edits.antt =====
-- `set`, `erase_idx` and `get_elem?` together, and predicates of every element under them.
use Prim.Native.Nat.{ℕ, zero, suc, ◌+◌, ◌<◌}
use mathlib.Core.Path.{◌≡◌, refl, ap}
use mathlib.Core.List.{List, [], ◌∷◌, ◌++◌}
use mathlib.Core.Option.{none, some}
use native.Mathlib.Omega.{arith}
use boo.Base.Tests.{if◌then◌else◌, ltb}
use boo.Base.Lists.{length, get_elem?, set, erase_idx, All}

module _ {ℓ} {A : Type ℓ} where
  none-some : {a : A} → none ≡ some a → ⊥
  none-some e = cc

  pub some_injective : {a b : A} → some a ≡ some b → a ≡ b
  some_injective e = cc

  pub length-set : (xs : List A) (i : ℕ) (a : A) → length (set xs i a) ≡ length xs
  length-set [] i a = refl
  length-set (x ∷ xs) zero a = refl
  length-set (x ∷ xs) (suc i) a = ap suc (length-set xs i a)

  pub get_elem?-some : (xs : List A) (i : ℕ) → i < length xs → (a : A) × (get_elem? xs i ≡ some a)
  get_elem?-some [] i h = absurd (omega arith)
  get_elem?-some (x ∷ xs) zero h = (x, refl)
  get_elem?-some (x ∷ xs) (suc i) h = get_elem?-some xs i (omega arith)

  pub get_elem?_lt : (xs : List A) (i : ℕ) {a : A} → get_elem? xs i ≡ some a → i < length xs
  get_elem?_lt [] i h = absurd (none-some h)
  get_elem?_lt (x ∷ xs) zero h = omega arith
  get_elem?_lt (x ∷ xs) (suc i) h = let r = get_elem?_lt xs i h in omega arith

  pub length-erase_idx :
      (xs : List A) (i : ℕ) → i < length xs → suc (length (erase_idx xs i)) ≡ length xs
  length-erase_idx [] i h = absurd (omega arith)
  length-erase_idx (x ∷ xs) zero h = refl
  length-erase_idx (x ∷ xs) (suc i) h = ap suc (length-erase_idx xs i (omega arith))

  pub get_elem?-erase_idx :
      (xs : List A) (i j : ℕ)
      → get_elem? (erase_idx xs i) j ≡ (if ltb j i then get_elem? xs j else get_elem? xs (suc j))
  get_elem?-erase_idx [] i j = ground arith
  get_elem?-erase_idx (x ∷ xs) zero j = ground arith
  get_elem?-erase_idx (x ∷ xs) (suc i) zero = ground arith
  get_elem?-erase_idx (x ∷ xs) (suc i) (suc j) = ground (arith, get_elem?-erase_idx xs i j)

  module _ {κ} (P : A → Type κ) where
    pub All-get_elem? : (xs : List A) (i : ℕ) {a : A} → All P xs → get_elem? xs i ≡ some a → P a
    All-get_elem? [] i h e = absurd (none-some e)
    All-get_elem? (x ∷ xs) zero h e = rw (some_injective e) at (h.0)
    All-get_elem? (x ∷ xs) (suc i) h e = All-get_elem? xs i h.1 e

    pub All-set : (xs : List A) (i : ℕ) (a : A) → All P xs → P a → All P (set xs i a)
    All-set [] i a h p = tt
    All-set (x ∷ xs) zero a h p = (p, h.1)
    All-set (x ∷ xs) (suc i) a h p = (h.0, All-set xs i a h.1 p)

    pub All-erase_idx : (xs : List A) (i : ℕ) → All P xs → All P (erase_idx xs i)
    All-erase_idx [] i h = tt
    All-erase_idx (x ∷ xs) zero h = h.1
    All-erase_idx (x ∷ xs) (suc i) h = (h.0, All-erase_idx xs i h.1)

  -- sums over lists under `set` and `erase_idx`
  abbrev pub sum_of : (A → ℕ) → List A → ℕ
  sum_of f [] = 0
  sum_of f (x ∷ xs) = f x + sum_of f xs

  module _ (f : A → ℕ) where
    pub sum_of-append : (xs ys : List A) → sum_of f (xs ++ ys) ≡ sum_of f xs + sum_of f ys
    sum_of-append [] ys = omega arith
    sum_of-append (x ∷ xs) ys = omega (arith, sum_of-append xs ys)

    pub sum_of-set :
        (xs : List A) (i : ℕ) (a : A) {b : A}
        → get_elem? xs i ≡ some b
        → sum_of f (set xs i a) + f b ≡ sum_of f xs + f a
    sum_of-set [] i a e = absurd (none-some e)
    sum_of-set (x ∷ xs) zero a {b} e = let same : f x ≡ f b = ap f (some_injective e) in omega arith
    sum_of-set (x ∷ xs) (suc i) a {b} e = omega (arith, sum_of-set xs i a e)

    pub sum_of-erase_idx :
        (xs : List A) (i : ℕ) {b : A}
        → get_elem? xs i ≡ some b
        → sum_of f (erase_idx xs i) + f b ≡ sum_of f xs
    sum_of-erase_idx [] i e = absurd (none-some e)
    sum_of-erase_idx (x ∷ xs) zero {b} e =
        let same : f x ≡ f b = ap f (some_injective e) in omega arith
    sum_of-erase_idx (x ∷ xs) (suc i) {b} e = omega (arith, sum_of-erase_idx xs i e)

module _ {ℓ} {A : Type ℓ} where
  pub get_elem?-set_self :
      (xs : List A) (i : ℕ) (a : A) {b : A}
      → get_elem? xs i ≡ some b
      → get_elem? (set xs i a) i ≡ some a
  get_elem?-set_self [] i a e = absurd (none-some e)
  get_elem?-set_self (x ∷ xs) zero a e = refl
  get_elem?-set_self (x ∷ xs) (suc i) a e = get_elem?-set_self xs i a e

  pub erase_idx-set_self : (xs : List A) (i : ℕ) (a : A) → erase_idx (set xs i a) i ≡ erase_idx xs i
  erase_idx-set_self [] i a = refl
  erase_idx-set_self (x ∷ xs) zero a = refl
  erase_idx-set_self (x ∷ xs) (suc i) a = ap (λ l. x ∷ l) (erase_idx-set_self xs i a)
