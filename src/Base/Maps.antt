-- ===== src/Base/Maps.antt =====
-- Maps from numbers, as lists of pairs, with the calls of `HashMap` that the code makes.
use Prim.Native.Nat.{ℕ}
use mathlib.Core.Path.{◌≡◌, refl}
use mathlib.Core.Bool.{Bool, false}
use mathlib.Core.List.{List, [], ◌∷◌}
use mathlib.Core.Option.{Option, none, some}
use mathlib.Core.Logic.{inl, inr}
use mathlib.Core.Option
use native.Mathlib.Omega.{arith}
use boo.Base.Tests.{◌==◌, ==_refl, if◌then◌else◌, Bool-cases}

module _ {ℓ} {A : Type ℓ} where
  abbrev pub find : ℕ → List (ℕ × A) → Option A
  find k [] = none
  find k ((i, a) ∷ m) = let rest = find k m in if i == k then some a else rest

  -- A new key goes to the end.
  abbrev pub insert : ℕ → A → List (ℕ × A) → List (ℕ × A)
  insert k a [] = (k, a) ∷ []
  insert k a ((i, b) ∷ m) = let rest = insert k a m in if i == k then (i, a) ∷ m else (i, b) ∷ rest

  -- `get_mut` with a change of the value that is there
  abbrev pub update : ℕ → (A → A) → List (ℕ × A) → List (ℕ × A)
  update k f [] = []
  update k f ((i, a) ∷ m) =
      let rest = update k f m in if i == k then (i, f a) ∷ m else (i, a) ∷ rest

  -- `retain` on the keys
  abbrev pub retain_keys : (ℕ → Bool) → List (ℕ × A) → List (ℕ × A)
  retain_keys keep [] = []
  retain_keys keep ((i, a) ∷ m) =
      let rest = retain_keys keep m in if keep i then (i, a) ∷ rest else rest

  pub find-insert_self : (k : ℕ) (a : A) (m : List (ℕ × A)) → find k (insert k a m) ≡ some a
  find-insert_self k a [] = rw (==_refl k) refl
  find-insert_self k a ((i, b) ∷ m) = elim (Bool-cases (i == k)) [
    | inl same ↦ rw same (rw same refl)
    | inr other ↦ rw other (rw other (find-insert_self k a m))
  ]

  pub find-insert_other :
      (k j : ℕ) (a : A) (m : List (ℕ × A)) → (j == k) ≡ false → find k (insert j a m) ≡ find k m
  find-insert_other k j a [] h = rw h refl
  find-insert_other k j a ((i, b) ∷ m) h = elim (Bool-cases (i == j)) [
    | inl same ↦ let apart : (i == k) ≡ false = ground (arith, same, h) in rw same (rw apart refl)
    | inr other ↦ elim (Bool-cases (i == k)) [
      | inl here ↦ rw other (rw here refl)
      | inr later ↦ rw other (rw later (find-insert_other k j a m h))
    ]
  ]

  pub find-update :
      (k : ℕ) (f : A → A) (m : List (ℕ × A)) → find k (update k f m) ≡ Option.map f (find k m)
  find-update k f [] = refl
  find-update k f ((i, b) ∷ m) = elim (Bool-cases (i == k)) [
    | inl same ↦ rw same (rw same refl)
    | inr other ↦ rw other (rw other (find-update k f m))
  ]

  pub find-update_other :
      (k j : ℕ) (f : A → A) (m : List (ℕ × A)) → (j == k) ≡ false → find k (update j f m) ≡ find k m
  find-update_other k j f [] h = refl
  find-update_other k j f ((i, b) ∷ m) h = elim (Bool-cases (i == j)) [
    | inl same ↦ let apart : (i == k) ≡ false = ground (arith, same, h) in rw same (rw apart refl)
    | inr other ↦ elim (Bool-cases (i == k)) [
      | inl here ↦ rw other (rw here refl)
      | inr later ↦ rw other (rw later (find-update_other k j f m h))
    ]
  ]
