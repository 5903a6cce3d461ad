-- ===== src/Bindings/Modifiers.antt =====
-- The loop over modifiers in `parse_prefix_key` of src/bindings.rs.
use boo.Base.{
  ℕ, zero, suc, ◌≡◌, ◌≤◌, ◌+◌, refl, inl, inr, Option, none, some, ◌==◌, arith, Bool-cases,
  Option-cases, some_injective, ap,
}
use Prim.Native.Char.{code}
use Prim.Native.String.{String, count, [] as «[]s», ◌∷◌ as ◌∷s◌}
use text.Mathlib.TextLemmas.{length-cons}
use boo.Base.Strings.{strip_prefix}
use boo.Bindings.Parsing.{modifier_of, strip_modifiers, with_bit}

strip_prefix-shorter :
    (p s rest : String) → strip_prefix p s ≡ some rest → count s ≡ count p + count rest
strip_prefix-shorter «[]s» s rest e =
    let same : count s ≡ count rest = ap count (some_injective e) in omega arith
strip_prefix-shorter (c ∷s p) «[]s» rest e = cc
strip_prefix-shorter (c ∷s p) (d ∷s s) rest e = elim (Bool-cases (code c == code d)) [
  | inl same ↦
      let later : strip_prefix p s ≡ some rest = rw (same, strip_prefix) at e in
      let shorter = strip_prefix-shorter p s rest later in
      rw (length-cons d s, length-cons c p) (omega arith)
  | inr other ↦ let nothing : none ≡ some rest = rw (other, strip_prefix) at e in cc
]

-- What `modifier_of` finds, by one of its four tests.
abbrev Shorter : String → Option (ℕ × String) → Type 0
Shorter s none = Unit
Shorter s (some (bit, rest)) = suc (count rest) ≤ count s

shorter_by :
    (p s rest : String) → 1 ≤ count p → strip_prefix p s ≡ some rest → suc (count rest) ≤ count s
shorter_by p s rest long e = let sum = strip_prefix-shorter p s rest e in omega arith

pub modifier_of-Shorter : (s : String) → Shorter s (modifier_of s)
modifier_of-Shorter s = elim (Option-cases (strip_prefix "ctrl+" s)) [
  | inr (rest, e) ↦ rw (e, modifier_of) (shorter_by "ctrl+" s rest (omega arith) e)
  | inl not_ctrl ↦ elim (Option-cases (strip_prefix "shift+" s)) [
    | inr (rest, e) ↦ rw (not_ctrl, modifier_of) (rw e (shorter_by "shift+" s rest (omega arith) e))
    | inl not_shift ↦ elim (Option-cases (strip_prefix "alt+" s)) [
      | inr (rest, e) ↦
          rw (not_ctrl, modifier_of)
            (rw not_shift (rw e (shorter_by "alt+" s rest (omega arith) e)))
      | inl not_alt ↦ elim (Option-cases (strip_prefix "super+" s)) [
        | inr (rest, e) ↦
            rw (not_ctrl, modifier_of)
              (rw not_shift (rw not_alt (rw e (shorter_by "super+" s rest (omega arith) e))))
        | inl not_super ↦ rw (not_ctrl, modifier_of) (rw not_shift (rw not_alt (rw not_super tt)))
      ]
    ]
  ]
]

pub strip_modifiers-done :
    (fuel mods : ℕ) (s : String)
    → modifier_of s ≡ none
    → strip_modifiers (suc fuel) mods s ≡ (mods, s)
unfolding strip_modifiers
strip_modifiers-done fuel mods s done = rw (done, strip_modifiers) refl

pub strip_modifiers-more :
    (fuel mods : ℕ) (s : String) (bit : ℕ) (rest : String)
    → modifier_of s ≡ some (bit, rest)
    → strip_modifiers (suc fuel) mods s ≡ strip_modifiers fuel (with_bit mods bit) rest
unfolding strip_modifiers
strip_modifiers-more fuel mods s bit rest e = rw (e, strip_modifiers) refl

-- The loop ends by its `break`: no modifier is left.
pub strip_modifiers-ends :
    (fuel mods : ℕ) (s : String)
    → count s ≤ fuel
    → modifier_of (strip_modifiers fuel mods s).1 ≡ none
unfolding strip_modifiers
strip_modifiers-ends zero mods s enough = elim (Option-cases (modifier_of s)) [
  | inl done ↦ done
  | inr ((bit, rest), e) ↦
      let shorter : suc (count rest) ≤ count s = rw e at (modifier_of-Shorter s) in
      let none_left : suc (count rest) ≤ 0 = omega arith in absurd (omega arith)
]
strip_modifiers-ends (suc fuel) mods s enough = elim (Option-cases (modifier_of s)) [
  | inl done ↦ rw (strip_modifiers-done fuel mods s done) done
  | inr ((bit, rest), e) ↦
      let shorter : suc (count rest) ≤ count s = rw e at (modifier_of-Shorter s) in
      rw (strip_modifiers-more fuel mods s bit rest e)
        (strip_modifiers-ends fuel (with_bit mods bit) rest (omega arith))
]
