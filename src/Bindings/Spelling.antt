-- ===== src/Bindings/Spelling.antt =====
-- Keys with modifiers as they are written in the configuration, for `parse_prefix_key` of
-- src/bindings.rs.
use boo.Base.{
  ℕ, zero, suc, ◌+◌, ◌*◌, ◌≤◌, ◌≡◌, ◌∙◌, refl, ap, Bool, true, false, ◌&&◌, &&-left, &&-right, none,
  some, List, [], ◌∷◌, ◌==◌, eq_of_==, arith, Bool-cases, Option-cases, inl, inr,
}
use boo.Base.Strings.{lookup_text}
use Prim.Native.String.{String, count, ◌∷◌ as ◌∷s◌}
use text.Mathlib.Text.{◌==◌ as ◌=s=◌}
use text.Mathlib.TextEquality.{eq_iff}
use boo.Bindings.Keycodes.{
  Platform, macos, linux, macos_keycodes, linux_keycodes, single_char_to_keycode,
}
use boo.Bindings.Parsing.{modifier_of, strip_modifiers, with_bit, parse_prefix_key}
use boo.Bindings.Modifiers.{modifier_of-Shorter, strip_modifiers-done, strip_modifiers-more}

pub data Modifier : Type 0 where
  shift ctrl alt super : Modifier

-- a modifier written in front of a text
abbrev pub write_modifier : Modifier → String → String
write_modifier shift s = "s" ∷s ("h" ∷s ("i" ∷s ("f" ∷s ("t" ∷s ("+" ∷s s)))))
write_modifier ctrl s = "c" ∷s ("t" ∷s ("r" ∷s ("l" ∷s ("+" ∷s s))))
write_modifier alt s = "a" ∷s ("l" ∷s ("t" ∷s ("+" ∷s s)))
write_modifier super s = "s" ∷s ("u" ∷s ("p" ∷s ("e" ∷s ("r" ∷s ("+" ∷s s)))))

abbrev pub write_key : List Modifier → String → String
write_key [] key = key
write_key (m ∷ ms) key = write_modifier m (write_key ms key)

-- Which modifiers are held, and their bits: 1 for Shift, 2 for Ctrl, 4 for Alt and 8 for Super.
pub record Held : Type 0 where
  pub with_shift : Bool
  pub with_ctrl : Bool
  pub with_alt : Bool
  pub with_super : Bool

abbrev pub hold : Modifier → Held → Held
hold shift h = record h { with_shift = true }
hold ctrl h = record h { with_ctrl = true }
hold alt h = record h { with_alt = true }
hold super h = record h { with_super = true }

abbrev pub one_if : Bool → ℕ
one_if true = 1
one_if false = 0

abbrev pub mask_of : Held → ℕ
mask_of h =
    one_if h.with_shift + 2 * one_if h.with_ctrl + 4 * one_if h.with_alt + 8 * one_if h.with_super

abbrev pub none_held : Held
none_held = record { with_shift = false; with_ctrl = false; with_alt = false; with_super = false }

abbrev pub held_of : List Modifier → Held
held_of [] = none_held
held_of (m ∷ ms) = hold m (held_of ms)

abbrev bit_of : Modifier → ℕ
bit_of m = mask_of (hold m none_held)

modifier_of-write_modifier :
    (m : Modifier) (s : String) → modifier_of (write_modifier m s) ≡ some (bit_of m, s)
modifier_of-write_modifier shift s = refl
modifier_of-write_modifier ctrl s = refl
modifier_of-write_modifier alt s = refl
modifier_of-write_modifier super s = refl

-- Checking a statement about all Booleans.
abbrev both : (Bool → Bool) → Bool
both f = f true && f false

both-all : (f : Bool → Bool) → both f ≡ true → (b : Bool) → f b ≡ true
both-all f h true = &&-left (f true) (f false) h
both-all f h false = &&-right (f true) (f false) h

abbrev sets : Modifier → Bool → Bool → Bool → Bool → Bool
sets m a b c d =
    let h : Held = record { with_shift = a; with_ctrl = b; with_alt = c; with_super = d } in
    with_bit (mask_of h) (bit_of m) == mask_of (hold m h)

sets-all : (m : Modifier) → both (λ a. both (λ b. both (λ c. both (sets m a b c)))) ≡ true
sets-all shift = refl
sets-all ctrl = refl
sets-all alt = refl
sets-all super = refl

with_bit-mask_of : (m : Modifier) (h : Held) → with_bit (mask_of h) (bit_of m) ≡ mask_of (hold m h)
with_bit-mask_of m h =
    let a = both-all (λ a. both (λ b. both (λ c. both (sets m a b c)))) (sets-all m) h.with_shift in
    let b = both-all (λ b. both (λ c. both (sets m h.with_shift b c))) a h.with_ctrl in
    let c = both-all (λ c. both (sets m h.with_shift h.with_ctrl c)) b h.with_alt in
    let d = both-all (sets m h.with_shift h.with_ctrl h.with_alt) c h.with_super in
    eq_of_== (with_bit (mask_of h) (bit_of m)) (mask_of (hold m h)) d

abbrev hold_all : List Modifier → Held → Held
hold_all [] h = h
hold_all (m ∷ ms) h = hold_all ms (hold m h)

count-write_modifier : (m : Modifier) (s : String) → suc (count s) ≤ count (write_modifier m s)
count-write_modifier m s =
    rw (modifier_of-write_modifier m s) at (modifier_of-Shorter (write_modifier m s))

strip_modifiers-write_key :
    (fuel : ℕ) (h : Held) (ms : List Modifier) (key : String)
    → modifier_of key ≡ none
    → count (write_key ms key) ≤ fuel
    → strip_modifiers fuel (mask_of h) (write_key ms key) ≡ (mask_of (hold_all ms h), key)
unfolding strip_modifiers
strip_modifiers-write_key zero h [] key plain enough = refl
strip_modifiers-write_key (suc fuel) h [] key plain enough =
    strip_modifiers-done fuel (mask_of h) key plain
strip_modifiers-write_key zero h (m ∷ ms) key plain enough =
    let shorter = count-write_modifier m (write_key ms key) in absurd (omega arith)
strip_modifiers-write_key (suc fuel) h (m ∷ ms) key plain enough =
    let rest = write_key ms key in
    let shorter = count-write_modifier m rest in
    strip_modifiers-more fuel (mask_of h) (write_modifier m rest) (bit_of m) rest
      (modifier_of-write_modifier m rest)
    ∙ ap (λ n. strip_modifiers fuel n rest) (with_bit-mask_of m h)
    ∙ strip_modifiers-write_key fuel (hold m h) ms key plain (omega arith)

-- Modifiers are held in any order.
hold-hold : (m n : Modifier) (h : Held) → hold m (hold n h) ≡ hold n (hold m h)
hold-hold shift shift h = refl
hold-hold shift ctrl h = refl
hold-hold shift alt h = refl
hold-hold shift super h = refl
hold-hold ctrl shift h = refl
hold-hold ctrl ctrl h = refl
hold-hold ctrl alt h = refl
hold-hold ctrl super h = refl
hold-hold alt shift h = refl
hold-hold alt ctrl h = refl
hold-hold alt alt h = refl
hold-hold alt super h = refl
hold-hold super shift h = refl
hold-hold super ctrl h = refl
hold-hold super alt h = refl
hold-hold super super h = refl

hold_all-held_of :
    (ms : List Modifier) (m : Modifier) (h : Held) → hold_all ms (hold m h) ≡ hold m (hold_all ms h)
hold_all-held_of [] m h = refl
hold_all-held_of (n ∷ ms) m h =
    ap (hold_all ms) (hold-hold n m h) ∙ hold_all-held_of ms m (hold n h)

hold_all-none : (ms : List Modifier) → hold_all ms none_held ≡ held_of ms
hold_all-none [] = refl
hold_all-none (m ∷ ms) = hold_all-held_of ms m none_held ∙ ap (hold m) (hold_all-none ms)

-- No key of a table begins with a modifier.
abbrev is_plain : String → Bool
is_plain s = elim (modifier_of s) [ none ↦ true | some found ↦ false ]

abbrev all_plain {ℓ} : {A : Type ℓ} → List (String × A) → Bool
all_plain [] = true
all_plain ((key, a) ∷ rest) = is_plain key && all_plain rest

is_plain-none : (s : String) → is_plain s ≡ true → modifier_of s ≡ none
is_plain-none s h = elim (Option-cases (modifier_of s)) [
  | inl e ↦ e
  | inr (found, e) ↦ let impossible : false ≡ true = rw (e, is_plain) at h in cc
]

lookup_text-plain {ℓ} :
    {A : Type ℓ} (key : String) (table : List (String × A)) {a : A}
    → all_plain table ≡ true
    → lookup_text key table ≡ some a
    → is_plain key ≡ true
lookup_text-plain key [] plain found = cc
lookup_text-plain key ((name, b) ∷ rest) {a} plain found = elim (Bool-cases (name =s= key)) [
  | inl same ↦
      let same_key : name ≡ key = (eq_iff name key).0 same in
      rw same_key at (&&-left (is_plain name) (all_plain rest) plain)
  | inr other ↦
      lookup_text-plain key rest {a = a} (&&-right (is_plain name) (all_plain rest) plain)
        (rw (other, lookup_text) at found)
]

keycode-plain :
    (platform : Platform) (key : String) {keycode : ℕ}
    → single_char_to_keycode platform key ≡ some keycode
    → modifier_of key ≡ none
keycode-plain macos key {keycode} e =
    is_plain-none key (lookup_text-plain key macos_keycodes {a = keycode} refl e)
keycode-plain linux key {keycode} e =
    is_plain-none key (lookup_text-plain key linux_keycodes {a = keycode} refl e)

-- `parse_prefix_key` reads back a known key that is written behind any modifiers, in any order and
-- number: its key code, and a mask with bit 1 for `shift+`, 2 for `ctrl+`, 4 for `alt+` and 8 for
-- `super+`, each set exactly when that modifier is written.
pub parse_prefix_key-write_key :
    (platform : Platform) (ms : List Modifier) (key : String) (keycode : ℕ)
    → single_char_to_keycode platform key ≡ some keycode
    → parse_prefix_key platform (write_key ms key)
      ≡ some (record { keycode = keycode; mods_mask = mask_of (held_of ms) })
unfolding parse_prefix_key
parse_prefix_key-write_key platform ms key keycode e =
    let spec = write_key ms key in
    let plain = keycode-plain platform key e in
    let stripped : strip_modifiers (count spec) 0 spec ≡ (mask_of (held_of ms), key) =
      strip_modifiers-write_key (count spec) none_held ms key plain (omega arith)
      ∙ ap (λ h. (mask_of h, key)) (hold_all-none ms) in
    let known : single_char_to_keycode platform (strip_modifiers (count spec) 0 spec).1
        ≡ some keycode =
      ap (λ r. single_char_to_keycode platform r.1) stripped ∙ e in
    rw (known, parse_prefix_key)
      (ap (λ r. some (record { keycode = keycode; mods_mask = r.0 })) stripped)
