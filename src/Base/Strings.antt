-- ===== src/Base/Strings.antt =====
-- What src/bindings.rs, src/command_prompt.rs and src/tabs.rs use of texts.
use boo.Base.Tests.{◌==◌, leb, if◌then◌else◌}
use Prim.Native.Nat.{ℕ, ◌+◌, ◌-◌, ◌*◌}
use mathlib.Core.Bool.{Bool, true, false, ◌&&◌, ◌||◌}
use mathlib.Core.Option.{Option, none, some}
use mathlib.Core.List.{List, [], ◌∷◌}
use Prim.Native.Char.{code}
use Prim.Native.String.{String, [] as «[]s», ◌∷◌ as ◌∷s◌}
use text.Mathlib.Text.{◌==◌ as ◌=s=◌}

abbrev pub is_empty : String → Bool
is_empty «[]s» = true
is_empty (c ∷s s) = false

-- the arm of a `match` on a text
abbrev pub lookup_text {ℓ} : {A : Type ℓ} → String → List (String × A) → Option A
lookup_text s [] = none
lookup_text s ((key, a) ∷ rest) =
    let later = lookup_text s rest in if key =s= s then some a else later

-- `strip_prefix`, on the prefix first
abbrev pub strip_prefix : String → String → Option String
strip_prefix «[]s» s = some s
strip_prefix (c ∷s p) «[]s» = none
strip_prefix (c ∷s p) (d ∷s s) =
    let rest = strip_prefix p s in if code c == code d then rest else none

-- `split_once` at a character
abbrev pub split_once : ℕ → String → Option (String × String)
split_once c «[]s» = none
split_once c (d ∷s s) =
    let later = split_once c s in
    if code d == c
    then some («[]s», s)
    else elim later [ none ↦ none | some (before, after) ↦ some (d ∷s before, after) ]

-- `parse` into an unsigned integer up to a bound: digits, after a `+` that may stand in front
abbrev pub parse_digits : ℕ → ℕ → String → Option ℕ
parse_digits bound acc «[]s» = some acc
parse_digits bound acc (c ∷s s) =
    let next = acc * 10 + (code c - b'0') in
    let rest = parse_digits bound next s in
    if (leb b'0' (code c) && leb (code c) b'9') && leb next bound then rest else none

abbrev pub parse_unsigned : ℕ → String → Option ℕ
parse_unsigned bound «[]s» = none
parse_unsigned bound (c ∷s «[]s») = parse_digits bound 0 (c ∷s «[]s»)
parse_unsigned bound (c ∷s (d ∷s s)) =
    let signed = parse_digits bound 0 (d ∷s s) in
    let unsigned = parse_digits bound 0 (c ∷s (d ∷s s)) in
    if code c == b'+' then signed else unsigned

-- the white space of `trim`
abbrev pub is_whitespace : ℕ → Bool
is_whitespace c =
    (leb 9 c && leb c 13)
    || ((c == 32)
        || ((c == 0x85)
            || ((c == 0xa0)
                || ((c == 0x1680)
                    || ((leb 0x2000 c && leb c 0x200a)
                        || ((c == 0x2028)
                            || ((c == 0x2029)
                                || ((c == 0x202f) || ((c == 0x205f) || (c == 0x3000))))))))))

abbrev pub trim_start : String → String
trim_start «[]s» = «[]s»
trim_start (c ∷s s) = let rest = trim_start s in if is_whitespace (code c) then rest else c ∷s s

abbrev pub trim_end : String → String
trim_end «[]s» = «[]s»
trim_end (c ∷s s) = elim (trim_end s) [
  | «[]s» ↦ if is_whitespace (code c) then «[]s» else c ∷s «[]s»
  | d ∷s rest ↦ c ∷s (d ∷s rest)
]

abbrev pub trim : String → String
trim s = trim_end (trim_start s)

abbrev pub has_char : ℕ → String → Bool
has_char c «[]s» = false
has_char c (d ∷s s) = (code d == c) || has_char c s
