-- ===== src/Bindings/Parsing.antt =====
-- The keys in the configuration, as src/bindings.rs reads them.
use boo.Base.{ℕ, zero, suc, ◌+◌, Option, none, some, List, [], ◌∷◌, ◌==◌, has_bit, if◌then◌else◌}
use Prim.Native.String.{String, count}
use boo.Bindings.{PrefixKey}
use boo.Base.Strings.{lookup_text, strip_prefix}
use boo.Bindings.Keycodes.{Platform, single_char_to_keycode}

-- `|=` with one modifier
abbrev pub with_bit : ℕ → ℕ → ℕ
with_bit mods bit = if has_bit mods bit then mods else mods + bit

-- The branches of the loop: the modifier that the text starts with, and what follows it. The bits
-- are those of src/ffi.rs.
abbrev pub modifier_of : String → Option (ℕ × String)
modifier_of s = elim (strip_prefix "ctrl+" s) [
  | some rest ↦ some (2, rest)
  | none ↦ elim (strip_prefix "shift+" s) [
    | some rest ↦ some (1, rest)
    | none ↦ elim (strip_prefix "alt+" s) [
      | some rest ↦ some (4, rest)
      | none ↦ elim (strip_prefix "super+" s) [ some rest ↦ some (8, rest) | none ↦ none ]
    ]
  ]
]

-- The loop, in which the text gets shorter each time.
unfoldable pub strip_modifiers : ℕ → ℕ → String → ℕ × String
strip_modifiers zero mods s = (mods, s)
strip_modifiers (suc fuel) mods s = elim (modifier_of s) [
  | none ↦ (mods, s)
  | some (bit, rest) ↦ strip_modifiers fuel (with_bit mods bit) rest
]

unfoldable pub parse_prefix_key : Platform → String → Option PrefixKey
unfolding strip_modifiers
parse_prefix_key platform spec =
    let stripped = strip_modifiers (count spec) 0 spec in
    elim (single_char_to_keycode platform stripped.1) [
      | none ↦ none
      | some keycode ↦ some (record { keycode = keycode; mods_mask = stripped.0 })
    ]

abbrev pub named_triggers : List (String × String)
named_triggers =
    ("space", " ")
    ∷ ("tab", "\t")
    ∷ ("enter", "\r")
    ∷ ("return", "\r")
    ∷ ("escape", "\u{1b}")
    ∷ ("esc", "\u{1b}")
    ∷ []

unfoldable pub parse_prefix_trigger : String → Option String
parse_prefix_trigger spec = elim (lookup_text spec named_triggers) [
  | some trigger ↦ some trigger
  | none ↦ if count spec == 1 then some spec else none
]
