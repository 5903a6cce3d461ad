-- ===== src/Prompt/Execution.antt =====
-- `execute_command` of src/runtime_input.rs.
use boo.Base.{Bool, none, some, List, [], ◌∷◌, if◌then◌else◌}
use boo.Base.Strings.{lookup_text, is_whitespace}
use Prim.Native.Char.{code}
use Prim.Native.String.{String, [] as «[]s», ◌∷◌ as ◌∷s◌}
use boo.Prompt.Effects.{
  CommandEffect, does_nothing, goes_to_line, is_unknown, parse_signed, effects,
}

-- a word in front of the words behind it, unless it is empty
abbrev pub add_word : String → List String → List String
add_word «[]s» rest = rest
add_word (c ∷s s) rest = (c ∷s s) ∷ rest

-- The word that a text begins with, which is empty before white space, and the words behind it.
abbrev pub split_words : String → String × List String
split_words «[]s» = («[]s», [])
split_words (c ∷s s) =
    let later = split_words s in
    if is_whitespace (code c) then («[]s», add_word later.0 later.1) else (c ∷s later.0, later.1)

-- `split_whitespace`
abbrev pub words_of : String → List String
words_of s = let split = split_words s in add_word split.0 split.1

-- a line number, which counts in the copy mode alone
abbrev pub line_command : Bool → String → CommandEffect
line_command in_copy_mode cmd = elim (parse_signed cmd) [
  | none ↦ is_unknown cmd
  | some n ↦ if in_copy_mode then goes_to_line n else does_nothing
]

abbrev pub execute_parts : Bool → List String → CommandEffect
execute_parts in_copy_mode [] = does_nothing
execute_parts in_copy_mode (cmd ∷ args) = elim (lookup_text cmd effects) [
  | some effect ↦ effect args
  | none ↦ line_command in_copy_mode cmd
]

-- The first argument is `is_copy_mode` of the bindings.
unfoldable pub execute_command : Bool → String → CommandEffect
execute_command in_copy_mode input = execute_parts in_copy_mode (words_of input)
