-- ===== src/Prompt/Scores.antt =====
-- `fuzzy_score` of src/command_prompt.rs.
use boo.Base.{ℕ, ◌+◌, ◌-◌, List, [], ◌∷◌, ◌==◌, if◌then◌else◌}
use Prim.Native.Char.{Char, code}
use Prim.Native.String.{String, len, [] as «[]s», ◌∷◌ as ◌∷s◌}
use text.Mathlib.Text.{starts_with}
use boo.Base.Strings.{is_empty}

-- The parts between the hyphens, the first one under construction apart from the others.
abbrev pub split_at_hyphens : String → String × List String
split_at_hyphens «[]s» = («[]s», [])
split_at_hyphens (c ∷s s) =
    let parts = split_at_hyphens s in
    if code c == b'-' then («[]s», parts.0 ∷ parts.1) else (c ∷s parts.0, parts.1)

-- `qchars[qi..]` after a character
abbrev pub after_char : Char → String → String
after_char c «[]s» = «[]s»
after_char c (q ∷s query) = if code q == code c then query else q ∷s query

-- `qchars[qi..]` after a part
abbrev pub after_part : String → String → String
after_part «[]s» query = query
after_part (c ∷s part) query = after_char c query

abbrev pub after_parts : List String → String → String
after_parts [] query = query
after_parts (part ∷ parts) query = after_parts parts (after_part part query)

abbrev pub after_chars : String → String → String
after_chars «[]s» query = query
after_chars (c ∷s target) query = after_chars target (after_char c query)

-- `100 - target.len()`, where no name of a command has more than 100 bytes
abbrev pub shortness : String → ℕ
shortness target = 100 - len target

-- The first argument is `to_lowercase`.
unfoldable pub fuzzy_score : (String → String) → String → String → ℕ
fuzzy_score to_lowercase query target =
    let ql = to_lowercase query in
    let tl = to_lowercase target in
    let parts = split_at_hyphens tl in
    if is_empty query
    then 1
    else if starts_with tl ql
    then 100 + shortness target
    else if is_empty (after_parts (parts.0 ∷ parts.1) ql)
    then 50 + shortness target
    else if is_empty (after_chars tl ql)
    then 10 + shortness target
    else 0
