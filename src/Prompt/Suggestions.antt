-- ===== src/Prompt/Suggestions.antt =====
-- `CommandPrompt` of src/command_prompt.rs.
use boo.Base.{
  ℕ, suc, false, Option, none, some, List, [], ◌∷◌, ltb, map, take, get_elem?, if◌then◌else◌,
}
use boo.Base.Strings.{is_whitespace, trim_start}
use Prim.Native.Char.{code}
use Prim.Native.String.{String, [] as «[]s», ◌∷◌ as ◌∷s◌}
use boo.Prompt.{CommandDef, CommandPrompt}
use boo.Prompt.Commands.{commands}
use boo.Base.Strings.{is_empty}
use boo.Prompt.Scores.{fuzzy_score}

abbrev pub new_prompt : CommandPrompt
new_prompt = record {
  active = false;
  input = «[]s»;
  history = [];
  history_idx = none;
  suggestions = [];
  selected_suggestion = 0;
}

-- up to the white space
abbrev pub word_of : String → String
word_of «[]s» = «[]s»
word_of (c ∷s s) = let rest = word_of s in if is_whitespace (code c) then «[]s» else c ∷s rest

-- `split_whitespace().next().unwrap_or("")`
abbrev pub first_word : String → String
first_word s = word_of (trim_start s)

-- `filter_map` over the commands with their indices
abbrev pub scored : (String → String) → String → ℕ → List CommandDef → List (ℕ × ℕ)
scored to_lowercase query i [] = []
scored to_lowercase query i (cmd ∷ rest) =
    let score = fuzzy_score to_lowercase query cmd.name in
    let later = scored to_lowercase query (suc i) rest in
    if ltb 0 score then (i, score) ∷ later else later

-- The stable sort with the highest score first.
abbrev pub insert_scored : ℕ × ℕ → List (ℕ × ℕ) → List (ℕ × ℕ)
insert_scored x [] = x ∷ []
insert_scored x (y ∷ ys) =
    let later = insert_scored x ys in if ltb x.1 y.1 then y ∷ later else x ∷ (y ∷ ys)

abbrev pub sort_scored : List (ℕ × ℕ) → List (ℕ × ℕ)
sort_scored [] = []
sort_scored (x ∷ xs) = insert_scored x (sort_scored xs)

-- `i, i + 1, …`, one number for each entry
abbrev pub indices {ℓ} : {A : Type ℓ} → ℕ → List A → List ℕ
indices i [] = []
indices i (x ∷ xs) = i ∷ indices (suc i) xs

abbrev pub suggestions_for : (String → String) → String → List ℕ
suggestions_for to_lowercase query =
    if is_empty query
    then indices 0 commands
    else take 7 (map (λ x. x.0) (sort_scored (scored to_lowercase query 0 commands)))

unfoldable pub update_suggestions : (String → String) → CommandPrompt → CommandPrompt
update_suggestions to_lowercase prompt = record prompt {
  suggestions = suggestions_for to_lowercase (first_word prompt.input);
  selected_suggestion = 0;
}

-- `COMMANDS[i]` panics when `i` is out of bounds, which is `none` here.
abbrev pub command_at : ℕ → Option (Option CommandDef)
command_at i = elim (get_elem? commands i) [ none ↦ none | some cmd ↦ some (some cmd) ]

unfoldable pub selected_command : CommandPrompt → Option (Option CommandDef)
selected_command prompt = elim (get_elem? prompt.suggestions prompt.selected_suggestion) [
  | none ↦ some none
  | some i ↦ command_at i
]
