-- ===== src/Prompt/Sound.antt =====
-- What the prompt of src/command_prompt.rs keeps true: indices stay in bounds.
use boo.Base.{ℕ, ◌<◌, ◌≤◌, ◌≡◌, true, Option, none, some, List, [], ◌∷◌, length, All, arith}
use boo.Base.Strings.{trim_end}
use Prim.Native.String.{String, [] as «[]s»}
use boo.Prompt.{CommandPrompt, PromptKey, backspace, PromptOutcome, crashes, prompts}
use boo.Prompt.Commands.{commands}
use boo.Prompt.Suggestions.{first_word, update_suggestions}
use boo.Prompt.Keys.{up_to_space, open_command_prompt, retyped}
use boo.Prompt.Naming.{Names, suggestions_for-All}

-- `history_idx` and `selected_suggestion` stand for an entry.
abbrev pub InHistory : Option ℕ → List String → Type 0
InHistory none history = Unit
InHistory (some i) history = i < length history

abbrev pub Selects : ℕ → List ℕ → Type 0
Selects selected [] = Unit
Selects selected (x ∷ xs) = selected < length (x ∷ xs)

abbrev pub IsSound : CommandPrompt → Type 0
IsSound prompt =
    All (Names (length commands)) prompt.suggestions
    × (InHistory prompt.history_idx prompt.history
        × Selects prompt.selected_suggestion prompt.suggestions)

-- What a key may do to a prompt.
pub data Pressed (prompt : CommandPrompt) : PromptKey → PromptOutcome → Type 0 where
  goes :
      {key : PromptKey} (next : CommandPrompt) (run : Option String)
      → IsSound next
      → Pressed prompt key (prompts next run)
  breaks :
      (space : ℕ) (before : String)
      → up_to_space (trim_end prompt.input) ≡ some (space, before)
      → 128 ≤ space
      → Pressed prompt (backspace true) crashes

pub Selects-zero : (xs : List ℕ) → Selects 0 xs
Selects-zero [] = tt
Selects-zero (x ∷ xs) = omega arith

pub update_suggestions-IsSound :
    (to_lowercase : String → String) (prompt : CommandPrompt)
    → InHistory prompt.history_idx prompt.history
    → IsSound (update_suggestions to_lowercase prompt)
unfolding update_suggestions
update_suggestions-IsSound to_lowercase prompt h =
    (suggestions_for-All to_lowercase (first_word prompt.input), (h, Selects-zero _))

pub retyped-Pressed :
    {key : PromptKey} (to_lowercase : String → String) (before prompt : CommandPrompt)
    (text : String)
    → InHistory prompt.history_idx prompt.history
    → Pressed before key (retyped to_lowercase prompt text)
retyped-Pressed to_lowercase before prompt text h =
    goes _ none (update_suggestions-IsSound to_lowercase (record prompt { input = text }) h)

pub open_command_prompt-IsSound :
    (to_lowercase : String → String) (prompt : CommandPrompt)
    → IsSound (open_command_prompt to_lowercase prompt)
unfolding open_command_prompt
open_command_prompt-IsSound to_lowercase prompt =
    update_suggestions-IsSound to_lowercase
      (record prompt { active = true; input = «[]s»; selected_suggestion = 0; history_idx = none })
      tt
