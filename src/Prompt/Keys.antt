-- ===== src/Prompt/Keys.antt =====
-- `handle_command_key` of src/runtime_input.rs.
use boo.Base.{
  ℕ, ◌+◌, ◌-◌, Bool, true, false, Option, none, some, [], ◌∷◌, ◌++◌, ltb, leb, length, get_elem?,
  if◌then◌else◌,
}
use boo.Base.Strings.{is_whitespace, trim_end}
use Prim.Native.Char.{code}
use Prim.Native.String.{String, ◌++◌ as ◌<>◌, [] as «[]s», ◌∷◌ as ◌∷s◌}
use boo.Prompt.{
  CommandDef, CommandPrompt, PromptKey, escape, enter, tab, arrow_up, arrow_down, home, backspace,
  other, PromptOutcome, crashes, prompts,
}
use boo.Base.Strings.{is_empty}
use boo.Prompt.Suggestions.{update_suggestions, selected_command}

-- Up to the last white space, which is given as well.
abbrev pub up_to_space : String → Option (ℕ × String)
up_to_space «[]s» = none
up_to_space (c ∷s s) = elim (up_to_space s) [
  | some (space, before) ↦ some (space, c ∷s before)
  | none ↦ if is_whitespace (code c) then some (code c, c ∷s «[]s») else none
]

-- `truncate(pos + 1)` panics inside a character, so white space of more than one byte makes it panic.
abbrev pub without_word : String → Option String
without_word input = elim (up_to_space (trim_end input)) [
  | none ↦ some «[]s»
  | some (space, before) ↦ if ltb space 128 then some before else none
]

-- `pop`
abbrev pub without_last : String → String
without_last «[]s» = «[]s»
without_last (c ∷s «[]s») = «[]s»
without_last (c ∷s (d ∷s s)) = c ∷s without_last (d ∷s s)

-- what the loop over the text pushes
abbrev pub printable : String → String
printable «[]s» = «[]s»
printable (c ∷s s) = let rest = printable s in if leb 32 (code c) then c ∷s rest else rest

abbrev pub goes_on : CommandPrompt → PromptOutcome
goes_on prompt = prompts prompt none

-- with another input, and the suggestions for it
abbrev pub retyped : (String → String) → CommandPrompt → String → PromptOutcome
retyped to_lowercase prompt text =
    goes_on (update_suggestions to_lowercase (record prompt { input = text }))

abbrev pub press_enter : CommandPrompt → PromptOutcome
press_enter prompt =
    let kept =
      if is_empty prompt.input then prompt.history else prompt.history ++ (prompt.input ∷ []) in
    prompts (record prompt { history = kept; active = false }) (some prompt.input)

abbrev pub press_backspace : (String → String) → CommandPrompt → Bool → PromptOutcome
press_backspace to_lowercase prompt control =
    if control
    then elim (without_word prompt.input) [
      | none ↦ crashes
      | some text ↦ retyped to_lowercase prompt text
    ]
    else retyped to_lowercase prompt (without_last prompt.input)

abbrev pub completed : CommandDef → String
completed cmd = if is_empty cmd.args then cmd.name else cmd.name <> " "

abbrev pub press_tab : (String → String) → CommandPrompt → PromptOutcome
press_tab to_lowercase prompt = elim (selected_command prompt) [
  | none ↦ crashes
  | some none ↦ goes_on prompt
  | some (some cmd) ↦ retyped to_lowercase prompt (completed cmd)
]

-- `history[idx]`, which panics when `idx` is out of bounds
abbrev pub recall : CommandPrompt → ℕ → PromptOutcome
recall prompt idx = elim (get_elem? prompt.history idx) [
  | none ↦ crashes
  | some text ↦ goes_on (record prompt { history_idx = some idx; input = text })
]

abbrev pub older : CommandPrompt → ℕ
older prompt = elim prompt.history_idx [ none ↦ length prompt.history - 1 | some i ↦ i - 1 ]

abbrev pub press_up : CommandPrompt → PromptOutcome
press_up prompt = elim prompt.suggestions [
  | i ∷ rest ↦ goes_on (record prompt { selected_suggestion = prompt.selected_suggestion - 1 })
  | [] ↦ elim prompt.history [ [] ↦ goes_on prompt | text ∷ texts ↦ recall prompt (older prompt) ]
]

abbrev pub newer : CommandPrompt → PromptOutcome
newer prompt = elim prompt.history_idx [
  | none ↦ goes_on prompt
  | some idx ↦
      if ltb (idx + 1) (length prompt.history)
      then recall prompt (idx + 1)
      else goes_on (record prompt { history_idx = none; input = «[]s» })
]

abbrev pub press_down : CommandPrompt → PromptOutcome
press_down prompt = elim prompt.suggestions [
  | i ∷ rest ↦
      if ltb (prompt.selected_suggestion + 1) (length prompt.suggestions)
      then goes_on (record prompt { selected_suggestion = prompt.selected_suggestion + 1 })
      else goes_on prompt
  | [] ↦ newer prompt
]

abbrev pub press_other : (String → String) → CommandPrompt → Bool → Option String → PromptOutcome
press_other to_lowercase prompt control none = goes_on prompt
press_other to_lowercase prompt control (some text) =
    if control then goes_on prompt else retyped to_lowercase prompt (prompt.input <> printable text)

-- What `execute_command` does is left to the caller.
unfoldable pub handle_command_key : (String → String) → CommandPrompt → PromptKey → PromptOutcome
unfolding update_suggestions selected_command
handle_command_key to_lowercase prompt key = elim key [
  | escape ↦ goes_on (record prompt { active = false })
  | enter ↦ press_enter prompt
  | backspace control ↦ press_backspace to_lowercase prompt control
  | tab ↦ press_tab to_lowercase prompt
  | arrow_up ↦ press_up prompt
  | arrow_down ↦ press_down prompt
  | home ↦ goes_on prompt
  | other control text ↦ press_other to_lowercase prompt control text
]

-- opening the prompt, by a key binding or from the copy mode
unfoldable pub open_command_prompt : (String → String) → CommandPrompt → CommandPrompt
unfolding update_suggestions
open_command_prompt to_lowercase prompt =
    update_suggestions to_lowercase
      (record prompt { active = true; input = «[]s»; selected_suggestion = 0; history_idx = none })
