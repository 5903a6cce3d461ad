-- ===== src/Prompt/Editing.antt =====
-- Enter, Backspace and Tab of the prompt, in src/runtime_input.rs, keep it sound.
use boo.Base.{
  ℕ, ◌<◌, ◌≤◌, ◌≡◌, refl, inl, inr, Bool, true, false, Option, none, some, List, [], ◌∷◌, ◌++◌, ltb,
  length, get_elem?, get_elem?-some, length-append, All-get_elem?, dec_lt, arith, Bool-cases,
  Option-cases, if◌then◌else◌,
}
use boo.Base.Strings.{trim_end}
use Prim.Native.String.{String}
use boo.Prompt.{CommandDef, CommandPrompt, PromptKey, enter, tab, backspace}
use boo.Prompt.Commands.{commands}
use boo.Base.Strings.{is_empty}
use boo.Prompt.Suggestions.{command_at, selected_command}
use boo.Prompt.Keys.{up_to_space, without_word, press_enter, press_backspace, press_tab, recall}
use boo.Prompt.Naming.{Names}
use boo.Prompt.Sound.{InHistory, IsSound, Pressed, goes, breaks, retyped-Pressed}

InHistory-push :
    (i : Option ℕ) (history : List String) (text : String)
    → InHistory i history
    → InHistory i (history ++ (text ∷ []))
InHistory-push none history text h = tt
InHistory-push (some i) history text h = rw (length-append history (text ∷ [])) (omega arith)

pub press_enter-Pressed :
    (prompt : CommandPrompt) → IsSound prompt → Pressed prompt enter (press_enter prompt)
press_enter-Pressed prompt (names, (recalled, selected)) =
    elim (Bool-cases (is_empty prompt.input)) [
      | inl empty ↦ rw (empty, press_enter) (goes _ _ (names, (recalled, selected)))
      | inr typed ↦
          let pushed = InHistory-push prompt.history_idx prompt.history prompt.input recalled in
          rw (typed, press_enter) (goes _ _ (names, (pushed, selected)))
    ]

without_word-breaks :
    (input : String)
    → without_word input ≡ none
    → (space : ℕ) × ((before : String) × ((up_to_space (trim_end input) ≡ some (space, before))
          × (128 ≤ space)))
without_word-breaks input e = elim (Option-cases (up_to_space (trim_end input))) [
  | inl nothing ↦ let impossible : some _ ≡ none = rw (nothing, without_word) at e in cc
  | inr ((space, before), found) ↦ elim (dec_lt space 128) [
    | yes short ↦
        let kept : (if ltb space 128 then some before else none) ≡ none =
          rw (found, without_word) at e in
        let small : ltb space 128 ≡ true = ground arith in
        let impossible : some before ≡ none = rw small at kept in cc
    | no long ↦ (space, (before, (found, omega arith)))
  ]
]

pub press_backspace-Pressed :
    (to_lowercase : String → String) (prompt : CommandPrompt) (control : Bool)
    → IsSound prompt
    → Pressed prompt (backspace control) (press_backspace to_lowercase prompt control)
press_backspace-Pressed to_lowercase prompt false (names, (recalled, selected)) =
    retyped-Pressed to_lowercase prompt prompt _ recalled
press_backspace-Pressed to_lowercase prompt true (names, (recalled, selected)) =
    elim (Option-cases (without_word prompt.input)) [
      | inl e ↦
          let broken = without_word-breaks prompt.input e in
          rw (e, press_backspace) (breaks broken.0 broken.1.0 broken.1.1.0 broken.1.1.1)
      | inr (text, e) ↦
          rw (e, press_backspace) (retyped-Pressed to_lowercase prompt prompt text recalled)
    ]

selected_command-some :
    (prompt : CommandPrompt)
    → IsSound prompt
    → (cmd : Option CommandDef) × (selected_command prompt ≡ some cmd)
unfolding selected_command
selected_command-some prompt (names, sound) =
    elim (Option-cases (get_elem? prompt.suggestions prompt.selected_suggestion)) [
      | inl e ↦ (none, rw (e, selected_command) refl)
      | inr (i, e) ↦
          let below : i < length commands =
            All-get_elem? (Names (length commands)) prompt.suggestions _ names e in
          let found = get_elem?-some commands i below in
          (some found.0, rw (e, selected_command) (rw (found.1, command_at) refl))
    ]

pub press_tab-Pressed :
    (to_lowercase : String → String) (prompt : CommandPrompt)
    → IsSound prompt
    → Pressed prompt tab (press_tab to_lowercase prompt)
press_tab-Pressed to_lowercase prompt sound =
    let (found, e) = selected_command-some prompt sound in
    elim found
        as (λ cmd.
          selected_command prompt ≡ some cmd → Pressed prompt tab (press_tab to_lowercase prompt)) [
            | none ↦ λ e. rw (e, press_tab) (goes _ _ sound)
            | some cmd ↦
                λ e. rw (e, press_tab) (retyped-Pressed to_lowercase prompt prompt _ sound.1.0)
          ]
      e

pub recall-Pressed :
    {key : PromptKey} (before prompt : CommandPrompt) (i : ℕ)
    → IsSound prompt
    → i < length prompt.history
    → Pressed before key (recall prompt i)
recall-Pressed before prompt i sound h =
    let found = get_elem?-some prompt.history i h in
    rw (found.1, recall) (goes _ _ (sound.0, (h, sound.1.1)))
