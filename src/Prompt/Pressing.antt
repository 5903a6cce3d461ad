-- ===== src/Prompt/Pressing.antt =====
-- The keys of the prompt, in src/runtime_input.rs, keep it sound.
use boo.Base.{
  ℕ, ◌+◌, ◌-◌, ◌<◌, ◌≡◌, ◌∙◌, refl, inl, inr, Bool, true, false, Option, none, some, List, [], ◌∷◌,
  ltb, length, List-cases, dec_lt, arith, Option-cases, if◌then◌else◌,
}
use Prim.Native.String.{String, [] as «[]s»}
use boo.Prompt.{
  CommandPrompt, PromptKey, escape, enter, tab, arrow_up, arrow_down, home, backspace, other,
}
use boo.Prompt.Keys.{
  handle_command_key, goes_on, press_up, press_down, press_other, newer, older, recall,
}
use boo.Prompt.Sound.{InHistory, Selects, IsSound, Pressed, goes, retyped-Pressed}
use boo.Prompt.Editing.{
  press_enter-Pressed, press_backspace-Pressed, press_tab-Pressed, recall-Pressed,
}

older-lt :
    (prompt : CommandPrompt)
    → InHistory prompt.history_idx prompt.history
    → 0 < length prompt.history
    → older prompt < length prompt.history
older-lt prompt h some_history = elim (Option-cases prompt.history_idx) [
  | inl e ↦ rw (e, older) (omega arith)
  | inr (i, e) ↦ let inside : i < length prompt.history = rw e at h in rw (e, older) (omega arith)
]

Selects-pred : (k : ℕ) (xs : List ℕ) → Selects k xs → Selects (k - 1) xs
Selects-pred k [] h = tt
Selects-pred k (x ∷ xs) h = omega arith

Selects-below : (k : ℕ) (xs : List ℕ) → k < length xs → Selects k xs
Selects-below k [] h = tt
Selects-below k (x ∷ xs) h = h

press_up-Pressed :
    (prompt : CommandPrompt) → IsSound prompt → Pressed prompt arrow_up (press_up prompt)
press_up-Pressed prompt (names, (recalled, selected)) = elim (List-cases prompt.suggestions) [
  | inl e ↦ elim (List-cases prompt.history) [
    | inl empty ↦
        let step : press_up prompt ≡ goes_on prompt = simp (e, empty, press_up) in
        rw step (goes prompt none (names, (recalled, selected)))
    | inr (text, (texts, kept)) ↦
        let step : press_up prompt ≡ recall prompt (older prompt) = simp (e, kept, press_up) in
        let some_history : 0 < length prompt.history = rw kept (omega arith) in
        rw step (
          recall-Pressed prompt prompt (older prompt) (names, (recalled, selected))
            (older-lt prompt recalled some_history))
  ]
  | inr (i, (rest, e)) ↦
      let next : CommandPrompt = record prompt {
        selected_suggestion = prompt.selected_suggestion - 1;
      } in
      let step : press_up prompt ≡ goes_on next = simp (e, press_up) in
      rw step (goes next none (names, (recalled, Selects-pred _ prompt.suggestions selected)))
]

newer-Pressed : (prompt : CommandPrompt) → IsSound prompt → Pressed prompt arrow_down (newer prompt)
newer-Pressed prompt (names, (recalled, selected)) = elim (Option-cases prompt.history_idx) [
  | inl e ↦
      let step : newer prompt ≡ goes_on prompt = simp (e, newer) in
      rw step (goes prompt none (names, (recalled, selected)))
  | inr (i, e) ↦ elim (dec_lt (i + 1) (length prompt.history)) [
    | yes inside ↦
        let small : ltb (i + 1) (length prompt.history) ≡ true = ground arith in
        let step : newer prompt ≡ recall prompt (i + 1) = simp (e, small, newer) in
        rw step (recall-Pressed prompt prompt (i + 1) (names, (recalled, selected)) inside)
    | no outside ↦
        let large : ltb (i + 1) (length prompt.history) ≡ false = ground arith in
        let next : CommandPrompt = record prompt { history_idx = none; input = «[]s» } in
        let step : newer prompt ≡ goes_on next = simp (e, large, newer) in
        rw step (goes next none (names, (tt, selected)))
  ]
]

module _ (prompt : CommandPrompt) (i : ℕ) (rest : List ℕ) (e : prompt.suggestions ≡ i ∷ rest) where
  down-tests : press_down prompt ≡ (
      if ltb (prompt.selected_suggestion + 1) (length prompt.suggestions)
      then goes_on (record prompt { selected_suggestion = prompt.selected_suggestion + 1 })
      else goes_on prompt)
  down-tests = simp (e, press_down)

  down-moves :
      ltb (prompt.selected_suggestion + 1) (length prompt.suggestions) ≡ true
      → press_down prompt
        ≡ goes_on (record prompt { selected_suggestion = prompt.selected_suggestion + 1 })
  down-moves small = down-tests ∙ rw small refl

  down-stays :
      ltb (prompt.selected_suggestion + 1) (length prompt.suggestions) ≡ false
      → press_down prompt ≡ goes_on prompt
  down-stays large = down-tests ∙ rw large refl

press_down-Pressed :
    (prompt : CommandPrompt) → IsSound prompt → Pressed prompt arrow_down (press_down prompt)
press_down-Pressed prompt (names, (recalled, selected)) = elim (List-cases prompt.suggestions) [
  | inl e ↦
      let step : press_down prompt ≡ newer prompt = simp (e, press_down) in
      rw step (newer-Pressed prompt (names, (recalled, selected)))
  | inr (i, (rest, e)) ↦
      elim (dec_lt (prompt.selected_suggestion + 1) (length prompt.suggestions)) [
        | yes inside ↦
            let small : ltb (prompt.selected_suggestion + 1) (length prompt.suggestions) ≡ true =
              ground arith in
            let next : CommandPrompt = record prompt {
              selected_suggestion = prompt.selected_suggestion + 1;
            } in
            let step : press_down prompt ≡ goes_on next = down-moves prompt i rest e small in
            rw step (goes next none (names, (recalled, Selects-below _ prompt.suggestions inside)))
        | no outside ↦
            let large : ltb (prompt.selected_suggestion + 1) (length prompt.suggestions) ≡ false =
              ground arith in
            let step : press_down prompt ≡ goes_on prompt = down-stays prompt i rest e large in
            rw step (goes prompt none (names, (recalled, selected)))
      ]
]

press_other-Pressed :
    (to_lowercase : String → String) (prompt : CommandPrompt) (control : Bool)
    (text : Option String)
    → IsSound prompt
    → Pressed prompt (other control text) (press_other to_lowercase prompt control text)
press_other-Pressed to_lowercase prompt control none sound = goes prompt none sound
press_other-Pressed to_lowercase prompt true (some text) sound = goes prompt none sound
press_other-Pressed to_lowercase prompt false (some text) sound =
    retyped-Pressed to_lowercase prompt prompt _ sound.1.0

-- Whatever key a sound prompt gets, and whatever `to_lowercase` is, the prompt is sound again: its
-- suggestions name commands, the selected one is in the list, and the place in the history is that
-- of an entry. Only one key can crash instead, Backspace with Control, and then the last white
-- space before the word has a character of more than one byte.
pub handle_command_key-Pressed :
    (to_lowercase : String → String) (prompt : CommandPrompt) (key : PromptKey)
    → IsSound prompt
    → Pressed prompt key (handle_command_key to_lowercase prompt key)
unfolding handle_command_key
handle_command_key-Pressed to_lowercase prompt escape sound = goes _ none sound
handle_command_key-Pressed to_lowercase prompt enter sound = press_enter-Pressed prompt sound
handle_command_key-Pressed to_lowercase prompt tab sound =
    press_tab-Pressed to_lowercase prompt sound
handle_command_key-Pressed to_lowercase prompt arrow_up sound = press_up-Pressed prompt sound
handle_command_key-Pressed to_lowercase prompt arrow_down sound = press_down-Pressed prompt sound
handle_command_key-Pressed to_lowercase prompt home sound = goes prompt none sound
handle_command_key-Pressed to_lowercase prompt (backspace control) sound =
    press_backspace-Pressed to_lowercase prompt control sound
handle_command_key-Pressed to_lowercase prompt (other control text) sound =
    press_other-Pressed to_lowercase prompt control text sound
