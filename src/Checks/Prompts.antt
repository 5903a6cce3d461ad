-- ===== src/Checks/Prompts.antt =====
-- The command prompt at concrete keys.
use boo.Base.{◌≡◌, refl, true, false, none, some, [], ◌∷◌, ◌++◌}
use Prim.Native.String.{String}
use boo.Prompt.{CommandDef, CommandPrompt, command, backspace, tab, enter, prompts, crashes}
use boo.Prompt.Scores.{fuzzy_score}
use boo.Prompt.Suggestions.{new_prompt, update_suggestions, selected_command}
use boo.Prompt.Keys.{handle_command_key, completed, open_command_prompt}
use boo.Prompt.Sound.{Pressed, open_command_prompt-IsSound}
use boo.Prompt.Effects.{overrides}
use boo.Prompt.Execution.{execute_command}
use boo.Prompt.Completing.{is_known, Completes, tab-enter}
use boo.Prompt.Pressing.{handle_command_key-Pressed}

-- `to_lowercase` on texts without capital letters
abbrev lower : String → String
lower s = s

abbrev opened : CommandPrompt
opened = open_command_prompt lower new_prompt

abbreviation_found : fuzzy_score lower "stt" "set-tab-title" ≡ 137
unfolding fuzzy_score
abbreviation_found = refl

wide_space :
    handle_command_key lower (record new_prompt { input = "a\u{3000}b" }) (backspace true) ≡ crashes
unfolding handle_command_key
wide_space = refl

handle_command_key-Pressed_example :
    Pressed opened (backspace true) (handle_command_key lower opened (backspace true))
handle_command_key-Pressed_example =
    handle_command_key-Pressed lower opened (backspace true)
      (open_command_prompt-IsSound lower new_prompt)

abbrev resize_left : CommandDef
resize_left = command "resize-left" "resize split left" "[n]"

abbrev typed : CommandPrompt
typed = update_suggestions lower (record new_prompt { input = "rl" })

typed_selects : selected_command typed ≡ some (some resize_left)
unfolding selected_command update_suggestions fuzzy_score
typed_selects = refl

value_set : execute_command false " set  font-size 12 pt" ≡ overrides "font-size" "12 pt"
unfolding execute_command
value_set = refl

tab-enter_example :
    let next = update_suggestions lower (record typed { input = completed resize_left }) in
    let kept = typed.history ++ (completed resize_left ∷ []) in
    Completes resize_left (completed resize_left)
    × (handle_command_key lower typed tab ≡ prompts next none)
    × ((handle_command_key lower next enter
          ≡ prompts (record next { history = kept; active = false }) (some (completed resize_left)))
        × (is_known (execute_command true (completed resize_left)) ≡ true))
tab-enter_example = tab-enter lower true typed resize_left typed_selects
