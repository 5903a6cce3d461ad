-- ===== src/Prompt/Completing.antt =====
-- Completing a command with Tab and executing it with Enter, in src/runtime_input.rs.
use boo.Base.{
  ℕ, zero, suc, ◌≡◌, refl, inl, inr, Bool, true, false, not, ◌&&◌, none, some, List, [], ◌∷◌, ◌++◌,
  get_elem?, some_injective, not-true, &&-left, &&-right, Option-cases, Bool-cases, ◌⊎◌, ◌≢◌,
}
use boo.Base.Strings.{is_empty}
use Prim.Native.String.{String, ◌++◌ as ◌<>◌, [] as «[]s», ◌∷◌ as ◌∷s◌}
use boo.Prompt.{CommandDef, CommandPrompt, tab, enter, prompts}
use boo.Prompt.Commands.{commands}
use boo.Prompt.Suggestions.{update_suggestions, selected_command, command_at}
use boo.Prompt.Keys.{handle_command_key, completed, press_tab, press_enter}
use boo.Prompt.Effects.{CommandEffect, is_unknown}
use boo.Prompt.Execution.{execute_command}

abbrev pub is_known : CommandEffect → Bool
is_known (is_unknown cmd) = false
is_known _ = true

-- Whether a completed command is some text that is known when it is executed.
abbrev runs : Bool → CommandDef → Bool
runs in_copy_mode cmd =
    not (is_empty (completed cmd)) && is_known (execute_command in_copy_mode (completed cmd))

abbrev all_run : Bool → List CommandDef → Bool
all_run in_copy_mode [] = true
all_run in_copy_mode (cmd ∷ rest) = runs in_copy_mode cmd && all_run in_copy_mode rest

commands-run : (in_copy_mode : Bool) → all_run in_copy_mode commands ≡ true
unfolding execute_command
commands-run in_copy_mode = refl

all_run-found :
    (in_copy_mode : Bool) (cmds : List CommandDef) (i : ℕ) (cmd : CommandDef)
    → all_run in_copy_mode cmds ≡ true
    → get_elem? cmds i ≡ some cmd
    → runs in_copy_mode cmd ≡ true
all_run-found in_copy_mode [] i cmd all found = cc
all_run-found in_copy_mode (c ∷ rest) zero cmd all found =
    rw (some_injective found) at (&&-left (runs in_copy_mode c) (all_run in_copy_mode rest) all)
all_run-found in_copy_mode (c ∷ rest) (suc i) cmd all found =
    all_run-found in_copy_mode rest i cmd
      (&&-right (runs in_copy_mode c) (all_run in_copy_mode rest) all) found

command_at-runs :
    (in_copy_mode : Bool) (i : ℕ) (cmd : CommandDef)
    → command_at i ≡ some (some cmd)
    → runs in_copy_mode cmd ≡ true
command_at-runs in_copy_mode i cmd e = elim (Option-cases (get_elem? commands i)) [
  | inl outside ↦ let impossible : none ≡ some (some cmd) = rw (outside, command_at) at e in cc
  | inr (found, inside) ↦
      let same : some (some found) ≡ some (some cmd) = rw (inside, command_at) at e in
      let same_command : found ≡ cmd = some_injective (some_injective same) in
      all_run-found in_copy_mode commands i cmd (commands-run in_copy_mode)
        (rw same_command at inside)
]

selected_command-runs :
    (in_copy_mode : Bool) (prompt : CommandPrompt) (cmd : CommandDef)
    → selected_command prompt ≡ some (some cmd)
    → runs in_copy_mode cmd ≡ true
unfolding selected_command
selected_command-runs in_copy_mode prompt cmd e =
    elim (Option-cases (get_elem? prompt.suggestions prompt.selected_suggestion)) [
      | inl outside ↦
          let impossible : some none ≡ some (some cmd) = rw (outside, selected_command) at e in cc
      | inr (i, inside) ↦ command_at-runs in_copy_mode i cmd (rw (inside, selected_command) at e)
    ]

-- A name, with a space behind it when the command has arguments.
abbrev pub Completes : CommandDef → String → Type 0
Completes cmd text =
    (cmd.args ≡ "") × (text ≡ cmd.name) ⊎ (cmd.args ≢ "") × (text ≡ cmd.name <> " ")

is_empty-eq : (s : String) → is_empty s ≡ true → s ≡ ""
is_empty-eq «[]s» e = refl
is_empty-eq (c ∷s s) e = cc

not_empty-ne : (s : String) → is_empty s ≡ false → s ≢ ""
not_empty-ne s e same = let impossible : true ≡ false = rw same at e in cc

completed-Completes : (cmd : CommandDef) → Completes cmd (completed cmd)
completed-Completes cmd = elim (Bool-cases (is_empty cmd.args)) [
  | inl bare ↦ inl (is_empty-eq cmd.args bare, rw (bare, completed) refl)
  | inr some_args ↦ inr (not_empty-ne cmd.args some_args, rw (some_args, completed) refl)
]

-- When a command is selected, Tab makes its name the input, with a space when the command has
-- arguments, and Enter then closes the prompt, adds this input to the history and executes it; and
-- it is a command that `execute_command` knows.
pub tab-enter :
    (to_lowercase : String → String) (in_copy_mode : Bool) (prompt : CommandPrompt)
    (cmd : CommandDef)
    → selected_command prompt ≡ some (some cmd)
    → let next = update_suggestions to_lowercase (record prompt { input = completed cmd }) in
      let kept = prompt.history ++ (completed cmd ∷ []) in
      Completes cmd (completed cmd)
      × (handle_command_key to_lowercase prompt tab ≡ prompts next none)
      × ((handle_command_key to_lowercase next enter
            ≡ prompts (record next { history = kept; active = false }) (some (completed cmd)))
          × (is_known (execute_command in_copy_mode (completed cmd)) ≡ true))
unfolding handle_command_key update_suggestions
tab-enter to_lowercase in_copy_mode prompt cmd e =
    let both = selected_command-runs in_copy_mode prompt cmd e in
    let typed : is_empty (completed cmd) ≡ false = not-true _ (&&-left _ _ both) in
    (
      completed-Completes cmd,
      rw (e, press_tab) refl,
      (rw (typed, press_enter) refl, &&-right _ _ both),
    )
