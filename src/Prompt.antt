-- ===== src/Prompt.antt =====
-- src/command_prompt.rs: the command prompt, with its keys in src/runtime_input.rs.
pub mod Commands
pub mod Scores
pub mod Suggestions
pub mod Keys
pub mod Effects
pub mod Execution
pub mod Completing
pub mod Naming
pub mod Sound
pub mod Editing
pub mod Pressing
use boo.Base.{ℕ, Bool, Option, List}
use Prim.Native.String.{String}

pub record CommandDef : Type 0 where
  pub name : String
  pub description : String
  pub args : String

abbrev pub command : String → String → String → CommandDef
command name description args = record { name = name; description = description; args = args }

pub record CommandPrompt : Type 0 where
  pub active : Bool
  pub input : String
  pub history : List String
  pub history_idx : Option ℕ
  pub suggestions : List ℕ
  pub selected_suggestion : ℕ

-- The keys that the prompt tells apart; the flags say whether Control is held.
pub data PromptKey : Type 0 where
  escape enter tab arrow_up arrow_down home : PromptKey
  backspace : Bool → PromptKey
  other : Bool → Option String → PromptKey

-- `crashes` is a panic; `prompts` has the prompt after the key and the input that is executed.
pub data PromptOutcome : Type 0 where
  crashes : PromptOutcome
  prompts : CommandPrompt → Option String → PromptOutcome
