-- ===== src/Bindings/Bound.antt =====
-- What a key binding of the configuration does once `from_config` of src/bindings.rs has read it.
use boo.Base.{ℕ, ◌≡◌, refl, true, false, Option, none, some}
use Prim.Native.Char.{Char}
use Prim.Native.String.{String}
use text.Mathlib.TextPositions.{eq_refl}
use boo.Bindings.{Action, Bindings, consumed, normal, prefix_mode, NamedKey}
use boo.Bindings.Keys.{
  lookup_direct, lookup_trigger, text_of_char, is_prefix, normal_key, prefix_key, key_step,
  handle_key,
}
use boo.Bindings.Keycodes.{Platform}
use boo.Base.Strings.{split_once}
use boo.Bindings.Actions.{parse_action}
use boo.Bindings.Parsing.{parse_prefix_trigger}
use boo.Bindings.Config.{add_trigger, add_action, add_keybind}
use boo.Base.Strings.{has_char}

add_keybind-trigger :
    (platform : Platform) (b : Bindings) (key action_str trigger : String) (action : Action)
    → parse_action action_str ≡ some action
    → split_once b'>' key ≡ none
    → has_char b'+' key ≡ false
    → parse_prefix_trigger key ≡ some trigger
    → add_keybind platform b (key, action_str) ≡ add_trigger b action (some trigger)
unfolding add_keybind
add_keybind-trigger platform b key action_str trigger action e₁ e₂ e₃ e₄ =
    rw (e₁, add_keybind) (rw (e₂, add_action) (rw e₃ (rw e₄ refl)))

-- The prefix key is pressed, and then a key with a character: what both do.
abbrev pub TwoKeys : Bindings → ℕ → ℕ → Char → Action → Type 0
TwoKeys b keycode mods ch action =
    (first_char : Option Char) (first_named second_named : Option NamedKey)
    (second_keycode second_mods : ℕ)
    → let first = handle_key b first_char keycode mods first_named in
      let second = handle_key first.0 (some ch) second_keycode second_mods second_named in
      (first.1 ≡ consumed none)
      × ((first.0.mode ≡ prefix_mode)
          × ((second.1 ≡ consumed (some action)) × (second.0.mode ≡ normal)))

normal_key-prefix :
    (b : Bindings) (keycode mods : ℕ)
    → lookup_direct keycode mods b.direct ≡ none
    → is_prefix b.prefix keycode mods ≡ true
    → normal_key b keycode mods ≡ (consumed none, prefix_mode)
normal_key-prefix b keycode mods free pressed = rw (free, normal_key) (rw pressed refl)

prefix_key-trigger :
    (b : Bindings) (ch : Char) (action : Action)
    → lookup_trigger (text_of_char ch) b.table ≡ some action
    → prefix_key b (some ch) ≡ (consumed (some action), normal)
prefix_key-trigger b ch action found = rw (found, prefix_key) refl

key_step-prefix :
    (b : Bindings) (key_char : Option Char) (keycode mods : ℕ) (named_key : Option NamedKey)
    → b.mode ≡ normal
    → lookup_direct keycode mods b.direct ≡ none
    → is_prefix b.prefix keycode mods ≡ true
    → key_step b key_char keycode mods named_key ≡ (consumed none, prefix_mode)
unfolding key_step
key_step-prefix b key_char keycode mods named_key at_rest free pressed =
    rw at_rest (normal_key-prefix b keycode mods free pressed)

key_step-trigger :
    (b : Bindings) (ch : Char) (action : Action) (keycode mods : ℕ) (named_key : Option NamedKey)
    → b.mode ≡ prefix_mode
    → lookup_trigger (text_of_char ch) b.table ≡ some action
    → key_step b (some ch) keycode mods named_key ≡ (consumed (some action), normal)
unfolding key_step
key_step-trigger b ch action keycode mods named_key waiting found =
    rw waiting (prefix_key-trigger b ch action found)

two_keys :
    (b : Bindings) (keycode mods : ℕ) (ch : Char) (action : Action)
    → b.mode ≡ normal
    → lookup_direct keycode mods b.direct ≡ none
    → is_prefix b.prefix keycode mods ≡ true
    → lookup_trigger (text_of_char ch) b.table ≡ some action
    → TwoKeys b keycode mods ch action
unfolding handle_key
two_keys b keycode mods ch action at_rest free pressed found =
    λ first_char first_named second_named second_keycode second_mods.
      let first_step = key_step-prefix b first_char keycode mods first_named at_rest free pressed in
      let second_step =
        key_step-trigger (record b { mode = prefix_mode }) ch action second_keycode second_mods
          second_named refl found in
      rw (first_step, handle_key) (refl, (refl, rw (second_step, handle_key) (refl, refl)))

-- Of a key binding that is read last, whose text has neither `>` nor `+` and stands for one
-- character, and whose action is known: in the normal mode, when the prefix key is pressed, with
-- its modifiers held and without a direct binding of its own, nothing is passed on, the mode is the
-- prefix mode, and a key with the character after it runs the action and leaves the mode normal.
pub add_keybind-Runs :
    (platform : Platform) (b : Bindings) (key action_str : String) (ch : Char) (action : Action)
    (keycode mods : ℕ)
    → parse_action action_str ≡ some action
    → split_once b'>' key ≡ none
    → has_char b'+' key ≡ false
    → parse_prefix_trigger key ≡ some (text_of_char ch)
    → b.mode ≡ normal
    → lookup_direct keycode mods b.direct ≡ none
    → is_prefix b.prefix keycode mods ≡ true
    → TwoKeys (add_keybind platform b (key, action_str)) keycode mods ch action
add_keybind-Runs platform b key action_str ch action keycode mods e₁ e₂ e₃ e₄ rest free pressed =
    let added =
      add_keybind-trigger platform b key action_str (text_of_char ch) action e₁ e₂ e₃ e₄ in
    rw added (
      two_keys (add_trigger b action (some (text_of_char ch))) keycode mods ch action rest free
        pressed (rw (eq_refl (text_of_char ch)) refl))
