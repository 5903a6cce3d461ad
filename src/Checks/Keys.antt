-- ===== src/Checks/Keys.antt =====
-- The key bindings at concrete keys.
use boo.Base.{◌≡◌, refl, none, some, [], ◌∷◌}
use boo.Bindings.{new_tab, Bindings, normal, copy_mode}
use boo.Bindings.Keys.{text_of_char, handle_key}
use boo.Bindings.Parsing.{parse_prefix_key, parse_prefix_trigger}
use boo.Bindings.Actions.{parse_action}
use boo.Bindings.Config.{add_keybind, from_config}
use boo.Bindings.Modes.{Moves, handle_key-Moves}
use boo.Bindings.Bound.{TwoKeys, add_keybind-Runs}
use boo.Bindings.Keycodes.{linux, single_char_to_keycode}
use boo.Bindings.Spelling.{ctrl, alt, write_key, mask_of, held_of, parse_prefix_key-write_key}

-- the prefix `ctrl+s`, and no key bindings
abbrev with_prefix : Bindings
with_prefix = record {
  prefix = some (record { keycode = 38; mods_mask = 2 });
  table = [];
  direct = [];
  mode = normal;
}

prefix_read : from_config linux (some "ctrl+s") [] ≡ with_prefix
unfolding from_config parse_prefix_key
prefix_read = refl

direct_read :
    (from_config linux none (("alt+shift+t", "new_tab") ∷ [])).direct ≡ ((39, 5), new_tab) ∷ []
unfolding from_config parse_action parse_prefix_key
direct_read = refl

prefixed_read :
    (from_config linux none (("ctrl+s > c", "new_tab") ∷ [])).table ≡ ("c", new_tab) ∷ []
unfolding from_config parse_action parse_prefix_key parse_prefix_trigger
prefixed_read = refl

new_tab_read : parse_action "new_tab" ≡ some new_tab
unfolding parse_action
new_tab_read = refl

c_read : parse_prefix_trigger "c" ≡ some (text_of_char ("c"))
unfolding parse_prefix_trigger
c_read = refl

handle_key-Moves_example :
    Moves copy_mode
      (handle_key (record with_prefix { mode = copy_mode }) none 0 0 none).1
      (handle_key (record with_prefix { mode = copy_mode }) none 0 0 none).0.mode
handle_key-Moves_example = handle_key-Moves (record with_prefix { mode = copy_mode }) none 0 0 none

key_known : single_char_to_keycode linux "x" ≡ some 43
key_known = refl

parse_prefix_key-write_key_example :
    parse_prefix_key linux (write_key (ctrl ∷ alt ∷ []) "x")
    ≡ some (record { keycode = 43; mods_mask = mask_of (held_of (ctrl ∷ alt ∷ [])) })
parse_prefix_key-write_key_example =
    parse_prefix_key-write_key linux (ctrl ∷ alt ∷ []) "x" 43 key_known

add_keybind-Runs_example : TwoKeys (add_keybind linux with_prefix ("c", "new_tab")) 38 2 "c" new_tab
add_keybind-Runs_example =
    add_keybind-Runs linux with_prefix "c" "new_tab" "c" new_tab 38 2 new_tab_read refl refl c_read
      refl refl refl
