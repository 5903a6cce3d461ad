-- ===== src/Bindings/Config.antt =====
-- `Bindings::from_config` of src/bindings.rs.
use boo.Base.{Bool, ◌&&◌, Option, none, some, List, [], ◌∷◌, ◌==◌, if◌then◌else◌}
use Prim.Native.String.{String}
use boo.Bindings.{Action, Bindings, PrefixKey, normal}
use boo.Bindings.Keycodes.{Platform}
use boo.Base.Strings.{split_once, trim, has_char}
use boo.Bindings.Actions.{parse_action}
use boo.Bindings.Parsing.{parse_prefix_key, parse_prefix_trigger}

abbrev pub same_prefix : PrefixKey → PrefixKey → Bool
same_prefix a b = (a.keycode == b.keycode) && (a.mods_mask == b.mods_mask)

-- An insertion comes in front, where it hides an older one of the same key.
abbrev pub add_trigger : Bindings → Action → Option String → Bindings
add_trigger b action none = b
add_trigger b action (some trigger) = record b { table = (trigger, action) ∷ b.table }

abbrev pub add_direct : Bindings → Action → Option PrefixKey → Bindings
add_direct b action none = b
add_direct b action (some parsed) = record b {
  direct = ((parsed.keycode, parsed.mods_mask), action) ∷ b.direct;
}

-- a binding that names its prefix
abbrev pub add_prefixed : Bindings → Action → Option PrefixKey → Option String → Bindings
add_prefixed b action none trigger = b
add_prefixed b action (some parsed) trigger = elim b.prefix [
  | none ↦ add_trigger (record b { prefix = some parsed }) action trigger
  | some existing ↦ if same_prefix existing parsed then add_trigger b action trigger else b
]

abbrev pub add_action : Platform → Bindings → String → Action → Bindings
add_action platform b key action = elim (split_once b'>' key) [
  | some (prefix_spec, trigger_spec) ↦
      add_prefixed b action (parse_prefix_key platform (trim prefix_spec))
        (parse_prefix_trigger (trim trigger_spec))
  | none ↦
      if has_char b'+' key
      then add_direct b action (parse_prefix_key platform key)
      else add_trigger b action (parse_prefix_trigger key)
]

-- one round of the loop; the warnings are left out
unfoldable pub add_keybind : Platform → Bindings → String × String → Bindings
add_keybind platform b (key, action_str) = elim (parse_action action_str) [
  | none ↦ b
  | some action ↦ add_action platform b key action
]

abbrev pub add_keybinds : Platform → Bindings → List (String × String) → Bindings
add_keybinds platform b [] = b
add_keybinds platform b (keybind ∷ keybinds) =
    add_keybinds platform (add_keybind platform b keybind) keybinds

abbrev pub prefix_of : Platform → Option String → Option PrefixKey
prefix_of platform none = none
prefix_of platform (some spec) = parse_prefix_key platform spec

-- The key bindings are in the order in which the hash map of the configuration yields them.
unfoldable pub from_config : Platform → Option String → List (String × String) → Bindings
unfolding add_keybind
from_config platform prefix_key keybinds =
    add_keybinds platform
      (record { prefix = prefix_of platform prefix_key; table = []; direct = []; mode = normal })
      keybinds
