-- ===== src/Bindings/Keycodes.antt =====
-- The key codes of src/bindings.rs.
use boo.Base.{ℕ, Option, List, [], ◌∷◌}
use Prim.Native.String.{String}
use boo.Base.Strings.{lookup_text}

-- the target that the program is built for
pub data Platform : Type 0 where
  macos linux : Platform

abbrev pub macos_keycodes : List (String × ℕ)
macos_keycodes =
    ("a", 0x00)
    ∷ ("s", 0x01)
    ∷ ("d", 0x02)
    ∷ ("f", 0x03)
    ∷ ("h", 0x04)
    ∷ ("g", 0x05)
    ∷ ("z", 0x06)
    ∷ ("x", 0x07)
    ∷ ("c", 0x08)
    ∷ ("v", 0x09)
    ∷ ("b", 0x0b)
    ∷ ("q", 0x0c)
    ∷ ("w", 0x0d)
    ∷ ("e", 0x0e)
    ∷ ("r", 0x0f)
    ∷ ("y", 0x10)
    ∷ ("t", 0x11)
    ∷ ("u", 0x20)
    ∷ ("i", 0x22)
    ∷ ("o", 0x1f)
    ∷ ("p", 0x23)
    ∷ ("l", 0x25)
    ∷ ("j", 0x26)
    ∷ ("k", 0x28)
    ∷ ("n", 0x2d)
    ∷ ("m", 0x2e)
    ∷ ("1", 0x12)
    ∷ ("2", 0x13)
    ∷ ("3", 0x14)
    ∷ ("4", 0x15)
    ∷ ("5", 0x17)
    ∷ ("6", 0x16)
    ∷ ("7", 0x1a)
    ∷ ("8", 0x1c)
    ∷ ("9", 0x19)
    ∷ ("0", 0x1d)
    ∷ (",", 0x2b)
    ∷ ("comma", 0x2b)
    ∷ (".", 0x2f)
    ∷ ("period", 0x2f)
    ∷ ("/", 0x2c)
    ∷ ("slash", 0x2c)
    ∷ (";", 0x29)
    ∷ ("semicolon", 0x29)
    ∷ ("'", 0x27)
    ∷ ("quote", 0x27)
    ∷ ("-", 0x1b)
    ∷ ("minus", 0x1b)
    ∷ ("=", 0x18)
    ∷ ("equal", 0x18)
    ∷ ("[", 0x21)
    ∷ ("left_bracket", 0x21)
    ∷ ("]", 0x1e)
    ∷ ("right_bracket", 0x1e)
    ∷ ("space", 0x31)
    ∷ ("enter", 0x24)
    ∷ ("tab", 0x30)
    ∷ ("escape", 0x35)
    ∷ []

abbrev pub linux_keycodes : List (String × ℕ)
linux_keycodes =
    ("a", 20)
    ∷ ("b", 21)
    ∷ ("c", 22)
    ∷ ("d", 23)
    ∷ ("e", 24)
    ∷ ("f", 25)
    ∷ ("g", 26)
    ∷ ("h", 27)
    ∷ ("i", 28)
    ∷ ("j", 29)
    ∷ ("k", 30)
    ∷ ("l", 31)
    ∷ ("m", 32)
    ∷ ("n", 33)
    ∷ ("o", 34)
    ∷ ("p", 35)
    ∷ ("q", 36)
    ∷ ("r", 37)
    ∷ ("s", 38)
    ∷ ("t", 39)
    ∷ ("u", 40)
    ∷ ("v", 41)
    ∷ ("w", 42)
    ∷ ("x", 43)
    ∷ ("y", 44)
    ∷ ("z", 45)
    ∷ ("0", 6)
    ∷ ("1", 7)
    ∷ ("2", 8)
    ∷ ("3", 9)
    ∷ ("4", 10)
    ∷ ("5", 11)
    ∷ ("6", 12)
    ∷ ("7", 13)
    ∷ ("8", 14)
    ∷ ("9", 15)
    ∷ (",", 55)
    ∷ ("comma", 55)
    ∷ (".", 56)
    ∷ ("period", 56)
    ∷ ("/", 57)
    ∷ ("slash", 57)
    ∷ (";", 51)
    ∷ ("semicolon", 51)
    ∷ ("'", 52)
    ∷ ("quote", 52)
    ∷ ("-", 16)
    ∷ ("minus", 16)
    ∷ ("=", 17)
    ∷ ("equal", 17)
    ∷ ("[", 46)
    ∷ ("left_bracket", 46)
    ∷ ("]", 47)
    ∷ ("right_bracket", 47)
    ∷ ("space", 63)
    ∷ ("enter", 58)
    ∷ ("tab", 64)
    ∷ ("escape", 120)
    ∷ []

abbrev pub single_char_to_keycode : Platform → String → Option ℕ
single_char_to_keycode macos key = lookup_text key macos_keycodes
single_char_to_keycode linux key = lookup_text key linux_keycodes
