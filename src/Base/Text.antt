-- ===== src/Base/Text.antt =====
-- Texts as lists of bytes, and which bytes are a text: `std::str::from_utf8`.
use Prim.Native.Nat.{ℕ, zero, suc}
use mathlib.Core.Bool.{Bool, ◌&&◌}
use mathlib.Core.List.{List, [], ◌∷◌}
use boo.Base.Tests.{ltb, leb, ◌==◌, if◌then◌else◌}

-- how many bytes of a character are still to come, and the bounds of the next one
pub record Awaited : Type 0 where
  pub count : ℕ
  pub low : ℕ
  pub high : ℕ

abbrev pub in_range : ℕ → ℕ → ℕ → Bool
in_range low high b = leb low b && leb b high

-- what the first byte of a character asks for; three where no character starts with the byte
abbrev pub first_byte : ℕ → Awaited
first_byte b =
    if ltb b 0x80
    then record { count = 0; low = 0x80; high = 0xbf }
    else if in_range 0xc2 0xdf b
    then record { count = 1; low = 0x80; high = 0xbf }
    else if b == 0xe0
    then record { count = 2; low = 0xa0; high = 0xbf }
    else if b == 0xed
    then record { count = 2; low = 0x80; high = 0x9f }
    else if in_range 0xe1 0xef b
    then record { count = 2; low = 0x80; high = 0xbf }
    else if b == 0xf0
    then record { count = 3; low = 0x90; high = 0xbf }
    else if in_range 0xf1 0xf3 b
    then record { count = 3; low = 0x80; high = 0xbf }
    else if b == 0xf4
    then record { count = 3; low = 0x80; high = 0x8f }
    else record { count = 3; low = 1; high = 0 }

abbrev pub is_utf8_from : Awaited → List ℕ → Bool
is_utf8_from w [] = w.count == 0
is_utf8_from w (b ∷ bytes) = elim w.count [
  | zero ↦ is_utf8_from (first_byte b) bytes
  | suc count ↦
      in_range w.low w.high b
      && is_utf8_from (record { count = count; low = 0x80; high = 0xbf }) bytes
]

unfoldable pub is_utf8 : List ℕ → Bool
is_utf8 bytes = is_utf8_from (record { count = 0; low = 0x80; high = 0xbf }) bytes
