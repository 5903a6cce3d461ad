-- ===== src/Bindings/Keys.antt =====
-- `handle_key` of src/bindings.rs.
use boo.Base.{
  ℕ, Bool, true, false, ◌&&◌, Option, none, some, List, [], ◌∷◌, ◌==◌, has_bit, if◌then◌else◌,
}
use Prim.Native.Char.{Char, code}
use Prim.Native.String.{String, [] as «[]s», ◌∷◌ as ◌∷s◌}
use text.Mathlib.Text.{◌==◌ as ◌=s=◌}
use boo.Bindings.{
  to_left, to_right, to_up, to_down, Action, CopyModeAction, move, word_next, word_back, word_end,
  big_word_next, big_word_back, big_word_end, line_start, line_end, first_non_blank, screen_top,
  screen_middle, screen_bottom, history_top, history_bottom, page_up, page_down, half_page_up,
  half_page_down, scroll_up, scroll_down, scroll_middle, start_char_select, start_line_select,
  start_rect_select, clear_selection, swap_anchor, jump_forward, jump_backward, jump_to_forward,
  jump_to_backward, jump_again, jump_reverse, next_paragraph, previous_paragraph, matching_bracket,
  set_mark, jump_to_mark, search_forward, search_backward, search_again, search_reverse,
  search_word_forward, search_word_backward, copy_and_exit, copy_to_end_of_line, append_and_cancel,
  open_prompt, refresh_from_pane, toggle_position, exit, KeyResult, consumed, copy_mode_action,
  forward, Mode, normal, prefix_mode, copy_mode, PrefixKey, Bindings, NamedKey, arrow_up,
  arrow_down, arrow_left, arrow_right, page_up_key, page_down_key, home_key, end_key, escape_key,
}

-- `ch.to_string()`
abbrev pub text_of_char : Char → String
text_of_char ch = ch ∷s «[]s»

-- the maps: the last insertion of a key stays
abbrev pub lookup_trigger : String → List (String × Action) → Option Action
lookup_trigger key [] = none
lookup_trigger key ((trigger, action) ∷ rest) =
    let later = lookup_trigger key rest in if trigger =s= key then some action else later

abbrev pub lookup_direct : ℕ → ℕ → List ((ℕ × ℕ) × Action) → Option Action
lookup_direct keycode mods [] = none
lookup_direct keycode mods (((k, m), action) ∷ rest) =
    let later = lookup_direct keycode mods rest in
    if (k == keycode) && (m == mods) then some action else later

-- the arm of a `match` on a character
abbrev pub lookup_char : ℕ → List (ℕ × CopyModeAction) → Option CopyModeAction
lookup_char c [] = none
lookup_char c ((key, action) ∷ rest) =
    let later = lookup_char c rest in if key == c then some action else later

abbrev pub named_action : NamedKey → CopyModeAction
named_action arrow_up = move to_up
named_action arrow_down = move to_down
named_action arrow_left = move to_left
named_action arrow_right = move to_right
named_action page_up_key = page_up
named_action page_down_key = page_down
named_action home_key = history_top
named_action end_key = history_bottom
named_action escape_key = clear_selection

abbrev pub ctrl_keys : List (ℕ × CopyModeAction)
ctrl_keys =
    (b'b', page_up)
    ∷ (0x02, page_up)
    ∷ (b'f', page_down)
    ∷ (0x06, page_down)
    ∷ (b'u', half_page_up)
    ∷ (0x15, half_page_up)
    ∷ (b'd', half_page_down)
    ∷ (0x04, half_page_down)
    ∷ (b'y', scroll_up)
    ∷ (0x19, scroll_up)
    ∷ (b'e', scroll_down)
    ∷ (0x05, scroll_down)
    ∷ (b'v', start_rect_select)
    ∷ (0x16, start_rect_select)
    ∷ []

abbrev pub alt_keys : List (ℕ × CopyModeAction)
alt_keys = (b'x', jump_to_mark) ∷ []

abbrev pub plain_keys : List (ℕ × CopyModeAction)
plain_keys =
    (b'h', move to_left)
    ∷ (0x08, move to_left)
    ∷ (b'j', move to_down)
    ∷ (b'k', move to_up)
    ∷ (b'l', move to_right)
    ∷ (b'w', word_next)
    ∷ (b'b', word_back)
    ∷ (b'e', word_end)
    ∷ (b'W', big_word_next)
    ∷ (b'B', big_word_back)
    ∷ (b'E', big_word_end)
    ∷ (b'0', line_start)
    ∷ (b'$', line_end)
    ∷ (b'^', first_non_blank)
    ∷ (b'H', screen_top)
    ∷ (b'M', screen_middle)
    ∷ (b'L', screen_bottom)
    ∷ (b'g', history_top)
    ∷ (b'G', history_bottom)
    ∷ (b'z', scroll_middle)
    ∷ (b' ', start_char_select)
    ∷ (b'V', start_line_select)
    ∷ (b'v', start_rect_select)
    ∷ (b'o', swap_anchor)
    ∷ (b'f', jump_forward)
    ∷ (b'F', jump_backward)
    ∷ (b't', jump_to_forward)
    ∷ (b'T', jump_to_backward)
    ∷ (b';', jump_again)
    ∷ (b',', jump_reverse)
    ∷ (b'{', previous_paragraph)
    ∷ (b'}', next_paragraph)
    ∷ (b'%', matching_bracket)
    ∷ (b'X', set_mark)
    ∷ (b'/', search_forward)
    ∷ (b'?', search_backward)
    ∷ (b'n', search_again)
    ∷ (b'N', search_reverse)
    ∷ (b'*', search_word_forward)
    ∷ (b'#', search_word_backward)
    ∷ (0x0d, copy_and_exit)
    ∷ (b'y', copy_and_exit)
    ∷ (b'D', copy_to_end_of_line)
    ∷ (b'A', append_and_cancel)
    ∷ (b':', open_prompt)
    ∷ (b'r', refresh_from_pane)
    ∷ (b'P', toggle_position)
    ∷ (b'q', exit)
    ∷ []

-- the arms that set the mode to normal
abbrev pub leaves_copy_mode : CopyModeAction → Bool
leaves_copy_mode copy_and_exit = true
leaves_copy_mode copy_to_end_of_line = true
leaves_copy_mode append_and_cancel = true
leaves_copy_mode exit = true
leaves_copy_mode _ = false

-- what follows the tiers before it, for the keys of a table
abbrev pub tier :
    Bool → List (ℕ × CopyModeAction) → Option Char → KeyResult × Mode → KeyResult × Mode
tier applies keys key_char later = elim key_char [
  | none ↦ later
  | some ch ↦
      if applies
      then elim (lookup_char (code ch) keys) [
        | none ↦ later
        | some action ↦ (copy_mode_action action, copy_mode)
      ]
      else later
]

-- The tier of the plain characters, which alone may leave the copy mode.
abbrev pub plain_tier : Option Char → KeyResult × Mode
plain_tier key_char = elim key_char [
  | none ↦ (consumed none, copy_mode)
  | some ch ↦ elim (lookup_char (code ch) plain_keys) [
    | none ↦ (consumed none, copy_mode)
    | some action ↦ (copy_mode_action action, if leaves_copy_mode action then normal else copy_mode)
  ]
]

-- `GHOSTTY_MODS_CTRL` is 2 and `GHOSTTY_MODS_ALT` is 4.
unfoldable pub handle_copy_mode_key : Option Char → Option NamedKey → ℕ → KeyResult × Mode
handle_copy_mode_key key_char named_key mods = elim named_key [
  | some named ↦ (copy_mode_action (named_action named), copy_mode)
  | none ↦
      tier (has_bit mods 2) ctrl_keys key_char
        (tier (has_bit mods 4) alt_keys key_char (plain_tier key_char))
]

-- `(mods & mask) == mask` for masks of the four modifiers
abbrev pub bit_allowed : ℕ → ℕ → ℕ → Bool
bit_allowed mods mask bit = if has_bit mask bit then has_bit mods bit else true

abbrev pub has_mods : ℕ → ℕ → Bool
has_mods mods mask =
    bit_allowed mods mask 1
    && (bit_allowed mods mask 2 && (bit_allowed mods mask 4 && bit_allowed mods mask 8))

abbrev pub is_prefix : Option PrefixKey → ℕ → ℕ → Bool
is_prefix none keycode mods = false
is_prefix (some prefix) keycode mods = (keycode == prefix.keycode) && has_mods mods prefix.mods_mask

abbrev pub normal_key : Bindings → ℕ → ℕ → KeyResult × Mode
normal_key b keycode mods = elim (lookup_direct keycode mods b.direct) [
  | some action ↦ (consumed (some action), normal)
  | none ↦
      if is_prefix b.prefix keycode mods then (consumed none, prefix_mode) else (forward, normal)
]

abbrev pub prefix_key : Bindings → Option Char → KeyResult × Mode
prefix_key b key_char = elim key_char [
  | none ↦ (forward, normal)
  | some ch ↦ elim (lookup_trigger (text_of_char ch) b.table) [
    | some action ↦ (consumed (some action), normal)
    | none ↦ (forward, normal)
  ]
]

-- the result of a key, with the mode after it
unfoldable pub key_step : Bindings → Option Char → ℕ → ℕ → Option NamedKey → KeyResult × Mode
unfolding handle_copy_mode_key
key_step b key_char keycode mods named_key = elim b.mode [
  | normal ↦ normal_key b keycode mods
  | prefix_mode ↦ prefix_key b key_char
  | copy_mode ↦ handle_copy_mode_key key_char named_key mods
]

unfoldable pub handle_key : Bindings → Option Char → ℕ → ℕ → Option NamedKey → Bindings × KeyResult
unfolding key_step
handle_key b key_char keycode mods named_key =
    let result = key_step b key_char keycode mods named_key in
    (record b { mode = result.1 }, result.0)
