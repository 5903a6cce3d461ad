-- ===== src/Bindings/Modes.antt =====
-- The modes of src/bindings.rs as a state machine.
use boo.Base.{
  ℕ, ◌≡◌, refl, inl, inr, Bool, true, false, Option, none, some, List, [], ◌∷◌, ◌==◌, has_bit, ◌&&◌,
  Bool-cases, Option-cases, not, some_injective, not-true, &&-left, &&-right,
}
use Prim.Native.Char.{Char, code}
use boo.Bindings.{
  Action, CopyModeAction, KeyResult, consumed, copy_mode_action, forward, Mode, normal, prefix_mode,
  copy_mode, Bindings, NamedKey, arrow_up, arrow_down, arrow_left, arrow_right, page_up_key,
  page_down_key, home_key, end_key, escape_key,
}
use boo.Bindings.Keys.{
  lookup_char, lookup_direct, lookup_trigger, text_of_char, named_action, ctrl_keys, alt_keys,
  plain_keys, leaves_copy_mode, tier, plain_tier, handle_copy_mode_key, is_prefix, normal_key,
  prefix_key, key_step, handle_key,
}

-- What a key may do: the mode before it, its result, and the mode after it.
pub data Moves : Mode → KeyResult → Mode → Type 0 where
  forwarded : Moves normal forward normal
  direct : (action : Action) → Moves normal (consumed (some action)) normal
  prefix_pressed : Moves normal (consumed none) prefix_mode
  prefix_bound : (action : Action) → Moves prefix_mode (consumed (some action)) normal
  prefix_missed : Moves prefix_mode forward normal
  copy_ignored : Moves copy_mode (consumed none) copy_mode
  copy_stays :
      (action : CopyModeAction)
      → leaves_copy_mode action ≡ false
      → Moves copy_mode (copy_mode_action action) copy_mode
  copy_leaves :
      (action : CopyModeAction)
      → leaves_copy_mode action ≡ true
      → Moves copy_mode (copy_mode_action action) normal

normal_key-Moves :
    (b : Bindings) (keycode mods : ℕ)
    → Moves normal (normal_key b keycode mods).0 (normal_key b keycode mods).1
normal_key-Moves b keycode mods = elim (Option-cases (lookup_direct keycode mods b.direct)) [
  | inr (action, e) ↦ rw (e, normal_key) (direct action)
  | inl e ↦ elim (Bool-cases (is_prefix b.prefix keycode mods)) [
    | inl pressed ↦ rw (e, normal_key) (rw pressed prefix_pressed)
    | inr other ↦ rw (e, normal_key) (rw other forwarded)
  ]
]

prefix_key-Moves :
    (b : Bindings) (key_char : Option Char)
    → Moves prefix_mode (prefix_key b key_char).0 (prefix_key b key_char).1
prefix_key-Moves b none = prefix_missed
prefix_key-Moves b (some ch) = elim (Option-cases (lookup_trigger (text_of_char ch) b.table)) [
  | inr (action, e) ↦ rw (e, prefix_key) (prefix_bound action)
  | inl e ↦ rw (e, prefix_key) prefix_missed
]

-- A pair of a result and a mode that the copy mode may have after a key.
abbrev CopyMoves : KeyResult × Mode → Type 0
CopyMoves r = Moves copy_mode r.0 r.1

plain_tier-Moves : (key_char : Option Char) → CopyMoves (plain_tier key_char)
plain_tier-Moves none = copy_ignored
plain_tier-Moves (some ch) = elim (Option-cases (lookup_char (code ch) plain_keys)) [
  | inl e ↦ rw (e, plain_tier) copy_ignored
  | inr (action, e) ↦ elim (Bool-cases (leaves_copy_mode action)) [
    | inl leaves ↦ rw (e, plain_tier) (rw leaves (copy_leaves action leaves))
    | inr stays ↦ rw (e, plain_tier) (rw stays (copy_stays action stays))
  ]
]

-- Whether no action of a table leaves the copy mode.
abbrev all_stay : List (ℕ × CopyModeAction) → Bool
all_stay [] = true
all_stay ((key, action) ∷ rest) = not (leaves_copy_mode action) && all_stay rest

lookup_char-stays :
    (keys : List (ℕ × CopyModeAction)) (c : ℕ) (action : CopyModeAction)
    → all_stay keys ≡ true
    → lookup_char c keys ≡ some action
    → leaves_copy_mode action ≡ false
lookup_char-stays [] c action stay found = cc
lookup_char-stays ((key, a) ∷ rest) c action stay found = elim (Bool-cases (key == c)) [
  | inl same ↦
      let first : some a ≡ some action = rw (same, lookup_char) at found in
      let same_action : a ≡ action = some_injective first in
      rw same_action at (not-true (leaves_copy_mode a) (&&-left _ _ stay))
  | inr other ↦
      let later : lookup_char c rest ≡ some action = rw (other, lookup_char) at found in
      lookup_char-stays rest c action (&&-right _ _ stay) later
]

tier-Moves :
    (applies : Bool) (keys : List (ℕ × CopyModeAction)) (key_char : Option Char)
    (later : KeyResult × Mode)
    → all_stay keys ≡ true
    → CopyMoves later
    → CopyMoves (tier applies keys key_char later)
tier-Moves applies keys none later stay moves = moves
tier-Moves false keys (some ch) later stay moves = moves
tier-Moves true keys (some ch) later stay moves = elim (Option-cases (lookup_char (code ch) keys)) [
  | inl e ↦ rw (e, tier) moves
  | inr (action, e) ↦
      rw (e, tier) (copy_stays action (lookup_char-stays keys (code ch) action stay e))
]

named_action-stays : (named : NamedKey) → leaves_copy_mode (named_action named) ≡ false
named_action-stays arrow_up = refl
named_action-stays arrow_down = refl
named_action-stays arrow_left = refl
named_action-stays arrow_right = refl
named_action-stays page_up_key = refl
named_action-stays page_down_key = refl
named_action-stays home_key = refl
named_action-stays end_key = refl
named_action-stays escape_key = refl

handle_copy_mode_key-Moves :
    (key_char : Option Char) (named_key : Option NamedKey) (mods : ℕ)
    → CopyMoves (handle_copy_mode_key key_char named_key mods)
unfolding handle_copy_mode_key
handle_copy_mode_key-Moves key_char (some named) mods =
    copy_stays (named_action named) (named_action-stays named)
handle_copy_mode_key-Moves key_char none mods =
    tier-Moves (has_bit mods 2) ctrl_keys key_char _ refl
      (tier-Moves (has_bit mods 4) alt_keys key_char _ refl (plain_tier-Moves key_char))

key_step-Moves :
    (b : Bindings) (mode : Mode) (key_char : Option Char) (keycode mods : ℕ)
    (named_key : Option NamedKey)
    → b.mode ≡ mode
    → let result = key_step b key_char keycode mods named_key in Moves mode result.0 result.1
unfolding key_step
key_step-Moves b normal key_char keycode mods named_key e = rw e (normal_key-Moves b keycode mods)
key_step-Moves b prefix_mode key_char keycode mods named_key e = rw e (prefix_key-Moves b key_char)
key_step-Moves b copy_mode key_char keycode mods named_key e =
    rw e (handle_copy_mode_key-Moves key_char named_key mods)

-- Whatever key is pressed, the mode before it, its result and the mode after it are an edge of the
-- relation `Moves`: the prefix mode is left after one key, with an action or with the key passed
-- on, the copy mode passes no key on and is left only by the four actions that leave it, and no key
-- enters it.
pub handle_key-Moves :
    (b : Bindings) (key_char : Option Char) (keycode mods : ℕ) (named_key : Option NamedKey)
    → let pressed = handle_key b key_char keycode mods named_key in
      Moves b.mode pressed.1 pressed.0.mode
unfolding handle_key
handle_key-Moves b key_char keycode mods named_key =
    key_step-Moves b b.mode key_char keycode mods named_key refl
