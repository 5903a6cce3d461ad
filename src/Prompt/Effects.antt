-- ===== src/Prompt/Effects.antt =====
-- The commands that `execute_command` of src/runtime_input.rs knows.
use boo.Base.{ℕ, ◌-◌, ◌^◌, Option, none, some, List, [], ◌∷◌, ◌==◌, if◌then◌else◌}
use boo.Base.Int.{ℤ, pos, neg_ℤ}
use boo.Base.Strings.{lookup_text, parse_digits, parse_unsigned}
use Prim.Native.Char.{code}
use Prim.Native.String.{String, ◌++◌ as ◌<>◌, [] as «[]s», ◌∷◌ as ◌∷s◌}
use boo.Layout.{
  TabLayout, manual, even_horizontal, even_vertical, main_horizontal, main_vertical, tiled,
}
use boo.Bindings.{
  Action, SplitDirection, split_right, split_down, split_left, split_up, Direction, to_left,
  to_right, to_up, to_down, tab_index, last_tab, new_split, join_marked_pane, resize_split,
  goto_tab, select_layout, close_surface, break_pane, new_tab, next_tab, prev_tab, close_tab,
  search, enter_copy_mode, copy, paste, choose_buffer, choose_tree, find_window, display_panes,
  mark_pane, clear_marked_pane, rotate_panes_forward, rotate_panes_backward, swap_pane_next,
  swap_pane_previous, next_layout, previous_layout, rebalance_layout, toggle_zoom,
  open_command_prompt, next_pane, previous_pane, reload_config,
}

-- What a command asks the other parts for.
pub data CommandEffect : Type 0 where
  does_nothing lists_layouts : CommandEffect
  dispatches : Action → CommandEffect
  titles_tab ghostty_action loads_layout saves_layout is_unknown : String → CommandEffect
  goes_to_line : ℤ → CommandEffect
  overrides : String → String → CommandEffect

-- `join(" ")`
abbrev pub join_words : List String → String
join_words [] = «[]s»
join_words (word ∷ []) = word
join_words (word ∷ (next ∷ rest)) = word <> (" " <> join_words (next ∷ rest))

-- `parse` into an `i64`
abbrev pub parse_signed : String → Option ℤ
parse_signed «[]s» = none
parse_signed (c ∷s «[]s») = elim (parse_unsigned (2 ^ 63 - 1) (c ∷s «[]s»)) [
  | none ↦ none
  | some n ↦ some (pos n)
]
parse_signed (c ∷s (d ∷s s)) =
    if code c == b'-'
    then elim (parse_digits (2 ^ 63) 0 (d ∷s s)) [ none ↦ none | some n ↦ some (neg_ℤ (pos n)) ]
    else elim (parse_unsigned (2 ^ 63 - 1) (c ∷s (d ∷s s))) [ none ↦ none | some n ↦ some (pos n) ]

abbrev pub parse_tab_layout_name : String → Option TabLayout
parse_tab_layout_name name = lookup_text name (
    ("manual", manual)
    ∷ ("even-horizontal", even_horizontal)
    ∷ ("even-vertical", even_vertical)
    ∷ ("main-horizontal", main_horizontal)
    ∷ ("main-vertical", main_vertical)
    ∷ ("tiled", tiled)
    ∷ [])

abbrev pub parse_split_direction_name : String → Option SplitDirection
parse_split_direction_name name =
    lookup_text name
      (("right", split_right) ∷ ("down", split_down) ∷ ("left", split_left) ∷ ("up", split_up) ∷ [])

-- a command without arguments
abbrev pub act : Action → List String → CommandEffect
act action args = dispatches action

-- `if let Some(x) = arg1.and_then(parse)`
abbrev pub with_arg {ℓ} :
    {A : Type ℓ} → (String → Option A) → (A → CommandEffect) → List String → CommandEffect
with_arg parse effect [] = does_nothing
with_arg parse effect (arg ∷ args) = elim (parse arg) [ none ↦ does_nothing | some x ↦ effect x ]

-- `arg1.and_then(|s| s.parse().ok()).unwrap_or(10)`
abbrev pub resize_by : Direction → List String → CommandEffect
resize_by direction [] = dispatches (resize_split direction 10)
resize_by direction (arg ∷ args) = elim (parse_unsigned (2 ^ 16 - 1) arg) [
  | none ↦ dispatches (resize_split direction 10)
  | some n ↦ dispatches (resize_split direction n)
]

abbrev pub title_from : List String → CommandEffect
title_from [] = does_nothing
title_from (word ∷ rest) = titles_tab (join_words (word ∷ rest))

abbrev pub override_from : List String → CommandEffect
override_from [] = does_nothing
override_from (key ∷ []) = does_nothing
override_from (key ∷ (word ∷ rest)) = overrides key (join_words (word ∷ rest))

abbrev pub tab_command : ℕ → CommandEffect
tab_command n = dispatches (goto_tab (tab_index (n - 1)))

abbrev pub join_command : List String → CommandEffect
join_command =
    with_arg parse_split_direction_name (λ direction. dispatches (join_marked_pane direction))

-- the arms, with what they do with the arguments
abbrev pub effects : List (String × (List String → CommandEffect))
effects =
    ("split-right", act (new_split split_right))
    ∷ ("split-down", act (new_split split_down))
    ∷ ("split-left", act (new_split split_left))
    ∷ ("split-up", act (new_split split_up))
    ∷ ("resize-left", resize_by to_left)
    ∷ ("resize-right", resize_by to_right)
    ∷ ("resize-up", resize_by to_up)
    ∷ ("resize-down", resize_by to_down)
    ∷ ("close-pane", act close_surface)
    ∷ ("break-pane", act break_pane)
    ∷ ("new-tab", act new_tab)
    ∷ ("next-tab", act next_tab)
    ∷ ("prev-tab", act prev_tab)
    ∷ ("close-tab", act close_tab)
    ∷ ("goto-tab", with_arg (parse_unsigned (2 ^ 64 - 1)) tab_command)
    ∷ ("last-tab", act (goto_tab last_tab))
    ∷ ("next-layout", act next_layout)
    ∷ ("prev-layout", act previous_layout)
    ∷ (
      "select-layout",
      with_arg parse_tab_layout_name (λ layout. dispatches (select_layout layout)),
    )
    ∷ ("rebalance-layout", act rebalance_layout)
    ∷ ("next-pane", act next_pane)
    ∷ ("prev-pane", act previous_pane)
    ∷ ("swap-pane-next", act swap_pane_next)
    ∷ ("swap-pane-prev", act swap_pane_previous)
    ∷ ("rotate-panes-forward", act rotate_panes_forward)
    ∷ ("rotate-panes-backward", act rotate_panes_backward)
    ∷ ("copy-mode", act enter_copy_mode)
    ∷ ("copy", act copy)
    ∷ ("choose-buffer", act choose_buffer)
    ∷ ("choose-tree", act choose_tree)
    ∷ ("find-window", act find_window)
    ∷ ("display-panes", act display_panes)
    ∷ ("command-prompt", act open_command_prompt)
    ∷ ("search", act search)
    ∷ ("paste", act paste)
    ∷ ("mark-pane", act mark_pane)
    ∷ ("clear-marked-pane", act clear_marked_pane)
    ∷ ("join-pane", join_command)
    ∷ ("move-pane", join_command)
    ∷ ("set-tab-title", title_from)
    ∷ ("zoom", act toggle_zoom)
    ∷ ("reload-config", act reload_config)
    ∷ ("scroll-page-up", λ args. ghostty_action "scroll_page_up")
    ∷ ("scroll-page-down", λ args. ghostty_action "scroll_page_down")
    ∷ ("scroll-to-top", λ args. ghostty_action "scroll_to_top")
    ∷ ("scroll-to-bottom", λ args. ghostty_action "scroll_to_bottom")
    ∷ ("goto-line", with_arg parse_signed goes_to_line)
    ∷ ("set", override_from)
    ∷ ("load-layout", with_arg some loads_layout)
    ∷ ("save-layout", with_arg some saves_layout)
    ∷ ("list-layouts", λ args. lists_layouts)
    ∷ []
