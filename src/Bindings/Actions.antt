-- ===== src/Bindings/Actions.antt =====
-- `parse_action` of src/bindings.rs.
use boo.Base.{◌-◌, ◌^◌, Option, none, some, List, [], ◌∷◌}
use Prim.Native.String.{String}
use boo.Layout.{manual, even_horizontal, even_vertical, main_horizontal, main_vertical, tiled}
use boo.Splits.Focus.{PaneFocusDirection}
use boo.Bindings.{
  split_right, split_down, split_left, split_up, Direction, to_left, to_right, to_up, to_down,
  tab_index, last_tab, Action, new_split, join_marked_pane, goto_split, resize_split, goto_tab,
  select_layout, close_surface, break_pane, new_tab, next_tab, prev_tab, close_tab, search,
  enter_copy_mode, copy, paste, choose_buffer, choose_tree, find_window, set_tab_title,
  display_panes, mark_pane, clear_marked_pane, rotate_panes_forward, rotate_panes_backward,
  swap_pane_next, swap_pane_previous, next_layout, previous_layout, rebalance_layout, toggle_zoom,
  open_command_prompt, next_pane, previous_pane, previous_tab, reload_config,
}
use boo.Base.Strings.{lookup_text, strip_prefix, split_once, parse_unsigned}

abbrev pub named_actions : List (String × Action)
named_actions =
    ("reload_config", reload_config)
    ∷ ("close_surface", close_surface)
    ∷ ("break_pane", break_pane)
    ∷ ("new_tab", new_tab)
    ∷ ("next_tab", next_tab)
    ∷ ("prev_tab", prev_tab)
    ∷ ("close_tab", close_tab)
    ∷ ("search", search)
    ∷ ("enter_copy_mode", enter_copy_mode)
    ∷ ("copy", copy)
    ∷ ("paste", paste)
    ∷ ("choose_buffer", choose_buffer)
    ∷ ("choose_tree", choose_tree)
    ∷ ("find_window", find_window)
    ∷ ("set_tab_title", set_tab_title)
    ∷ ("display_panes", display_panes)
    ∷ ("mark_pane", mark_pane)
    ∷ ("clear_marked_pane", clear_marked_pane)
    ∷ ("join_marked_pane:right", join_marked_pane split_right)
    ∷ ("move_marked_pane:right", join_marked_pane split_right)
    ∷ ("join_marked_pane:down", join_marked_pane split_down)
    ∷ ("move_marked_pane:down", join_marked_pane split_down)
    ∷ ("join_marked_pane:left", join_marked_pane split_left)
    ∷ ("move_marked_pane:left", join_marked_pane split_left)
    ∷ ("join_marked_pane:up", join_marked_pane split_up)
    ∷ ("move_marked_pane:up", join_marked_pane split_up)
    ∷ ("rotate_panes_forward", rotate_panes_forward)
    ∷ ("rotate_panes_backward", rotate_panes_backward)
    ∷ ("swap_pane_next", swap_pane_next)
    ∷ ("swap_pane_previous", swap_pane_previous)
    ∷ ("next_layout", next_layout)
    ∷ ("previous_layout", previous_layout)
    ∷ ("rebalance_layout", rebalance_layout)
    ∷ ("select_layout:manual", select_layout manual)
    ∷ ("select_layout:even-horizontal", select_layout even_horizontal)
    ∷ ("select_layout:even-vertical", select_layout even_vertical)
    ∷ ("select_layout:main-horizontal", select_layout main_horizontal)
    ∷ ("select_layout:main-vertical", select_layout main_vertical)
    ∷ ("select_layout:tiled", select_layout tiled)
    ∷ ("toggle_zoom", toggle_zoom)
    ∷ ("command_prompt", open_command_prompt)
    ∷ ("next_pane", next_pane)
    ∷ ("previous_pane", previous_pane)
    ∷ ("previous_tab", previous_tab)
    ∷ ("goto_split:left", goto_split PaneFocusDirection.left)
    ∷ ("goto_split:right", goto_split PaneFocusDirection.right)
    ∷ ("goto_split:top", goto_split PaneFocusDirection.up)
    ∷ ("goto_split:bottom", goto_split PaneFocusDirection.down)
    ∷ ("new_split:right", new_split split_right)
    ∷ ("new_split:down", new_split split_down)
    ∷ ("new_split:left", new_split split_left)
    ∷ ("new_split:up", new_split split_up)
    ∷ ("goto_tab:last", goto_tab last_tab)
    ∷ []

abbrev pub directions : List (String × Direction)
directions = ("left", to_left) ∷ ("right", to_right) ∷ ("up", to_up) ∷ ("down", to_down) ∷ []

abbrev pub parse_goto_tab : String → Option Action
parse_goto_tab s = elim (parse_unsigned (2 ^ 64 - 1) s) [
  | none ↦ none
  | some n ↦ some (goto_tab (tab_index (n - 1)))
]

abbrev pub parse_resize_split : String → Option Action
parse_resize_split s = elim (split_once b',' s) [
  | none ↦ none
  | some (direction, amount) ↦ elim (parse_unsigned (2 ^ 16 - 1) amount) [
    | none ↦ none
    | some n ↦ elim (lookup_text direction directions) [
      | none ↦ none
      | some dir ↦ some (resize_split dir n)
    ]
  ]
]

unfoldable pub parse_action : String → Option Action
parse_action s = elim (lookup_text s named_actions) [
  | some action ↦ some action
  | none ↦ elim (strip_prefix "goto_tab:" s) [
    | some rest ↦ parse_goto_tab rest
    | none ↦ elim (strip_prefix "resize_split:" s) [
      | some rest ↦ parse_resize_split rest
      | none ↦ none
    ]
  ]
]
