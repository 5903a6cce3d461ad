-- ===== src/Bindings.antt =====
-- src/bindings.rs: what keys do, with a prefix key and a copy mode in the way of tmux.
pub mod Keys
pub mod Keycodes
pub mod Actions
pub mod Parsing
pub mod Config
pub mod Modes
pub mod Modifiers
pub mod Spelling
pub mod Bound
use boo.Base.{ℕ, Bool, true, false, Option, none, some, List}
use boo.Layout.{TabLayout}
use boo.Splits.Focus.{PaneFocusDirection}
use Prim.Native.String.{String}

pub data SplitDirection : Type 0 where
  split_right split_down split_left split_up : SplitDirection

pub data Direction : Type 0 where
  to_left to_right to_up to_down : Direction

pub data TabTarget : Type 0 where
  tab_index : ℕ → TabTarget
  last_tab : TabTarget

pub data Action : Type 0 where
  new_split join_marked_pane : SplitDirection → Action
  goto_split : PaneFocusDirection → Action
  resize_split : Direction → ℕ → Action
  goto_tab : TabTarget → Action
  select_layout : TabLayout → Action
  close_surface break_pane new_tab next_tab prev_tab close_tab search enter_copy_mode copy : Action
  paste choose_buffer choose_tree find_window set_tab_title display_panes mark_pane : Action
  clear_marked_pane rotate_panes_forward rotate_panes_backward swap_pane_next : Action
  swap_pane_previous next_layout previous_layout rebalance_layout toggle_zoom : Action
  open_command_prompt next_pane previous_pane previous_tab reload_config : Action

pub data CopyModeAction : Type 0 where
  move : Direction → CopyModeAction
  word_next word_back word_end big_word_next big_word_back big_word_end : CopyModeAction
  line_start line_end first_non_blank screen_top screen_middle screen_bottom : CopyModeAction
  history_top history_bottom page_up page_down half_page_up half_page_down : CopyModeAction
  scroll_up scroll_down scroll_middle start_char_select start_line_select : CopyModeAction
  start_rect_select clear_selection swap_anchor jump_forward jump_backward : CopyModeAction
  jump_to_forward jump_to_backward jump_again jump_reverse next_paragraph : CopyModeAction
  previous_paragraph matching_bracket set_mark jump_to_mark search_forward : CopyModeAction
  search_backward search_again search_reverse search_word_forward : CopyModeAction
  search_word_backward copy_and_exit copy_to_end_of_line append_and_cancel : CopyModeAction
  open_prompt refresh_from_pane toggle_position exit : CopyModeAction

pub data KeyResult : Type 0 where
  consumed : Option Action → KeyResult
  copy_mode_action : CopyModeAction → KeyResult
  forward : KeyResult

pub data Mode : Type 0 where
  normal prefix_mode copy_mode : Mode

-- The modifiers are the bits of an `i32` that is not negative.
pub record PrefixKey : Type 0 where
  pub keycode : ℕ
  pub mods_mask : ℕ

-- The two hash maps are association lists.
pub record Bindings : Type 0 where
  pub prefix : Option PrefixKey
  pub table : List (String × Action)
  pub direct : List ((ℕ × ℕ) × Action)
  pub mode : Mode

pub data NamedKey : Type 0 where
  arrow_up arrow_down arrow_left arrow_right page_up_key page_down_key home_key end_key : NamedKey
  escape_key : NamedKey

unfoldable pub is_prefix_mode : Bindings → Bool
is_prefix_mode b = elim b.mode [ prefix_mode ↦ true | _ ↦ false ]

unfoldable pub is_copy_mode : Bindings → Bool
is_copy_mode b = elim b.mode [ copy_mode ↦ true | _ ↦ false ]

abbrev pub enter_copy_mode_of : Bindings → Bindings
enter_copy_mode_of b = record b { mode = copy_mode }

abbrev pub exit_copy_mode_of : Bindings → Bindings
exit_copy_mode_of b = record b { mode = normal }
