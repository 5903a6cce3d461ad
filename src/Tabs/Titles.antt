-- ===== src/Tabs/Titles.antt =====
-- The titles, ids and running commands of the tabs in src/tabs.rs.
use boo.Base.Strings.{is_empty}
use Prim.Native.String.{String, compare, ◌++◌ as ◌<>◌}
use text.Mathlib.Text.{is_eq}
use boo.Base.{
  ℕ, suc, ◌+◌, ◌%◌, ◌≤◌, ◌≡◌, refl, sym, ap, ◌∙◌, ◌↔◌, inl, inr, Bool, true, false, ◌&&◌, ◌||◌, not,
  Option, none, some, List, [], ◌∷◌, ◌++◌, arith, length, get_elem?, get_or, ◌==◌, if◌then◌else◌,
  Option-cases, Bool-cases, sum_of, sum_of-erase_idx, zero, All,
}
use boo.Pane.{PaneHandle}
use boo.Splits.Tree.{focused_pane, len, all_panes}
use boo.Splits.Counting.{tree_count}
use boo.Tabs.Manager.{RunningCommand, Tab, TabManager}
use boo.Tabs.Invariant.{IsValid, has_id, Occupied}
use boo.Tabs.Keeping.{Keeps}

-- `==` of the derived `PartialEq`s
abbrev same_text : Option String → Option String → Bool
same_text none none = true
same_text (some a) (some b) = is_eq (compare a b)
same_text none (some b) = false
same_text (some a) none = false

abbrev pub same_command : Option RunningCommand → Option RunningCommand → Bool
same_command none none = true
same_command (some a) (some b) = same_text a.command b.command
same_command none (some b) = false
same_command (some a) none = false

unfoldable pub spinner_for : ℕ → String
spinner_for frame = get_or ("-" ∷ "\\" ∷ "|" ∷ "/" ∷ []) (frame % 4) ""

pub record TabInfo : Type 0 where
  pub index : ℕ
  pub active : Bool
  pub title : String
  pub surfaces : ℕ

pub record TabIdentityInfo : Type 0 where
  pub id : ℕ
  pub index : ℕ
  pub title : String

module _ {F : Type 0} where
  -- the body of the loop in `set_running_command_for_pane`
  abbrev pub set_command : ℕ → Option RunningCommand → Tab F → Tab F × Bool
  set_command pane_id command tab =
      if (focused_pane tab.split_tree).id == pane_id
        && not (same_command tab.running_command command)
      then (record tab { running_command = command }, true)
      else (tab, false)

  unfoldable pub set_commands : List (Tab F) → ℕ → Option RunningCommand → List (Tab F) × Bool
  set_commands [] pane_id command = ([], false)
  set_commands (tab ∷ tabs) pane_id command =
      let (tab', changed) = set_command pane_id command tab in
      let (tabs', later) = set_commands tabs pane_id command in (tab' ∷ tabs', changed || later)

  unfoldable pub set_running_command_for_pane :
      TabManager F → ℕ → Option RunningCommand → TabManager F × Bool
  unfolding set_commands
  set_running_command_for_pane m pane_id command =
      let (tabs, changed) = set_commands m.tabs pane_id command in
      (record m { tabs = tabs }, changed)

  -- the running command's line, unless it is empty, and else the title
  abbrev pub base_title : Tab F → String
  base_title tab = elim tab.running_command [
    | none ↦ tab.title
    | some running ↦ elim running.command [
      | none ↦ tab.title
      | some command ↦ if is_empty command then tab.title else command
    ]
  ]

  unfoldable pub display_title : TabManager F → ℕ → Option String → String
  display_title m index spinner = elim (get_elem? m.tabs index) [
    | none ↦ ""
    | some tab ↦
        let base = base_title tab in
        elim spinner [
          | none ↦ base
          | some spin ↦
              if is_empty spin then base else if is_empty base then spin else spin <> (" " <> base)
        ]
  ]

  unfoldable pub tab_info_from : TabManager F → ℕ → List (Tab F) → ℕ → List TabInfo
  unfolding display_title spinner_for len
  tab_info_from m spinner_frame [] i = []
  tab_info_from m spinner_frame (tab ∷ tabs) i =
      let spinner : Option String = elim tab.running_command [
        | none ↦ none
        | some _ ↦ some (spinner_for spinner_frame)
      ] in
      record {
        index = i;
        active = i == m.active;
        title = display_title m i spinner;
        surfaces = len tab.split_tree;
      }
      ∷ tab_info_from m spinner_frame tabs (i + 1)

  unfoldable pub tab_info_with_spinner : TabManager F → ℕ → List TabInfo
  unfolding tab_info_from
  tab_info_with_spinner m spinner_frame = tab_info_from m spinner_frame m.tabs 0

  unfoldable pub identity_from : TabManager F → List (Tab F) → ℕ → List TabIdentityInfo
  unfolding display_title
  identity_from m [] i = []
  identity_from m (tab ∷ tabs) i =
      record { id = tab.id; index = i; title = display_title m i none }
      ∷ identity_from m tabs (i + 1)

  unfoldable pub tab_identity_info : TabManager F → List TabIdentityInfo
  unfolding identity_from
  tab_identity_info m = identity_from m m.tabs 0

  unfoldable pub tab_id_for_index : TabManager F → ℕ → Option ℕ
  tab_id_for_index m index = elim (get_elem? m.tabs index) [ none ↦ none | some tab ↦ some tab.id ]

  -- `tabs.iter().position(|tab| tab.id == tab_id)`
  unfoldable pub tab_position : ℕ → List (Tab F) → Option ℕ
  tab_position tab_id [] = none
  tab_position tab_id (tab ∷ tabs) =
      let rest = tab_position tab_id tabs in
      if tab.id == tab_id then some 0 else elim rest [ none ↦ none | some i ↦ some (suc i) ]

  unfoldable pub find_index_by_tab_id : TabManager F → ℕ → Option ℕ
  unfolding tab_position
  find_index_by_tab_id m tab_id = tab_position tab_id m.tabs

  abbrev pub all_panes_of : List (Tab F) → List PaneHandle
  all_panes_of [] = []
  all_panes_of (tab ∷ tabs) = all_panes tab.split_tree ++ all_panes_of tabs

module _ {F : Type 0} where
  tab_position-some :
      (tabs : List (Tab F)) (index : ℕ) {tab : Tab F}
      → ((a : ℕ) → sum_of (has_id a) tabs ≤ 1)
      → get_elem? tabs index ≡ some tab
      → tab_position tab.id tabs ≡ some index
  unfolding tab_position
  tab_position-some [] index u e = cc
  tab_position-some (x ∷ tabs) zero {tab} u e = ground arith
  tab_position-some (x ∷ tabs) (suc index) {tab} u e = ground (
    arith,
    u tab.id,
    sum_of-erase_idx (has_id tab.id) tabs index e,
    tab_position-some tabs index {tab = tab} (λ a. omega (arith, u a)) e,
  )

  tab_position_lem :
      (tabs : List (Tab F)) (a : ℕ) {index : ℕ}
      → tab_position a tabs ≡ some index
      → (tab : Tab F) × (get_elem? tabs index ≡ some tab) × (tab.id ≡ a)
  unfolding tab_position
  tab_position_lem [] a e = cc
  tab_position_lem (x ∷ tabs) a {index} e = elim (Bool-cases (x.id == a)) [
    | inl hit ↦
        let first : index ≡ 0 = ground arith in (x, ap (get_elem? (x ∷ tabs)) first, ground arith)
    | inr miss ↦ elim (Option-cases (tab_position a tabs)) [
      | inl none_left ↦ absurd (ground arith)
      | inr (i, found) ↦
          let (tab, here, same) = tab_position_lem tabs a found in
          let later : index ≡ suc i = ground arith in
          (tab, ap (get_elem? (x ∷ tabs)) later ∙ here, same)
    ]
  ]

  -- In a valid manager, `find_index_by_tab_id` finds an index for an id exactly when
  -- `tab_id_for_index` answers that id at the index.
  pub find_index_by_tab_id_lem :
      (m : TabManager F) (index a : ℕ)
      → IsValid m
      → (find_index_by_tab_id m a ≡ some index) ↔ (tab_id_for_index m index ≡ some a)
  unfolding find_index_by_tab_id tab_id_for_index
  find_index_by_tab_id_lem m index a v = (there, back)
    where
      there : tab_position a m.tabs ≡ some index → tab_id_for_index m index ≡ some a
      there h =
          let (tab, here, same) = tab_position_lem m.tabs a h in
          rw (here, tab_id_for_index) (ap some same)

      back : tab_id_for_index m index ≡ some a → tab_position a m.tabs ≡ some index
      back h = elim (Option-cases (get_elem? m.tabs index)) [
        | inl e ↦ absurd (ground (arith, e, h))
        | inr (tab, e) ↦
            let same : tab.id ≡ a = ground (arith, e, h) in
            ap (λ i. tab_position i m.tabs) (sym same) ∙ tab_position-some m.tabs index v.unique e
      ]

  module _ (k : ℕ) (command : Option RunningCommand) where
    same_tree : (tab : Tab F) → (set_command k command tab).0.split_tree ≡ tab.split_tree
    same_tree tab =
        pick
          ((focused_pane tab.split_tree).id == k && not (same_command tab.running_command command))
      where
        pick :
            (b : Bool)
            → (if◌then◌else◌ {A = Tab F × Bool} b
                (record tab { running_command = command }, true)
                (tab, false)).0.split_tree
              ≡ tab.split_tree
        pick true = refl
        pick false = refl

    same_id : (tab : Tab F) → (set_command k command tab).0.id ≡ tab.id
    same_id tab = ground arith

    set_commands-sum :
        (f : Tab F → ℕ) (tabs : List (Tab F))
        → ((tab : Tab F) → f (set_command k command tab).0 ≡ f tab)
        → sum_of f (set_commands tabs k command).0 ≡ sum_of f tabs
    unfolding set_commands
    set_commands-sum f [] same = refl
    set_commands-sum f (tab ∷ tabs) same = omega (arith, same tab, set_commands-sum f tabs same)

    set_commands-Occupied :
        (tabs : List (Tab F))
        → All (λ tab. Occupied tab.split_tree) tabs
        → All (λ tab. Occupied tab.split_tree) (set_commands tabs k command).0
    unfolding set_commands
    set_commands-Occupied [] h = tt
    set_commands-Occupied (tab ∷ tabs) h =
        (rw (same_tree tab) (h.0), set_commands-Occupied tabs h.1)

    length-set_commands :
        (tabs : List (Tab F)) → length (set_commands tabs k command).0 ≡ length tabs
    unfolding set_commands
    length-set_commands [] = refl
    length-set_commands (tab ∷ tabs) = ap suc (length-set_commands tabs)

  pub set_running_command_for_pane-Keeps :
      (m : TabManager F) (k : ℕ) (command : Option RunningCommand)
      → IsValid m
      → Keeps m (set_running_command_for_pane m k command).0
  unfolding set_running_command_for_pane
  set_running_command_for_pane-Keeps m k command v =
      let ids = λ (a : ℕ).
        set_commands-sum k command (has_id a) m.tabs
          (λ tab. ap {B = ℕ} (λ i. if i == a then 1 else 0) (same_id k command tab)) in
      record {
        valid = record {
          active_in = let r = v.active_in in rw (length-set_commands k command m.tabs) r;
          unique = λ a. omega (arith, ids a, v.unique a);
          fresh = λ a le. omega (arith, ids a, v.fresh a le);
          bounded = v.bounded;
          trees = set_commands-Occupied k command m.tabs v.trees;
        };
        counts = λ j.
            set_commands-sum k command (λ (x : Tab F). tree_count j x.split_tree) m.tabs
              (λ tab. ap (tree_count j) (same_tree k command tab));
      }
