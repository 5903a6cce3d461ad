-- ===== src/Tabs/Manager.antt =====
-- `TabManager` of src/tabs.rs: adding, choosing and removing tabs. A method returns the new manager,
-- with its result and the calls that it makes into the platform layer beside it.
use Prim.Native.String.{String}
use boo.Base.{
  ℕ, ◌+◌, ◌-◌, ◌%◌, Bool, true, false, ◌||◌, Option, none, some, List, [], ◌∷◌, ◌++◌, length,
  get_elem?, set, erase_idx, ltb, leb, ◌==◌, if◌then◌else◌, next_32,
}
use boo.Pane.{PaneHandle, null}
use boo.Splits.Frames.{ViewCall}
use boo.Splits.Tree.{
  SplitTree, new_tree, add_root, focused_pane, set_focus_to_pane, all_panes, set_hidden,
}
use boo.Layout.{TabLayout, manual}

pub record RunningCommand : Type 0 where
  pub command : Option String

pub record Tab (F : Type 0) : Type 0 where
  pub id : ℕ
  pub split_tree : SplitTree F
  pub title : String
  pub layout : TabLayout
  pub running_command : Option RunningCommand

pub record TabManager (F : Type 0) : Type 0 where
  pub tabs : List (Tab F)
  pub active : ℕ
  pub prev_active : ℕ
  pub next_tab_id : ℕ

-- the active index after the tab at `index` is gone and `left` tabs are left
abbrev pub active_after : ℕ → ℕ → ℕ → ℕ
active_after active index left =
    if left == 0
    then 0
    else if leb left active
    then left - 1
    else if ltb index active
    then active - 1
    else active

module _ {F : Type 0} where
  abbrev pub new_manager : TabManager F
  new_manager = record { tabs = []; active = 0; prev_active = 0; next_tab_id = 1 }

  -- the tab that `add_initial_tab` and `new_tab` push
  abbrev pub fresh_tab : ℕ → PaneHandle → Tab F
  fresh_tab i pane = record {
    id = i;
    split_tree = (add_root new_tree pane).0;
    title = "";
    layout = manual;
    running_command = none;
  }

  -- `allocate_tab_id`, and the push of a tab with that id
  unfoldable pub allocate_tab_id : TabManager F → TabManager F × ℕ
  allocate_tab_id m = (record m { next_tab_id = next_32 m.next_tab_id }, m.next_tab_id)

  unfoldable pub add_initial_tab : TabManager F → PaneHandle → TabManager F
  unfolding allocate_tab_id
  add_initial_tab m pane =
      let (m', i) = allocate_tab_id m in record m' { tabs = m'.tabs ++ (fresh_tab i pane ∷ []) }

  -- `self.tabs.get(index)` with the views of that tab hidden or shown
  abbrev pub hide_at : List (Tab F) → ℕ → Bool → List (ViewCall F)
  hide_at tabs index hidden = elim (get_elem? tabs index) [
    | none ↦ []
    | some tab ↦ set_hidden tab.split_tree hidden
  ]

  unfoldable pub new_tab : TabManager F → PaneHandle → TabManager F × ℕ × List (ViewCall F)
  unfolding allocate_tab_id
  new_tab m pane =
      let (m', i) = allocate_tab_id m in
      (
        record m' { tabs = m.tabs ++ (fresh_tab i pane ∷ []); active = length m.tabs },
        length m.tabs,
        hide_at m.tabs m.active true,
      )

  -- `none` is a panic: `self.tabs[self.active]` with the active index out of bounds.
  unfoldable pub goto_tab : TabManager F → ℕ → Option (TabManager F × Bool × List (ViewCall F))
  goto_tab m index =
      if leb (length m.tabs) index || index == m.active
      then some (m, false, [])
      else elim (get_elem? m.tabs m.active) [
        | none ↦ none
        | some old ↦ elim (get_elem? m.tabs index) [
          | none ↦ none
          | some new ↦ some (
            record m { prev_active = m.active; active = index },
            true,
            set_hidden old.split_tree true ++ set_hidden new.split_tree false,
          )
        ]
      ]

  unfoldable pub next_tab : TabManager F → Option (TabManager F × Bool × List (ViewCall F))
  unfolding goto_tab
  next_tab m =
      if leb (length m.tabs) 1
      then some (m, false, [])
      else goto_tab m ((m.active + 1) % length m.tabs)

  unfoldable pub prev_tab : TabManager F → Option (TabManager F × Bool × List (ViewCall F))
  unfolding goto_tab
  prev_tab m =
      if leb (length m.tabs) 1
      then some (m, false, [])
      else goto_tab m (if m.active == 0 then length m.tabs - 1 else m.active - 1)

  unfoldable pub remove_tab : TabManager F → ℕ → TabManager F × List PaneHandle × List (ViewCall F)
  remove_tab m index = elim (get_elem? m.tabs index) [
    | none ↦ (m, [], [])
    | some tab ↦
        let left = erase_idx m.tabs index in
        let active = active_after m.active index (length left) in
        (
          record m { tabs = left; active = active },
          all_panes tab.split_tree,
          set_hidden tab.split_tree true ++ hide_at left active false,
        )
  ]

  -- a change of the active tab by a function that also answers
  abbrev pub with_active {ℓ} :
      {A : Type ℓ} → TabManager F → A → (Tab F → Tab F × A) → TabManager F × A
  with_active m failed f = elim (get_elem? m.tabs m.active) [
    | none ↦ (m, failed)
    | some tab ↦ let (tab', a) = f tab in (record m { tabs = set m.tabs m.active tab' }, a)
  ]

  unfoldable pub active_pane : TabManager F → PaneHandle
  active_pane m = elim (get_elem? m.tabs m.active) [
    | none ↦ null
    | some tab ↦ focused_pane tab.split_tree
  ]

  unfoldable pub focus_active_pane_by_id : TabManager F → ℕ → TabManager F × Bool
  focus_active_pane_by_id m pane_id = with_active m false λ tab.
      let (t, done) = set_focus_to_pane tab.split_tree pane_id in
      (record tab { split_tree = t }, done)

  unfoldable pub set_active_title : TabManager F → String → TabManager F
  set_active_title m title = (with_active {0} m tt λ tab. (record tab { title = title }, tt)).0
