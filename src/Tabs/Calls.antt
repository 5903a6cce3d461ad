-- ===== src/Tabs/Calls.antt =====
-- The methods of `TabManager` in src/tabs.rs that change it, as one step function that may panic.
use boo.Base.{ℕ, ◌+◌, ◌^◌, ◌<◌, refl, Bool, Option, none, some, List, [], ◌∷◌}
use Prim.Native.String.{String}
use boo.Double.{Double}
use boo.Pane.{PaneHandle}
use boo.Splits.Frames.{ViewCall}
use boo.Layout.{TabLayout}
use boo.Tabs.Manager.{
  RunningCommand, TabManager, add_initial_tab, new_tab, goto_tab, next_tab, prev_tab, remove_tab,
  focus_active_pane_by_id, set_active_title,
}
use boo.Tabs.Panes.{
  rotate_active_panes, swap_active_pane_with_adjacent, break_active_pane_to_tab, remove_pane_by_id,
}
use boo.Tabs.Layouts.{apply_layout_to_active, cycle_active_layout, rebalance_active_layout}
use boo.Tabs.Invariant.{
  IsValid, add_initial_tab-IsValid, new_tab-IsValid, remove_tab-IsValid, with_active-IsValid,
}
use boo.Tabs.Going.{Goes, goto_tab-Goes, next_tab-Goes, prev_tab-Goes}
use boo.Tabs.Keeping.{
  IsSmall, focus_active_pane_by_id-Keeps, rotate_active_panes-Keeps, swap_active-Keeps,
  rebalance_active_layout-Keeps, apply_layout_to_active-Keeps, cycle_active_layout-Keeps,
}
use boo.Tabs.Moving.{Gone, break_active_pane_to_tab-Keeps, remove_pane_by_id-Gone}
use boo.Tabs.Titles.{set_running_command_for_pane, set_running_command_for_pane-Keeps}

pub data TabCall : Type 0 where
  adds_initial_tab adds_tab : PaneHandle → TabCall
  goes_to : ℕ → TabCall
  goes_next goes_prev breaks_pane rebalances_layout : TabCall
  removes_tab_at focuses_pane_by_id removes_pane_by_id : ℕ → TabCall
  sets_title : String → TabCall
  sets_command : ℕ → Option RunningCommand → TabCall
  rotates_panes swaps_panes cycles_layout : Bool → TabCall
  applies_layout : TabLayout → TabCall

module _ {F : Type 0} where
  -- the manager that a move of the active tab leaves
  abbrev pub manager_of : Option (TabManager F × Bool × List (ViewCall F)) → Option (TabManager F)
  manager_of none = none
  manager_of (some (m, done, calls)) = some m

module _ {F : Type 0} ⦃d : Double F⦄ where
  -- `none` is a panic.
  unfoldable pub tab_step : TabManager F → TabCall → Option (TabManager F)
  tab_step m (adds_initial_tab pane) = some (add_initial_tab m pane)
  tab_step m (adds_tab pane) = some (new_tab m pane).0
  tab_step m (goes_to index) = manager_of (goto_tab m index)
  tab_step m goes_next = manager_of (next_tab m)
  tab_step m goes_prev = manager_of (prev_tab m)
  tab_step m breaks_pane = some (break_active_pane_to_tab m).0
  tab_step m rebalances_layout = some (rebalance_active_layout m).0
  tab_step m (removes_tab_at index) = some (remove_tab m index).0
  tab_step m (focuses_pane_by_id k) = some (focus_active_pane_by_id m k).0
  tab_step m (removes_pane_by_id k) = some (remove_pane_by_id m k).0
  tab_step m (sets_title title) = some (set_active_title m title)
  tab_step m (sets_command k command) = some (set_running_command_for_pane m k command).0
  tab_step m (rotates_panes forward) = some (rotate_active_panes m forward).0
  tab_step m (swaps_panes next) = some (swap_active_pane_with_adjacent m next).0
  tab_step m (cycles_layout forward) = some (cycle_active_layout m forward).0
  tab_step m (applies_layout layout) = some (apply_layout_to_active m layout).0

  unfoldable pub tab_run : TabManager F → List TabCall → Option (TabManager F)
  unfolding tab_step
  tab_run m [] = some m
  tab_run m (c ∷ cs) = elim (tab_step m c) [ none ↦ none | some m' ↦ tab_run m' cs ]

  -- A call that adds a tab needs an id for it; a preset needs trees whose panes can be numbered.
  abbrev pub TabAllowed : TabManager F → TabCall → Type 0
  TabAllowed m (adds_initial_tab pane) = m.next_tab_id + 1 < 2 ^ 32
  TabAllowed m (adds_tab pane) = m.next_tab_id + 1 < 2 ^ 32
  TabAllowed m breaks_pane = m.next_tab_id + 1 < 2 ^ 32
  TabAllowed m (cycles_layout forward) = IsSmall m
  TabAllowed m (applies_layout layout) = IsSmall m
  TabAllowed m _ = Unit {0}

  abbrev pub TabAllAllowed : TabManager F → List TabCall → Type 0
  TabAllAllowed m [] = Unit {0}
  TabAllAllowed m (c ∷ cs) =
      TabAllowed m c × (elim (tab_step m c) [ none ↦ Unit {0} | some m' ↦ TabAllAllowed m' cs ])

  -- a manager is there, and it is valid
  abbrev pub Stands : Option (TabManager F) → Type 0
  Stands none = ⊥
  Stands (some m) = IsValid m

  Goes-Stands :
      (m : TabManager F) (target : ℕ) (x : Option (TabManager F × Bool × List (ViewCall F)))
      → Goes m target x
      → Stands (manager_of x)
  Goes-Stands m target none h = h
  Goes-Stands m target (some (m', done, calls)) h = h.0

  Gone-IsValid :
      (m : TabManager F) (k : ℕ) (x : TabManager F × Option PaneHandle × List (ViewCall F))
      → IsValid m
      → Gone m k x
      → IsValid x.0
  Gone-IsValid m k (m', none, calls) v h = rw (h.0) v
  Gone-IsValid m k (m', some pane, calls) v h = h.1.valid

  set_active_title-IsValid :
      (m : TabManager F) (title : String) → IsValid m → IsValid (set_active_title m title)
  unfolding set_active_title
  set_active_title-IsValid m title v =
      with_active-IsValid m tt (λ tab. (record tab { title = title }, tt)) (λ tab o. o)
        (λ tab. refl) v

  -- A method with what it needs does not panic in a valid manager, and leaves a valid manager.
  pub tab_step-IsValid :
      (m : TabManager F) (c : TabCall) → IsValid m → TabAllowed m c → Stands (tab_step m c)
  unfolding tab_step
  tab_step-IsValid m (adds_initial_tab pane) v h = add_initial_tab-IsValid m pane v h
  tab_step-IsValid m (adds_tab pane) v h = new_tab-IsValid m pane v h
  tab_step-IsValid m (goes_to index) v h =
      Goes-Stands m _ (goto_tab m index) (goto_tab-Goes m index v)
  tab_step-IsValid m goes_next v h = Goes-Stands m _ (next_tab m) (next_tab-Goes m v)
  tab_step-IsValid m goes_prev v h = Goes-Stands m _ (prev_tab m) (prev_tab-Goes m v)
  tab_step-IsValid m breaks_pane v h = (break_active_pane_to_tab-Keeps m v h).valid
  tab_step-IsValid m rebalances_layout v h = (rebalance_active_layout-Keeps m v).valid
  tab_step-IsValid m (removes_tab_at index) v h = remove_tab-IsValid m index v
  tab_step-IsValid m (focuses_pane_by_id k) v h = (focus_active_pane_by_id-Keeps m k v).valid
  tab_step-IsValid m (removes_pane_by_id k) v h =
      Gone-IsValid m k (remove_pane_by_id m k) v (remove_pane_by_id-Gone m k v)
  tab_step-IsValid m (sets_title title) v h = set_active_title-IsValid m title v
  tab_step-IsValid m (sets_command k command) v h =
      (set_running_command_for_pane-Keeps m k command v).valid
  tab_step-IsValid m (rotates_panes forward) v h = (rotate_active_panes-Keeps m forward v).valid
  tab_step-IsValid m (swaps_panes next) v h = (swap_active-Keeps m next v).valid
  tab_step-IsValid m (cycles_layout forward) v h = (cycle_active_layout-Keeps m forward v h).valid
  tab_step-IsValid m (applies_layout layout) v h = (apply_layout_to_active-Keeps m layout v h).valid

  -- Any sequence of calls of the methods that change a tab manager runs from a valid manager to a
  -- valid one without a panic: the active index names a tab, tab ids stay distinct and below the
  -- next id, and every tab has a valid tree with a pane in it. A call that adds a tab must have a
  -- tab id left below 2 ^ 32, and a call that applies a preset must find fewer than 2 ^ 64 panes in
  -- every tab.
  pub tab_run-IsValid :
      (m : TabManager F) (cs : List TabCall)
      → IsValid m
      → TabAllAllowed m cs
      → Stands (tab_run m cs)
  unfolding tab_run
  tab_run-IsValid m [] v h = v
  tab_run-IsValid m (c ∷ cs) v (h, hs) =
      go (tab_step m c) (tab_step-IsValid m c v h) hs (λ m'. tab_run-IsValid m' cs)
    where
      go :
          (x : Option (TabManager F))
          → Stands x
          → (elim x as (λ _. Type 0) [ none ↦ Unit {0} | some m' ↦ TabAllAllowed m' cs ])
          → ((m' : TabManager F) → IsValid m' → TabAllAllowed m' cs → Stands (tab_run m' cs))
          → Stands
              (elim x as (λ _. Option (TabManager F)) [ none ↦ none | some m' ↦ tab_run m' cs ])
      go none s a later = s
      go (some m') s a later = later m' s a
