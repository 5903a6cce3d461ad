-- ===== src/Checks/Tabs.antt =====
-- Runs of src/tabs.rs and its theorems at concrete tabs.
use boo.Base.{◌≡◌, none, some, List, [], ◌∷◌, inl, inr, arith, true, get_elem?}
use boo.Base.Int.{ℤ}
use boo.Double.Fixed.{thousandths}
use boo.Layout.{manual, even_horizontal}
use boo.Splits.Frames.{ViewCall}
use boo.Splits.Tree.{SplitTree, tree}
use boo.Splits.Node.{leaf}
use boo.Splits.Invariant
use boo.Tabs.Manager.{
  TabManager, new_manager, add_initial_tab, new_tab, goto_tab, next_tab, prev_tab, remove_tab,
}
use boo.Tabs.Panes.{break_active_pane_to_tab, remove_pane_by_id}
use boo.Tabs.Layouts.{apply_layout_to_active}
use boo.Tabs.Invariant.{IsValid, new_manager-IsValid, remove_tab-IsValid}
use boo.Tabs.Going.{prev_tab-next_tab, active-remove_tab}
use boo.Tabs.Keeping.{Keeps, apply_layout_to_active-Keeps}
use boo.Tabs.Moving.{Gone, break_active_pane_to_tab-Keeps, remove_pane_by_id-Gone}
use boo.Tabs.Calls.{
  TabCall, adds_initial_tab, adds_tab, goes_to, goes_next, tab_step, tab_run, TabAllAllowed, Stands,
  tab_run-IsValid,
}
use boo.Checks.Trees.{pane_a, pane_b, pane_c, three_tree, three-IsValid}

abbrev single : SplitTree ℤ
single = tree (some (leaf 0 (record { id = 14; surface = 4; view = 4 }))) 1 0

-- Two tabs: three panes in the first, which is active, and one in the second.
abbrev two_tabs : TabManager ℤ
two_tabs = record {
  tabs =
      record {
        id = 1;
        split_tree = three_tree;
        title = "a";
        layout = manual;
        running_command = none;
      }
      ∷ record { id = 2; split_tree = single; title = "b"; layout = manual; running_command = none }
      ∷ [];
  active = 0;
  prev_active = 1;
  next_tab_id = 3;
}

single-IsValid : Invariant.IsValid single
single-IsValid = record {
  unique = λ a. ground arith;
  fresh = λ a le. ground arith;
  bounded = omega arith;
  focused = inr (omega arith);
}

two_tabs-IsValid : IsValid two_tabs
two_tabs-IsValid = record {
  active_in = inl (omega arith);
  unique = λ a. ground arith;
  fresh = λ a le. ground arith;
  bounded = omega arith;
  trees = (
    record { valid = three-IsValid; has_pane = omega arith },
    (record { valid = single-IsValid; has_pane = omega arith }, tt),
  );
}

abbrev tab_calls : List TabCall
tab_calls = adds_initial_tab pane_a ∷ adds_tab pane_b ∷ goes_to 0 ∷ adds_tab pane_c ∷ goes_next ∷ []

tab_calls-AllAllowed : TabAllAllowed {F = ℤ} new_manager tab_calls
unfolding tab_step add_initial_tab new_tab goto_tab next_tab
tab_calls-AllAllowed = (omega arith, (omega arith, (tt, (omega arith, (tt, tt)))))

tab_run-IsValid_example : Stands (tab_run {F = ℤ} new_manager tab_calls)
tab_run-IsValid_example =
    tab_run-IsValid {F = ℤ} new_manager tab_calls new_manager-IsValid tab_calls-AllAllowed

remove_pane_by_id-Gone_example : Gone two_tabs 14 (remove_pane_by_id two_tabs 14)
remove_pane_by_id-Gone_example = remove_pane_by_id-Gone two_tabs 14 two_tabs-IsValid

break_active_pane_to_tab-Keeps_example : Keeps two_tabs (break_active_pane_to_tab two_tabs).0
break_active_pane_to_tab-Keeps_example =
    break_active_pane_to_tab-Keeps two_tabs two_tabs-IsValid (omega arith)

prev_tab-next_tab_example :
    (m' : TabManager ℤ) × (m'' : TabManager ℤ) × (calls : List (ViewCall ℤ)) × (calls' : List
      (ViewCall ℤ))
    × (next_tab two_tabs ≡ some (m', true, calls))
    × (prev_tab m' ≡ some (m'', true, calls'))
    × (m''.active ≡ 0)
    × (m''.tabs ≡ two_tabs.tabs)
prev_tab-next_tab_example = prev_tab-next_tab two_tabs two_tabs-IsValid (omega arith)

active-remove_tab_example :
    get_elem? (remove_tab two_tabs 1).0.tabs (remove_tab two_tabs 1).0.active
    ≡ get_elem? two_tabs.tabs 0
active-remove_tab_example = active-remove_tab two_tabs 1 two_tabs-IsValid (omega arith)

remove_tab-IsValid_example : IsValid (remove_tab two_tabs 0).0
remove_tab-IsValid_example = remove_tab-IsValid two_tabs 0 two_tabs-IsValid

apply_layout_to_active-Keeps_example :
    Keeps two_tabs (apply_layout_to_active two_tabs even_horizontal).0
apply_layout_to_active-Keeps_example =
    apply_layout_to_active-Keeps two_tabs even_horizontal two_tabs-IsValid
      (omega arith, (omega arith, tt))
