-- ===== src/Tabs/Panes.antt =====
-- The methods of `TabManager` in src/tabs.rs that move panes within a tab and between tabs.
use boo.Base.{
  ℕ, ◌+◌, Bool, false, Option, none, some, List, [], ◌∷◌, ◌++◌, get_elem?, set, ◌==◌, if◌then◌else◌,
}
use boo.Pane.{PaneHandle}
use boo.Splits.Frames.{ViewCall, ExportedPane}
use boo.Splits.Tree.{
  SplitTree, focused_pane, set_focus_to_pane, export_panes, len, remove_focused, remove_pane,
  rotate_panes, swap_focused_with_adjacent,
}
use boo.Layout.{manual}
use boo.Tabs.Manager.{Tab, TabManager, new_tab, remove_tab, with_active}

module _ {F : Type 0} where
  unfoldable pub rotate_active_panes : TabManager F → Bool → TabManager F × Bool
  rotate_active_panes m forward = with_active m false λ tab.
      let (t, done) = rotate_panes tab.split_tree forward in
      (record tab { split_tree = t; layout = manual }, done)

  unfoldable pub swap_active_pane_with_adjacent : TabManager F → Bool → TabManager F × Bool
  swap_active_pane_with_adjacent m next = with_active m false λ tab.
      let (t, done) = swap_focused_with_adjacent tab.split_tree next in
      (record tab { split_tree = t; layout = manual }, done)

  -- The tab at `index` after a pane was taken out of its tree: it goes if no pane is left.
  abbrev pub drop_if_empty :
      TabManager F → ℕ → SplitTree F → Tab F → TabManager F × List (ViewCall F)
  drop_if_empty m index t tab =
      let m' = record m {
        tabs = set m.tabs index (record tab { split_tree = t; layout = manual });
      } in
      let (m'', panes, calls) = remove_tab m' index in if len t == 0 then (m'', calls) else (m', [])

  unfoldable pub break_active_pane_to_tab :
      TabManager F → TabManager F × Option ℕ × List (ViewCall F)
  unfolding new_tab remove_tab
  break_active_pane_to_tab m = elim (get_elem? m.tabs m.active) [
    | none ↦ (m, none, [])
    | some tab ↦
        let (t, removed) = remove_focused tab.split_tree in
        elim removed [
          | none ↦
              (record m { tabs = set m.tabs m.active (record tab { split_tree = t }) }, none, [])
          | some pane ↦
              let (m', calls) = drop_if_empty m m.active t tab in
              let (m'', index, calls') = new_tab m' pane in (m'', some index, calls ++ calls')
        ]
  ]

  -- `export_panes().into_iter().find(|pane| pane.pane.id() == pane_id)`
  unfoldable pub find_exported_pane : ℕ → List (ExportedPane F) → Option ℕ
  find_exported_pane pane_id [] = none
  find_exported_pane pane_id (e ∷ es) =
      if e.pane.id == pane_id then some e.leaf_id else find_exported_pane pane_id es

  unfoldable pub find_location : List (Tab F) → ℕ → ℕ → Option (ℕ × ℕ)
  find_location [] index pane_id = none
  find_location (tab ∷ tabs) index pane_id =
      let rest = find_location tabs (index + 1) pane_id in
      elim (find_exported_pane pane_id (export_panes tab.split_tree)) [
        | none ↦ rest
        | some leaf_id ↦ some (index, leaf_id)
      ]

  unfoldable pub find_pane_location : TabManager F → ℕ → Option (ℕ × ℕ)
  unfolding find_location
  find_pane_location m pane_id = find_location m.tabs 0 pane_id

  -- The last branch sets the focus of the active tab to the pane that has it.
  unfoldable pub remove_pane_by_id :
      TabManager F → ℕ → TabManager F × Option PaneHandle × List (ViewCall F)
  unfolding find_pane_location remove_tab
  remove_pane_by_id m pane_id = elim (find_pane_location m pane_id) [
    | none ↦ (m, none, [])
    | some (index, leaf_id) ↦ elim (get_elem? m.tabs index) [
      | none ↦ (m, none, [])
      | some tab ↦
          let (t, removed) = remove_pane tab.split_tree pane_id in
          elim removed [
            | none ↦
                (record m { tabs = set m.tabs index (record tab { split_tree = t }) }, none, [])
            | some pane ↦
                let t' = (set_focus_to_pane t (focused_pane t).id).0 in
                let (m', calls) =
                  drop_if_empty m index
                    (if len t == 0 then t else if index == m.active then t' else t) tab in
                (m', some pane, calls)
          ]
    ]
  ]
