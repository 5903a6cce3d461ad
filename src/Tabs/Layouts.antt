-- ===== src/Tabs/Layouts.antt =====
-- The methods of `TabManager` in src/tabs.rs that arrange the panes of the active tab.
use boo.Base.{
  ℕ, suc, ◌+◌, ◌-◌, ◌%◌, Bool, false, Option, none, some, List, [], ◌∷◌, map, length, get_elem?,
  get_or, unwrap_or, leb, if◌then◌else◌,
}
use boo.Double.{Double}
use boo.Splits.Node.{Direction, horizontal, vertical}
use boo.Splits.Tree.{focused_pane, all_panes, rebuild_from_panes, rebalance}
use boo.Layout.{
  TabLayout, manual, even_horizontal, even_vertical, main_horizontal, main_vertical, tiled,
  same_layout, SplitDir, to_right, downward, SplitSpec, layout_splits,
}
use boo.Tabs.Manager.{TabManager, with_active}

abbrev pub split_direction : SplitDir → Direction
split_direction to_right = horizontal
split_direction downward = vertical

abbrev pub layouts : List TabLayout
layouts = even_horizontal ∷ even_vertical ∷ main_horizontal ∷ main_vertical ∷ tiled ∷ []

-- `layouts.iter().position(|layout| *layout == current)`
abbrev pub layout_position : TabLayout → List TabLayout → Option ℕ
layout_position current [] = none
layout_position current (l ∷ ls) =
    let rest = layout_position current ls in
    if same_layout l current then some 0 else elim rest [ none ↦ none | some i ↦ some (suc i) ]

abbrev pub next_layout : Bool → TabLayout → TabLayout
next_layout forward current =
    let pos = unwrap_or (layout_position current layouts) 0 in
    if forward
    then get_or layouts ((pos + 1) % length layouts) manual
    else get_or layouts ((pos + length layouts - 1) % length layouts) manual

module _ {F : Type 0} where
  unfoldable pub active_layout : TabManager F → Option TabLayout
  active_layout m = elim (get_elem? m.tabs m.active) [ none ↦ none | some tab ↦ some tab.layout ]

module _ {F : Type 0} ⦃d : Double F⦄ where
  abbrev pub split_specs : TabLayout → ℕ → List (Direction × F)
  split_specs layout n =
      map (λ (s : SplitSpec F). (split_direction s.direction, s.ratio)) (layout_splits layout n)

  unfoldable pub apply_layout_to_active : TabManager F → TabLayout → TabManager F × Bool
  apply_layout_to_active m layout = with_active m false λ tab.
      let panes = all_panes tab.split_tree in
      let (t, changed) =
        rebuild_from_panes tab.split_tree panes (split_specs layout (length panes))
          (focused_pane tab.split_tree).id in
      if leb (length panes) 1
      then (record tab { layout = layout }, false)
      else (record tab { split_tree = t; layout = layout }, changed)

  unfoldable pub cycle_active_layout : TabManager F → Bool → TabManager F × Bool
  unfolding apply_layout_to_active active_layout
  cycle_active_layout m forward =
      apply_layout_to_active m (next_layout forward (unwrap_or (active_layout m) manual))

  unfoldable pub rebalance_active_layout : TabManager F → TabManager F × Bool
  rebalance_active_layout m =
      with_active m false
        λ tab. let (t, done) = rebalance tab.split_tree in (record tab { split_tree = t }, done)
