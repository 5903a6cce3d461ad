-- ===== src/Tabs/Keeping.antt =====
-- Methods of `TabManager` in src/tabs.rs that rearrange panes, and the panes of all tabs.
use boo.Base.{
  ℕ, ◌^◌, ◌<◌, ◌≡◌, refl, inl, inr, Bool, true, false, some, arith, length, get_elem?, All,
  All-get_elem?, sum_of, sum_of-set, leb, if◌then◌else◌, Option-cases, unwrap_or,
}
use boo.Double.{Double}
use boo.Splits.Tree.{SplitTree, all_panes, focused_pane, rebuild_from_panes}
use boo.Splits.Invariant.{entries}
use boo.Splits.Counting.{tree_count}
use boo.Splits.Arranging.{
  Arranged, Arranged-refl, rotate_panes-Arranged, swap-Arranged, set_focus_to_pane-Arranged,
  rebalance-Arranged, rebuild-Arranged,
}
use boo.Layout.{TabLayout, manual}
use boo.Tabs.Manager.{Tab, TabManager, with_active, focus_active_pane_by_id}
use boo.Tabs.Panes.{rotate_active_panes, swap_active_pane_with_adjacent}
use boo.Tabs.Layouts.{
  split_specs, apply_layout_to_active, cycle_active_layout, rebalance_active_layout, active_layout,
  next_layout,
}
use boo.Tabs.Invariant.{IsValid, Occupied, set-IsValid}

module _ {F : Type 0} where
  -- how often a pane's id stands in the tabs
  abbrev pub pane_count : ℕ → TabManager F → ℕ
  pane_count k m = sum_of (λ tab. tree_count k tab.split_tree) m.tabs

  -- A change of a manager after which it is valid, and has the same panes as often.
  pub record Keeps (m m' : TabManager F) : Type 0 where
    pub valid : IsValid m'
    pub counts : (k : ℕ) → pane_count k m' ≡ pane_count k m

  pub Arranged-Occupied : {t t' : SplitTree F} → Occupied t → Arranged t t' → Occupied t'
  Arranged-Occupied o a = record {
    valid = a.valid;
    has_pane = let h = o.has_pane in let s = a.sizes in omega arith;
  }

  with_active-Keeps :
      (m : TabManager F) (f : Tab F → Tab F × Bool)
      → ((tab : Tab F) → (f tab).0.id ≡ tab.id)
      → ((tab : Tab F)
          → get_elem? m.tabs m.active ≡ some tab
          → Occupied tab.split_tree
          → Arranged tab.split_tree (f tab).0.split_tree)
      → IsValid m
      → Keeps m (with_active m false f).0
  with_active-Keeps m f same keeps v = elim (Option-cases (get_elem? m.tabs m.active)) [
    | inl e ↦ rw (e, with_active) (record { valid = v; counts = λ k. refl })
    | inr (tab, e) ↦
        let o = All-get_elem? _ m.tabs m.active v.trees e in
        let a = keeps tab e o in
        rw (e, with_active)
          (record {
            valid = set-IsValid m m.active (f tab).0 e (same tab) (Arranged-Occupied o a) v;
            counts = λ k. omega (
              arith,
              sum_of-set (λ (x : Tab F). tree_count k x.split_tree) m.tabs m.active (f tab).0 e,
              a.counts k,
            );
          })
  ]

  pub focus_active_pane_by_id-Keeps :
      (m : TabManager F) (k : ℕ) → IsValid m → Keeps m (focus_active_pane_by_id m k).0
  unfolding focus_active_pane_by_id
  focus_active_pane_by_id-Keeps m k v =
      with_active-Keeps m _ (λ tab. refl)
        (λ tab e o. set_focus_to_pane-Arranged tab.split_tree k o.valid) v

  -- In a valid manager, rotating the panes of the active tab leaves a valid manager with every pane
  -- as often as before.
  pub rotate_active_panes-Keeps :
      (m : TabManager F) (forward : Bool) → IsValid m → Keeps m (rotate_active_panes m forward).0
  unfolding rotate_active_panes
  rotate_active_panes-Keeps m forward v =
      with_active-Keeps m _ (λ tab. refl)
        (λ tab e o. rotate_panes-Arranged tab.split_tree forward o.valid) v

  pub swap_active-Keeps :
      (m : TabManager F) (next : Bool)
      → IsValid m
      → Keeps m (swap_active_pane_with_adjacent m next).0
  unfolding swap_active_pane_with_adjacent
  swap_active-Keeps m next v =
      with_active-Keeps m _ (λ tab. refl) (λ tab e o. swap-Arranged tab.split_tree next o.valid) v

module _ {F : Type 0} ⦃d : Double F⦄ where
  pub rebalance_active_layout-Keeps :
      (m : TabManager F) → IsValid m → Keeps m (rebalance_active_layout m).0
  unfolding rebalance_active_layout
  rebalance_active_layout-Keeps m v =
      with_active-Keeps m _ (λ tab. refl) (λ tab e o. rebalance-Arranged tab.split_tree o.valid) v

  -- Every tab has less than 2 ^ 64 panes.
  abbrev pub IsSmall : TabManager F → Type 0
  IsSmall m = All (λ tab. length (entries tab.split_tree) < 2 ^ 64) m.tabs

  layout_change :
      (layout : TabLayout) (tab : Tab F)
      → Occupied tab.split_tree
      → length (entries tab.split_tree) < 2 ^ 64
      → (x : SplitTree F × Bool)
      → x
        ≡ rebuild_from_panes tab.split_tree
            (all_panes tab.split_tree)
            (split_specs layout (length (all_panes tab.split_tree)))
            (focused_pane tab.split_tree).id
      → (few : Bool)
      → Arranged tab.split_tree
          (if◌then◌else◌ {A = Tab F × Bool} few
            (record tab { layout = layout }, false)
            (record tab { split_tree = x.0; layout = layout }, x.1)).0.split_tree
  layout_change layout tab o b x e true = Arranged-refl tab.split_tree o.valid
  layout_change layout tab o b x e false =
      rw e (rebuild-Arranged tab.split_tree _ o.valid o.has_pane b)

  -- In a valid manager with fewer than 2 ^ 64 panes in every tab, applying a preset to the active
  -- tab leaves a valid manager with every pane as often as before.
  pub apply_layout_to_active-Keeps :
      (m : TabManager F) (layout : TabLayout)
      → IsValid m
      → IsSmall m
      → Keeps m (apply_layout_to_active m layout).0
  unfolding apply_layout_to_active
  apply_layout_to_active-Keeps m layout v b =
      with_active-Keeps m _ (λ tab. ground arith)
        (λ tab e o.
          layout_change layout tab o (All-get_elem? _ m.tabs m.active b e) _ refl
            (leb (length (all_panes tab.split_tree)) 1))
        v

  -- In a valid manager with fewer than 2 ^ 64 panes in every tab, going to the next or the previous
  -- preset leaves a valid manager with every pane as often as before.
  pub cycle_active_layout-Keeps :
      (m : TabManager F) (forward : Bool)
      → IsValid m
      → IsSmall m
      → Keeps m (cycle_active_layout m forward).0
  unfolding cycle_active_layout
  cycle_active_layout-Keeps m forward v b =
      apply_layout_to_active-Keeps m (next_layout forward (unwrap_or (active_layout m) manual)) v b
