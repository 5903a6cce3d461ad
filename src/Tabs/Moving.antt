-- ===== src/Tabs/Moving.antt =====
-- Panes that leave their tab in src/tabs.rs: `break_active_pane_to_tab` and `remove_pane_by_id`.
use boo.Base.{
  ℕ, suc, ◌+◌, ◌^◌, ◌<◌, ◌≡◌, refl, ap, ◌∙◌, inl, inr, Bool, true, false, Option, none, some, List,
  [], ◌∷◌, map, arith, length, get_elem?, set, erase_idx-set_self, get_elem?-set_self,
  All-get_elem?, sum_of, sum_of-append, sum_of-set, sum_of-erase_idx, if◌then◌else◌, Option-cases,
  Bool-cases, ◌==◌,
}
use boo.Pane.{PaneHandle}
use boo.Splits.Frames.{ViewCall, ExportedPane}
use boo.Splits.Tree.{
  SplitTree, tree, export_panes, add_root, len, focused_pane, set_focus_to_pane, remove_focused,
  remove_pane,
}
use boo.Splits.Entries.{Entry, find_pane}
use boo.Splits.Invariant
use boo.Splits.Invariant.{
  entries, remove_focused-IsValid, remove_pane-IsValid, set_focus_to_pane-IsValid,
}
use boo.Splits.Counting.{
  tree_count, count_panes, is_pane, remove_focused_lem, remove_pane-Removes, len-eq-length,
}
use boo.Splits.Arranging.{Arranged, Arranged-refl, set_focus_to_pane-Arranged}
use boo.Layout.{manual}
use boo.Tabs.Manager.{Tab, TabManager, fresh_tab, new_tab, remove_tab}
use boo.Splits.Node.{Node}
use boo.Splits.Hits.{entry, export_node-leaves}
use boo.Tabs.Panes.{
  find_exported_pane, find_location, drop_if_empty, break_active_pane_to_tab, find_pane_location,
  remove_pane_by_id,
}
use boo.Tabs.Invariant.{IsValid, set-IsValid, remove_tab-IsValid, new_tab-IsValid}
use boo.Tabs.Keeping.{pane_count, Keeps}

count_panes-empty : (k : ℕ) (es : List Entry) → length es ≡ 0 → count_panes k es ≡ 0
count_panes-empty k [] h = refl
count_panes-empty k (e ∷ es) h = absurd (omega arith)

find_pane-none : (k : ℕ) (es : List Entry) → find_pane k es ≡ none → count_panes k es ≡ 0
find_pane-none k [] h = refl
find_pane-none k ((i, p) ∷ es) h = ground (arith, find_pane-none k es)

module _ {F : Type 0} where
  find_exported_pane-eq-find_pane :
      (k : ℕ) (es : List (ExportedPane F)) → find_exported_pane k es ≡ find_pane k (map entry es)
  unfolding find_exported_pane
  find_exported_pane-eq-find_pane k [] = refl
  find_exported_pane-eq-find_pane k (e ∷ es) = ground (arith, find_exported_pane-eq-find_pane k es)

  export_panes-entries : (t : SplitTree F) → map entry (export_panes t) ≡ entries t
  unfolding export_panes
  export_panes-entries t = go t.root t.next_id t.focused_id
    where
      go :
          (r : Option (Node F)) (n f : ℕ)
          → map entry (export_panes (tree r n f)) ≡ entries (tree r n f)
      go none n f = refl
      go (some root) n f = export_node-leaves root none []

  located :
      (k : ℕ) (t : SplitTree F) → find_exported_pane k (export_panes t) ≡ find_pane k (entries t)
  located k t =
      find_exported_pane-eq-find_pane k (export_panes t) ∙ ap (find_pane k) (export_panes-entries t)

  -- A search through the tabs from an index finds a tab with the pane, or there is none.
  abbrev Located : List (Tab F) → ℕ → ℕ → Option (ℕ × ℕ) → Type 0
  Located tabs start k none = sum_of (λ (x : Tab F). tree_count k x.split_tree) tabs ≡ 0
  Located tabs start k (some (index, leaf_id)) =
      (offset : ℕ) × (tab : Tab F) × (index ≡ start + offset)
      × (get_elem? tabs offset ≡ some tab)
      × (find_pane k (entries tab.split_tree) ≡ some leaf_id)

  Located-later :
      (tab : Tab F) (tabs : List (Tab F)) (start k : ℕ) (r : Option (ℕ × ℕ))
      → find_pane k (entries tab.split_tree) ≡ none
      → Located tabs (start + 1) k r
      → Located (tab ∷ tabs) start k r
  Located-later tab tabs start k none miss h =
      omega (arith, find_pane-none k (entries tab.split_tree) miss, h)
  Located-later tab tabs start k (some (index, leaf_id)) miss (offset, found, e, at_offset, hit) =
      (suc offset, found, omega arith, at_offset, hit)

  find_location-Located :
      (tabs : List (Tab F)) (start k : ℕ) → Located tabs start k (find_location tabs start k)
  unfolding find_location
  find_location-Located [] start k = refl
  find_location-Located (tab ∷ tabs) start k =
      elim (Option-cases (find_pane k (entries tab.split_tree))) [
        | inl miss ↦
            let e = located k tab.split_tree ∙ miss in
            rw (e, find_location)
              (Located-later tab tabs start k _ miss (find_location-Located tabs (start + 1) k))
        | inr (leaf_id, hit) ↦
            let e = located k tab.split_tree ∙ hit in
            rw (e, find_location) (0, tab, omega arith, refl, hit)
      ]

  pane_count-remove_tab :
      (k : ℕ) (m : TabManager F) (index : ℕ) {tab : Tab F}
      → get_elem? m.tabs index ≡ some tab
      → pane_count k (remove_tab m index).0 + tree_count k tab.split_tree ≡ pane_count k m
  unfolding remove_tab
  pane_count-remove_tab k m index e =
      rw (e, remove_tab)
        (sum_of-erase_idx (λ (x : Tab F). tree_count k x.split_tree) m.tabs index e)

  pane_count-new_tab :
      (k : ℕ) (m : TabManager F) (pane : PaneHandle)
      → pane_count k (new_tab m pane).0 ≡ pane_count k m + is_pane k pane
  unfolding new_tab add_root
  pane_count-new_tab k m pane = omega (
    arith,
    sum_of-append (λ (x : Tab F). tree_count k x.split_tree) m.tabs
        (fresh_tab m.next_tab_id pane ∷ []),
  )

  remove_tab-set :
      (m : TabManager F) (index : ℕ) (tab' : Tab F) {tab : Tab F}
      → get_elem? m.tabs index ≡ some tab
      → (remove_tab (record m { tabs = set m.tabs index tab' }) index).0 ≡ (remove_tab m index).0
  unfolding remove_tab
  remove_tab-set m index tab' e =
      ground
        (arith, e, get_elem?-set_self m.tabs index tab' e, erase_idx-set_self m.tabs index tab')

  next_id-remove_tab :
      (m : TabManager F) (index : ℕ) → (remove_tab m index).0.next_tab_id ≡ m.next_tab_id
  unfolding remove_tab
  next_id-remove_tab m index = ground arith

  tree_count-empty : (k : ℕ) (t : SplitTree F) → length (entries t) ≡ 0 → tree_count k t ≡ 0
  tree_count-empty k t h = count_panes-empty k (entries t) h

  -- What is left of a manager when a pane has left the tab at an index.
  pub record Leaves (m m' : TabManager F) (pane : PaneHandle) : Type 0 where
    pub valid : IsValid m'
    pub counts : (k : ℕ) → pane_count k m ≡ pane_count k m' + is_pane k pane
    pub same_next : m'.next_tab_id ≡ m.next_tab_id

  drop_if_empty-Leaves :
      (m : TabManager F) (index : ℕ) (t : SplitTree F) (pane : PaneHandle) {tab : Tab F}
      → IsValid m
      → get_elem? m.tabs index ≡ some tab
      → Invariant.IsValid t
      → ((k : ℕ) → tree_count k tab.split_tree ≡ tree_count k t + is_pane k pane)
      → Leaves m (drop_if_empty m index t tab).0 pane
  drop_if_empty-Leaves m index t pane {tab} v e valid counts =
      let tab' : Tab F = record tab { split_tree = t; layout = manual } in
      elim (Bool-cases (len t == 0)) [
        | inl empty ↦
            let gone : (drop_if_empty m index t tab).0 ≡ (remove_tab m index).0 =
              rw empty (remove_tab-set m index tab' e) in
            let none_left : length (entries t) ≡ 0 = ground (arith, len-eq-length t) in
            rw gone (record {
              valid = remove_tab-IsValid m index v;
              counts = λ k. omega (
                arith,
                pane_count-remove_tab k m index e,
                counts k,
                tree_count-empty k t none_left,
              );
              same_next = next_id-remove_tab m index;
            })
        | inr full ↦
            let some_left : 0 < length (entries t) = ground (arith, len-eq-length t) in
            rw full (record {
              valid =
                  set-IsValid m index tab' e refl (record { valid = valid; has_pane = some_left })
                    v;
              counts = λ k. omega (
                arith,
                sum_of-set (λ (x : Tab F). tree_count k x.split_tree) m.tabs index tab' e,
                counts k,
              );
              same_next = refl;
            })
      ]

  -- In a valid manager with a tab id left below 2 ^ 32, breaking the focused pane out of the active
  -- tab leaves a valid manager with every pane as often as before.
  pub break_active_pane_to_tab-Keeps :
      (m : TabManager F)
      → IsValid m
      → m.next_tab_id + 1 < 2 ^ 32
      → Keeps m (break_active_pane_to_tab m).0
  unfolding break_active_pane_to_tab
  break_active_pane_to_tab-Keeps m v h = elim (Option-cases (get_elem? m.tabs m.active)) [
    | inl e ↦ rw (e, break_active_pane_to_tab) (record { valid = v; counts = λ k. refl })
    | inr (tab, e) ↦
        let o = All-get_elem? _ m.tabs m.active v.trees e in
        let t = tab.split_tree in
        let (out, counts, sizes) = remove_focused_lem t o.valid o.has_pane in
        let pane = focused_pane t in
        let left =
          drop_if_empty-Leaves m m.active (remove_focused t).0 pane v e
            (remove_focused-IsValid t o.valid) counts in
        let m' = (drop_if_empty m m.active (remove_focused t).0 tab).0 in
        let same = left.same_next in
        rw (e, out, break_active_pane_to_tab)
          (record {
            valid = new_tab-IsValid m' pane left.valid (omega arith);
            counts = λ k. omega (arith, left.counts k, pane_count-new_tab k m' pane);
          })
  ]

  -- What the removal of a pane by its id promises.
  abbrev pub Gone : TabManager F → ℕ → TabManager F × Option PaneHandle × List (ViewCall F) → Type 0
  Gone m k (m', none, calls) = (m' ≡ m) × (pane_count k m ≡ 0)
  Gone m k (m', some pane, calls) = (pane.id ≡ k) × Leaves m m' pane

  -- the tree of the tab whose pane went, as `remove_pane_by_id` leaves it
  abbrev refocused : TabManager F → ℕ → SplitTree F → SplitTree F
  refocused m index t =
      let t' = (set_focus_to_pane t (focused_pane t).id).0 in
      if len t == 0 then t else if index == m.active then t' else t

  refocused-Arranged :
      (m : TabManager F) (index : ℕ) (t : SplitTree F)
      → Invariant.IsValid t
      → Arranged t (refocused m index t)
  refocused-Arranged m index t v = pick (len t == 0) (index == m.active)
    where
      pick :
          (b c : Bool)
          → Arranged t
              (if b then t else if c then (set_focus_to_pane t (focused_pane t).id).0 else t)
      pick true c = Arranged-refl t v
      pick false true = set_focus_to_pane-Arranged t (focused_pane t).id v
      pick false false = Arranged-refl t v

  -- In a valid manager, `remove_pane_by_id` either finds that no tab has a pane with the id and
  -- changes nothing, or returns a pane with the id and leaves a valid manager with the same next
  -- tab id, whose tabs have that pane once less and every other pane as often as before.
  pub remove_pane_by_id-Gone :
      (m : TabManager F) (k : ℕ) → IsValid m → Gone m k (remove_pane_by_id m k)
  unfolding remove_pane_by_id find_pane_location
  remove_pane_by_id-Gone m k v = elim (Option-cases (find_location m.tabs 0 k)) [
    | inl e ↦
        let none_left : Located m.tabs 0 k none = rw e at (find_location-Located m.tabs 0 k) in
        rw (e, remove_pane_by_id) (refl, none_left)
    | inr ((index, leaf_id), e) ↦
        let (offset, tab, same, here, hit) : Located m.tabs 0 k (some (index, leaf_id)) =
          rw e at (find_location-Located m.tabs 0 k) in
        let at_offset : index ≡ offset = omega (arith, same) in
        let here' : get_elem? m.tabs index ≡ some tab = ap (get_elem? m.tabs) at_offset ∙ here in
        let o = All-get_elem? _ m.tabs index v.trees here' in
        let t = tab.split_tree in
        let (pane, named, taken) = remove_pane-Removes t k o.valid hit in
        let (out, counts, sizes) = taken in
        let t' = (remove_pane t k).0 in
        let a = refocused-Arranged m index t' (remove_pane-IsValid t k o.valid) in
        let left =
          drop_if_empty-Leaves m index (refocused m index t') pane v here' a.valid
            (λ j. omega (arith, counts j, a.counts j)) in
        rw (e, here', out, remove_pane_by_id) (named, left)
  ]
