-- ===== src/Tabs/Invariant.antt =====
-- The invariant of `TabManager`: the active index names a tab, tab ids are distinct and below the next
-- id, and every tab has a valid tree with a pane in it.
use boo.Base.{
  ℕ, ◌+◌, ◌^◌, ◌<◌, ◌≤◌, ◌≡◌, refl, ap, ◌⊎◌, inl, inr, some, List, [], ◌∷◌, ◌++◌, arith, length,
  length-append, get_elem?, set, erase_idx, length-set, get_elem?_lt, length-erase_idx, All,
  All-append, All-set, All-get_elem?, All-erase_idx, sum_of, sum_of-append, sum_of-set,
  sum_of-erase_idx, ◌==◌, if◌then◌else◌, Option-cases, next_32,
}
use boo.Pane.{PaneHandle}
use boo.Splits.Tree.{SplitTree, new_tree, add_root}
use boo.Splits.Invariant
use boo.Splits.Invariant.{entries, new_tree-IsValid, add_root-IsValid}
use boo.Tabs.Manager.{
  Tab, TabManager, new_manager, fresh_tab, add_initial_tab, new_tab, active_after, remove_tab,
  with_active,
}

module _ {F : Type 0} where
  pub record Occupied (t : SplitTree F) : Type 0 where
    pub valid : Invariant.IsValid t
    pub has_pane : 0 < length (entries t)

  abbrev pub has_id : ℕ → Tab F → ℕ
  has_id a tab = if tab.id == a then 1 else 0

  abbrev pub InRange : List (Tab F) → ℕ → Type 0
  InRange tabs active = (active < length tabs) ⊎ ((length tabs ≡ 0) × (active ≡ 0))

  pub record IsValid (m : TabManager F) : Type 0 where
    pub active_in : InRange m.tabs m.active
    pub unique : (a : ℕ) → sum_of (has_id a) m.tabs ≤ 1
    pub fresh : (a : ℕ) → m.next_tab_id ≤ a → sum_of (has_id a) m.tabs ≡ 0
    pub bounded : m.next_tab_id < 2 ^ 32
    pub trees : All (λ tab. Occupied tab.split_tree) m.tabs

  pub new_manager-IsValid : IsValid new_manager
  new_manager-IsValid = record {
    active_in = inr (refl, refl);
    unique = λ a. omega arith;
    fresh = λ a le. refl;
    bounded = omega arith;
    trees = tt;
  }

  fresh_tab-Occupied : (i : ℕ) (pane : PaneHandle) → Occupied (fresh_tab i pane).split_tree
  unfolding add_root
  fresh_tab-Occupied i pane = record {
    valid = add_root-IsValid new_tree pane new_tree-IsValid (omega arith);
    has_pane = omega arith;
  }

  pushed :
      (m : TabManager F) (pane : PaneHandle) (active : ℕ)
      → IsValid m
      → m.next_tab_id + 1 < 2 ^ 32
      → active ≤ length m.tabs
      → IsValid (record m {
        tabs = m.tabs ++ (fresh_tab m.next_tab_id pane ∷ []);
        active = active;
        next_tab_id = next_32 m.next_tab_id;
      })
  pushed m pane active v h le =
      let tab = fresh_tab m.next_tab_id pane in
      record {
        active_in = inl (omega (arith, length-append m.tabs (tab ∷ [])));
        unique =
            λ a. ground (arith, sum_of-append (has_id a) m.tabs (tab ∷ []), v.unique a, v.fresh a);
        fresh = λ a le'. ground (arith, sum_of-append (has_id a) m.tabs (tab ∷ []), v.fresh a);
        bounded = omega arith;
        trees = All-append _ m.tabs (tab ∷ []) v.trees (fresh_tab-Occupied m.next_tab_id pane, tt);
      }

  pub add_initial_tab-IsValid :
      (m : TabManager F) (pane : PaneHandle)
      → IsValid m
      → m.next_tab_id + 1 < 2 ^ 32
      → IsValid (add_initial_tab m pane)
  unfolding add_initial_tab
  add_initial_tab-IsValid m pane v h =
      pushed m pane m.active v h (let a = v.active_in in omega arith)

  pub new_tab-IsValid :
      (m : TabManager F) (pane : PaneHandle)
      → IsValid m
      → m.next_tab_id + 1 < 2 ^ 32
      → IsValid (new_tab m pane).0
  unfolding new_tab
  new_tab-IsValid m pane v h = pushed m pane (length m.tabs) v h (omega arith)

  active_after-InRange :
      (m : TabManager F) (index : ℕ)
      → IsValid m
      → index < length m.tabs
      → InRange
          (erase_idx m.tabs index)
          (active_after m.active index (length (erase_idx m.tabs index)))
  active_after-InRange m index v h =
      let a = v.active_in in ground (arith, length-erase_idx m.tabs index h)

  pub remove_tab-IsValid :
      (m : TabManager F) (index : ℕ) → IsValid m → IsValid (remove_tab m index).0
  unfolding remove_tab
  remove_tab-IsValid m index v = elim (Option-cases (get_elem? m.tabs index)) [
    | inl e ↦ rw (e, remove_tab) v
    | inr (tab, e) ↦
        rw (e, remove_tab)
          (record {
            active_in = active_after-InRange m index v (get_elem?_lt m.tabs index e);
            unique = λ a. omega (arith, v.unique a, sum_of-erase_idx (has_id a) m.tabs index e);
            fresh = λ a le. omega (arith, v.fresh a le, sum_of-erase_idx (has_id a) m.tabs index e);
            bounded = v.bounded;
            trees = All-erase_idx _ m.tabs index v.trees;
          })
  ]

  -- A tab may be put in place of another one with its id, if it has a valid tree.
  pub set-IsValid :
      (m : TabManager F) (index : ℕ) {tab : Tab F} (tab' : Tab F)
      → get_elem? m.tabs index ≡ some tab
      → tab'.id ≡ tab.id
      → Occupied tab'.split_tree
      → IsValid m
      → IsValid (record m { tabs = set m.tabs index tab' })
  set-IsValid m index {tab} tab' e same o v =
      let sums = λ (a : ℕ). sum_of-set (has_id a) m.tabs index tab' e in
      let counts = λ (a : ℕ). ap {B = ℕ} (λ i. if i == a then 1 else 0) same in
      record {
        active_in = let r = v.active_in in rw (length-set m.tabs index tab') r;
        unique = λ a. omega (arith, v.unique a, sums a, counts a);
        fresh = λ a le. omega (arith, v.fresh a le, sums a, counts a);
        bounded = v.bounded;
        trees = All-set _ m.tabs index tab' v.trees o;
      }

  pub with_active-IsValid {ℓ} :
      {A : Type ℓ} (m : TabManager F) (failed : A) (f : Tab F → Tab F × A)
      → ((tab : Tab F) → Occupied tab.split_tree → Occupied (f tab).0.split_tree)
      → ((tab : Tab F) → (f tab).0.id ≡ tab.id)
      → IsValid m
      → IsValid (with_active m failed f).0
  with_active-IsValid m failed f keeps same v = elim (Option-cases (get_elem? m.tabs m.active)) [
    | inl e ↦ rw (e, with_active) v
    | inr (tab, e) ↦
        rw (e, with_active)
          (set-IsValid m m.active (f tab).0 e (same tab)
            (keeps tab (All-get_elem? _ m.tabs m.active v.trees e)) v)
  ]
