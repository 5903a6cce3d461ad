-- ===== src/Tabs/Going.antt =====
-- Choosing the active tab in src/tabs.rs: `goto_tab`, `next_tab` and `prev_tab`.
use boo.Base.{
  ℕ, suc, ◌+◌, ◌-◌, ◌%◌, ◌<◌, ◌≤◌, ◌≡◌, ◌≢◌, refl, sym, inl, inr, Bool, true, false, not, Option,
  none, some, List, [], ◌++◌, arith, length, get_elem?, get_elem?-some, get_elem?_lt,
  get_elem?-erase_idx, length-erase_idx, erase_idx, ltb, leb, ◌==◌, if◌then◌else◌, Option-cases,
  Bool-cases,
}
use boo.Splits.Frames.{ViewCall}
use boo.Tabs.Manager.{
  Tab, TabManager, hide_at, goto_tab, next_tab, prev_tab, remove_tab, active_after,
}
use boo.Tabs.Invariant.{IsValid}

module _ {F : Type 0} where
  -- The manager after a move from the active tab to another one.
  abbrev pub moved : TabManager F → ℕ → TabManager F
  moved m index = record m { prev_active = m.active; active = index }

  -- A move to another tab in range hides the views of the old one and shows those of the new one.
  pub goto_tab_other :
      (m : TabManager F) (index : ℕ)
      → IsValid m
      → index < length m.tabs
      → index ≢ m.active
      → goto_tab m index
        ≡ some (moved m index, true, hide_at m.tabs m.active true ++ hide_at m.tabs index false)
  unfolding goto_tab
  goto_tab_other m index v h ne =
      let here = v.active_in in
      let (old, e) = get_elem?-some m.tabs m.active (omega arith) in
      let (new, e') = get_elem?-some m.tabs index h in ground (arith, e, e')

  moved-IsValid :
      (m : TabManager F) (index : ℕ) → IsValid m → index < length m.tabs → IsValid (moved m index)
  moved-IsValid m index v h = record {
    active_in = inl h;
    unique = v.unique;
    fresh = v.fresh;
    bounded = v.bounded;
    trees = v.trees;
  }

  -- What every move of the active tab promises: no panic, a valid manager, the same tabs and ids.
  abbrev pub Goes : TabManager F → ℕ → Option (TabManager F × Bool × List (ViewCall F)) → Type 0
  Goes m target none = ⊥
  Goes m target (some (m', done, calls)) =
      IsValid m'
      × (m'.tabs ≡ m.tabs)
      × (m'.next_tab_id ≡ m.next_tab_id)
      × (m'.active ≡ target)
      × (done ≡ not (target == m.active))

  stays : (m : TabManager F) → IsValid m → Goes m m.active (some (m, false, []))
  stays m v = (v, refl, refl, refl, ground arith)

  goes :
      (m : TabManager F) (index : ℕ)
      → IsValid m
      → index < length m.tabs
      → Goes m index (goto_tab m index)
  unfolding goto_tab
  goes m index v h = elim (Bool-cases (index == m.active)) [
    | inl same ↦
        let e : index ≡ m.active = ground arith in
        let stay : goto_tab m index ≡ some (m, false, []) = ground arith in
        rw stay (v, refl, refl, sym e, ground arith)
    | inr other ↦
        let ne : index ≢ m.active = ground arith in
        rw (goto_tab_other m index v h ne)
          (moved-IsValid m index v h, refl, refl, refl, ground arith)
  ]

  -- In a valid manager `goto_tab` does not panic. It makes the tab at the index active if there is
  -- one, keeps the tabs and the next id, reports a move exactly when the active index changes, and
  -- leaves a valid manager.
  pub goto_tab-Goes :
      (m : TabManager F) (index : ℕ)
      → IsValid m
      → Goes m (if ltb index (length m.tabs) then index else m.active) (goto_tab m index)
  unfolding goto_tab
  goto_tab-Goes m index v = elim (Bool-cases (ltb index (length m.tabs))) [
    | inl within ↦ rw within (goes m index v (ground arith))
    | inr beyond ↦
        let stay : goto_tab m index ≡ some (m, false, []) = ground arith in
        rw (beyond, stay) (stays m v)
  ]

  -- the index that `next_tab` and `prev_tab` go to
  abbrev pub around : Bool → TabManager F → ℕ
  around forward m =
      if leb (length m.tabs) 1
      then m.active
      else if forward
      then (m.active + 1) % length m.tabs
      else if m.active == 0
      then length m.tabs - 1
      else m.active - 1

  pub next_tab-Goes : (m : TabManager F) → IsValid m → Goes m (around true m) (next_tab m)
  unfolding next_tab
  next_tab-Goes m v = elim (Bool-cases (leb (length m.tabs) 1)) [
    | inl few ↦ rw (few, next_tab) (stays m v)
    | inr many ↦ rw (many, next_tab) (goes m ((m.active + 1) % length m.tabs) v (ground arith))
  ]

  pub prev_tab-Goes : (m : TabManager F) → IsValid m → Goes m (around false m) (prev_tab m)
  unfolding prev_tab
  prev_tab-Goes m v = elim (Bool-cases (leb (length m.tabs) 1)) [
    | inl few ↦ rw (few, prev_tab) (stays m v)
    | inr many ↦
        rw (many, prev_tab)
          (goes m (if m.active == 0 then length m.tabs - 1 else m.active - 1) v
            (let a = v.active_in in ground arith))
  ]

  -- With two tabs or more, the previous tab of the next tab is the tab itself, and the other way round.
  pub around_back :
      (forward : Bool) (m : TabManager F)
      → IsValid m
      → around (not forward) (moved m (around forward m)) ≡ m.active
  around_back true m v = let a = v.active_in in grind arith
  around_back false m v = let a = v.active_in in grind arith

  next_tab_many :
      (m : TabManager F)
      → IsValid m
      → 2 ≤ length m.tabs
      → (calls : List (ViewCall F)) × (next_tab m ≡ some (moved m (around true m), true, calls))
  unfolding next_tab
  next_tab_many m v h =
      let a = v.active_in in
      let i = (m.active + 1) % length m.tabs in
      let e = goto_tab_other m i v (ground arith) (grind arith) in
      (hide_at m.tabs m.active true ++ hide_at m.tabs i false, ground (arith, e))

  prev_tab_many :
      (m : TabManager F)
      → IsValid m
      → 2 ≤ length m.tabs
      → (calls : List (ViewCall F)) × (prev_tab m ≡ some (moved m (around false m), true, calls))
  unfolding prev_tab
  prev_tab_many m v h =
      let a = v.active_in in
      let i = if m.active == 0 then length m.tabs - 1 else m.active - 1 in
      let e = goto_tab_other m i v (ground arith) (ground arith) in
      (hide_at m.tabs m.active true ++ hide_at m.tabs i false, ground (arith, e))

  -- In a valid manager with two tabs or more, `prev_tab` after `next_tab` is back at the same tab;
  -- both report a move, and the tabs stay.
  pub prev_tab-next_tab :
      (m : TabManager F)
      → IsValid m
      → 2 ≤ length m.tabs
      → (m' : TabManager F) × (m'' : TabManager F) × (calls : List (ViewCall F)) × (calls' : List
          (ViewCall F))
        × (next_tab m ≡ some (m', true, calls))
        × (prev_tab m' ≡ some (m'', true, calls'))
        × (m''.active ≡ m.active)
        × (m''.tabs ≡ m.tabs)
  prev_tab-next_tab m v h =
      let m' = moved m (around true m) in
      let v' : IsValid m' =
        let a = v.active_in in moved-IsValid m (around true m) v (ground arith) in
      let (calls, e) = next_tab_many m v h in
      let (calls', e') = prev_tab_many m' v' h in
      (m', moved m' (around false m'), calls, calls', e, e', around_back true m v, refl)

  erase_idx-active :
      (tabs : List (Tab F)) (index active : ℕ)
      → index < length tabs
      → active < length tabs
      → index ≢ active
      → get_elem? (erase_idx tabs index) (active_after active index (length (erase_idx tabs index)))
        ≡ get_elem? tabs active
  erase_idx-active tabs index active h h' ne =
      let left = erase_idx tabs index in
      let a = active_after active index (length left) in
      let less : (if ltb a index then a else suc a) ≡ active =
        ground (arith, length-erase_idx tabs index h) in
      ground (arith, get_elem?-erase_idx tabs index a, less)

  -- In a valid manager, closing another tab than the active one leaves the same tab active.
  pub active-remove_tab :
      (m : TabManager F) (index : ℕ)
      → IsValid m
      → index ≢ m.active
      → get_elem? (remove_tab m index).0.tabs (remove_tab m index).0.active
        ≡ get_elem? m.tabs m.active
  unfolding remove_tab
  active-remove_tab m index v ne = elim (Option-cases (get_elem? m.tabs index)) [
    | inl e ↦ rw (e, remove_tab) refl
    | inr (tab, e) ↦
        let here = get_elem?_lt m.tabs index e in
        let there : m.active < length m.tabs = let a = v.active_in in omega arith in
        rw (e, remove_tab) (erase_idx-active m.tabs index m.active here there ne)
  ]
