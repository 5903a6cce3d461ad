-- ===== src/Splits/Rotation.antt =====
-- `rotate_panes` of src/splits.rs, as a rotation of the list of panes.
use boo.Base.{
  ℕ, suc, ◌-◌, ◌^◌, ◌<◌, ◌≤◌, ◌≡◌, refl, sym, ap, ◌∙◌, Bool, true, false, Option, none, some, List,
  [], ◌∷◌, ◌++◌, arith, length, length-append, length-map, take, last_or, count, IsUnique, dec_lt,
}
use boo.Pane.{PaneHandle}
use boo.Splits.Node.{Node, assign_leaf_panes}
use boo.Splits.Entries.{Entry, ids, panes, find}
use boo.Splits.Leaves.{leaves, find_leaf-eq-find, collect_leaf_ids-eq-ids}
use boo.Splits.Assigning.{assign_leaf_panes_lem}
use boo.Splits.Tree.{SplitTree, tree, panes_of, rotated, rotate_panes}
use boo.Splits.Invariant.{IsValid, entries, root_changed}

suc-sub-one : (n : ℕ) → suc n - 1 ≡ n
suc-sub-one n = omega arith

length-take_init :
    (p : PaneHandle) (ps : List PaneHandle) → length (take (length ps) (p ∷ ps)) ≡ length ps
length-take_init p [] = refl
length-take_init p (q ∷ ps) = ap suc (length-take_init q ps)

pub length-rotated :
    (forward : Bool) (ps : List PaneHandle)
    → 0 < length ps
    → length (rotated forward ps) ≡ length ps
unfolding rotated
length-rotated true [] h = absurd (omega arith)
length-rotated true (p ∷ ps) h =
    ap suc (ap (λ k. length (take k (p ∷ ps))) (suc-sub-one (length ps)) ∙ length-take_init p ps)
length-rotated false [] h = absurd (omega arith)
length-rotated false (p ∷ ps) h = omega (arith, length-append ps (p ∷ []))

take_init-last :
    (p : PaneHandle) (ps : List PaneHandle)
    → take (length ps) (p ∷ ps) ++ last_or p ps ∷ [] ≡ p ∷ ps
take_init-last p [] = refl
take_init-last p (q ∷ ps) = ap (λ l. p ∷ l) (take_init-last q ps)

-- One step back undoes one step forward.
pub rotated_back : (ps : List PaneHandle) → 0 < length ps → rotated false (rotated true ps) ≡ ps
unfolding rotated
rotated_back [] h = absurd (omega arith)
rotated_back (p ∷ ps) h =
    ap (λ k. take k (p ∷ ps) ++ last_or p ps ∷ []) (suc-sub-one (length ps)) ∙ take_init-last p ps

-- A rotation by one place: the last becomes the first, or the first becomes the last.
abbrev pub Rotated : Bool → List PaneHandle → List PaneHandle → Type 0
Rotated true before after =
    (q : PaneHandle) × (qs : List PaneHandle) × (before ≡ qs ++ q ∷ []) × (after ≡ q ∷ qs)
Rotated false before after =
    (q : PaneHandle) × (qs : List PaneHandle) × (before ≡ q ∷ qs) × (after ≡ qs ++ q ∷ [])

rotated-Rotated :
    (forward : Bool) (ps : List PaneHandle)
    → 0 < length ps
    → Rotated forward ps (rotated forward ps)
unfolding rotated
rotated-Rotated true [] h = absurd (omega arith)
rotated-Rotated true (p ∷ ps) h = (
  last_or p ps,
  take (length ps) (p ∷ ps),
  sym (take_init-last p ps),
  ap (λ k. last_or p ps ∷ take k (p ∷ ps)) (suc-sub-one (length ps)),
)
rotated-Rotated false [] h = absurd (omega arith)
rotated-Rotated false (p ∷ ps) h = (p, ps, refl, refl)

find_all : List Entry → List ℕ → List PaneHandle
find_all es [] = []
find_all es (i ∷ is) =
    let rest = find_all es is in elim (find i es) [ none ↦ rest | some p ↦ p ∷ rest ]

find_all_skip :
    (i : ℕ) (p : PaneHandle) (es : List Entry) (is : List ℕ)
    → count i is ≡ 0
    → find_all ((i, p) ∷ es) is ≡ find_all es is
unfolding find_all
find_all_skip i p es [] h = refl
find_all_skip i p es (j ∷ is) h = ground (arith, find_all_skip i p es is)

find_all-ids : (es : List Entry) → IsUnique (ids es) → find_all es (ids es) ≡ panes es
unfolding find_all
find_all-ids [] u = refl
find_all-ids ((i, p) ∷ es) u =
    ground (arith, u i, find_all_skip i p es (ids es), find_all-ids es (λ a. omega (arith, u a)))

module _ {F : Type 0} where
  panes_of-eq-find_all :
      (root : Node F) (is : List ℕ) → panes_of root is ≡ find_all (leaves root) is
  unfolding panes_of find_all
  panes_of-eq-find_all root [] = refl
  panes_of-eq-find_all root (i ∷ is) =
      ground (arith, find_leaf-eq-find root i, panes_of-eq-find_all root is)

  pub panes_of-ids :
      (root : Node F)
      → IsUnique (ids (leaves root))
      → panes_of root (ids (leaves root)) ≡ panes (leaves root)
  panes_of-ids root u = panes_of-eq-find_all root (ids (leaves root)) ∙ find_all-ids (leaves root) u

  pub rotate_root :
      (root : Node F) (n f : ℕ) (forward : Bool)
      → IsUnique (ids (leaves root))
      → 2 ≤ length (leaves root)
      → rotate_panes (tree (some root) n f) forward ≡ (
        tree
            (some
              (assign_leaf_panes root
                (ids (leaves root))
                (rotated forward (panes (leaves root)))).0)
            n
            f,
        (assign_leaf_panes root (ids (leaves root)) (rotated forward (panes (leaves root)))).1,
      )
  unfolding rotate_panes
  rotate_root root n f forward u h =
      rw (collect_leaf_ids-eq-ids root, panes_of-ids root u)
        (ground (
          arith,
          length-map {0, 0} (λ (e : Entry). e.0) (leaves root),
          length-map {0, 0} (λ (e : Entry). e.1) (leaves root),
        ))

  pub rotate_panes_root :
      (root : Node F) (n f : ℕ) (forward : Bool)
      → IsUnique (ids (leaves root))
      → 2 ≤ length (leaves root)
      → (panes (entries (rotate_panes (tree (some root) n f) forward).0)
          ≡ rotated forward (panes (leaves root)))
        × (ids (entries (rotate_panes (tree (some root) n f) forward).0) ≡ ids (leaves root))
        × (length (leaves root) < 2 ^ 64 → (rotate_panes (tree (some root) n f) forward).1 ≡ true)
  rotate_panes_root root n f forward u h =
      let sizes = length-map {0, 0} (λ (e : Entry). e.1) (leaves root) in
      let kept = length-rotated forward (panes (leaves root)) (omega (arith, sizes)) in
      let x =
        assign_leaf_panes_lem root (rotated forward (panes (leaves root))) u
          (omega (arith, sizes, kept)) in
      rw (rotate_root root n f forward u h) (x.0, x.1, λ b. x.2 (omega (arith, sizes, kept)))

  pub rotate_few :
      (root : Node F) (n f : ℕ) (forward : Bool)
      → length (leaves root) < 2
      → rotate_panes (tree (some root) n f) forward ≡ (tree (some root) n f, false)
  unfolding rotate_panes
  rotate_few root n f forward h =
      rw (collect_leaf_ids-eq-ids root)
        (ground (arith, length-map {0, 0} (λ (e : Entry). e.0) (leaves root)))

  pub rotate_panes-IsValid :
      (t : SplitTree F) (forward : Bool) → IsValid t → IsValid (rotate_panes t forward).0
  unfolding rotate_panes
  rotate_panes-IsValid t forward = go t.root t.next_id t.focused_id
    where
      go :
          (r : Option (Node F)) (n f : ℕ)
          → IsValid (tree r n f)
          → IsValid (rotate_panes (tree r n f) forward).0
      go none n f v = v
      go (some root) n f v = elim (dec_lt (length (leaves root)) 2) [
        | yes few ↦ rw (rotate_few root n f forward few) v
        | no many ↦
            let h : 2 ≤ length (leaves root) = omega arith in
            let e = rotate_root root n f forward v.unique h in
            rw e (root_changed v (rw e at ((rotate_panes_root root n f forward v.unique h).1)))
      ]

  -- In a valid tree with at least two and fewer than 2 ^ 64 leaves, `rotate_panes` forward moves
  -- the last pane to the front of the panes along the leaves, and backward the first pane to the
  -- end, with the others in their order. It keeps the leaf ids, the focus and the next id, and
  -- reports success.
  pub rotate_panes_lem :
      (root : Node F) (n f : ℕ) (forward : Bool)
      → IsValid (tree (some root) n f)
      → 2 ≤ length (leaves root)
      → length (leaves root) < 2 ^ 64
      → (root' : Node F) × (rotate_panes (tree (some root) n f) forward
          ≡ (tree (some root') n f, true))
        × Rotated forward (panes (leaves root)) (panes (leaves root'))
        × (ids (leaves root') ≡ ids (leaves root))
  rotate_panes_lem root n f forward v h b =
      let e = rotate_root root n f forward v.unique h in
      let x = rotate_panes_root root n f forward v.unique h in
      let qs = rotated forward (panes (leaves root)) in
      let some_pane : 0 < length (panes (leaves root)) =
        omega (arith, length-map {0, 0} (λ (e : Entry). e.1) (leaves root)) in
      (
        (assign_leaf_panes root (ids (leaves root)) qs).0,
        e
            ∙ ap (λ c. (tree (some (assign_leaf_panes root (ids (leaves root)) qs).0) n f, c))
                (rw e at (x.2 b)),
        rw (rw e at (x.0)) (rotated-Rotated forward (panes (leaves root)) some_pane),
        rw e at (x.1),
      )
