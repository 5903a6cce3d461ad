-- ===== src/Splits/Counting.antt =====
-- How often each pane stands in a tree of src/splits.rs, under arrangements and removals.
use boo.Base.{
  ℕ, suc, ◌+◌, ◌-◌, ◌<◌, ◌≡◌, refl, sym, ap, ◌∙◌, inl, inr, Bool, true, false, Option, none, some,
  List, [], ◌∷◌, ◌++◌, map, map-append, arith, length, count, count-append, take, last_or, ◌==◌,
  if◌then◌else◌, Option-cases,
}
use boo.Pane.{PaneHandle}
use boo.Splits.Node.{
  Node, find_leaf_id_by_pane, find_leaf, remove_leaf, RemoveResult, removed, not_found,
}
use boo.Splits.Entries.{
  Entry, panes, find, find_pane, put, take_out, find-put, find-count, find-find_pane, find-take_out,
}
use boo.Splits.Leaves.{
  count_leaves-eq-length, leaves, rest_leaves, remove_leaf-eq-take_out, find_leaf-eq-find,
  find_leaf_id_by_pane-eq-find_pane,
}
use boo.Splits.Tree.{
  SplitTree, tree, len, remove_focused, remove_pane, focused_pane, rotated, finish_removal,
}
use boo.Splits.Invariant.{IsValid, entries, focus_found}

abbrev pub pane_ids : List PaneHandle → List ℕ
pane_ids = map λ p. p.id

abbrev pub is_pane : ℕ → PaneHandle → ℕ
is_pane k p = if p.id == k then 1 else 0

abbrev pub count_panes : ℕ → List Entry → ℕ
count_panes k es = count k (pane_ids (panes es))

count_panes-take_out :
    (k i : ℕ) (es : List Entry) {p : PaneHandle} {rest : List Entry}
    → take_out i es ≡ some (p, rest)
    → count_panes k es ≡ count_panes k rest + is_pane k p
count_panes-take_out k i [] h = cc
count_panes-take_out k i ((j, q) ∷ es) {p} {rest} h = elim (Option-cases (take_out i es)) [
  | inl e ↦ ground arith
  | inr ((q', fs), e) ↦ ground (arith, count_panes-take_out k i es e)
]

count_panes-put :
    (k i : ℕ) (q : PaneHandle) (es : List Entry) {p : PaneHandle}
    → find i es ≡ some p
    → count_panes k (put i q es) + is_pane k p ≡ count_panes k es + is_pane k q
count_panes-put k i q [] h = cc
count_panes-put k i q ((j, p') ∷ es) {p} h = ground (arith, count_panes-put k i q es {p = p})

-- The swap of two entries.
pub count_panes-swap :
    (k a b : ℕ) (es : List Entry) {p q : PaneHandle}
    → find a es ≡ some p
    → find b es ≡ some q
    → count_panes k (put b p (put a q es)) ≡ count_panes k es
count_panes-swap k a b es {p} {q} ha hb = ground (
  arith,
  count_panes-put k a q es ha,
  find-put a b q es,
  count_panes-put k b p (put a q es) {p = q},
)

take_init_count :
    (k : ℕ) (p : PaneHandle) (ps : List PaneHandle)
    → count k (pane_ids (take (length ps) (p ∷ ps))) + is_pane k (last_or p ps)
      ≡ count k (pane_ids (p ∷ ps))
take_init_count k p [] = omega arith
take_init_count k p (q ∷ ps) = omega (arith, take_init_count k q ps)

count-append_ids :
    (k : ℕ) (ps qs : List PaneHandle)
    → count k (pane_ids (ps ++ qs)) ≡ count k (pane_ids ps) + count k (pane_ids qs)
count-append_ids k ps qs =
    ap (count k) (map-append (λ p. p.id) ps qs) ∙ count-append k (pane_ids ps) (pane_ids qs)

pub count-rotated :
    (k : ℕ) (forward : Bool) (ps : List PaneHandle)
    → 0 < length ps
    → count k (pane_ids (rotated forward ps)) ≡ count k (pane_ids ps)
unfolding rotated
count-rotated k true [] h = absurd (omega arith)
count-rotated k true (p ∷ ps) h =
    let e : suc (length ps) - 1 ≡ length ps = omega arith in
    omega (arith, ap (λ n. count k (pane_ids (take n (p ∷ ps)))) e, take_init_count k p ps)
count-rotated k false [] h = absurd (omega arith)
count-rotated k false (p ∷ ps) h = omega (arith, count-append_ids k ps (p ∷ []))

length-take_out :
    (i : ℕ) (es : List Entry) {p : PaneHandle} {rest : List Entry}
    → take_out i es ≡ some (p, rest)
    → suc (length rest) ≡ length es
length-take_out i [] h = cc
length-take_out i ((j, q) ∷ es) {p} {rest} h = elim (Option-cases (take_out i es)) [
  | inl e ↦ ground arith
  | inr ((q', fs), e) ↦ ground (arith, length-take_out i es e)
]

module _ {F : Type 0} where
  -- how often a pane's id stands in a tree
  abbrev pub tree_count : ℕ → SplitTree F → ℕ
  tree_count k t = count_panes k (entries t)

  -- A removal that finds its leaf takes one pane out of the tree.
  abbrev pub Removes : SplitTree F → PaneHandle → SplitTree F × Option PaneHandle → Type 0
  Removes t p x =
      (x.1 ≡ some p)
      × ((k : ℕ) → tree_count k t ≡ tree_count k x.0 + is_pane k p)
      × (suc (length (entries x.0)) ≡ length (entries t))

  finish_removal-Removes :
      (root : Node F) (n f i : ℕ) {p : PaneHandle}
      → find i (leaves root) ≡ some p
      → Removes
          (tree (some root) n f)
          p
          (finish_removal (tree (some root) n f) (remove_leaf root i))
  finish_removal-Removes root n f i {p} h = go (remove_leaf root i) refl
    where
      go :
          (r : RemoveResult F)
          → remove_leaf root i ≡ r
          → Removes (tree (some root) n f) p (finish_removal (tree (some root) n f) r)
      go (removed q rest) e =
          let es = leaves root in
          let out : take_out i es ≡ some (q, rest_leaves rest) =
            rw e at (sym (remove_leaf-eq-take_out root i)) in
          let same : q ≡ p = ground (arith, find-take_out i es, out, h) in
          (
            ap some same,
            λ k. omega (arith, count_panes-take_out k i es out, ap {B = ℕ} (is_pane k) same),
            length-take_out i es out,
          )
      go (not_found node) e =
          let out : take_out i (leaves root) ≡ none =
            rw e at (sym (remove_leaf-eq-take_out root i)) in
          absurd (ground (arith, find-take_out i (leaves root), out, h))

  -- A valid tree with a root gives up its focused pane.
  pub remove_focused-Removes :
      (root : Node F) (n f : ℕ)
      → IsValid (tree (some root) n f)
      → Removes
          (tree (some root) n f)
          (focused_pane (tree (some root) n f))
          (remove_focused (tree (some root) n f))
  unfolding remove_focused focused_pane
  remove_focused-Removes root n f v =
      let (p, e) = find-count f (leaves root) (focus_found v) in
      let found : find_leaf root f ≡ some p = find_leaf-eq-find root f ∙ e in
      rw found (finish_removal-Removes root n f f e)

  -- In a valid tree with a pane of a given id, `remove_pane` returns a pane with this id; of the
  -- panes with any id the tree then has one less if it is the id of that pane, and as many as
  -- before if not; and it has one leaf less.
  pub remove_pane-Removes :
      (t : SplitTree F) (k : ℕ) {i : ℕ}
      → IsValid t
      → find_pane k (entries t) ≡ some i
      → (p : PaneHandle) × (p.id ≡ k) × Removes t p (remove_pane t k)
  unfolding remove_pane
  remove_pane-Removes t k {i} = go t.root t.next_id t.focused_id
    where
      go :
          (r : Option (Node F)) (n f : ℕ)
          → IsValid (tree r n f)
          → find_pane k (entries (tree r n f)) ≡ some i
          → (p : PaneHandle) × (p.id ≡ k) × Removes (tree r n f) p (remove_pane (tree r n f) k)
      go none n f v h = cc
      go (some root) n f v h =
          let (p, found, same) = find-find_pane k (leaves root) v.unique h in
          let e : find_leaf_id_by_pane root k ≡ some i =
            find_leaf_id_by_pane-eq-find_pane root k ∙ h in
          (p, same, rw (e, remove_pane) (finish_removal-Removes root n f i found))

  -- In a valid tree with a pane, `remove_focused` returns the focused pane; of the panes with any
  -- id the tree then has one less if it is the id of that pane, and as many as before if not; and
  -- it has one leaf less.
  pub remove_focused_lem :
      (t : SplitTree F)
      → IsValid t
      → 0 < length (entries t)
      → Removes t (focused_pane t) (remove_focused t)
  remove_focused_lem t = go t.root t.next_id t.focused_id
    where
      go :
          (r : Option (Node F)) (n f : ℕ)
          → IsValid (tree r n f)
          → 0 < length (entries (tree r n f))
          → Removes (tree r n f) (focused_pane (tree r n f)) (remove_focused (tree r n f))
      go none n f v h = absurd (omega arith)
      go (some root) n f v h = remove_focused-Removes root n f v

  pub len-eq-length : (t : SplitTree F) → len t ≡ length (entries t)
  unfolding len
  len-eq-length t = go t.root t.next_id t.focused_id
    where
      go : (r : Option (Node F)) (n f : ℕ) → len (tree r n f) ≡ length (entries (tree r n f))
      go none n f = refl
      go (some root) n f = count_leaves-eq-length root
