-- ===== src/Splits/Pointing.antt =====
-- Moving the focus in src/splits.rs by a point and by a direction.
use boo.Base.{
  Any, ℕ, ◌<◌, ◌≡◌, ◌≢◌, refl, ◌∙◌, true, false, Option, none, some, List, [], ◌∷◌, map, arith,
  count, ◌==◌, Option-cases, Bool-cases, inl, inr, ◌⊎◌, ap,
}
use boo.Double.{Double}
use boo.Geometry.{Rect}
use boo.Splits.Node.{Node}
use boo.Splits.Entries.{ids}
use boo.Splits.Leaves.{leaves}
use boo.Splits.Frames.{leaf_at_point, ExportedPane, export_node_with_frame}
use boo.Splits.Hits.{count-leaf_at_point, entry, export_node_with_frame-leaves}
use boo.Splits.Tree.{SplitTree, tree, export_panes_with_frames}
use boo.Splits.Focus.{
  focus_at, focus_direction, PaneFocusDirection, consider, best_pane, find_exported, distances,
  is_better,
}
use boo.Splits.Distances.{Beyond, distances-Beyond}
use boo.Splits.Blocking.{Blocked, best_pane-none, find_exported-none, find_exported-bare}
use boo.Splits.Invariant.{IsValid, focus_moved}

module _ {F : Type 0} where
  count-Any :
      (i : ℕ) (es : List (ExportedPane F))
      → Any (λ e. e.leaf_id ≡ i) es
      → 0 < count i (ids (map entry es))
  count-Any i [] h = absurd h
  count-Any i (e ∷ es) h = elim h [
    | inl same ↦ ground arith
    | inr rest ↦ omega (arith, count-Any i es rest)
  ]

  Any-imp :
      (P Q : ExportedPane F → Type 0)
      → ((e : ExportedPane F) → P e → Q e)
      → (es : List (ExportedPane F)) → Any P es
      → Any Q es
  Any-imp P Q f [] h = h
  Any-imp P Q f (e ∷ es) h = elim h [
    | inl here ↦ inl (f e here)
    | inr rest ↦ inr (Any-imp P Q f es rest)
  ]

module _ {F : Type 0} ⦃d : Double F⦄ where
  pub focus_at-IsValid :
      (t : SplitTree F) (frame : Rect F) (p : F × F) → IsValid t → IsValid (focus_at t frame p).0
  unfolding focus_at
  focus_at-IsValid t frame p = go t.root t.next_id t.focused_id
    where
      go :
          (r : Option (Node F)) (n f : ℕ)
          → IsValid (tree r n f)
          → IsValid (focus_at (tree r n f) frame p).0
      go none n f v = v
      go (some root) n f v = elim (Option-cases (leaf_at_point root frame p)) [
        | inl e ↦ rw (e, focus_at) v
        | inr (i, e) ↦ elim (Bool-cases (i == f)) [
          | inl same ↦ rw (e, focus_at, same) v
          | inr other ↦ rw (e, focus_at, other) (focus_moved v (count-leaf_at_point root frame p e))
        ]
      ]

  -- An exported pane that a move in a direction may take, with its two distances.
  abbrev pub Candidate : PaneFocusDirection → ℕ → Rect F → ℕ × F × F → ExportedPane F → Type 0
  Candidate dir current_id current c e =
      (e.leaf_id ≡ c.0)
      × (e.leaf_id ≢ current_id)
      × ((r : Rect F) × (e.frame ≡ some r) × Beyond dir current r (c.1, c.2))

  consider_lem :
      (dir : PaneFocusDirection) (i : ℕ) (current : Rect F) (e : ExportedPane F)
      (best : Option (ℕ × F × F)) (c : ℕ × F × F)
      → consider dir i current e best ≡ some c
      → (best ≡ some c) ⊎ Candidate dir i current c e
  unfolding consider
  consider_lem dir i current e best c h = elim (Bool-cases (e.leaf_id == i)) [
    | inl same ↦ inl (ground arith)
    | inr other ↦ elim (Option-cases e.frame) [
      | inl bare ↦ inl (ground arith)
      | inr (r, framed) ↦ elim (Option-cases (distances dir current r)) [
        | inl away ↦ inl (ground arith)
        | inr (m, near) ↦ elim (Bool-cases (is_better m best)) [
          | inl better ↦
              let taken : (e.leaf_id, m.0, m.1) ≡ c = ground arith in
              let pair : m ≡ (c.1, c.2) = ap (λ x. (x.1, x.2)) taken in
              let beyond = distances-Beyond dir current r m near in
              inr (ap (λ x. x.0) taken, ground arith, (r, framed, rw pair at beyond))
          | inr worse ↦ inl (ground arith)
        ]
      ]
    ]
  ]

  best_pane_lem :
      (dir : PaneFocusDirection) (i : ℕ) (current : Rect F) (es : List (ExportedPane F))
      (best : Option (ℕ × F × F)) (c : ℕ × F × F)
      → best_pane dir i current es best ≡ some c
      → (best ≡ some c) ⊎ Any (Candidate dir i current c) es
  unfolding best_pane
  best_pane_lem dir i current [] best c h = inl h
  best_pane_lem dir i current (e ∷ es) best c h =
      elim (best_pane_lem dir i current es (consider dir i current e best) c h) [
        | inl earlier ↦ elim (consider_lem dir i current e best c earlier) [
          | inl first ↦ inl first
          | inr here ↦ inr (inl here)
        ]
        | inr later ↦ inr (inr later)
      ]

  -- What a successful move in a direction rests on: the focused pane as exported, and a candidate.
  abbrev pub Directed : PaneFocusDirection → ℕ → ℕ → List (ExportedPane F) → Type 0
  Directed dir old new es =
      (current : Rect F) × (a : F) × (b : F) × Any
        (λ e. (e.leaf_id ≡ old) × (e.frame ≡ some current)) es
      × Any (Candidate dir old current (new, a, b)) es

  pub find_exported_lem :
      (i : ℕ) (es : List (ExportedPane F)) {e : ExportedPane F} {r : Rect F}
      → find_exported i es ≡ some e
      → e.frame ≡ some r
      → (e.leaf_id ≡ i) × Any (λ e'. (e'.leaf_id ≡ i) × (e'.frame ≡ some r)) es
  unfolding find_exported
  find_exported_lem i [] h g = cc
  find_exported_lem i (x ∷ es) {e} {r} h g = elim (Bool-cases (x.leaf_id == i)) [
    | inl hit ↦ (ground arith, inl (ground arith, ground arith))
    | inr miss ↦
        let (same, rest) = find_exported_lem i es {e = e} {r = r} (ground arith) g in
        (same, inr rest)
  ]

  pub Candidate-ne :
      (dir : PaneFocusDirection) (i : ℕ) (current : Rect F) (c : ℕ × F × F)
      (es : List (ExportedPane F))
      → Any (Candidate dir i current c) es
      → c.0 ≢ i
  Candidate-ne dir i current c [] h = absurd h
  Candidate-ne dir i current c (e ∷ es) h = elim h [
    | inl here ↦ λ same. here.1 (here.0 ∙ same)
    | inr rest ↦ Candidate-ne dir i current c es rest
  ]

  pub focus_direction_at :
      (t : SplitTree F) (frame : Rect F) (dir : PaneFocusDirection) {e : ExportedPane F}
      {current : Rect F}
      → find_exported t.focused_id (export_panes_with_frames t frame) ≡ some e
      → e.frame ≡ some current
      → (i : ℕ) (a b : F)
      → best_pane dir e.leaf_id current (export_panes_with_frames t frame) none ≡ some (i, a, b)
      → (i == t.focused_id) ≡ false
      → focus_direction t frame dir ≡ (record t { focused_id = i }, true)
  unfolding focus_direction
  focus_direction_at t frame dir found framed i a b best other = ground arith

  focus_direction_found :
      (t : SplitTree F) (frame : Rect F) (dir : PaneFocusDirection) {e : ExportedPane F}
      {current : Rect F}
      → find_exported t.focused_id (export_panes_with_frames t frame) ≡ some e
      → e.frame ≡ some current
      → (i : ℕ) (a b : F)
      → best_pane dir e.leaf_id current (export_panes_with_frames t frame) none ≡ some (i, a, b)
      → ((focus_direction t frame dir).1 ≡ true)
        × Directed dir t.focused_id
            (focus_direction t frame dir).0.focused_id
            (export_panes_with_frames t frame)
  focus_direction_found t frame dir {e} {current} found framed i a b best =
      let es = export_panes_with_frames t frame in
      let (same, seen) = find_exported_lem t.focused_id es found framed in
      let taken : Any (Candidate dir t.focused_id current (i, a, b)) es =
        elim (best_pane_lem dir t.focused_id current es none (i, a, b) (rw same at best)) [
          | inl e' ↦ absurd (cc)
          | inr any ↦ any
        ] in
      let other : (i == t.focused_id) ≡ false =
        let ne = Candidate-ne dir t.focused_id current (i, a, b) es taken in ground arith in
      let moved : focus_direction t frame dir ≡ (record t { focused_id = i }, true) =
        focus_direction_at t frame dir found framed i a b best other in
      rw moved (refl, (current, a, b, seen, taken))

  -- `focus_direction` either reports success, and then the focus is on another exported pane, whose
  -- frame lies beyond the frame of the old focus in that direction, edge against edge; or it leaves
  -- the tree as it was and reports failure, and then no pane has the id of the focus, or one has it
  -- and no frame, or every other pane with a frame does not lie beyond the focused one.
  pub focus_direction_lem :
      (t : SplitTree F) (frame : Rect F) (dir : PaneFocusDirection)
      → (((focus_direction t frame dir).1 ≡ true)
          × Directed dir t.focused_id
              (focus_direction t frame dir).0.focused_id
              (export_panes_with_frames t frame))
        ⊎ ((focus_direction t frame dir ≡ (t, false))
            × Blocked dir t.focused_id (export_panes_with_frames t frame))
  unfolding focus_direction
  focus_direction_lem t frame dir =
      let es = export_panes_with_frames t frame in
      elim (Option-cases (find_exported t.focused_id es)) [
        | inl lost ↦ inr (rw (lost, focus_direction), inl (find_exported-none t.focused_id es lost))
        | inr (e, found) ↦ elim (Option-cases e.frame) [
          | inl bare ↦ inr (
            rw (found, focus_direction, bare),
            inr (inl (find_exported-bare t.focused_id es found bare)),
          )
          | inr (current, framed) ↦ elim (Option-cases (best_pane dir e.leaf_id current es none)) [
            | inl nothing ↦
                let (same, seen) = find_exported_lem t.focused_id es found framed in
                let away = (best_pane-none dir e.leaf_id current es none nothing).1 in
                inr (
                  rw (found, focus_direction, framed, nothing),
                  inr (inr (current, seen, rw same at away)),
                )
            | inr ((i, a, b), best) ↦ inl (
                focus_direction_found t frame dir {e = e} {current = current} found framed i a b
                  best)
          ]
        ]
      ]

  pub focus_direction_keeps :
      (t : SplitTree F) (frame : Rect F) (dir : PaneFocusDirection)
      → (focus_direction t frame dir).0
        ≡ record t { focused_id = (focus_direction t frame dir).0.focused_id }
  unfolding focus_direction
  focus_direction_keeps t frame dir = ground arith

  Directed-leaf :
      (root : Node F) (n f : ℕ) (frame : Rect F) (dir : PaneFocusDirection) (i : ℕ)
      → Directed dir f i (export_panes_with_frames (tree (some root) n f) frame)
      → 0 < count i (ids (leaves root))
  unfolding export_panes_with_frames
  Directed-leaf root n f frame dir i (current, a, b, seen, taken) =
      let es = export_node_with_frame root frame none [] in
      let leaf_ids =
        Any-imp (Candidate dir f current (i, a, b)) (λ e. e.leaf_id ≡ i) (λ e c. c.0) es taken in
      rw (export_node_with_frame-leaves root frame none []) at (count-Any i es leaf_ids)

  -- `focus_direction` keeps a valid tree valid: the focus is on a leaf of the tree, whatever the
  -- frames are.
  pub focus_direction-IsValid :
      (t : SplitTree F) (frame : Rect F) (dir : PaneFocusDirection)
      → IsValid t
      → IsValid (focus_direction t frame dir).0
  focus_direction-IsValid t frame dir = go t.root t.next_id t.focused_id
    where
      go :
          (r : Option (Node F)) (n f : ℕ)
          → IsValid (tree r n f)
          → IsValid (focus_direction (tree r n f) frame dir).0
      go none n f v =
          rw (focus_direction_keeps (tree none n f) frame dir)
            (record { unique = v.unique; fresh = v.fresh; bounded = v.bounded; focused = inl refl })
      go (some root) n f v = elim (focus_direction_lem (tree (some root) n f) frame dir) [
        | inl (moved, directed) ↦
            rw (focus_direction_keeps (tree (some root) n f) frame dir)
              (focus_moved v (Directed-leaf root n f frame dir _ directed))
        | inr (still, why) ↦ rw still v
      ]
