-- ===== src/Splits/Nearest.antt =====
-- The pane that `focus_direction` of src/splits.rs takes among those that lie in its direction.
use boo.Base.{
  Any, All, ℕ, ◌≡◌, refl, ◌∙◌, ap, true, false, Option, none, some, List, [], ◌∷◌, arith, ◌==◌,
  Bool-cases, if◌then◌else◌, inl, inr, ◌⊎◌,
}
use boo.Double.{Double}
use boo.Geometry.{Rect}
use boo.Splits.Frames.{ExportedPane}
use boo.Splits.Tree.{SplitTree, export_panes_with_frames}
use boo.Splits.Focus.{
  focus_direction, PaneFocusDirection, consider, best_pane, find_exported, distances, is_better,
}
use boo.Splits.Distances.{
  Beyond, Ahead, Beyond-distances, Short-distances, Ahead-is_better, Ahead-is_worse,
}
use boo.Splits.Pointing.{focus_direction_at, Candidate, find_exported_lem, Candidate-ne}
use boo.Splits.Blocking.{Unreachable}

module _ {F : Type 0} ⦃d : Double F⦄ where
  -- A pane that cannot take the place of the winner: it is out of reach, or is the winner itself, or
  -- the winner is ahead of it.
  abbrev pub Beaten : PaneFocusDirection → ℕ → Rect F → ℕ × F × F → ExportedPane F → Type 0
  Beaten dir old current w e =
      Unreachable dir old current e
      ⊎ Candidate dir old current w e
      ⊎ ((r : Rect F) × (c : F × F) × (e.frame ≡ some r)
          × Beyond dir current r c
          × Ahead (w.1, w.2) c)

  -- the best pane so far, before the winner and from it on
  abbrev Behind : ℕ × F × F → Option (ℕ × F × F) → Type 0
  Behind w none = Unit
  Behind w (some b) = (b ≡ w) ⊎ Ahead (w.1, w.2) (b.1, b.2)

  consider_here :
      (dir : PaneFocusDirection) (old : ℕ) (current r : Rect F) (e : ExportedPane F)
      (best : Option (ℕ × F × F)) (c : F × F)
      → (e.leaf_id == old) ≡ false
      → e.frame ≡ some r
      → distances dir current r ≡ some c
      → consider dir old current e best
        ≡ (if is_better c best then some (e.leaf_id, c.0, c.1) else best)
  unfolding consider
  consider_here dir old current r e best c other framed near = ground (arith, other, framed, near)

  consider-Unreachable :
      (dir : PaneFocusDirection) (old : ℕ) (current : Rect F) (e : ExportedPane F)
      (best : Option (ℕ × F × F))
      → Unreachable dir old current e
      → consider dir old current e best ≡ best
  unfolding consider
  consider-Unreachable dir old current e best h = elim (Bool-cases (e.leaf_id == old)) [
    | inl same ↦ ground arith
    | inr other ↦ elim h [
      | inl same ↦ absurd (ground arith)
      | inr (inl bare) ↦ ground (arith, bare)
      | inr (inr (r, framed, short)) ↦
          let away = Short-distances dir current r short in ground (arith, framed, away)
    ]
  ]

  consider_self :
      (dir : PaneFocusDirection) (old : ℕ) (current : Rect F) (e : ExportedPane F)
      (best : Option (ℕ × F × F))
      → (e.leaf_id == old) ≡ true
      → consider dir old current e best ≡ best
  unfolding consider
  consider_self dir old current e best same = ground (arith, same)

  -- The winner stays, and takes the place of what it is ahead of.
  consider-keeps :
      (dir : PaneFocusDirection) (old : ℕ) (current : Rect F) (w : ℕ × F × F) (e : ExportedPane F)
      → Beaten dir old current w e
      → consider dir old current e (some w) ≡ some w
  consider-keeps dir old current w e h = elim (Bool-cases (e.leaf_id == old)) [
    | inl same ↦ consider_self dir old current e (some w) same
    | inr other ↦ elim h [
      | inl away ↦ consider-Unreachable dir old current e (some w) away
      | inr (inl (same, ne, (r, framed, beyond))) ↦
          let near = Beyond-distances dir current r (w.1, w.2) beyond in
          let itself : some (e.leaf_id, w.1, w.2) ≡ some w = ap (λ i. some (i, w.1, w.2)) same in
          consider_here dir old current r e (some w) (w.1, w.2) other framed near
          ∙ elim (Bool-cases (is_better (w.1, w.2) (some w))) [
            | inl better ↦ rw better itself
            | inr worse ↦ rw worse refl
          ]
      | inr (inr (r, c, framed, beyond, ahead)) ↦
          let worse = Ahead-is_worse w.0 (w.1, w.2) c ahead in
          consider_here dir old current r e (some w) c other framed
            (Beyond-distances dir current r c beyond)
          ∙ rw worse refl
    ]
  ]

  consider-Behind :
      (dir : PaneFocusDirection) (old : ℕ) (current : Rect F) (w : ℕ × F × F) (e : ExportedPane F)
      (best : Option (ℕ × F × F))
      → Beaten dir old current w e
      → Behind w best
      → Behind w (consider dir old current e best)
  consider-Behind dir old current w e best h b = elim (Bool-cases (e.leaf_id == old)) [
    | inl same ↦ rw (consider_self dir old current e best same) b
    | inr other ↦ elim h [
      | inl away ↦ rw (consider-Unreachable dir old current e best away) b
      | inr (inl (same, ne, (r, framed, beyond))) ↦
          let near = Beyond-distances dir current r (w.1, w.2) beyond in
          rw (consider_here dir old current r e best (w.1, w.2) other framed near)
            (elim (Bool-cases (is_better (w.1, w.2) best)) [
              | inl better ↦ rw better (inl (ap (λ i. (i, w.1, w.2)) same))
              | inr worse ↦ rw worse b
            ])
      | inr (inr (r, c, framed, beyond, ahead)) ↦
          rw
            (consider_here dir old current r e best c other framed
              (Beyond-distances dir current r c beyond))
            (elim (Bool-cases (is_better c best)) [
              | inl better ↦ rw better (inr ahead)
              | inr worse ↦ rw worse b
            ])
    ]
  ]

  consider-wins :
      (dir : PaneFocusDirection) (old : ℕ) (current : Rect F) (w : ℕ × F × F) (e : ExportedPane F)
      (best : Option (ℕ × F × F))
      → Candidate dir old current w e
      → Behind w best
      → consider dir old current e best ≡ some w
  consider-wins dir old current w e best (same, ne, (r, framed, beyond)) b =
      let near = Beyond-distances dir current r (w.1, w.2) beyond in
      let other : (e.leaf_id == old) ≡ false = ground arith in
      let itself : some (e.leaf_id, w.1, w.2) ≡ some w = ap (λ i. some (i, w.1, w.2)) same in
      consider_here dir old current r e best (w.1, w.2) other framed near ∙ go best b itself
    where
      go :
          (best : Option (ℕ × F × F))
          → Behind w best
          → some (e.leaf_id, w.1, w.2) ≡ some w
          → (if is_better (w.1, w.2) best then some (e.leaf_id, w.1, w.2) else best) ≡ some w
      go none b itself = itself
      go (some x) (inr ahead) itself = rw (Ahead-is_better x.0 (w.1, w.2) (x.1, x.2) ahead) itself
      go (some x) (inl same) itself = elim (Bool-cases (is_better (w.1, w.2) (some x))) [
        | inl better ↦ rw better itself
        | inr worse ↦ rw worse (ap some same)
      ]

  best_pane-keeps :
      (dir : PaneFocusDirection) (old : ℕ) (current : Rect F) (w : ℕ × F × F)
      (es : List (ExportedPane F))
      → All (Beaten dir old current w) es
      → best_pane dir old current es (some w) ≡ some w
  unfolding best_pane
  best_pane-keeps dir old current w [] h = refl
  best_pane-keeps dir old current w (e ∷ es) h =
      ap (best_pane dir old current es) (consider-keeps dir old current w e h.0)
      ∙ best_pane-keeps dir old current w es h.1

  best_pane-wins :
      (dir : PaneFocusDirection) (old : ℕ) (current : Rect F) (w : ℕ × F × F)
      (es : List (ExportedPane F)) (best : Option (ℕ × F × F))
      → All (Beaten dir old current w) es
      → Any (Candidate dir old current w) es
      → Behind w best
      → best_pane dir old current es best ≡ some w
  unfolding best_pane
  best_pane-wins dir old current w [] best h there b = absurd there
  best_pane-wins dir old current w (e ∷ es) best h there b = elim there [
    | inl here ↦
        ap (best_pane dir old current es) (consider-wins dir old current w e best here b)
        ∙ best_pane-keeps dir old current w es h.1
    | inr later ↦
        best_pane-wins dir old current w es (consider dir old current e best) h.1 later
          (consider-Behind dir old current w e best h.0 b)
  ]

  -- When the focused leaf is exported with a frame, and one other pane lies beyond that frame in a
  -- direction and is ahead of every pane that does, then `focus_direction` moves the focus to it
  -- and reports success. A pane is ahead of another when the gap between the facing edges is
  -- smaller by epsilon or more, or when the gaps are within epsilon, its own not the larger, and
  -- its distance off the axis is smaller.
  pub focus_direction-nearest :
      (t : SplitTree F) (frame : Rect F) (dir : PaneFocusDirection) (pane : ExportedPane F)
      (current : Rect F) (w : ℕ × F × F)
      → find_exported t.focused_id (export_panes_with_frames t frame) ≡ some pane
      → pane.frame ≡ some current
      → Any (Candidate dir t.focused_id current w) (export_panes_with_frames t frame)
      → All (Beaten dir t.focused_id current w) (export_panes_with_frames t frame)
      → focus_direction t frame dir ≡ (record t { focused_id = w.0 }, true)
  focus_direction-nearest t frame dir pane current w found framed there beaten =
      let es = export_panes_with_frames t frame in
      let same = (find_exported_lem t.focused_id es found framed).0 in
      let best : best_pane dir pane.leaf_id current es none ≡ some w =
        rw same (best_pane-wins dir t.focused_id current w es none beaten there tt) in
      let other : (w.0 == t.focused_id) ≡ false =
        let ne = Candidate-ne dir t.focused_id current w es there in ground arith in
      focus_direction_at t frame dir found framed w.0 w.1 w.2 best other
