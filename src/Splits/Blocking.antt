-- ===== src/Splits/Blocking.antt =====
-- Why `focus_direction` of src/splits.rs does not move the focus.
use boo.Base.{
  Any, ℕ, ◌≡◌, ◌≢◌, refl, Option, none, some, List, [], ◌∷◌, arith, ◌==◌, Option-cases, Bool-cases,
  inl, inr, ◌⊎◌, All, eq_of_==,
}
use boo.Double.{Double}
use boo.Geometry.{Rect}
use boo.Splits.Frames.{ExportedPane}
use boo.Splits.Focus.{PaneFocusDirection, consider, best_pane, find_exported, distances, is_better}
use boo.Splits.Distances.{Short, distances-Short}

module _ {F : Type 0} ⦃d : Double F⦄ where
  -- A pane that a move in a direction cannot take: the focused one, one without a frame, or one that
  -- does not lie beyond the focused one.
  abbrev pub Unreachable : PaneFocusDirection → ℕ → Rect F → ExportedPane F → Type 0
  Unreachable dir old current e =
      (e.leaf_id ≡ old)
      ⊎ (e.frame ≡ none)
      ⊎ ((r : Rect F) × (e.frame ≡ some r) × Short dir current r)

  -- Why there is no move: no pane has the id of the focus, or one without a frame, or every pane is
  -- out of reach of a pane that has it.
  abbrev pub Blocked : PaneFocusDirection → ℕ → List (ExportedPane F) → Type 0
  Blocked dir old es =
      All (λ e. e.leaf_id ≢ old) es
      ⊎ Any (λ e. (e.leaf_id ≡ old) × (e.frame ≡ none)) es
      ⊎ ((current : Rect F) × Any (λ e. (e.leaf_id ≡ old) × (e.frame ≡ some current)) es
          × All (Unreachable dir old current) es)

  consider-none :
      (dir : PaneFocusDirection) (i : ℕ) (current : Rect F) (e : ExportedPane F)
      (best : Option (ℕ × F × F))
      → consider dir i current e best ≡ none
      → (best ≡ none) × Unreachable dir i current e
  unfolding consider
  consider-none dir i current e (some b) h = elim (Bool-cases (e.leaf_id == i)) [
    | inl same ↦ absurd (ground arith)
    | inr other ↦ elim (Option-cases e.frame) [
      | inl bare ↦ absurd (ground arith)
      | inr (r, framed) ↦ elim (Option-cases (distances dir current r)) [
        | inl away ↦ absurd (ground arith)
        | inr (m, near) ↦ elim (Bool-cases (is_better m (some b))) [
          | inl better ↦ absurd (ground arith)
          | inr worse ↦ absurd (ground arith)
        ]
      ]
    ]
  ]
  consider-none dir i current e none h = elim (Bool-cases (e.leaf_id == i)) [
    | inl same ↦ (refl, inl (eq_of_== e.leaf_id i same))
    | inr other ↦ elim (Option-cases e.frame) [
      | inl bare ↦ (refl, inr (inl bare))
      | inr (r, framed) ↦ elim (Option-cases (distances dir current r)) [
        | inl away ↦ (refl, inr (inr (r, framed, distances-Short dir current r away)))
        | inr (m, near) ↦ absurd (ground arith)
      ]
    ]
  ]

  pub best_pane-none :
      (dir : PaneFocusDirection) (i : ℕ) (current : Rect F) (es : List (ExportedPane F))
      (best : Option (ℕ × F × F))
      → best_pane dir i current es best ≡ none
      → (best ≡ none) × All (Unreachable dir i current) es
  unfolding best_pane
  best_pane-none dir i current [] best h = (h, tt)
  best_pane-none dir i current (e ∷ es) best h =
      let rest = best_pane-none dir i current es (consider dir i current e best) h in
      let here = consider-none dir i current e best rest.0 in (here.0, (here.1, rest.1))

  pub find_exported-none :
      (i : ℕ) (es : List (ExportedPane F)) → find_exported i es ≡ none → All (λ e. e.leaf_id ≢ i) es
  unfolding find_exported
  find_exported-none i [] h = tt
  find_exported-none i (e ∷ es) h = elim (Bool-cases (e.leaf_id == i)) [
    | inl hit ↦ absurd (ground arith)
    | inr miss ↦ (ground arith, find_exported-none i es (ground arith))
  ]

  pub find_exported-bare :
      (i : ℕ) (es : List (ExportedPane F)) {e : ExportedPane F}
      → find_exported i es ≡ some e
      → e.frame ≡ none
      → Any (λ e'. (e'.leaf_id ≡ i) × (e'.frame ≡ none)) es
  unfolding find_exported
  find_exported-bare i [] h g = cc
  find_exported-bare i (x ∷ es) {e} h g = elim (Bool-cases (x.leaf_id == i)) [
    | inl hit ↦ inl (ground arith, ground arith)
    | inr miss ↦ inr (find_exported-bare i es {e = e} (ground arith) g)
  ]
