-- ===== src/Prompt/Naming.antt =====
-- The suggestions of src/command_prompt.rs name commands.
use boo.Base.{
  ℕ, suc, ◌+◌, ◌<◌, ◌≤◌, inl, inr, List, [], ◌∷◌, ltb, map, length, All, All-take, arith,
  Bool-cases,
}
use Prim.Native.String.{String}
use boo.Prompt.{CommandDef}
use boo.Prompt.Commands.{commands}
use boo.Base.Strings.{is_empty}
use boo.Prompt.Scores.{fuzzy_score}
use boo.Prompt.Suggestions.{scored, insert_scored, sort_scored, indices, suggestions_for}

-- the indices below a bound
abbrev pub Names : ℕ → ℕ → Type 0
Names n i = i < n

abbrev ScoreNames : ℕ → ℕ × ℕ → Type 0
ScoreNames n x = x.0 < n

indices-All {ℓ} :
    {A : Type ℓ} (n i : ℕ) (xs : List A) → i + length xs ≤ n → All (Names n) (indices i xs)
indices-All n i [] h = tt
indices-All n i (x ∷ xs) h = (omega arith, indices-All n (suc i) xs (omega arith))

scored-All :
    (to_lowercase : String → String) (query : String) (n i : ℕ) (xs : List CommandDef)
    → i + length xs ≤ n
    → All (ScoreNames n) (scored to_lowercase query i xs)
scored-All to_lowercase query n i [] h = tt
scored-All to_lowercase query n i (cmd ∷ rest) h =
    elim (Bool-cases (ltb 0 (fuzzy_score to_lowercase query cmd.name))) [
      | inl some_score ↦
          rw (some_score, scored)
            (omega arith, scored-All to_lowercase query n (suc i) rest (omega arith))
      | inr no_score ↦
          rw (no_score, scored) (scored-All to_lowercase query n (suc i) rest (omega arith))
    ]

insert_scored-All :
    (n : ℕ) (x : ℕ × ℕ) (xs : List (ℕ × ℕ))
    → ScoreNames n x
    → All (ScoreNames n) xs
    → All (ScoreNames n) (insert_scored x xs)
insert_scored-All n x [] h hs = (h, tt)
insert_scored-All n x (y ∷ ys) h hs = elim (Bool-cases (ltb x.1 y.1)) [
  | inl later ↦ rw (later, insert_scored) (hs.0, insert_scored-All n x ys h hs.1)
  | inr here ↦ rw (here, insert_scored) (h, hs)
]

sort_scored-All :
    (n : ℕ) (xs : List (ℕ × ℕ)) → All (ScoreNames n) xs → All (ScoreNames n) (sort_scored xs)
sort_scored-All n [] hs = tt
sort_scored-All n (x ∷ xs) hs =
    insert_scored-All n x (sort_scored xs) hs.0 (sort_scored-All n xs hs.1)

map-Names : (n : ℕ) (xs : List (ℕ × ℕ)) → All (ScoreNames n) xs → All (Names n) (map (λ x. x.0) xs)
map-Names n [] hs = tt
map-Names n (x ∷ xs) hs = (hs.0, map-Names n xs hs.1)

pub suggestions_for-All :
    (to_lowercase : String → String) (query : String)
    → All (Names (length commands)) (suggestions_for to_lowercase query)
suggestions_for-All to_lowercase query = elim (Bool-cases (is_empty query)) [
  | inl all ↦ rw (all, suggestions_for) (indices-All _ 0 commands (omega arith))
  | inr best ↦
      let all_scored = scored-All to_lowercase query (length commands) 0 commands (omega arith) in
      let ranked = sort_scored-All _ _ all_scored in
      rw (best, suggestions_for) (All-take (Names (length commands)) 7 _ (map-Names _ _ ranked))
]
