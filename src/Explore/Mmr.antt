-- ===== src/Explore/Mmr.antt =====
-- internal/ranking/diversity.go: MMRDoc, jaccard and MMR. A set of tokens is a list without
-- repetitions; floating-point arithmetic is a parameter.
use vidra_search.Prelude.{
  ℕ, zero, suc, ◌+◌, ◌-◌, ◌==◌, min, ℤ, pos, negsuc, String, Bool, true, false, ◌||◌, Option, none,
  some, List, [], ◌∷◌, ◌++◌, map, any, keep, length, str_eq, if◌then◌else◌,
}
use vidra_search.Prelude.Sort.{stable_sort}
use vidra_search.Store.Rows.{Float}

pub record MmrDoc : Type 0 where
  pub video_id : String
  pub relevance : Float
  pub tokens : List String

pub record Reals : Type 0 where
  pub minus : Float → Float → Float
  pub times : Float → Float → Float
  -- `float64(a) / float64(b)`
  pub ratio : ℕ → ℕ → Float
  pub less : Float → Float → Bool
  pub same : Float → Float → Bool
  pub f0 : Float
  pub f1 : Float
  pub id_less : String → String → Bool

-- A candidate and whether it has been used.
abbrev pub Candidate : Type 0
Candidate = MmrDoc × Bool

-- `used[i] = true`
unfoldable pub mark : ℕ → List Candidate → List Candidate
mark i [] = []
mark zero ((d, used) ∷ cs) = (d, true) ∷ cs
mark (suc i) (c ∷ cs) = c ∷ mark i cs

-- The best so far: its place, itself and its score.
abbrev pub Best : Type 0
Best = ℕ × MmrDoc × Float

abbrev pub select_next : Option Best → List MmrDoc → (ℕ → MmrDoc → List MmrDoc) → List MmrDoc
select_next none selected k = selected
select_next (some (i, d, top)) selected k = k i d

abbrev pub fresh : List MmrDoc → List Candidate
fresh ds = map (λ d. (d, false)) ds

abbrev pub clamp : ℤ → ℕ → ℕ
clamp (pos k) n = min k n
clamp (negsuc k) n = 0

module _ (r : Reals) where
  abbrev pub shared : List String → List String → ℕ
  shared a b = length (keep (λ t. any (λ u. str_eq u t) b) a)

  abbrev pub quotient : ℕ → ℕ → Float
  quotient inter union = if union == 0 then r.f0 else r.ratio inter union

  unfoldable pub jaccard : List String → List String → Float
  jaccard a b =
      if length a == 0 || length b == 0
      then r.f0
      else quotient (shared a b) (length a + length b - shared a b)

  abbrev pub doc_less : MmrDoc → MmrDoc → Bool
  doc_less d e =
      if r.same d.relevance e.relevance
      then r.id_less d.video_id e.video_id
      else r.less e.relevance d.relevance

  -- The greatest similarity to what is selected, from `so_far` on.
  unfoldable pub max_sim : List String → (so_far : Float) → List MmrDoc → Float
  unfolding jaccard
  max_sim tokens so_far [] = so_far
  max_sim tokens so_far (s ∷ ss) =
      max_sim tokens
        (if r.less so_far (jaccard tokens s.tokens) then jaccard tokens s.tokens else so_far) ss

  unfoldable pub marginal : (lambda : Float) → (selected : List MmrDoc) → MmrDoc → Float
  unfolding max_sim
  marginal lambda selected d =
      r.minus (r.times lambda d.relevance)
        (r.times (r.minus r.f1 lambda) (max_sim d.tokens r.f0 selected))

  -- The scan of the unused candidates: a later one wins only by a greater score.
  unfoldable pub best_index :
      (score : MmrDoc → Float) → (i : ℕ) → List Candidate → Option Best → Option Best
  best_index score i [] best = best
  best_index score i ((d, true) ∷ cs) best = best_index score (suc i) cs best
  best_index score i ((d, false) ∷ cs) none = best_index score (suc i) cs (some (i, d, score d))
  best_index score i ((d, false) ∷ cs) (some (j, e, top)) =
      best_index score (suc i) cs
        (if r.less top (score d) then some (i, d, score d) else some (j, e, top))

  -- The loop, with the number of picks that are still to be made.
  unfoldable pub select : (lambda : Float) → (todo : ℕ) → List Candidate → List MmrDoc → List MmrDoc
  unfolding marginal
  select lambda zero cs selected = selected
  select lambda (suc n) cs selected =
      select_next (best_index (marginal lambda selected) 0 cs none) selected
        (λ i d. select lambda n (mark i cs) (selected ++ d ∷ []))

  -- MMR
  unfoldable pub mmr : List MmrDoc → (lambda : Float) → (k : ℤ) → List String
  unfolding select
  mmr docs lambda k =
      map (λ d. d.video_id)
        (select lambda (clamp k (length docs)) (fresh (stable_sort doc_less docs)) [])
