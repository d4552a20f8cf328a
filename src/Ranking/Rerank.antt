-- ===== src/Ranking/Rerank.antt =====
-- internal/ranking/advanced.go: Rerank and RerankWith, and what becomes of the documents.
use vidra_search.Prelude.{ℕ, suc, ◌-◌, ltb, String, Bool, List, [], ◌∷◌, map, str_eq, if◌then◌else◌}
use vidra_search.Prelude.Sort.{stable_sort}
use vidra_search.Store.Rows.{Float}
use vidra_search.Search.Features.{Features, Doc, Ranked, Ranker}
use vidra_search.Ranking.Score.{Floats, AdvancedWeights, score_with}

pub record Scored : Type 0 where
  pub doc : Doc
  pub score : Float
  pub channel : String

-- The map from channels to the number of their results so far.
abbrev pub Counts : Type 0
Counts = String → ℕ

abbrev pub count_one : String → Counts → Counts
count_one ch counts x = if str_eq x ch then suc (counts x) else counts x

abbrev pub to_ranked : Scored → Ranked
to_ranked x = record { video_id = x.doc.video_id; score = x.score }

module _ (r : Floats) where
  unfoldable pub max_of : (Features → Float) → Float → List Doc → Float
  max_of field top [] = top
  max_of field top (d ∷ ds) = max_of field (r.maximum top (field d.features)) ds

  abbrev pub norm : Float → Float → Float
  norm v top = if r.less r.f0 top then r.divide v top else r.f0

  -- The features of a document of the set `docs`, with the personal signals normalized.
  unfoldable pub normalized : List Doc → Features → Features
  unfolding max_of
  normalized docs f = record f {
    personal_affinity = norm f.personal_affinity (max_of (λ x. x.personal_affinity) r.f0 docs);
    channel_affinity = norm f.channel_affinity (max_of (λ x. x.channel_affinity) r.f0 docs);
    session_intent = norm f.session_intent (max_of (λ x. x.session_intent) r.f0 docs);
  }

  abbrev pub scored : (Features → Float) → List Doc → Doc → Scored
  scored scorer docs d = record {
    doc = d;
    score = scorer (normalized docs d.features);
    channel = d.channel_id;
  }

  abbrev pub less_scored : Scored → Scored → Bool
  less_scored a b =
      if r.same a.score b.score
      then r.id_less a.doc.video_id b.doc.video_id
      else r.less b.score a.score

  -- What the n-th result of a channel has left of its score.
  unfoldable pub demote : (penalty : Float) → (n : ℕ) → Scored → Scored
  demote penalty n x =
      if ltb 2 n
      then record x { score = r.minus x.score (r.times penalty (r.of_nat (n - 2))) }
      else x

  -- The loop over the ordered items.
  unfoldable pub penalize : (penalty : Float) → Counts → List Scored → List Scored
  unfolding demote
  penalize penalty counts [] = []
  penalize penalty counts (x ∷ xs) =
      (if str_eq x.channel "" then x else demote penalty (suc (counts x.channel)) x)
      ∷ penalize penalty (if str_eq x.channel "" then counts else count_one x.channel counts) xs

  abbrev pub sorted : List Scored → List Scored
  sorted items = stable_sort less_scored items

  abbrev pub penalized : (penalty : Float) → List Scored → List Scored
  penalized penalty items =
      if r.less r.f0 penalty then sorted (penalize penalty (λ ch. 0) items) else items

  -- RerankWith
  unfoldable pub rerank_with :
      List Doc → (Features → Float) → (creator_penalty : Float) → List Ranked
  rerank_with [] scorer penalty = []
  rerank_with (d ∷ ds) scorer penalty =
      map to_ranked (penalized penalty (sorted (map (scored scorer (d ∷ ds)) (d ∷ ds))))

  -- Rerank
  unfoldable pub rerank : AdvancedWeights → Ranker
  rerank w docs = rerank_with docs (score_with r w) w.creator_penalty
