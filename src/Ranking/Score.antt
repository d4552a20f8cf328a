-- ===== src/Ranking/Score.antt =====
-- internal/ranking/advanced.go and simple.go: the scores of one document. Floating-point arithmetic is
-- a parameter; a constant with decimals is the quotient of two integers, which is the same number.
use vidra_search.Prelude.{ℕ, String, Bool, List, [], ◌∷◌, if◌then◌else◌}
use vidra_search.Store.Rows.{Float}
use vidra_search.Search.Features.{Features}

pub record Floats : Type 0 where
  pub plus : Float → Float → Float
  pub minus : Float → Float → Float
  pub times : Float → Float → Float
  pub divide : Float → Float → Float
  pub maximum : Float → Float → Float
  pub less : Float → Float → Bool
  pub same : Float → Float → Bool
  pub exp : Float → Float
  pub log : Float → Float
  pub minus_ln2 : Float
  pub f0 : Float
  -- `float64` of an integer
  pub of_nat : ℕ → Float
  -- `a.doc.VideoID < b.doc.VideoID`
  pub id_less : String → String → Bool

pub record AdvancedWeights : Type 0 where
  pub ctr : Float
  pub meaningful_rate : Float
  pub affinity : Float
  pub channel : Float
  pub session : Float
  pub language : Float
  pub creator_penalty : Float

module _ (r : Floats) where
  abbrev pub decimal : (n over : ℕ) → Float
  decimal n over = r.divide (r.of_nat n) (r.of_nat over)

  -- DefaultAdvancedWeights
  abbrev pub default_advanced_weights : AdvancedWeights
  default_advanced_weights = record {
    ctr = decimal 30 100;
    meaningful_rate = decimal 20 100;
    affinity = decimal 50 100;
    channel = decimal 30 100;
    session = decimal 25 100;
    language = decimal 10 100;
    creator_penalty = decimal 15 100;
  }

  -- ctrAlpha, ctrBeta and mwBeta
  abbrev pub ctr_alpha : Float
  ctr_alpha = r.of_nat 1

  abbrev pub ctr_beta : Float
  ctr_beta = r.of_nat 9

  abbrev pub mw_beta : Float
  mw_beta = r.of_nat 5

  -- CTRPrior and SmoothedCTR
  unfoldable pub ctr_prior : Float
  ctr_prior = r.divide ctr_alpha (r.plus ctr_alpha ctr_beta)

  unfoldable pub smoothed_ctr : (clicks impressions : Float) → Float
  smoothed_ctr clicks impressions =
      r.divide (r.plus clicks ctr_alpha) (r.plus (r.plus impressions ctr_alpha) ctr_beta)

  -- meaningfulRate; `meaningful <= 0` is the negation of `0 < meaningful` on all but NaN.
  unfoldable pub meaningful_rate_of : (meaningful clicks : Float) → Float
  meaningful_rate_of meaningful clicks =
      if r.less r.f0 meaningful then r.divide meaningful (r.plus clicks mw_beta) else r.f0

  -- SimpleScore
  unfoldable pub simple_score : (ts_rank trgm_sim exact_flags views age_days : Float) → Float
  simple_score ts_rank trgm_sim exact_flags views age_days =
      r.plus
        (r.plus
          (r.plus (r.plus (r.times (decimal 5 10) ts_rank) (r.times (decimal 2 10) trgm_sim))
            (r.times (decimal 1 10) exact_flags))
          (r.times (decimal 1 10) (r.divide (r.log (r.plus (r.of_nat 1) views)) (r.of_nat 20))))
        (r.times (decimal 1 10) (r.exp (r.divide (r.times r.minus_ln2 age_days) (r.of_nat 30))))

  -- baseScore
  unfoldable pub base_score : Features → Float
  base_score f = simple_score f.text_rank f.trgm_sim f.exact_flags f.views f.age_days

  abbrev pub add_language : AdvancedWeights → Bool → Float → Float
  add_language w matches score = if matches then r.plus score w.language else score

  -- scoreWith
  unfoldable pub score_with : AdvancedWeights → Features → Float
  score_with w f =
      let engaged =
        r.plus
          (r.plus (base_score f)
            (r.times w.ctr (r.minus (smoothed_ctr f.clicks f.impressions) ctr_prior)))
          (r.times w.meaningful_rate (meaningful_rate_of f.meaningful_watches f.clicks)) in
      let personal =
        r.plus
          (r.plus (r.plus engaged (r.times w.affinity f.personal_affinity))
            (r.times w.channel f.channel_affinity))
          (r.times w.session f.session_intent) in
      add_language w f.language_match personal

  -- ModelFeatureVector
  unfoldable pub model_feature_vector : Features → List Float
  model_feature_vector f =
      f.text_rank
      ∷ f.trgm_sim
      ∷ f.exact_flags
      ∷ r.log (r.plus (r.of_nat 1) f.views)
      ∷ f.age_days
      ∷ smoothed_ctr f.clicks f.impressions
      ∷ meaningful_rate_of f.meaningful_watches f.clicks
      ∷ (if f.language_match then r.of_nat 1 else r.f0)
      ∷ []

-- ModelFeatureNames
abbrev pub model_feature_names : List String
model_feature_names =
    "text_rank" ∷ "trgm_sim" ∷ "exact_flags" ∷ "log_views" ∷ "age_days" ∷ "smoothed_ctr"
    ∷ "meaningful_rate" ∷ "language_match" ∷ []
