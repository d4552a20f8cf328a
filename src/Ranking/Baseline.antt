-- ===== src/Ranking/Baseline.antt =====
-- internal/ranking/advanced.go: the reduction to the simple score that its header describes.
use vidra_search.Prelude.{
  Bool, true, false, List, [], ◌∷◌, All, map, if◌then◌else◌, ◌≡◌, refl, ap, ◌∙◌, Bool-cases, inl,
  inr,
}
use vidra_search.Prelude.Sort.{stable_sort}
use vidra_search.Store.Rows.{Float}
use vidra_search.Search.Features.{Features, Doc}
use vidra_search.Ranking.Score.{
  Floats, AdvancedWeights, ctr_prior, smoothed_ctr, meaningful_rate_of, base_score, score_with,
  add_language,
}
use vidra_search.Ranking.Rerank.{
  Scored, max_of, norm, normalized, scored, penalize, penalized, sorted, to_ranked, rerank_with,
  rerank,
}

-- What the reduction takes of float64. `plain` tells the finite numbers whose sign bit is clear: no NaN,
-- no infinity, no -0 and no negative number.
pub record IsFloat (plain : Float → Bool) (r : Floats) : Type 0 where
  pub zero_plus_one : r.plus r.f0 (r.of_nat 1) ≡ r.of_nat 1
  pub plus_zero : (x : Float) → plain x ≡ true → r.plus x r.f0 ≡ x
  pub times_zero : (w : Float) → plain w ≡ true → r.times w r.f0 ≡ r.f0
  pub minus_self : (x : Float) → plain x ≡ true → r.minus x x ≡ r.f0
  pub less_zero : r.less r.f0 r.f0 ≡ false
  pub maximum_zero : r.maximum r.f0 r.f0 ≡ r.f0
  pub prior_plain : plain (ctr_prior r) ≡ true

-- The weights that stand before a signal.
pub record HasPlain (plain : Float → Bool) (w : AdvancedWeights) : Type 0 where
  pub ctr_plain : plain w.ctr ≡ true
  pub rate_plain : plain w.meaningful_rate ≡ true
  pub affinity_plain : plain w.affinity ≡ true
  pub channel_plain : plain w.channel ≡ true
  pub session_plain : plain w.session ≡ true

-- No engagement, no personal signal and no match of the language.
pub record IsBaseline (r : Floats) (f : Features) : Type 0 where
  pub no_impressions : f.impressions ≡ r.f0
  pub no_clicks : f.clicks ≡ r.f0
  pub no_watches : f.meaningful_watches ≡ r.f0
  pub no_affinity : f.personal_affinity ≡ r.f0
  pub no_channel : f.channel_affinity ≡ r.f0
  pub no_session : f.session_intent ≡ r.f0
  pub no_language : f.language_match ≡ false

module _ (r : Floats) (plain : Float → Bool) (h : IsFloat plain r) where
  prior : (f : Features) → IsBaseline r f → smoothed_ctr r f.clicks f.impressions ≡ ctr_prior r
  unfolding smoothed_ctr ctr_prior
  prior f b =
      ap
        (λ c.
          r.divide (r.plus c (r.of_nat 1))
            (r.plus (r.plus f.impressions (r.of_nat 1)) (r.of_nat 9)))
        b.no_clicks
      ∙ ap (λ n. r.divide (r.plus r.f0 (r.of_nat 1)) (r.plus (r.plus n (r.of_nat 1)) (r.of_nat 9)))
          b.no_impressions
      ∙ ap (λ one. r.divide one (r.plus one (r.of_nat 9))) h.zero_plus_one

  no_rate :
      (f : Features) → IsBaseline r f → meaningful_rate_of r f.meaningful_watches f.clicks ≡ r.f0
  unfolding meaningful_rate_of
  no_rate f b =
      ap (λ m. if r.less r.f0 m then r.divide m (r.plus f.clicks (r.of_nat 5)) else r.f0)
        b.no_watches
      ∙ ap (λ t. if t then r.divide r.f0 (r.plus f.clicks (r.of_nat 5)) else r.f0) h.less_zero

  -- A term of weight `w` that is 0 adds nothing to what amounts to `base`.
  adds_nothing :
      (base s w v : Float)
      → plain base ≡ true
      → plain w ≡ true
      → s ≡ base
      → v ≡ r.f0
      → r.plus s (r.times w v) ≡ base
  adds_nothing base s w v p q d e =
      ap (λ x. r.plus s (r.times w x)) e
      ∙ ap (r.plus s) (h.times_zero w q)
      ∙ ap (λ x. r.plus x r.f0) d
      ∙ h.plus_zero base p

  score_with-base :
      (w : AdvancedWeights) (f : Features)
      → HasPlain plain w
      → IsBaseline r f
      → plain (base_score r f) ≡ true
      → score_with r w f ≡ base_score r f
  unfolding score_with
  score_with-base w f k b p =
      let base = base_score r f in
      let ctr = r.minus (smoothed_ctr r f.clicks f.impressions) (ctr_prior r) in
      let rate = meaningful_rate_of r f.meaningful_watches f.clicks in
      let centred : ctr ≡ r.f0 =
        ap (λ c. r.minus c (ctr_prior r)) (prior f b) ∙ h.minus_self (ctr_prior r) h.prior_plain in
      let a = r.plus base (r.times w.ctr ctr) in
      let c = r.plus a (r.times w.meaningful_rate rate) in
      let d = r.plus c (r.times w.affinity f.personal_affinity) in
      let e = r.plus d (r.times w.channel f.channel_affinity) in
      let at_a = adds_nothing base base w.ctr ctr p k.ctr_plain refl centred in
      let at_c = adds_nothing base a w.meaningful_rate rate p k.rate_plain at_a (no_rate f b) in
      let at_d =
        adds_nothing base c w.affinity f.personal_affinity p k.affinity_plain at_c b.no_affinity in
      let at_e =
        adds_nothing base d w.channel f.channel_affinity p k.channel_plain at_d b.no_channel in
      ap (λ t. add_language r w t (r.plus e (r.times w.session f.session_intent))) b.no_language
      ∙ adds_nothing base e w.session f.session_intent p k.session_plain at_e b.no_session

  norm-zero : (v top : Float) → top ≡ r.f0 → norm r v top ≡ r.f0
  norm-zero v top e =
      ap (λ t. if r.less r.f0 t then r.divide v t else r.f0) e
      ∙ ap (λ t. if t then r.divide v r.f0 else r.f0) h.less_zero

  max_of-zero :
      (field : Features → Float) (docs : List Doc)
      → ((f : Features) → IsBaseline r f → field f ≡ r.f0)
      → All (λ d. IsBaseline r d.features) docs
      → max_of r field r.f0 docs ≡ r.f0
  unfolding max_of
  max_of-zero field [] z a = refl
  max_of-zero field (d ∷ ds) z (b, a) =
      ap (λ x. max_of r field (r.maximum r.f0 x) ds) (z d.features b)
      ∙ ap (λ x. max_of r field x ds) h.maximum_zero
      ∙ max_of-zero field ds z a

  normalized-IsBaseline :
      (docs : List Doc) (f : Features)
      → All (λ d. IsBaseline r d.features) docs
      → IsBaseline r f
      → IsBaseline r (normalized r docs f)
  unfolding normalized
  normalized-IsBaseline docs f a b = record {
    no_impressions = b.no_impressions;
    no_clicks = b.no_clicks;
    no_watches = b.no_watches;
    no_affinity =
        norm-zero _ _ (max_of-zero (λ x. x.personal_affinity) docs (λ g k. k.no_affinity) a);
    no_channel = norm-zero _ _ (max_of-zero (λ x. x.channel_affinity) docs (λ g k. k.no_channel) a);
    no_session = norm-zero _ _ (max_of-zero (λ x. x.session_intent) docs (λ g k. k.no_session) a);
    no_language = b.no_language;
  }

  -- The personal signals do not enter the base score.
  base_score-normalized :
      (docs : List Doc) (f : Features) → base_score r (normalized r docs f) ≡ base_score r f
  unfolding base_score normalized
  base_score-normalized docs f = refl

  scored-base :
      (w : AdvancedWeights) (docs ds : List Doc)
      → HasPlain plain w
      → All (λ d. IsBaseline r d.features) docs
      → All (λ d. IsBaseline r d.features) ds
      → All (λ d. plain (base_score r d.features) ≡ true) ds
      → map (scored r (score_with r w) docs) ds
        ≡ map (λ d. record { doc = d; score = base_score r d.features; channel = d.channel_id }) ds
  scored-base w docs [] k a b ps = refl
  scored-base w docs (d ∷ ds) k a (b, bs) (p, ps) =
      let same = base_score-normalized docs d.features in
      let s =
        score_with-base w (normalized r docs d.features) k
          (normalized-IsBaseline docs d.features a b) (ap plain same ∙ p) in
      ap
        (λ x.
          record { doc = d; score = x; channel = d.channel_id }
          ∷ map (scored r (score_with r w) docs) ds)
        (s ∙ same)
      ∙ ap (λ xs. record { doc = d; score = base_score r d.features; channel = d.channel_id } ∷ xs)
          (scored-base w docs ds k a bs ps)

-- The documents with their simple scores.
abbrev pub simply_scored : Floats → List Doc → List Scored
simply_scored r docs =
    map (λ d. record { doc = d; score = base_score r d.features; channel = d.channel_id }) docs

-- Where no document of the set has engagement, a personal signal or a match of the language, and the
-- simple scores, the weights of the signals and the prior are finite numbers with a clear sign bit, to
-- which 0 adds nothing and whose product with 0 and difference with themselves are 0, Rerank is the
-- sort by the simple score, but for the penalty on repeated creators that follows it.
pub rerank-simple :
    (r : Floats) (plain : Float → Bool) (w : AdvancedWeights) (docs : List Doc)
    → IsFloat plain r
    → HasPlain plain w
    → All (λ d. IsBaseline r d.features) docs
    → All (λ d. plain (base_score r d.features) ≡ true) docs
    → rerank r w docs
      ≡ map to_ranked (penalized r w.creator_penalty (sorted r (simply_scored r docs)))
unfolding rerank rerank_with penalize stable_sort
rerank-simple r plain w [] h k a ps = elim (Bool-cases (r.less r.f0 w.creator_penalty)) [
  | inl e ↦ rw e refl
  | inr e ↦ rw e refl
]
rerank-simple r plain w (d ∷ ds) h k a ps =
    ap (λ items. map to_ranked (penalized r w.creator_penalty (sorted r items)))
      (scored-base r plain h w (d ∷ ds) (d ∷ ds) k a a ps)
