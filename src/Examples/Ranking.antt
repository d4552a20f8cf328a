-- ===== src/Examples/Ranking.antt =====
-- The heuristic ranker over three documents of one channel, scored in whole numbers.
use mathlib.Core.List.{Perm}
use vidra_search.Prelude.{
  ℕ, ◌+◌, ◌-◌, ◌*◌, ◌==◌, ltb, max, String, true, false, List, [], ◌∷◌, All, map, get_elem?, ◌≡◌,
  refl, arith,
}
use vidra_search.Prelude.Sort.{IsOrdered}
use vidra_search.Search.Features.{Features, Doc, Ranked}
use vidra_search.Ranking.Score.{Floats, base_score, default_advanced_weights}
use vidra_search.Ranking.Rerank.{
  Scored, penalize, penalized, sorted, to_ranked, rerank_with, rerank,
}
use vidra_search.Ranking.Repetition.{map_option, charge, penalize-at}
use vidra_search.Ranking.Order.{ranked_less, IsFloatOrder, rerank_with-IsOrdered, rerank_with-perm}
use vidra_search.Ranking.Baseline.{IsFloat, HasPlain, IsBaseline, simply_scored, rerank-simple}

abbrev whole : Floats
whole = record {
  plus = λ x y. x + y;
  minus = λ x y. x - y;
  times = λ x y. x * y;
  divide = λ x y. x;
  maximum = max;
  less = ltb;
  same = λ x y. x == y;
  exp = λ x. x;
  log = λ x. x;
  minus_ln2 = 0;
  f0 = 0;
  of_nat = λ n. n;
  id_less = λ s t. false;
}

abbrev plain : ℕ → Features
plain rank = record {
  text_rank = rank;
  trgm_sim = 0;
  exact_flags = 0;
  views = 0;
  age_days = 0;
  impressions = 0;
  clicks = 0;
  meaningful_watches = 0;
  personal_affinity = 0;
  channel_affinity = 0;
  session_intent = 0;
  language_match = false;
}

abbrev doc : String → ℕ → Doc
doc v rank = record { video_id = v; channel_id = "c"; features = plain rank }

abbrev docs : List Doc
docs = doc "a" 1 ∷ doc "b" 9 ∷ doc "d" 4 ∷ []

whole-IsFloatOrder : IsFloatOrder (λ x. true) whole
whole-IsFloatOrder = record {
  same_iff = λ x y p q. ground arith;
  less_asym = λ x y p q. ground arith;
  less_trans = λ x y z p q w. ground arith;
  id_asym = λ s t. refl;
  id_trans = λ s t u. refl;
}

rerank_with-perm_example :
    Perm
      (map (λ x. x.video_id) (rerank_with whole docs (base_score whole) 2))
      (map (λ d. d.video_id) docs)
rerank_with-perm_example = rerank_with-perm whole docs (base_score whole) 2

All-numbers : (xs : List Ranked) → All (λ x. true ≡ true) xs
All-numbers [] = tt
All-numbers (x ∷ xs) = (refl, All-numbers xs)

rerank_with-IsOrdered_example :
    IsOrdered (ranked_less whole) (rerank_with whole docs (base_score whole) 2)
rerank_with-IsOrdered_example =
    rerank_with-IsOrdered whole (λ x. true) whole-IsFloatOrder docs (base_score whole) 2
      (All-numbers (rerank_with whole docs (base_score whole) 2))

whole-IsFloat : IsFloat (λ x. true) whole
whole-IsFloat = record {
  zero_plus_one = omega arith;
  plus_zero = λ x p. omega arith;
  times_zero = λ w p. omega arith;
  minus_self = λ x p. omega arith;
  less_zero = refl;
  maximum_zero = omega arith;
  prior_plain = refl;
}

default-HasPlain : HasPlain (λ x. true) (default_advanced_weights whole)
default-HasPlain = record {
  ctr_plain = refl;
  rate_plain = refl;
  affinity_plain = refl;
  channel_plain = refl;
  session_plain = refl;
}

plain-IsBaseline : (rank : ℕ) → IsBaseline whole (plain rank)
plain-IsBaseline rank = record {
  no_impressions = refl;
  no_clicks = refl;
  no_watches = refl;
  no_affinity = refl;
  no_channel = refl;
  no_session = refl;
  no_language = refl;
}

rerank-simple_example :
    rerank whole (default_advanced_weights whole) docs
    ≡ map to_ranked (
        penalized whole
          (default_advanced_weights whole).creator_penalty
          (sorted whole (simply_scored whole docs)))
rerank-simple_example =
    rerank-simple whole (λ x. true) (default_advanced_weights whole) docs whole-IsFloat
      default-HasPlain (plain-IsBaseline 1, (plain-IsBaseline 9, (plain-IsBaseline 4, tt)))
      (refl, (refl, (refl, tt)))

abbrev item : String → ℕ → Scored
item v score = record { doc = doc v 0; score = score; channel = "c" }

abbrev three : List Scored
three = item "a" 9 ∷ item "b" 8 ∷ item "d" 7 ∷ []

penalize-at_example :
    get_elem? (penalize whole 2 (λ ch. 0) three) 2
    ≡ map_option (charge whole 2 three 2) (get_elem? three 2)
penalize-at_example = penalize-at whole 2 three 2
