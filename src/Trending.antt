-- ===== src/Trending.antt =====
-- internal/trending/trending.go and internal/ranking/covis.go: the floors that
-- an item passes before it is shown, on floating-point numbers whose arithmetic is a parameter.
use vidra_search.Prelude.{
  ℤ, ltb_ℤ, leb_ℤ, String, Bool, true, false, not, ◌&&◌, ◌||◌, if◌then◌else◌, ◌≡◌, arith,
}
use vidra_search.Store.Rows.{Float}

pub record Reals : Type 0 where
  pub plus : Float → Float → Float
  pub minus : Float → Float → Float
  pub times : Float → Float → Float
  pub div : Float → Float → Float
  pub sqrt : Float → Float
  -- `math.Exp2(-x)`
  pub exp2_neg : Float → Float
  pub less : Float → Float → Bool
  pub at_most : Float → Float → Bool
  pub of_int : ℤ → Float
  pub f0 : Float
  pub f1 : Float
  pub f2 : Float
  pub f4 : Float
  -- 0.7 and 0.3
  pub co_watch_weight : Float
  pub co_search_weight : Float

module _ (r : Reals) where
  unfoldable pub decay_factor : (elapsed half_life : Float) → Float
  decay_factor elapsed half_life =
      if r.at_most half_life r.f0
      then r.f1
      else if r.at_most elapsed r.f0
      then r.f1
      else r.exp2_neg (r.div elapsed half_life)

  unfoldable pub decay : (value elapsed half_life : Float) → Float
  unfolding decay_factor
  decay value elapsed half_life = r.times value (decay_factor elapsed half_life)

  -- `(phat * (1 - phat) + z2 / (4 * n)) / n`
  abbrev pub spread : (phat z2 n : Float) → Float
  spread phat z2 n = r.div (r.plus (r.times phat (r.minus r.f1 phat)) (r.div z2 (r.times r.f4 n))) n

  -- The bound before it is cut at 0.
  abbrev pub wilson_bound : (phat z2 n z : Float) → Float
  wilson_bound phat z2 n z =
      r.div
        (r.minus (r.plus phat (r.div z2 (r.times r.f2 n))) (r.times z (r.sqrt (spread phat z2 n))))
        (r.plus r.f1 (r.div z2 n))

  abbrev pub cut : Float → Float
  cut lb = if r.less lb r.f0 then r.f0 else lb

  unfoldable pub wilson_lower_bound : (pos_count n z : Float) → Float
  wilson_lower_bound pos_count n z =
      if r.at_most n r.f0 || r.at_most pos_count r.f0
      then r.f0
      else cut (wilson_bound (r.div pos_count n) (r.times z z) n z)

  unfoldable pub evaluate_gate :
      (distinct_users : ℤ)
      → (total : Float) → (min_users : ℤ) → (wilson_floor z : Float) → Bool × String
  unfolding wilson_lower_bound
  evaluate_gate users total min_users wilson_floor z =
      if ltb_ℤ users min_users
      then (false, "distinct_users")
      else if r.less (wilson_lower_bound (r.of_int users) total z) wilson_floor
      then (false, "wilson_min_volume")
      else (true, "")

  unfoldable pub covis_shrunk_cosine : (cooc tot_i tot_j lambda : Float) → Float
  covis_shrunk_cosine cooc tot_i tot_j lambda =
      if r.at_most cooc r.f0 || r.at_most tot_i r.f0 || r.at_most tot_j r.f0
      then r.f0
      else r.times (r.div cooc (r.sqrt (r.times tot_i tot_j))) (r.div cooc (r.plus cooc lambda))

  unfoldable pub covis_blend : (co_watch co_search : Float) → Float
  covis_blend co_watch co_search =
      r.plus (r.times r.co_watch_weight co_watch) (r.times r.co_search_weight co_search)

  unfoldable pub covis_blend_floored :
      (co_watch co_search : Float) → (watch_subjects search_subjects min_subjects : ℤ) → Float
  unfolding covis_blend
  covis_blend_floored co_watch co_search watch_subjects search_subjects min_subjects =
      covis_blend (if ltb_ℤ watch_subjects min_subjects then r.f0 else co_watch)
        (if ltb_ℤ search_subjects min_subjects then r.f0 else co_search)

-- An item passes the gate exactly when its distinct users reach the floor and its Wilson bound does.
pub evaluate_gate_iff :
    (r : Reals) (users : ℤ) (total : Float) (min_users : ℤ) (wilson_floor z : Float)
    → ((evaluate_gate r users total min_users wilson_floor z).0 ≡ (
        leb_ℤ min_users users
        && not (r.less (wilson_lower_bound r (r.of_int users) total z) wilson_floor)))
unfolding evaluate_gate
evaluate_gate_iff r users total min_users wilson_floor z = ground arith
