-- ===== src/Recommendation/Sources.antt =====
-- internal/recommendation/advanced.go: the candidates that relatedAdvanced and homeAdvanced gather.
use vidra_search.Prelude.{
  ℕ, ℤ, String, Bool, Option, none, some, List, [], ◌∷◌, ◌++◌, map, str_eq, if◌then◌else◌,
}
use vidra_search.Store.Rows.{Uuid, Float}
use vidra_search.Store.Query.{Outcome, ok, err}
use vidra_search.Index.{opt_str}
use vidra_search.Search.Features.{ScoreRow}
use vidra_search.Recommendation.Composer.{Candidate}
use vidra_search.Recommendation.Feeds.{
  Seed, FeedRow, OverlapRow, times, ◌>>=◌, candidates, same_channel_cap,
}
use vidra_search.Recommendation.Rounds.{parsed, redis_trending}
use vidra_search.Recommendation.Candidates.{Offer}
use vidra_search.Recommendation.Scoring.{Service}

-- RelatedRequest and HomeRequest
pub record RelatedRequest : Type 0 where
  pub video_id : Uuid
  pub limit : ℤ
  pub hide_sensitive : Bool
  pub user_id : String
  pub session_id : String
  pub personalized : Bool

pub record HomeRequest : Type 0 where
  pub limit : ℤ
  pub hide_sensitive : Bool
  pub lang : String
  pub user_id : String
  pub session_id : String
  pub personalized : Bool

module _ (s : Service) where
  abbrev pub co_watch : List ScoreRow → List Offer
  co_watch rows =
      map
        (λ r. record {
          video_id = r.video_id;
          channel_id = none;
          base = r.score;
          reason = "co_watch";
          priority = 3;
        })
        rows

  abbrev pub offers_of : Float → String → ℕ → List Candidate → List Offer
  offers_of base reason priority cands =
      map
        (λ c. record {
          video_id = c.video_id;
          channel_id = c.channel_id;
          base = base;
          reason = reason;
          priority = priority;
        })
        cands

  abbrev pub offers_of_rows : Float → String → ℕ → List FeedRow → List Offer
  offers_of_rows base reason priority rows = offers_of base reason priority (candidates reason rows)

  abbrev pub overlap_offers : List OverlapRow → List Offer
  overlap_offers rows =
      map
        (λ r. record {
          video_id = r.video_id;
          channel_id = r.channel_id;
          base = s.to_float r.overlap;
          reason = "similar";
          priority = 2;
        })
        rows

  abbrev pub offers_or_none : Outcome (List ScoreRow) → List Offer
  offers_or_none (err e) = []
  offers_or_none (ok rows) = co_watch rows

  abbrev pub seeded : ℤ → List Uuid → List Offer
  seeded lim [] = []
  seeded lim (u ∷ us) = offers_or_none (s.q.neighbors_for_seeds (u ∷ us) (times 2 lim))

  -- addSessionCoWatch
  abbrev pub session_offers_from : Option (String → List String) → String → ℤ → List Offer
  session_offers_from none id lim = []
  session_offers_from (some videos) id lim =
      if str_eq id "" then [] else seeded lim (parsed s.q.reads.parse_uuid (videos id))

  unfoldable pub session_offers : String → ℤ → List Offer
  session_offers id lim = session_offers_from s.session id lim

  abbrev pub same_channel_offers : RelatedRequest → Option Uuid → Outcome (List Offer)
  same_channel_offers req none = ok []
  same_channel_offers req (some ch) = do
    rows ← s.q.reads.related_same_channel req.hide_sensitive ch req.video_id same_channel_cap
    ok (offers_of_rows (s.reals.ratio 1 2) "similar" 2 rows)

  -- The offers of relatedAdvanced, in the order in which they are added.
  unfoldable pub related_offers : RelatedRequest → ℤ → Seed → Outcome (List Offer)
  related_offers req lim seed = do
    neighbors ← s.q.neighbors_for_video req.video_id (times 4 lim)
    same ← same_channel_offers req seed.channel_id
    overlap ←
        s.q.reads.related_by_overlap seed.category seed.language seed.tags req.hide_sensitive
          req.video_id (times 3 lim)
    popular ← s.q.reads.popular_eligible req.hide_sensitive (req.video_id ∷ []) lim
    ok (
        co_watch neighbors
        ++ same
        ++ overlap_offers overlap
        ++ session_offers req.session_id lim
        ++ offers_of_rows s.reals.f0 "popular" 0 popular)

  -- The watched videos that are hidden, and the offers of co-watching.
  abbrev pub watched_of : (fetch : ℤ) → Option Uuid → Outcome (List Uuid × List Offer)
  watched_of fetch none = ok ([], [])
  watched_of fetch (some uid) = do
    watched ← s.q.recently_watched uid 200
    neighbors ← s.q.neighbors_for_user_watches uid fetch
    ok (watched, co_watch neighbors)

  abbrev pub trending_rows_or_none : Outcome (List FeedRow) → List Candidate
  trending_rows_or_none (err e) = []
  trending_rows_or_none (ok rows) = candidates "trending" rows

  abbrev pub trending_or_sql : HomeRequest → (fetch : ℤ) → Option (List Candidate) → List Candidate
  trending_or_sql req fetch (some cands) = cands
  trending_or_sql req fetch none =
      trending_rows_or_none (s.q.reads.home_trending req.hide_sensitive (opt_str req.lang) fetch)

  -- homeTrendingCandidates
  unfoldable pub home_trending_candidates : HomeRequest → (fetch : ℤ) → List Candidate
  unfolding opt_str
  home_trending_candidates req fetch =
      trending_or_sql req fetch (redis_trending s.q.reads req.hide_sensitive)

  -- The user of a personalized request whose id parses.
  abbrev pub user_of : Bool → String → Option Uuid
  user_of personalized user = if personalized then s.q.reads.parse_uuid user else none

  -- The videos that homeAdvanced skips, and its offers in the order in which they are added.
  unfoldable pub home_offers : HomeRequest → ℤ → Outcome (List Uuid × List Offer)
  unfolding opt_str
  home_offers req lim = do
    watched ← watched_of (times 2 lim) (user_of req.personalized req.user_id)
    recent ← s.q.reads.home_recent req.hide_sensitive (opt_str req.lang) (times 2 lim)
    popular ← s.q.reads.popular_eligible req.hide_sensitive [] (times 2 lim)
    ok (
      watched.0,
      watched.1
          ++ offers_of (s.reals.ratio 1 1) "trending" 1 (home_trending_candidates req (times 2 lim))
          ++ offers_of_rows (s.reals.ratio 1 2) "fresh" 1 recent
          ++ offers_of_rows s.reals.f0 "popular" 0 popular
          ++ session_offers req.session_id lim,
    )
