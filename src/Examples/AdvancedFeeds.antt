-- ===== src/Examples/AdvancedFeeds.antt =====
-- The advanced feeds over a store with five videos, one of them not eligible.
use vidra_search.Prelude.{
  ℕ, ◌+◌, ◌==◌, max, pos, pos_part, String, true, false, not, ◌&&◌, Option, none, some, List, [],
  ◌∷◌, any, is_some, str_eq, if◌then◌else◌, ◌≡◌, refl,
}
use vidra_search.Store.Rows.{Uuid}
use vidra_search.Store.Query.{Outcome, ok, err}
use vidra_search.Index.{opt_str}
use vidra_search.Paging.{limit}
use vidra_search.Prelude.Sort.{stable_sort, insert}
use vidra_search.Explore.Mmr.{mmr, select, best_index, mark, marginal, max_sim}
use vidra_search.Explore.Slot.{exploration_slot, hash_seed}
use vidra_search.Experiment.Assign.{fnv1a}
use vidra_search.Recommendation.Candidates
use vidra_search.Recommendation.Composer
use vidra_search.Recommendation.Rounds.{redis_trending}
use vidra_search.Recommendation.Composer.{Composer, has, new_composer, full, add_capped}
use vidra_search.Recommendation.Feeds.{Reads, max_related_limit, max_home_limit}
use vidra_search.Recommendation.Promises.{IsFeed}
use vidra_search.Recommendation.Bounds.{AllDistinct}
use vidra_search.Recommendation.Candidates.{
  Offer, new_candidate_set, skip, skip_all, merge, offer_all,
}
use vidra_search.Recommendation.Merge.{priority_at}
use vidra_search.Recommendation.OfferRuns.{is_offered, top_priority, offer_all_iff}
use vidra_search.Recommendation.Scoring.{
  FeatureRow, Service, tokens_of, deref, modify_all, mark_rows, fill_affinity, personalize, max_of,
  maxima, relevance,
}
use vidra_search.Recommendation.Compose.{
  novel, compose_ids, insert_exploration, compose_ranked, compose_advanced,
}
use vidra_search.Recommendation.Sources.{
  RelatedRequest, HomeRequest, session_offers, related_offers, home_trending_candidates,
  home_offers,
}
use vidra_search.Recommendation.Advanced.{related_advanced_picks, home_advanced_picks}
use vidra_search.Examples.Explore.{whole}
use vidra_search.Recommendation.Hidden.{
  AllShown, related_advanced_picks-shown, home_advanced_picks-shown,
}

abbrev text_of : Uuid → String
text_of u = if u == 1 then "1" else if u == 2 then "2" else if u == 3 then "3" else "4"

abbrev uuid_of : String → Option Uuid
uuid_of t =
    if str_eq t "1"
    then some 1
    else if str_eq t "2"
    then some 2
    else if str_eq t "3"
    then some 3
    else if str_eq t "4"
    then some 4
    else none

abbrev reads : Reads
reads = record {
  get_document =
      λ v. ok (some (record { channel_id = none; category = none; language = none; tags = [] }));
  related_same_channel = λ hide ch v lim. ok [];
  related_by_overlap = λ cat lang tags hide v lim. ok [];
  popular_eligible = λ hide ex lim. ok (record { video_id = 3; channel_id = some 8 } ∷ []);
  home_trending = λ hide lang lim. ok [];
  home_recent = λ hide lang lim. ok [];
  list_eligible_by_ids = λ hide us. ok [];
  trending_videos = none;
  parse_uuid = uuid_of;
}

abbrev features : Uuid → FeatureRow
features u = record {
  video_id = u;
  channel_id = some 9;
  category = none;
  tags = [];
  views = pos 5;
  published_at = none;
  source_updated_at = 3;
}

-- Video 4 is watched with every other, but no document of it is eligible.
abbrev service : Service
service = record {
  q = record {
    reads = reads;
    neighbors_for_video =
        λ v lim. ok (record { video_id = 4; score = 9 } ∷ record { video_id = 2; score = 4 } ∷ []);
    neighbors_for_seeds = λ us lim. ok [];
    neighbors_for_user_watches =
        λ u lim. ok (record { video_id = 4; score = 9 } ∷ record { video_id = 2; score = 4 } ∷ []);
    neighbor_affinity = λ u us. ok [];
    user_channel_affinity = λ u. ok [];
    list_doc_features = λ hide us. ok (features 2 ∷ features 3 ∷ []);
    recently_watched = λ u lim. ok (3 ∷ []);
    fresh_low_view = λ hide views lang lim. ok [];
    list_service_config = ok (record { key = "search_mode"; value = "advanced" } ∷ []);
  };
  exp = none;
  session = none;
  prints = record { ratio = λ i n. i; uuid_string = text_of };
  reals = whole;
  draw = record { bytes = λ s. []; not_positive = λ e. false; below = λ n e. true };
  plus = λ x y. x + y;
  divide = λ x y. x;
  maximum = max;
  at_least = λ x y. false;
  exp_of = λ x. x;
  minus_ln2 = 0;
  to_float = λ n. pos_part n;
  age_days = λ p t. t;
}

abbrev offer : Uuid → ℕ → ℕ → Offer
offer u base priority = record {
  video_id = u;
  channel_id = none;
  base = base;
  reason = "";
  priority = priority;
}

abbrev offers : List Offer
offers = offer 2 5 0 ∷ offer 3 1 1 ∷ offer 2 1 3 ∷ []

offer_all_iff_example :
    (is_some ((offer_all whole offers (skip_all (3 ∷ []) new_candidate_set)).by_id 2)
      ≡ (not (has 2 (3 ∷ [])) && is_offered 2 offers))
    × (priority_at ((offer_all whole offers (skip_all (3 ∷ []) new_candidate_set)).by_id 2)
        ≡ (if has 2 (3 ∷ []) then 0 else top_priority 2 offers))
    × (has 2 (offer_all whole offers (skip_all (3 ∷ []) new_candidate_set)).order
        ≡ is_some ((offer_all whole offers (skip_all (3 ∷ []) new_candidate_set)).by_id 2))
    × AllDistinct (offer_all whole offers (skip_all (3 ∷ []) new_candidate_set)).order
offer_all_iff_example = offer_all_iff whole (3 ∷ []) offers 2

abbrev related_request : RelatedRequest
related_request = record {
  video_id = 1;
  limit = pos 3;
  hide_sensitive = true;
  user_id = "";
  session_id = "";
  personalized = false;
}

abbrev composer_of : Outcome Composer → Composer
composer_of (ok c) = c
composer_of (err e) = new_composer (pos 0)

abbrev related : Composer
related = composer_of (related_advanced_picks service related_request)

related_served : related_advanced_picks service related_request ≡ ok related
unfolding related_advanced_picks related_offers session_offers compose_advanced compose_ranked
    compose_ids insert_exploration personalize mark_rows deref modify_all maxima max_of relevance
    tokens_of mmr select best_index mark marginal max_sim stable_sort insert offer_all
    Candidates.add skip_all skip merge any full Composer.add add_capped limit
related_served = refl

related_advanced_picks_example :
    IsFeed max_related_limit related.picks × AllShown service true (1 ∷ []) related.picks
related_advanced_picks_example =
    related_advanced_picks-shown service related_request related related_served

abbrev home_request : HomeRequest
home_request = record {
  limit = pos 3;
  hide_sensitive = false;
  lang = "";
  user_id = "1";
  session_id = "";
  personalized = true;
}

abbrev home : Composer
home = composer_of (home_advanced_picks service home_request)

home_served : home_advanced_picks service home_request ≡ ok home
unfolding home_advanced_picks home_offers home_trending_candidates redis_trending session_offers
    compose_advanced compose_ranked compose_ids insert_exploration fill_affinity exploration_slot
    hash_seed fnv1a novel personalize mark_rows deref modify_all maxima max_of relevance tokens_of
    mmr select best_index mark marginal max_sim stable_sort insert offer_all Candidates.add skip_all
    skip merge any full Composer.add add_capped limit opt_str
home_served = refl

home_advanced_picks_example :
    IsFeed max_home_limit home.picks × AllShown service false (3 ∷ []) home.picks
home_advanced_picks_example =
    home_advanced_picks-shown service home_request (3 ∷ []) home refl home_served
