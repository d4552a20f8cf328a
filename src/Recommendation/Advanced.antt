-- ===== src/Recommendation/Advanced.antt =====
-- internal/recommendation/advanced.go: relatedAdvanced and homeAdvanced;
-- internal/recommendation/service.go: advancedMode, Related and Home.
use vidra_search.Prelude.{
  ℤ, String, Bool, false, Option, none, some, List, [], ◌∷◌, str_eq, if◌then◌else◌,
}
use vidra_search.Store.Rows.{Uuid}
use vidra_search.Store.Query.{Outcome, ok, err}
use vidra_search.Paging.{limit}
use vidra_search.Experiment.Assign.{Assignment, subject_of_request}
use vidra_search.Recommendation.Composer.{Composer, new_composer, items}
use vidra_search.Recommendation.Feeds.{
  Seed, Response, ◌>>=◌, default_limit, max_related_limit, max_home_limit, simple_response,
  related_simple,
}
use vidra_search.Recommendation.Rounds.{home_picks}
use vidra_search.Recommendation.Candidates.{
  CandidateSet, Offer, new_candidate_set, skip_all, offer_all,
}
use vidra_search.Recommendation.Compose.{Viewer, compose_advanced}
use vidra_search.Recommendation.Sources.{RelatedRequest, HomeRequest, related_offers, home_offers}
use vidra_search.Recommendation.Scoring.{ConfigRow, Service}

abbrev pub config_mode : List ConfigRow → Bool
config_mode [] = false
config_mode (r ∷ rows) =
    let rest = config_mode rows in
    if str_eq r.key "search_mode" then str_eq r.value "advanced" else rest

-- advancedMode
unfoldable pub advanced_mode : Outcome (List ConfigRow) → Bool
advanced_mode (err e) = false
advanced_mode (ok rows) = config_mode rows

module _ (s : Service) where
  abbrev pub set_of : List Uuid → List Offer → CandidateSet
  set_of skips os = offer_all s.reals os (skip_all skips new_candidate_set)

  abbrev pub related_viewer : RelatedRequest → ℤ → Viewer
  related_viewer req lim = record {
    limit = lim;
    hide_sensitive = req.hide_sensitive;
    user_id = req.user_id;
    personalized = req.personalized;
    lang = "";
    subject = subject_of_request req.user_id req.session_id;
  }

  abbrev pub related_of_seed : RelatedRequest → ℤ → Option Seed → Outcome Composer
  related_of_seed req lim none = ok (new_composer lim)
  related_of_seed req lim (some seed) = do
    os ← related_offers s req lim seed
    compose_advanced s (related_viewer req lim) (set_of (req.video_id ∷ []) os)

  -- relatedAdvanced up to its composer.
  unfoldable pub related_advanced_picks : RelatedRequest → Outcome Composer
  related_advanced_picks req = do
    seed ← s.q.reads.get_document req.video_id
    related_of_seed req (limit req.limit default_limit max_related_limit) seed

  abbrev pub home_viewer : HomeRequest → ℤ → Viewer
  home_viewer req lim = record {
    limit = lim;
    hide_sensitive = req.hide_sensitive;
    user_id = req.user_id;
    personalized = req.personalized;
    lang = req.lang;
    subject = subject_of_request req.user_id req.session_id;
  }

  -- homeAdvanced up to its composer.
  unfoldable pub home_advanced_picks : HomeRequest → Outcome Composer
  home_advanced_picks req = do
    os ← home_offers s req (limit req.limit default_limit max_home_limit)
    compose_advanced s (home_viewer req (limit req.limit default_limit max_home_limit))
        (set_of os.0 os.1)

  -- attachExperiment
  abbrev pub experiment_for :
      (subject : String) → Option (String → String → Option Assignment) → Option Assignment
  experiment_for subject none = none
  experiment_for subject (some assign) = assign "rec_ranker" subject

  abbrev pub advanced_response : (user_id session_id : String) → Composer → Response
  advanced_response user session c = record {
    items = items s.prints c;
    model_version = "advanced-v1";
    experiment = experiment_for (subject_of_request user session) s.exp;
  }

  unfoldable pub related_advanced : RelatedRequest → Outcome Response
  related_advanced req = do
    c ← related_advanced_picks req
    ok (advanced_response req.user_id req.session_id c)

  unfoldable pub home_advanced : HomeRequest → Outcome Response
  home_advanced req = do
    c ← home_advanced_picks req
    ok (advanced_response req.user_id req.session_id c)

  -- Related
  unfoldable pub related : RelatedRequest → Outcome Response
  related req =
      if advanced_mode s.q.list_service_config
      then related_advanced req
      else related_simple s.prints s.q.reads req.video_id req.limit req.hide_sensitive

  abbrev pub simple_home : Outcome (Option Composer) → Outcome (Option Response)
  simple_home (err e) = err e
  simple_home (ok none) = ok none
  simple_home (ok (some c)) = ok (some (simple_response s.prints c))

  -- Home; `none` where the round robin of the simple feed is out of fuel.
  unfoldable pub home : HomeRequest → Outcome (Option Response)
  home req =
      if advanced_mode s.q.list_service_config
      then (do r ← home_advanced req; ok (some r))
      else simple_home (home_picks s.q.reads req.limit req.hide_sensitive req.lang)
