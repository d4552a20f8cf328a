-- ===== src/Recommendation/Compose.antt =====
-- internal/recommendation/advanced.go: composeAdvanced from the features on, with insertExploration.
use vidra_search.Prelude.{
  ℕ, min, ℤ, pos, String, Bool, true, false, not, ◌&&◌, Option, none, some, List, [], ◌∷◌, ◌++◌,
  map, take, drop, keep, get_elem?, length, str_eq, if◌then◌else◌,
}
use vidra_search.Store.Rows.{Uuid}
use vidra_search.Store.Query.{Outcome, ok, err}
use vidra_search.Index.{opt_str}
use vidra_search.Explore.Mmr.{mmr}
use vidra_search.Explore.Slot.{exploration_slot}
use vidra_search.Recommendation.Composer.{Candidate, Composer, has, new_composer, full, add}
use vidra_search.Recommendation.Feeds.{FeedRow, times, ◌>>=◌}
use vidra_search.Recommendation.Candidates.{AdvCand, is_eligible, ById, CandidateSet, put}
use vidra_search.Recommendation.Scoring.{
  Service, deref, modify_all, Found, mark_rows, personalize, maxima, subscribe, mmr_doc, mmr_lambda,
  explore_epsilon,
}

-- The arguments of `composeAdvanced`.
pub record Viewer : Type 0 where
  pub limit : ℤ
  pub hide_sensitive : Bool
  pub user_id : String
  pub personalized : Bool
  pub lang : String
  pub subject : String

-- recFreshMaxViews
abbrev pub fresh_max_views : ℕ
fresh_max_views = 100

-- The pool's rows that are neither excluded nor eligible candidates already.
unfoldable pub novel : List Uuid → ById → List FeedRow → List FeedRow
novel excluded m pool =
    keep (λ p. not (has p.video_id excluded) && not (is_eligible (m p.video_id))) pool

abbrev pub serve : Option AdvCand → Option Candidate
serve none = none
serve (some c) =
    if c.eligible
    then some (record { video_id = c.id; channel_id = c.channel; reason = c.reason })
    else none

abbrev pub candidate_of_id : (String → Option Uuid) → ById → String → Option Candidate
candidate_of_id parse m id = elim (parse id) [ none ↦ none | some u ↦ serve (m u) ]

abbrev pub compose_one : Option Candidate → Composer → (Composer → Composer) → Composer
compose_one none c k = k c
compose_one (some cand) c k = let d = k (add cand c) in if full (add cand c) then add cand c else d

-- The loop that composes the feed in the diversified order.
unfoldable pub compose_ids : (String → Option Uuid) → ById → List String → Composer → Composer
compose_ids parse m [] c = c
compose_ids parse m (id ∷ ids) c =
    compose_one (candidate_of_id parse m id) c (λ d. compose_ids parse m ids d)

module _ (s : Service) where
  abbrev pub explored : FeedRow → AdvCand
  explored p = record {
    id = p.video_id;
    channel = p.channel_id;
    base_score = s.reals.f0;
    reason = "fresh";
    priority = 1;
    tokens = [];
    views = s.reals.f0;
    age_days = s.reals.f0;
    eligible = true;
    affinity = s.reals.f0;
    channel_aff = s.reals.f0;
  }

  abbrev pub insert_pick : List String → ById → Option FeedRow → List String × ById
  insert_pick ordered m none = (ordered, m)
  insert_pick ordered m (some p) = (
    take (min 3 (length ordered)) ordered
        ++ s.prints.uuid_string p.video_id ∷ drop (min 3 (length ordered)) ordered,
    put p.video_id (explored p) m,
  )

  -- The pick of the exploration slot, `fresh[idx]`.
  abbrev pub slot_pick : List FeedRow → Bool × ℕ → Option FeedRow
  slot_pick fresh (false, i) = none
  slot_pick fresh (true, i) = get_elem? fresh i

  abbrev pub explore_pool : Viewer → List Uuid → ById → Outcome (List FeedRow) → Option FeedRow
  explore_pool v excluded m (err e) = none
  explore_pool v excluded m (ok pool) =
      let fresh = novel excluded m pool in
      slot_pick fresh (exploration_slot s.draw v.subject (explore_epsilon s) (pos (length fresh)))

  -- insertExploration
  unfoldable pub insert_exploration : Viewer → List Uuid → List String → ById → List String × ById
  unfolding novel opt_str
  insert_exploration v excluded ordered m =
      if str_eq v.subject ""
      then (ordered, m)
      else insert_pick ordered m (
          explore_pool v excluded m (
            s.q.fresh_low_view v.hide_sensitive fresh_max_views (opt_str v.lang) (times 2 v.limit)))

  -- composeAdvanced from the scores on.
  unfoldable pub compose_ranked : Viewer → List Uuid → List Uuid → ById → Composer
  compose_ranked v excluded us m =
      let cands = deref m us in
      let top = maxima s cands in
      let docs = map (mmr_doc s top) cands in
      let ordered = mmr s.reals docs (mmr_lambda s) (pos (length docs)) in
      let r =
        insert_exploration v excluded ordered (modify_all (subscribe s v.personalized top) us m) in
      compose_ids s.q.reads.parse_uuid r.1 r.0 (new_composer v.limit)

  abbrev pub compose_found : Viewer → List Uuid → Found → Outcome Composer
  compose_found v excluded (m, []) = ok (new_composer v.limit)
  compose_found v excluded (m, u ∷ us) = do
    filled ← personalize s v.personalized v.user_id (u ∷ us) m
    ok (compose_ranked v excluded (u ∷ us) filled)

  abbrev pub compose_order : Viewer → CandidateSet → List Uuid → Outcome Composer
  compose_order v cs [] = ok (new_composer v.limit)
  compose_order v cs (u ∷ us) = do
    feats ← s.q.list_doc_features v.hide_sensitive (u ∷ us)
    compose_found v cs.exclude (mark_rows s feats (cs.by_id, []))

  -- composeAdvanced, up to its composer.
  unfoldable pub compose_advanced : Viewer → CandidateSet → Outcome Composer
  compose_advanced v cs = compose_order v cs cs.order
