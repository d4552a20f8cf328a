-- ===== src/Search/Advanced.antt =====
-- internal/search/advanced.go, and Search of service.go. The rankers and their scores are behind
-- interfaces; the conversions to `float64` are parameters.
use vidra_search.Prelude.{
  ℕ, ◌+◌, ◌-◌, ◌*◌, ◌/◌, ◌^◌, ltb, leb, ◌==◌, ℤ, pos, negsuc, String, Bool, false, ◌&&◌, ◌||◌,
  Option, none, some, List, [], ◌∷◌, map, take, drop, length, str_eq, if◌then◌else◌,
}
use vidra_search.Store.Rows.{Uuid, Float}
use vidra_search.Store.Query.{Outcome, ok, err}
use vidra_search.Experiment.Assign.{Assignment, subject_of_request}
use vidra_search.Search.Service.{
  Request, Hit, Response, int32, filter_of, limit_of, offset_of, simple_version, search_simple,
}
use vidra_search.Search.Features.{RecallRow, Doc, Ranked, Ranker, ScoreRow, ChannelRow, Service}

abbrev pub recall_limit : ℕ
recall_limit = 500

abbrev pub max_recall_limit : ℕ
max_recall_limit = 4 * 500

-- Go's sum of two numbers that are not negative.
unfoldable pub int_sum : ℕ → ℕ → ℤ
int_sum a b = if ltb (a + b) (2 ^ 63) then pos (a + b) else negsuc (2 ^ 64 - 1 - (a + b))

-- recallWindow
abbrev pub window_of : ℤ → ℕ
window_of (negsuc n) = recall_limit
window_of (pos want) =
    if leb want recall_limit
    then recall_limit
    else if leb max_recall_limit want
    then max_recall_limit
    else (want + recall_limit - 1) / recall_limit * recall_limit

unfoldable pub recall_window : (offset limit : ℕ) → ℕ
unfolding int_sum
recall_window offset limit = window_of (int_sum offset limit)

abbrev pub then_do : {A B : Type 0} → Outcome A → (A → Outcome B) → Outcome B
then_do (ok a) f = f a
then_do (err e) f = err e

module _ (s : Service) where
  abbrev pub channel_text : Option Uuid → String
  channel_text none = ""
  channel_text (some c) = s.uuid_string c

  abbrev pub doc_of : RecallRow → Doc
  doc_of r = record {
    video_id = s.uuid_string r.video_id;
    channel_id = channel_text r.channel_id;
    features = record {
      text_rank = r.ts_rank;
      trgm_sim = r.trgm_sim;
      exact_flags = r.exact_flags;
      views = s.to_float r.views;
      age_days = s.age_days r.published_at r.source_updated_at;
      impressions = s.to_float r.impressions;
      clicks = s.to_float r.clicks;
      meaningful_watches = s.to_float r.meaningful_watches;
      personal_affinity = s.f0;
      channel_affinity = s.f0;
      session_intent = s.f0;
      language_match = false;
    };
  }

  -- A map of scores under texts, where a later row replaces an earlier one.
  abbrev pub score_at : Float → String → List ScoreRow → Float
  score_at found id [] = found
  score_at found id (r ∷ rows) =
      score_at (if str_eq (s.uuid_string r.video_id) id then r.score else found) id rows

  abbrev pub row_weight : Uuid → ChannelRow → Option Uuid → Float → Float
  row_weight c r none found = found
  row_weight c r (some d) found = if d == c then r.weight else found

  abbrev pub weight_at : Float → Uuid → List ChannelRow → Float
  weight_at found c [] = found
  weight_at found c (r ∷ rows) = weight_at (row_weight c r r.channel_id found) c rows

  -- A candidate with its row: docs and candIDs are aligned.
  abbrev pub channel_score : List ChannelRow → Option Uuid → Float → Float
  channel_score rows none before = before
  channel_score rows (some c) before = weight_at s.f0 c rows

  abbrev pub set_affinity : List ScoreRow → List ChannelRow → RecallRow × Doc → RecallRow × Doc
  set_affinity scores channels (r, d) = (
    r,
    record d {
      features = record (d.features) {
        personal_affinity = score_at s.f0 d.video_id scores;
        channel_affinity = channel_score channels r.channel_id d.features.channel_affinity;
      };
    },
  )

  abbrev pub ids_of : List (RecallRow × Doc) → List Uuid
  ids_of docs = map (λ d. d.0.video_id) docs

  -- applyPersonalAffinity
  unfoldable pub apply_personal_affinity :
      Uuid → List (RecallRow × Doc) → Outcome (List (RecallRow × Doc))
  apply_personal_affinity u docs = then_do (s.q.neighbor_affinity u (ids_of docs)) (λ scores.
      then_do (s.q.user_channel_affinity u)
        (λ channels. ok (map (set_affinity scores channels) docs)))

  -- rankutil.ParseUUIDs
  abbrev pub parse_uuids : List String → List Uuid
  parse_uuids [] = []
  parse_uuids (t ∷ ts) = elim (s.parse_uuid t) [
    | none ↦ parse_uuids ts
    | some u ↦ u ∷ parse_uuids ts
  ]

  abbrev pub set_intent : List ScoreRow → RecallRow × Doc → RecallRow × Doc
  set_intent scores (r, d) = (
    r,
    record d {
      features = record (d.features) { session_intent = score_at s.f0 d.video_id scores };
    },
  )

  abbrev pub intent_of : List (RecallRow × Doc) → List Uuid → Outcome (List (RecallRow × Doc))
  intent_of docs [] = ok docs
  intent_of docs (u ∷ seeds) =
      then_do (s.q.neighbor_scores (u ∷ seeds) (ids_of docs))
        (λ scores. ok (map (set_intent scores) docs))

  -- applySessionIntent
  unfoldable pub apply_session_intent :
      (String → List String) → String → List (RecallRow × Doc) → Outcome (List (RecallRow × Doc))
  apply_session_intent videos id docs = intent_of docs (parse_uuids (videos id))

  abbrev pub personal_of : List (RecallRow × Doc) → Option Uuid → Outcome (List (RecallRow × Doc))
  personal_of docs none = ok docs
  personal_of docs (some u) = apply_personal_affinity u docs

  unfoldable pub personalize : Request → List (RecallRow × Doc) → Outcome (List (RecallRow × Doc))
  personalize req docs =
      if req.personalized then personal_of docs (s.parse_uuid req.user_id) else ok docs

  abbrev pub session_of :
      Request
      → List (RecallRow × Doc)
      → Option (String → List String)
      → Outcome (List (RecallRow × Doc))
  session_of req docs none = ok docs
  session_of req docs (some videos) =
      if str_eq req.session_id "" then ok docs else apply_session_intent videos req.session_id docs

  abbrev pub assignment_of :
      Request → Option (String → String → Option Assignment) → Option Assignment
  assignment_of req none = none
  assignment_of req (some assign) =
      assign "search_ranker" (subject_of_request req.user_id req.session_id)

  abbrev pub version_of : Option Assignment → String
  version_of none = ""
  version_of (some a) = a.model_version

  -- pickRanker
  abbrev pub pick_ranker : String → Option (String → Ranker × String) → Ranker × String
  pick_ranker version none = (s.heuristic, "heuristic-v1")
  pick_ranker version (some ranker_for) = ranker_for version

  abbrev pub to_hit : Ranked → Hit
  to_hit r = record { video_id = r.video_id; score = r.score }

  abbrev pub respond :
      Request
      → Option Assignment
      → String
      → (total : ℕ) → (truncated : Bool) → List Hit
      → (has_more : Bool) → Response
  respond req a version total truncated hits has_more = record {
    query = req.query;
    ids = hits;
    model_version = version;
    experiment = a;
    total = some (pos total);
    total_is_lower_bound = truncated;
    has_more = has_more;
  }

  -- The page of the ranked candidates.
  abbrev pub page :
      Request
      → Option Assignment
      → String
      → (total window : ℕ) → (truncated : Bool) → List Ranked
      → Response
  page req a version total window truncated ranked =
      let hits = map to_hit (take (limit_of req) (drop (offset_of req) ranked)) in
      respond req a version total truncated hits (
        ltb (offset_of req + length hits) (length ranked)
        || truncated && ltb window max_recall_limit)

  abbrev pub rank :
      Request
      → Option Assignment
      → Ranker × String
      → (window : ℕ) → (truncated : Bool) → List RecallRow
      → Outcome Response
  rank req a picked window truncated [] = ok (respond req a picked.1 0 truncated [] false)
  rank req a picked window truncated (r ∷ rows) =
      then_do (personalize req (map (λ x. (x, doc_of x)) (r ∷ rows))) (λ docs.
        then_do (session_of req docs s.session) (λ docs. ok (
          page req a picked.1 (length (r ∷ rows)) window truncated
            (picked.0 (map (λ d. d.1) docs)))))

  -- searchAdvanced: one row past the window is asked for, and dropped.
  unfoldable pub search_advanced : (normalized : String) → Request → Outcome Response
  search_advanced normalized req =
      let window = recall_window (offset_of req) (limit_of req) in
      let a = assignment_of req s.exp in
      then_do (s.q.recall (filter_of normalized req) (int32 (window + 1))) (λ rows.
        rank req a (pick_ranker (version_of a) s.ranker) window (ltb window (length rows))
          (if ltb window (length rows) then take window rows else rows))

  -- Search
  unfoldable pub search : Request → Outcome Response
  search req =
      let normalized = s.normalize req.query in
      if str_eq normalized ""
      then ok (record {
        query = req.query;
        ids = [];
        model_version = simple_version;
        experiment = none;
        total = some (pos 0);
        total_is_lower_bound = false;
        has_more = false;
      })
      else if str_eq req.mode "advanced"
      then search_advanced normalized req
      else search_simple s.q.simple s.uuid_string normalized req
