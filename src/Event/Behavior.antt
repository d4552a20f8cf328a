-- ===== src/Event/Behavior.antt =====
-- service.go: applyBehavioral. Each event is recorded; the personal projections are written under
-- the consent rules; the Redis effects are returned, to be run after the commit.
use vidra_search.Prelude.{
  ℤ, String, Bool, not, ◌&&◌, Option, none, some, List, [], ◌∷◌, ◌++◌, ◌==◌, str_eq, if◌then◌else◌,
}
use vidra_search.Store.Rows.{Uuid, Time, Float}
use vidra_search.Store.Stmt.{
  insert_behavior_event, append_query_log, upsert_user_search_history, upsert_watch_projection,
}
use vidra_search.Store.Query.{Query, exec, pure, lift, when, ◌>>=◌, ◌>>◌}
use vidra_search.Normalize.{normalize, trim_space}
use vidra_search.Index.{opt_str, deref_str}
use vidra_search.Event.Types.{
  Envelope, EventType, event_type, search_submitted, video_play_started, video_completed,
  video_watch_progress, search_result_clicked, video_impression, search_sugg_shown,
  search_sugg_selected,
}
use vidra_search.Event.Payloads.{
  SearchSubmitted, PlayStarted, VideoCompleted, WatchProgress, ResultClicked, Impression,
  SuggestionEvent,
}
use vidra_search.Event.Env.{Env}
use vidra_search.Event.HistoryRule.{play_allowed, completed_allowed}

pub data RedisEffect : Type 0 where
  session_query session_video : (session_id value : String) → RedisEffect
  trend : (domain item subject : String) → RedisEffect

-- eventTime
unfoldable pub event_time : Env → Envelope → Time
event_time env ev = if ev.occurred_at == 0 then env.wall else ev.occurred_at

-- subjectOf
unfoldable pub subject_of :
    Env → (user_id : Option Uuid) (subject_id session_id : Option String) → String
unfolding deref_str
subject_of env (some u) subject_id session_id = env.uuid_string u
subject_of env none subject_id session_id =
    let s = deref_str subject_id in if not (str_eq s "") then s else deref_str session_id

pub record BehaviorFields : Type 0 where
  pub user_id : Option Uuid
  pub session_id : Option String
  pub normalized_query : Option String
  pub video_id : Option Uuid
  pub position : Option ℤ
  pub model_version : Option String

unfoldable pub insert_behavior : Env → Envelope → BehaviorFields → Query (Unit {0})
unfolding event_time
insert_behavior env ev f = exec env.server (
    insert_behavior_event (record {
      event_id = ev.event_id;
      type = ev.type;
      user_id = f.user_id;
      session_id = f.session_id;
      normalized_query = f.normalized_query;
      video_id = f.video_id;
      position = f.position;
      model_version = f.model_version;
      occurred_at = event_time env ev;
      props = ev.payload;
    }))

unfoldable pub upsert_projection :
    Env → (user_id video_id : Uuid) (delta : Float) → Query (Unit {0})
upsert_projection env u v delta =
    exec env.server (upsert_watch_projection u v delta env.cfg.watch_half_life_hours)

-- weightPlayStarted = 0.3 and weightCompleted = 1.5, as 32-bit floats
abbrev weight_play_started : Float
weight_play_started = 0x3E99999A

abbrev weight_completed : Float
weight_completed = 0x3FC00000

-- `if p.…Allowed && p.UserID != nil { write(*p.UserID) }`
unfoldable pub for_user : Bool → Option Uuid → (Uuid → Query (Unit {0})) → Query (Unit {0})
unfolding when
for_user allowed none write = pure tt
for_user allowed (some u) write = when allowed (write u)

-- The query of a payload that may have none.
unfoldable pub normalize_opt : Env → Option String → String
unfolding normalize
normalize_opt env none = ""
normalize_opt env (some q) = normalize env.forms q

unfoldable pub submitted_effects : Env → SearchSubmitted → (nq : String) → List RedisEffect
unfolding deref_str subject_of
submitted_effects env p nq =
    let sid = deref_str p.session_id in
    (if not (str_eq sid "") && not (str_eq nq "") then session_query sid nq ∷ [] else [])
    ++ (if not (str_eq nq "")
        then trend "q" nq (subject_of env p.user_id p.subject_id p.session_id) ∷ []
        else [])

unfoldable pub apply_submitted : Env → Envelope → SearchSubmitted → Query (List RedisEffect)
unfolding normalize trim_space opt_str insert_behavior event_time submitted_effects
apply_submitted env ev p = do
  let nq = normalize env.forms p.query
  let display = trim_space p.query
  insert_behavior env ev (record {
    user_id = p.user_id;
    session_id = p.session_id;
    normalized_query = opt_str nq;
    video_id = none;
    position = none;
    model_version = none;
  })
  when (not (str_eq nq "")) (
      exec env.server (
        append_query_log (record {
          event_id = ev.event_id;
          normalized_query = nq;
          display_query = display;
          user_id = p.user_id;
          session_id = p.session_id;
          subject_id = p.subject_id;
          results_count = p.results_count;
          submitted_at = event_time env ev;
        })))
  for_user (p.allow_history && not (str_eq nq "")) p.user_id
      λ u. exec env.server (upsert_user_search_history u nq display (event_time env ev))
  pure (submitted_effects env p nq)

unfoldable pub play_effects : Env → PlayStarted → List RedisEffect
unfolding deref_str subject_of
play_effects env p =
    let sid = deref_str p.session_id in
    (if not (str_eq sid "") then session_video sid (env.uuid_string p.video_id) ∷ [] else [])
    ++ trend "v" (env.uuid_string p.video_id) (subject_of env p.user_id p.subject_id p.session_id)
      ∷ []

unfoldable pub apply_play : Env → Envelope → PlayStarted → Query (List RedisEffect)
unfolding normalize_opt opt_str insert_behavior upsert_projection play_allowed play_effects
apply_play env ev p = do
  insert_behavior env ev (record {
    user_id = p.user_id;
    session_id = p.session_id;
    normalized_query = opt_str (normalize_opt env p.query);
    video_id = some p.video_id;
    position = none;
    model_version = none;
  })
  for_user (play_allowed p) p.user_id λ u. upsert_projection env u p.video_id weight_play_started
  pure (play_effects env p)

unfoldable pub apply_completed : Env → Envelope → VideoCompleted → Query (List RedisEffect)
unfolding insert_behavior upsert_projection completed_allowed
apply_completed env ev p = do
  insert_behavior env ev (record {
    user_id = p.user_id;
    session_id = p.session_id;
    normalized_query = none;
    video_id = some p.video_id;
    position = none;
    model_version = none;
  })
  for_user (completed_allowed p) p.user_id λ u. upsert_projection env u p.video_id weight_completed
  pure []

unfoldable pub progress_fields : WatchProgress → BehaviorFields
progress_fields p = record {
  user_id = p.user_id;
  session_id = p.session_id;
  normalized_query = none;
  video_id = some p.video_id;
  position = none;
  model_version = none;
}

unfoldable pub clicked_fields : Env → ResultClicked → BehaviorFields
unfolding normalize opt_str
clicked_fields env p = record {
  user_id = p.user_id;
  session_id = p.session_id;
  normalized_query = opt_str (normalize env.forms p.query);
  video_id = some p.video_id;
  position = p.position;
  model_version = p.model_version;
}

unfoldable pub impression_fields : Env → Impression → BehaviorFields
unfolding normalize_opt opt_str
impression_fields env p = record {
  user_id = p.user_id;
  session_id = p.session_id;
  normalized_query = opt_str (normalize_opt env p.query);
  video_id = some p.video_id;
  position = p.position;
  model_version = p.model_version;
}

unfoldable pub suggestion_fields : SuggestionEvent → BehaviorFields
suggestion_fields p = record {
  user_id = p.user_id;
  session_id = p.session_id;
  normalized_query = none;
  video_id = none;
  position = p.position;
  model_version = none;
}

unfoldable pub behave : Env → EventType → Envelope → Query (List RedisEffect)
unfolding apply_submitted apply_play apply_completed insert_behavior
behave env search_submitted ev = do
  p ← lift (env.decode.search_submitted ev.payload)
  apply_submitted env ev p
behave env video_play_started ev = do
  p ← lift (env.decode.play_started ev.payload)
  apply_play env ev p
behave env video_completed ev = do
  p ← lift (env.decode.video_completed ev.payload)
  apply_completed env ev p
behave env video_watch_progress ev = do
  p ← lift (env.decode.watch_progress ev.payload)
  insert_behavior env ev (progress_fields p)
  pure []
behave env search_result_clicked ev = do
  p ← lift (env.decode.result_clicked ev.payload)
  insert_behavior env ev (clicked_fields env p)
  pure []
behave env video_impression ev = do
  p ← lift (env.decode.impression ev.payload)
  insert_behavior env ev (impression_fields env p)
  pure []
behave env search_sugg_shown ev = do
  p ← lift (env.decode.suggestion_event ev.payload)
  insert_behavior env ev (suggestion_fields p)
  pure []
behave env search_sugg_selected ev = do
  p ← lift (env.decode.suggestion_event ev.payload)
  insert_behavior env ev (suggestion_fields p)
  pure []
behave env _ ev = pure []

unfoldable pub apply_behavioral : Env → Envelope → Query (List RedisEffect)
unfolding behave
apply_behavioral env ev = behave env (event_type ev.type) ev
