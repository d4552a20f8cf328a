-- ===== src/Event/Types.antt =====
-- internal/event/types.go: the event types, the envelope, the payloads and the batch result.
use vidra_search.Prelude.{ℕ, ℤ, String, Bool, true, false, List, str_eq, if◌then◌else◌}
use vidra_search.Store.Rows.{Uuid, Time}

-- The constants of types.go; `other` is any other text.
pub data EventType : Type 0 where
  video_upsert video_suppress video_stats channel_upsert channel_delete : EventType
  user_suppress user_history_del config_updated : EventType
  reconcile_begin reconcile_page reconcile_end : EventType
  search_submitted search_sugg_shown search_sugg_selected search_result_clicked : EventType
  video_impression video_play_started video_watch_progress video_completed : EventType
  video_meaningful_watch search_reformulated search_abandoned : EventType
  snapshot_page snapshot_end : EventType
  other : EventType

-- Which constant a type text is equal to.
unfoldable pub event_type : String → EventType
event_type t =
    if str_eq t "video.upsert"
    then video_upsert
    else if str_eq t "video.suppress"
    then video_suppress
    else if str_eq t "video.stats"
    then video_stats
    else if str_eq t "channel.upsert"
    then channel_upsert
    else if str_eq t "channel.delete"
    then channel_delete
    else if str_eq t "user.suppress"
    then user_suppress
    else if str_eq t "user.history_deleted"
    then user_history_del
    else if str_eq t "search.config_updated"
    then config_updated
    else if str_eq t "reconcile.begin"
    then reconcile_begin
    else if str_eq t "reconcile.page"
    then reconcile_page
    else if str_eq t "reconcile.end"
    then reconcile_end
    else if str_eq t "search.submitted"
    then search_submitted
    else if str_eq t "search.suggestions_shown"
    then search_sugg_shown
    else if str_eq t "search.suggestion_selected"
    then search_sugg_selected
    else if str_eq t "search.result_clicked"
    then search_result_clicked
    else if str_eq t "video.impression"
    then video_impression
    else if str_eq t "video.play_started"
    then video_play_started
    else if str_eq t "video.watch_progress"
    then video_watch_progress
    else if str_eq t "video.completed"
    then video_completed
    else if str_eq t "video.meaningful_watch"
    then video_meaningful_watch
    else if str_eq t "search.reformulated"
    then search_reformulated
    else if str_eq t "search.abandoned"
    then search_abandoned
    else if str_eq t "catalog.snapshot.page"
    then snapshot_page
    else if str_eq t "catalog.snapshot.end"
    then snapshot_end
    else other

-- knownTypes, which lists every constant
known_type : EventType → Bool
known_type other = false
known_type _ = true

-- The bounded label of a type text in the metrics.
unfoldable pub metric_type : String → String
unfolding known_type
metric_type t = if known_type (event_type t) then t else "unknown"

-- isBehavioral
unfoldable pub is_behavioral : EventType → Bool
is_behavioral search_submitted = true
is_behavioral search_sugg_shown = true
is_behavioral search_sugg_selected = true
is_behavioral search_result_clicked = true
is_behavioral video_impression = true
is_behavioral video_play_started = true
is_behavioral video_watch_progress = true
is_behavioral video_completed = true
is_behavioral _ = false

-- catalog_legacy.go: isLegacyCatalogType
unfoldable pub is_legacy_catalog_type : EventType → Bool
is_legacy_catalog_type video_upsert = true
is_legacy_catalog_type video_suppress = true
is_legacy_catalog_type channel_upsert = true
is_legacy_catalog_type channel_delete = true
is_legacy_catalog_type user_suppress = true
is_legacy_catalog_type reconcile_begin = true
is_legacy_catalog_type reconcile_page = true
is_legacy_catalog_type reconcile_end = true
is_legacy_catalog_type _ = false

pub record Envelope : Type 0 where
  pub event_id : Uuid
  pub type : String
  pub occurred_at : Time
  pub schema_version : ℤ
  pub payload : String

pub record Failure : Type 0 where
  pub event_id : String
  pub code : String
  pub message : String

pub record Result : Type 0 where
  pub accepted : ℕ
  pub duplicates : ℕ
  pub failed : List Failure
