-- ===== src/Event/HistoryRule.antt =====
-- internal/event/history_rule.go: which events may write the durable personal projections.
use vidra_search.Prelude.{String, Bool, false, ◌&&◌, ◌||◌, Option, none, some, is_some}
use vidra_search.Store.Query.{ok, err}
use vidra_search.Event.Types.{
  EventType, event_type, search_submitted, video_play_started, video_completed,
}
use vidra_search.Event.Payloads.{PlayStarted, VideoCompleted}
use vidra_search.Event.Env.{Decoders}

unfoldable pub projection_consent :
    (allow_personalization : Option Bool) (allow_history : Bool) → Bool
projection_consent none allow_history = allow_history
projection_consent (some allowed) allow_history = allowed

-- personalizationAllowed, of a play and of a completed watch
unfoldable pub play_allowed : PlayStarted → Bool
unfolding projection_consent
play_allowed p = projection_consent p.allow_personalization p.allow_history

unfoldable pub completed_allowed : VideoCompleted → Bool
unfolding projection_consent
completed_allowed p = projection_consent p.allow_personalization p.allow_history

unfoldable pub search_history_rule : Decoders → EventType → String → Bool
search_history_rule decode search_submitted payload = elim (decode.search_submitted payload) [
  | err e ↦ false
  | ok p ↦ p.allow_history && is_some p.user_id
]
search_history_rule decode _ payload = false

unfoldable pub watch_projection_rule : Decoders → EventType → String → Bool
unfolding play_allowed completed_allowed
watch_projection_rule decode video_play_started payload = elim (decode.play_started payload) [
  | err e ↦ false
  | ok p ↦ play_allowed p && is_some p.user_id
]
watch_projection_rule decode video_completed payload = elim (decode.video_completed payload) [
  | err e ↦ false
  | ok p ↦ completed_allowed p && is_some p.user_id
]
watch_projection_rule decode _ payload = false

unfoldable pub collects_search_history : Decoders → (event_type payload : String) → Bool
unfolding search_history_rule
collects_search_history decode t payload = search_history_rule decode (event_type t) payload

unfoldable pub feeds_watch_projection : Decoders → (event_type payload : String) → Bool
unfolding watch_projection_rule
feeds_watch_projection decode t payload = watch_projection_rule decode (event_type t) payload

unfoldable pub collects_history : Decoders → (event_type payload : String) → Bool
unfolding collects_search_history feeds_watch_projection
collects_history decode t payload =
    collects_search_history decode t payload || feeds_watch_projection decode t payload
