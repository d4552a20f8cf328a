-- ===== src/Event/Env.antt =====
-- What event intake takes from outside: the database, the clock, `encoding/json`, uuid and number
-- formatting, the Unicode forms, and the configuration of the service.
use vidra_search.Prelude.{ℤ, pos, String, Bool, leb_ℤ, if◌then◌else◌}
use vidra_search.Store.Rows.{Uuid, Time, Float}
use vidra_search.Store.Query.{Server, Outcome}
use vidra_search.Normalize.{TextForms}
use vidra_search.Event.Payloads.{
  VideoUpsert, VideoSuppress, VideoStats, ChannelUpsert, ChannelDelete, UserSuppress, ConfigUpdated,
  ReconcilePage, ReconcileEnd, UserHistoryDeleted, SearchSubmitted, ResultClicked, Impression,
  PlayStarted, WatchProgress, VideoCompleted, SuggestionEvent,
}

-- service.go: Config
pub record Config : Type 0 where
  pub trending_half_life_seconds : Float
  pub trend_cap_window : ℤ
  pub watch_half_life_hours : Float

-- `json.Unmarshal` of a payload into each struct.
pub record Decoders : Type 0 where
  pub video_upsert : String → Outcome VideoUpsert
  pub video_suppress : String → Outcome VideoSuppress
  pub video_stats : String → Outcome VideoStats
  pub channel_upsert : String → Outcome ChannelUpsert
  pub channel_delete : String → Outcome ChannelDelete
  pub user_suppress : String → Outcome UserSuppress
  pub config_updated : String → Outcome ConfigUpdated
  pub reconcile_page : String → Outcome ReconcilePage
  pub reconcile_end : String → Outcome ReconcileEnd
  pub user_history_deleted : String → Outcome UserHistoryDeleted
  pub search_submitted : String → Outcome SearchSubmitted
  pub result_clicked : String → Outcome ResultClicked
  pub impression : String → Outcome Impression
  pub play_started : String → Outcome PlayStarted
  pub watch_progress : String → Outcome WatchProgress
  pub video_completed : String → Outcome VideoCompleted
  pub suggestion_event : String → Outcome SuggestionEvent

-- `strconv` and `fmt` on configuration values.
pub record Numbers : Type 0 where
  -- `f <= 0`
  pub not_positive : Float → Bool
  -- `t == float64(int64(t))`, and `int64(t)`
  pub is_whole : Float → Bool
  pub to_int : Float → ℤ
  pub format_int : ℤ → String
  pub format_float : Float → String

pub record Env : Type 0 where
  pub server : Server
  pub decode : Decoders
  pub numbers : Numbers
  pub forms : TextForms
  -- `uuid.UUID.String`
  pub uuid_string : Uuid → String
  -- `time.Now()`
  pub wall : Time
  -- the service's `cfg`, with the defaults put in, and whether it has a Redis sink and metrics
  pub cfg : Config
  pub has_redis : Bool
  pub has_metrics : Bool

-- 21600.0, and 720.0, as 64-bit floats; an hour in nanoseconds
unfoldable pub with_defaults : Numbers → Config → Config
with_defaults numbers c = record {
  trending_half_life_seconds =
      if numbers.not_positive c.trending_half_life_seconds
      then 0x40D5180000000000
      else c.trending_half_life_seconds;
  trend_cap_window =
      if leb_ℤ c.trend_cap_window (pos 0) then pos 3600000000000 else c.trend_cap_window;
  watch_half_life_hours =
      if numbers.not_positive c.watch_half_life_hours
      then 0x4086800000000000
      else c.watch_half_life_hours;
}
