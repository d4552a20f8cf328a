-- ===== src/Store/Rows.antt =====
-- The rows of the tables in migrations/, and the parameters of the statements that write them.
use vidra_search.Prelude.{ℕ, ℤ, String, Bool, Option, List}

-- A uuid is the number of its 16 bytes; `uuid.Nil` is 0.
abbrev pub Uuid : Type 0
Uuid = ℕ

-- An instant, in microseconds since Go's zero time, which is 0.
abbrev pub Time : Type 0
Time = ℕ

-- An IEEE 754 value is its bit pattern. The operations on it are parameters.
abbrev pub Float : Type 0
Float = ℕ

-- search.documents, without the generated search vector.
pub record Document : Type 0 where
  pub video_id : Uuid
  pub kind : String
  pub channel_id : Option Uuid
  pub channel_handle : Option String
  pub channel_name : Option String
  pub owner_id : Option Uuid
  pub title : String
  pub description : String
  pub tags : List String
  pub category : Option String
  pub language : Option String
  pub license : Option String
  pub duration_seconds : Option ℤ
  pub is_sensitive : Bool
  pub eligible : Bool
  pub suppressed_reason : Option String
  pub views : ℤ
  pub likes : ℤ
  pub published_at : Option Time
  pub source_updated_at : Time
  pub indexed_at : Time
  pub reconcile_run_id : Option Uuid

-- search.events_inbox
pub record InboxRow : Type 0 where
  pub event_id : Uuid
  pub type : String

-- search.behavior_events
pub record BehaviorEvent : Type 0 where
  pub event_id : Uuid
  pub type : String
  pub user_id : Option Uuid
  pub session_id : Option String
  pub normalized_query : Option String
  pub video_id : Option Uuid
  pub position : Option ℤ
  pub model_version : Option String
  pub occurred_at : Time
  pub props : String

-- search.query_log
pub record QueryLog : Type 0 where
  pub event_id : Uuid
  pub normalized_query : String
  pub display_query : String
  pub user_id : Option Uuid
  pub session_id : Option String
  pub subject_id : Option String
  pub results_count : Option ℤ
  pub submitted_at : Time

-- search.user_search_history
pub record SearchHistory : Type 0 where
  pub user_id : Uuid
  pub normalized_query : String
  pub display_query : String
  pub use_count : ℕ
  pub last_used_at : Time
  pub hidden : Bool

-- search.user_watch_projection
pub record WatchProjection : Type 0 where
  pub user_id : Uuid
  pub video_id : Uuid
  pub weight : Float
  pub last_watched_at : Time

-- search.service_config
pub record ServiceConfig : Type 0 where
  pub key : String
  pub value : String
  pub updated_at : Time
