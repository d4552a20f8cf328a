-- ===== src/Event/Payloads.antt =====
-- The payload shapes of internal/event/types.go.
use vidra_search.Prelude.{ℤ, String, Bool, Option, List}
use vidra_search.Store.Rows.{Uuid, Time, Float}

pub record VideoDoc : Type 0 where
  pub id : Uuid
  pub kind : String
  pub channel_id : Option Uuid
  pub channel_handle : Option String
  pub channel_name : Option String
  pub owner_id : Option Uuid
  pub title : String
  pub description : String
  pub tags : Option (List String)
  pub category : Option String
  pub language : Option String
  pub license : Option String
  pub duration_seconds : Option ℤ
  pub is_sensitive : Bool
  pub privacy : String
  pub state : String
  pub published_at : Option Time
  pub created_at : Option Time
  pub updated_at : Option Time
  pub views : ℤ
  pub likes : ℤ

pub record VideoUpsert : Type 0 where
  pub video : VideoDoc

pub record VideoSuppress : Type 0 where
  pub video_id : Uuid
  pub reason : String

pub record VideoStats : Type 0 where
  pub video_id : Uuid
  pub views : ℤ
  pub likes : ℤ

pub record ChannelUpsert : Type 0 where
  pub id : Uuid
  pub handle : String
  pub display_name : String
  pub owner_id : Option Uuid

pub record ChannelDelete : Type 0 where
  pub channel_id : Uuid

pub record UserSuppress : Type 0 where
  pub user_id : Uuid
  pub unlisted : Bool

-- A JSON value decoded into Go's `any`. `composite` is an array or an object.
pub data ConfigValue : Type 0 where
  text : String → ConfigValue
  boolean : Bool → ConfigValue
  number : Float → ConfigValue
  null : ConfigValue
  composite : String → ConfigValue

-- The settings, in the order in which the map is iterated.
pub record ConfigUpdated : Type 0 where
  pub settings : List (String × ConfigValue)

pub record ReconcilePage : Type 0 where
  pub run_id : Uuid
  pub videos : List VideoDoc

pub record ReconcileEnd : Type 0 where
  pub run_id : Uuid
  pub total : ℤ

pub record UserHistoryDeleted : Type 0 where
  pub user_id : Uuid
  pub scope : String

pub record SearchSubmitted : Type 0 where
  pub query : String
  pub user_id : Option Uuid
  pub session_id : Option String
  pub subject_id : Option String
  pub results_count : Option ℤ
  pub source : String
  pub allow_history : Bool

pub record ResultClicked : Type 0 where
  pub query : String
  pub video_id : Uuid
  pub position : Option ℤ
  pub user_id : Option Uuid
  pub session_id : Option String
  pub model_version : Option String

pub record Impression : Type 0 where
  pub video_id : Uuid
  pub query : Option String
  pub position : Option ℤ
  pub user_id : Option Uuid
  pub session_id : Option String
  pub model_version : Option String

pub record PlayStarted : Type 0 where
  pub video_id : Uuid
  pub user_id : Option Uuid
  pub session_id : Option String
  pub subject_id : Option String
  pub context : String
  pub query : Option String
  pub allow_history : Bool
  pub allow_personalization : Option Bool

pub record WatchProgress : Type 0 where
  pub video_id : Uuid
  pub user_id : Option Uuid
  pub session_id : Option String

pub record VideoCompleted : Type 0 where
  pub video_id : Uuid
  pub user_id : Option Uuid
  pub session_id : Option String
  pub allow_history : Bool
  pub allow_personalization : Option Bool

pub record SuggestionEvent : Type 0 where
  pub user_id : Option Uuid
  pub session_id : Option String
  pub position : Option ℤ
