-- ===== src/Suggest/Requests.antt =====
-- internal/suggest/service.go: its store, its cache, its requests and its answers.
use vidra_search.Prelude.{ℕ, ℤ, String, Bool, Option, List}
use vidra_search.Store.Rows.{Uuid, Float}
use vidra_search.Store.Query.{Outcome}
use vidra_search.Suggest.Blend.{Weights, Suggestion, Arith, Entry}
use vidra_search.Suggest.Prefix.{Codes}

pub record TitleRow : Type 0 where
  pub title : String
  pub views : ℤ
  pub video_id : Uuid

pub record ChannelRow : Type 0 where
  pub channel_name : Option String
  pub channel_handle : String
  pub views : ℤ
  pub video_id : Uuid

pub record TagRow : Type 0 where
  pub tag : String
  pub cnt : ℤ
  pub video_id : Uuid

pub record AggregateRow : Type 0 where
  pub normalized_query : String
  pub display_query : String
  pub decayed_freq : Float

pub record HistoryRow : Type 0 where
  pub normalized_query : String
  pub display_query : String
  pub use_count : ℤ

-- Querier and AggQuerier: what the store answers.
pub record Querier : Type 0 where
  pub title_prefix :
      (hide_sensitive : Bool) → (prefix : Codes) → (lim : ℕ) → Outcome (List TitleRow)
  pub channel_prefix :
      (hide_sensitive : Bool) → (prefix : Codes) → (lim : ℕ) → Outcome (List ChannelRow)
  pub tag_prefix : (hide_sensitive : Bool) → (prefix : Codes) → (lim : ℕ) → Outcome (List TagRow)
  pub title_fuzzy : (q : String) → (hide_sensitive : Bool) → (lim : ℕ) → Outcome (List TitleRow)
  pub user_history_prefix : Uuid → (prefix : Codes) → (lim : ℕ) → Outcome (List HistoryRow)
  pub aggregate_prefix : (prefix : Codes) → (lim : ℕ) → Outcome (List AggregateRow)

-- Cache with the JSON form of suggestions: the texts under the keys.
pub record Cache : Type 0 where
  pub get : String → Option String

pub record Service : Type 0 where
  pub q : Querier
  pub cache : Option Cache
  -- SessionReader: the session's queries; TrendReader: the keys of the set
  pub session : Option (String → List String)
  pub trend : Option (List String)
  -- encoding/json, google/uuid and the conversions to `float64`
  pub unmarshal : String → Option (List Suggestion)
  pub marshal : List Suggestion → Option String
  pub parse_uuid : String → Option Uuid
  pub uuid_string : Uuid → String
  pub to_float : ℤ → Float
  -- the arithmetic, the weights and the map's order of the blend
  pub numbers : Arith
  pub weights : Weights
  pub order : List Entry → List Entry

pub record Request : Type 0 where
  pub catalog_fence : String
  pub query : String
  pub limit : ℤ
  pub hide_sensitive : Bool
  pub include_history : Bool
  pub user_id : String
  pub session_id : String
  pub mode : String

pub record Response : Type 0 where
  pub query : String
  pub normalized_query : String
  pub suggestions : List Suggestion

-- A response, and what the call sets in the cache: a key and its text.
pub record Served : Type 0 where
  pub response : Response
  pub stored : Option (String × String)
