-- ===== src/Search/Features.antt =====
-- internal/search/service.go and internal/ranking/advanced.go: what the advanced mode works on.
use vidra_search.Prelude.{ℤ, String, Bool, Option, List}
use vidra_search.Store.Rows.{Uuid, Float, Time}
use vidra_search.Store.Query.{Outcome}
use vidra_search.Experiment.Assign.{Assignment}
use vidra_search.Search.Service.{Filter, SimpleQuerier}

pub record RecallRow : Type 0 where
  pub video_id : Uuid
  pub channel_id : Option Uuid
  pub views : ℤ
  pub published_at : Option Time
  pub source_updated_at : Time
  pub ts_rank : Float
  pub trgm_sim : Float
  pub exact_flags : Float
  pub impressions : ℤ
  pub clicks : ℤ
  pub meaningful_watches : ℤ

-- internal/ranking/advanced.go
pub record Features : Type 0 where
  pub text_rank : Float
  pub trgm_sim : Float
  pub exact_flags : Float
  pub views : Float
  pub age_days : Float
  pub impressions : Float
  pub clicks : Float
  pub meaningful_watches : Float
  pub personal_affinity : Float
  pub channel_affinity : Float
  pub session_intent : Float
  pub language_match : Bool

pub record Doc : Type 0 where
  pub video_id : String
  pub channel_id : String
  pub features : Features

pub record Ranked : Type 0 where
  pub video_id : String
  pub score : Float

abbrev pub Ranker : Type 0
Ranker = List Doc → List Ranked

pub record ScoreRow : Type 0 where
  pub video_id : Uuid
  pub score : Float

pub record ChannelRow : Type 0 where
  pub channel_id : Option Uuid
  pub weight : Float

pub record Querier : Type 0 where
  pub simple : SimpleQuerier
  pub recall : Filter → (lim : ℤ) → Outcome (List RecallRow)
  pub neighbor_affinity : Uuid → (candidates : List Uuid) → Outcome (List ScoreRow)
  pub user_channel_affinity : Uuid → Outcome (List ChannelRow)
  pub neighbor_scores : (seeds candidates : List Uuid) → Outcome (List ScoreRow)

-- The service, with google/uuid, `rankutil.AgeDays` at the time of the call and the zero of `float64`.
pub record Service : Type 0 where
  pub q : Querier
  pub normalize : String → String
  pub ranker : Option (String → Ranker × String)
  pub heuristic : Ranker
  pub exp : Option (String → String → Option Assignment)
  pub session : Option (String → List String)
  pub parse_uuid : String → Option Uuid
  pub uuid_string : Uuid → String
  pub age_days : Option Time → Time → Float
  pub to_float : ℤ → Float
  pub f0 : Float
