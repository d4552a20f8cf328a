-- ===== src/Examples/Worlds.antt =====
-- A small database, a decoder that knows a few payloads, and a clock.
use Prim.Native.Nat.{◌+◌}
use vidra_search.Prelude.{
  ℕ, pos, String, true, false, none, some, List, [], ◌∷◌, str_eq, if◌then◌else◌,
}
use vidra_search.Store.Tables.{Db}
use vidra_search.Store.Stmt.{Sql, placeholder}
use vidra_search.Store.Query.{Server, Outcome, ok, err}
use vidra_search.Event.Types.{Envelope}
use vidra_search.Event.Payloads.{SearchSubmitted}
use vidra_search.Event.Env.{Env, Decoders}

abbrev pub sql : Sql
sql = record {
  now = 100;
  uuid_text = λ u. if str_eq "" "" then "7" else "";
  props_user_id = λ p. if str_eq p "play" then some "7" else none;
  decay_add = λ w elapsed half_life delta. w + delta;
}

-- A database that refuses nothing.
abbrev pub server : Server
server = record { sql = sql; refuses = λ st db. none }

abbrev pub unknown : {A : Type 0} → String → Outcome A
unknown raw = err "unexpected end of JSON input"

abbrev pub submitted : SearchSubmitted
submitted = record {
  query = "go";
  user_id = some 7;
  session_id = some "s1";
  subject_id = none;
  results_count = none;
  source = "bar";
  allow_history = false;
}

abbrev pub decode : Decoders
decode = record {
  video_upsert = unknown;
  video_suppress = λ raw.
      if str_eq raw "suppress"
      then ok (record { video_id = 3; reason = "deleted" })
      else unknown raw;
  video_stats = λ raw.
      if str_eq raw "stats"
      then ok (record { video_id = 3; views = pos 9; likes = pos 1 })
      else unknown raw;
  channel_upsert = unknown;
  channel_delete = unknown;
  user_suppress = unknown;
  config_updated = unknown;
  reconcile_page = unknown;
  reconcile_end = unknown;
  user_history_deleted = unknown;
  search_submitted = λ raw. if str_eq raw "search" then ok submitted else unknown raw;
  result_clicked = unknown;
  impression = unknown;
  play_started = unknown;
  watch_progress = unknown;
  video_completed = unknown;
  suggestion_event = unknown;
}

abbrev pub env : Env
env = record {
  server = server;
  decode = decode;
  numbers = record {
    not_positive = λ f. false;
    is_whole = λ f. true;
    to_int = pos;
    format_int = λ i. "0";
    format_float = λ f. "0";
  };
  forms = record { nfkc = λ s. s; fold = λ s. s };
  uuid_string = λ u. "id";
  wall = 100;
  cfg = record {
    trending_half_life_seconds = 1;
    trend_cap_window = pos 1;
    watch_half_life_hours = 1;
  };
  has_redis = true;
  has_metrics = true;
}

abbrev pub arrival : ℕ → String → String → Envelope
arrival id type payload = record {
  event_id = id;
  type = type;
  occurred_at = 90;
  schema_version = pos 1;
  payload = payload;
}

abbrev pub empty : Db
empty = record {
  inbox = [];
  documents = [];
  config = [];
  behavior_events = [];
  query_log = [];
  search_history = [];
  watch_projection = [];
  catalog_scopes = [];
}

-- A corpus with one visible document, whose catalog scope is initialized.
abbrev pub fenced : Db
fenced = record empty {
  documents =
      record (placeholder 3 none 10) {
        eligible = true;
        owner_id = some 5;
        suppressed_reason = none;
      }
      ∷ [];
  catalog_scopes = "local" ∷ [];
}

-- Two deliveries of one search, one suppression and one malformed event.
abbrev pub arrivals : List Envelope
arrivals =
    arrival 1 "search.submitted" "search"
    ∷ arrival 1 "search.submitted" "search"
    ∷ arrival 2 "video.suppress" "suppress"
    ∷ arrival 4 "video.stats" "stats"
    ∷ []
