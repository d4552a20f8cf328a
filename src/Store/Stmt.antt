-- ===== src/Store/Stmt.antt =====
-- The statements of internal/store/queries as data, and what each does to the tables.
use vidra_search.Prelude.{
  ℕ, ◌+◌, ◌-◌, max, ℤ, pos, String, Bool, true, false, ◌&&◌, ◌||◌, Option, none, some, [], ◌==◌,
  str_eq, opt_is, opt_str_is,
}
use vidra_search.Store.Rows.{
  Uuid, Time, Float, Document, InboxRow, BehaviorEvent, QueryLog, SearchHistory,
}
use vidra_search.Store.Tables.{Db, upsert, insert_new, update_where, delete_where}

-- What PostgreSQL computes for the statements.
pub record Sql : Type 0 where
  -- `now()`: the time of the transaction
  pub now : Time
  -- `uuid::text`
  pub uuid_text : Uuid → String
  -- `props->>'user_id'`
  pub props_user_id : String → Option String
  -- `weight * power(2, - elapsed / (3600.0 * half_life_hours))::real + delta`
  pub decay_add : (weight : Float) (elapsed : ℕ) (half_life_hours delta : Float) → Float

pub data Stmt : Type 0 where
  begin savepoint release commit lock_catalog : Stmt
  catalog_initialized : Stmt
  list_user_session_ids : Uuid → Stmt
  insert_inbox_event : InboxRow → Stmt
  upsert_document : Document → Stmt
  suppress_document : Uuid → Option String → Stmt
  update_document_stats : Uuid → ℤ → ℤ → Stmt
  update_channel_documents :
      (channel_id : Uuid) (channel_handle channel_name : Option String) (owner_id : Option Uuid)
      → Stmt
  suppress_channel_documents : Uuid → Option String → Stmt
  suppress_owner_documents restore_owner_documents : Uuid → String → Stmt
  upsert_service_config : String → String → Stmt
  insert_behavior_event : BehaviorEvent → Stmt
  append_query_log : QueryLog → Stmt
  upsert_user_search_history :
      (user_id : Uuid) (normalized_query display_query : String) (last_used_at : Time) → Stmt
  upsert_watch_projection : (user_id video_id : Uuid) (delta half_life_hours : Float) → Stmt
  purge_user_watch_projection delete_user_search_history : Uuid → Stmt
  delete_query_log_for_user delete_behavior_events_for_user : Uuid → Stmt
  delete_user_search_history_entry delete_query_log_for_user_query : Uuid → String → Stmt
  delete_behavior_events_for_user_query : Uuid → String → Stmt

-- COALESCE
abbrev pub coalesce {ℓ} : {A : Type ℓ} → Option A → Option A → Option A
coalesce none b = b
coalesce (some a) b = some a

-- INSERT INTO search.documents (video_id, title, source_updated_at, eligible, suppressed_reason):
-- the other columns take the defaults of migrations/0002.
abbrev pub placeholder : Uuid → Option String → Time → Document
placeholder video_id reason now = record {
  video_id = video_id;
  kind = "local";
  channel_id = none;
  channel_handle = none;
  channel_name = none;
  owner_id = none;
  title = "";
  description = "";
  tags = [];
  category = none;
  language = none;
  license = none;
  duration_seconds = none;
  is_sensitive = false;
  eligible = false;
  suppressed_reason = reason;
  views = pos 0;
  likes = pos 0;
  published_at = none;
  source_updated_at = now;
  indexed_at = now;
  reconcile_run_id = none;
}

abbrev pub hide : Option String → Time → Document → Document
hide reason now d = record d { eligible = false; suppressed_reason = reason; indexed_at = now }

abbrev pub show : Time → Document → Document
show now d = record d { eligible = true; suppressed_reason = none; indexed_at = now }

abbrev pub set_stats : (views likes : ℤ) → Time → Document → Document
set_stats views likes now d = record d { views = views; likes = likes; indexed_at = now }

abbrev pub set_channel : (handle name : Option String) → Option Uuid → Time → Document → Document
set_channel handle name owner now d = record d {
  channel_handle = handle;
  channel_name = name;
  owner_id = owner;
  indexed_at = now;
}

-- Whether a row of `behavior_events` names the account, in its column or in its payload.
abbrev pub names_user : Sql → Uuid → BehaviorEvent → Bool
names_user sql u r = opt_is u r.user_id || opt_str_is (sql.uuid_text u) (sql.props_user_id r.props)

-- The `DO UPDATE` parts and the `UPDATE … SET` parts, row by row.
abbrev pub refresh_document : Time → Document → Document → Document
refresh_document now new old = record new {
  indexed_at = now;
  reconcile_run_id = coalesce new.reconcile_run_id old.reconcile_run_id;
}

abbrev pub bump_history : String → Time → SearchHistory → SearchHistory
bump_history display_query last_used_at h = record h {
  use_count = h.use_count + 1;
  display_query = display_query;
  last_used_at = max h.last_used_at last_used_at;
  hidden = false;
}

unfoldable pub apply : Sql → Stmt → Db → Db
apply sql (insert_inbox_event e) db = record db {
  inbox = insert_new (λ r. r.event_id == e.event_id) e db.inbox;
}
apply sql (upsert_document d) db = record db {
  documents =
      upsert (λ r. r.video_id == d.video_id) (refresh_document sql.now d)
        (record d { indexed_at = sql.now }) db.documents;
}
apply sql (suppress_document v reason) db = record db {
  documents =
      upsert (λ r. r.video_id == v) (hide reason sql.now) (placeholder v reason sql.now)
        db.documents;
}
apply sql (update_document_stats v views likes) db = record db {
  documents = update_where (λ r. r.video_id == v) (set_stats views likes sql.now) db.documents;
}
apply sql (update_channel_documents c handle name owner) db = record db {
  documents =
      update_where (λ r. opt_is c r.channel_id) (set_channel handle name owner sql.now)
        db.documents;
}
apply sql (suppress_channel_documents c reason) db = record db {
  documents = update_where (λ r. opt_is c r.channel_id) (hide reason sql.now) db.documents;
}
apply sql (suppress_owner_documents o reason) db = record db {
  documents =
      update_where (λ r. opt_is o r.owner_id && r.eligible) (hide (some reason) sql.now)
        db.documents;
}
apply sql (restore_owner_documents o reason) db = record db {
  documents =
      update_where (λ r. opt_is o r.owner_id && opt_str_is reason r.suppressed_reason)
        (show sql.now) db.documents;
}
apply sql (upsert_service_config k v) db = record db {
  config =
      upsert (λ r. str_eq r.key k) (λ r. record r { value = v; updated_at = sql.now })
        (record { key = k; value = v; updated_at = sql.now }) db.config;
}
apply sql (insert_behavior_event e) db = record db {
  behavior_events = insert_new (λ r. r.event_id == e.event_id) e db.behavior_events;
}
apply sql (append_query_log e) db = record db {
  query_log = insert_new (λ r. r.event_id == e.event_id) e db.query_log;
}
apply sql (upsert_user_search_history u q display at) db = record db {
  search_history =
      upsert (λ r. r.user_id == u && str_eq r.normalized_query q) (bump_history display at)
        (record {
          user_id = u;
          normalized_query = q;
          display_query = display;
          use_count = 1;
          last_used_at = at;
          hidden = false;
        })
        db.search_history;
}
apply sql (upsert_watch_projection u v delta half_life) db = record db {
  watch_projection =
      upsert (λ r. r.user_id == u && r.video_id == v)
        (λ r. record r {
          weight = sql.decay_add r.weight (sql.now - r.last_watched_at) half_life delta;
          last_watched_at = sql.now;
        })
        (record { user_id = u; video_id = v; weight = delta; last_watched_at = sql.now })
        db.watch_projection;
}
apply sql (purge_user_watch_projection u) db = record db {
  watch_projection = delete_where (λ r. r.user_id == u) db.watch_projection;
}
apply sql (delete_user_search_history u) db = record db {
  search_history = delete_where (λ r. r.user_id == u) db.search_history;
}
apply sql (delete_query_log_for_user u) db = record db {
  query_log = delete_where (λ r. opt_is u r.user_id) db.query_log;
}
apply sql (delete_behavior_events_for_user u) db = record db {
  behavior_events = delete_where (names_user sql u) db.behavior_events;
}
apply sql (delete_user_search_history_entry u q) db = record db {
  search_history =
      delete_where (λ r. r.user_id == u && str_eq r.normalized_query q) db.search_history;
}
apply sql (delete_query_log_for_user_query u q) db = record db {
  query_log = delete_where (λ r. opt_is u r.user_id && str_eq r.normalized_query q) db.query_log;
}
apply sql (delete_behavior_events_for_user_query u q) db = record db {
  behavior_events =
      delete_where (λ r. names_user sql u r && opt_str_is q r.normalized_query) db.behavior_events;
}
apply sql _ db = db
