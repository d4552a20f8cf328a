-- ===== src/Event/Documents.antt =====
-- service.go: applyVideoUpsert, applyHistoryDeleted and the helpers of the domain events.
use vidra_search.Prelude.{String, ◌||◌, Option, none, some, List, [], ◌∷◌, str_eq, if◌then◌else◌}
use vidra_search.Store.Rows.{Uuid, Time, Document}
use vidra_search.Store.Stmt.{
  upsert_document, upsert_service_config, purge_user_watch_projection, delete_user_search_history,
  delete_query_log_for_user, delete_behavior_events_for_user,
}
use vidra_search.Store.Query.{Query, Server, exec, pure, when, ◌>>◌}
use vidra_search.Index.{eligible}
use vidra_search.Event.Payloads.{
  VideoDoc, ConfigValue, text, boolean, number, null, composite, UserHistoryDeleted,
}
use vidra_search.Event.Env.{Env, Numbers}

abbrev or_else {ℓ} : {A : Type ℓ} → Option A → Option A → Option A
or_else none b = b
or_else (some a) b = some a

abbrev get_or {ℓ} : {A : Type ℓ} → Option A → A → A
get_or none d = d
get_or (some a) d = a

-- derefTimeNow
unfoldable pub deref_time_now : Env → Option Time → Time
deref_time_now env none = env.wall
deref_time_now env (some t) = t

-- The row that a document's event writes. `indexed_at` is set by the statement.
unfoldable pub document_of : Env → VideoDoc → Option Uuid → Document
unfolding eligible deref_time_now
document_of env v reconcile_run_id =
    let gate = eligible v.privacy v.state in
    record {
      video_id = v.id;
      kind = if str_eq v.kind "" then "local" else v.kind;
      channel_id = v.channel_id;
      channel_handle = v.channel_handle;
      channel_name = v.channel_name;
      owner_id = v.owner_id;
      title = v.title;
      description = v.description;
      tags = get_or v.tags [];
      category = v.category;
      language = v.language;
      license = v.license;
      duration_seconds = v.duration_seconds;
      is_sensitive = v.is_sensitive;
      eligible = gate.0;
      suppressed_reason = if gate.0 then none else some gate.1;
      views = v.views;
      likes = v.likes;
      published_at = v.published_at;
      source_updated_at = deref_time_now env (or_else v.updated_at v.created_at);
      indexed_at = env.server.sql.now;
      reconcile_run_id = reconcile_run_id;
    }

unfoldable pub apply_video_upsert : Env → VideoDoc → Option Uuid → Query (Unit {0})
apply_video_upsert env v run = exec env.server (upsert_document (document_of env v run))

-- The loop of reconcile.page.
unfoldable pub apply_page : Env → List VideoDoc → Uuid → Query (Unit {0})
apply_page env [] run = pure tt
apply_page env (v ∷ vs) run = do apply_video_upsert env v (some run); apply_page env vs run

-- stringifyConfigValue
unfoldable pub stringify_config_value : Numbers → ConfigValue → String
stringify_config_value numbers (text t) = t
stringify_config_value numbers (boolean b) = if b then "true" else "false"
stringify_config_value numbers (number t) =
    if numbers.is_whole t then numbers.format_int (numbers.to_int t) else numbers.format_float t
stringify_config_value numbers null = ""
stringify_config_value numbers (composite shown) = shown

-- The loop of search.config_updated.
unfoldable pub apply_settings : Env → List (String × ConfigValue) → Query (Unit {0})
unfolding stringify_config_value
apply_settings env [] = pure tt
apply_settings env ((k, v) ∷ rest) = do
  exec env.server (upsert_service_config k (stringify_config_value env.numbers v))
  apply_settings env rest

unfoldable pub apply_history_deleted : Server → UserHistoryDeleted → Query (Unit {0})
apply_history_deleted srv p = do
  when (str_eq p.scope "watch" || str_eq p.scope "all")
      do exec srv (purge_user_watch_projection p.user_id)
  when (str_eq p.scope "search" || str_eq p.scope "all") do
    exec srv (delete_user_search_history p.user_id)
    exec srv (delete_query_log_for_user p.user_id)
    exec srv (delete_behavior_events_for_user p.user_id)
