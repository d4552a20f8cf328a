-- ===== src/History/Service.antt =====
-- internal/history/service.go: the operations.
use vidra_search.Prelude.{
  String, Bool, true, false, Option, none, some, List, [], ◌∷◌, if◌then◌else◌,
}
use vidra_search.Store.Rows.{Uuid}
use vidra_search.Store.Tables.{Db}
use vidra_search.Store.Stmt.{
  begin, commit, list_user_session_ids, delete_user_search_history, purge_user_watch_projection,
  delete_query_log_for_user, delete_behavior_events_for_user, delete_user_search_history_entry,
  delete_query_log_for_user_query, delete_behavior_events_for_user_query,
}
use vidra_search.Store.Query.{Server, Query, Error, Outcome, ok, err, exec, pure, when, ◌>>=◌, ◌>>◌}
use vidra_search.History.Rows.{session_ids}

-- ListUserSessionIDs
unfoldable pub list_session_ids : Server → Uuid → Query (List String)
unfolding session_ids
list_session_ids srv u = do exec srv (list_user_session_ids u); λ db. ok (session_ids u db, db)

-- deleteSearchFootprint: the sessions are read before the rows that name them are deleted.
unfoldable pub delete_search_footprint : Server → Uuid → (with_watch : Bool) → Query (List String)
delete_search_footprint srv u with_watch = do
  sessions ← list_session_ids srv u
  exec srv (delete_user_search_history u)
  when with_watch (exec srv (purge_user_watch_projection u))
  exec srv (delete_query_log_for_user u)
  exec srv (delete_behavior_events_for_user u)
  pure sessions

unfoldable pub delete_entry_rows : Server → Uuid → String → Query (Unit {0})
delete_entry_rows srv u q = do
  exec srv (delete_user_search_history_entry u q)
  exec srv (delete_query_log_for_user_query u q)
  exec srv (delete_behavior_events_for_user_query u q)

-- What a request did: its error, the tables, and the sessions whose Redis lists were dropped.
pub record Done : Type 0 where
  pub error : Option Error
  pub db : Db
  pub dropped : List String

-- dropSessionRecency: with no sink, or no session, nothing is called.
abbrev pub drop_session_recency : (has_redis : Bool) → List String → List String
drop_session_recency has_redis [] = []
drop_session_recency has_redis (s ∷ sessions) = if has_redis then s ∷ sessions else []

abbrev pub respond : (has_redis : Bool) → (before : Db) → Outcome (List String × Db) → Done
respond has_redis before (err e) = record { error = some e; db = before; dropped = [] }
respond has_redis before (ok (sessions, db)) = record {
  error = none;
  db = db;
  dropped = drop_session_recency has_redis sessions;
}

-- inTx: any error rolls the transaction back.
unfoldable pub in_tx : {A : Type 0} → Server → Query A → Query A
in_tx srv m = do exec srv begin; a ← m; exec srv commit; pure a

unfoldable pub clear_all : Server → (has_redis : Bool) → Uuid → Db → Done
unfolding in_tx
clear_all srv has_redis u db =
    respond has_redis db (in_tx srv (delete_search_footprint srv u false) db)

unfoldable pub purge_user : Server → (has_redis : Bool) → Uuid → Db → Done
unfolding in_tx
purge_user srv has_redis u db =
    respond has_redis db (in_tx srv (delete_search_footprint srv u true) db)

unfoldable pub delete_entry : Server → Uuid → String → Db → Done
unfolding in_tx
delete_entry srv u q db =
    respond false db (in_tx srv (delete_entry_rows srv u q >> pure {A = List String} []) db)
