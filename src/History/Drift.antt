-- ===== src/History/Drift.antt =====
-- The event user.history_deleted of internal/event/service.go beside the operations of
-- internal/history/service.go.
use vidra_search.Prelude.{
  String, Bool, true, false, ◌&&◌, ◌||◌, ◌≡◌, refl, sym, ◌∙◌, ap, Option, none, some, List, [], ◌∷◌,
  ◌++◌, any, any-append, arith, str_eq, eq_iff, opt_is, opt_str_is, if◌then◌else◌,
}
use vidra_search.Store.Rows.{Uuid, QueryLog, BehaviorEvent}
use vidra_search.Store.Tables.{Db}
use vidra_search.Store.Stmt.{
  apply, delete_user_search_history, purge_user_watch_projection, delete_query_log_for_user,
  delete_behavior_events_for_user,
}
use vidra_search.Store.Query.{Server, Returns, pure, when, ◌>>=◌}
use vidra_search.Store.Trace.{exec-Returns, exec-bind}
use vidra_search.Event.Payloads.{UserHistoryDeleted}
use vidra_search.Event.Documents.{apply_history_deleted}
use vidra_search.History.Rows.{
  session_ids, distinct, query_log_sessions, behavior_sessions, own_session,
}
use vidra_search.History.Clear.{without_footprint, footprint-Returns}
use vidra_search.History.Service.{delete_search_footprint}

abbrev pub deleted : Uuid → String → UserHistoryDeleted
deleted u scope = record { user_id = u; scope = scope }

module _ (srv : Server) (u : Uuid) (db d : Db) where
  search_scope :
      Returns (apply_history_deleted srv (deleted u "search") db) tt d
      → d ≡ without_footprint srv.sql u false db
  unfolding apply_history_deleted when pure ◌>>=◌ without_footprint apply
  search_scope h =
      let k1 = exec-bind srv _ db d tt (delete_user_search_history u) h in
      let k2 = exec-bind srv _ _ d tt (delete_query_log_for_user u) k1 in
      exec-Returns srv (delete_behavior_events_for_user u) _ d tt k2

  all_scope :
      Returns (apply_history_deleted srv (deleted u "all") db) tt d
      → d ≡ without_footprint srv.sql u true db
  unfolding apply_history_deleted when pure ◌>>=◌ without_footprint apply
  all_scope h =
      let k0 = exec-bind srv _ db d tt (purge_user_watch_projection u) h in
      let k1 = exec-bind srv _ _ d tt (delete_user_search_history u) k0 in
      let k2 = exec-bind srv _ _ d tt (delete_query_log_for_user u) k1 in
      exec-Returns srv (delete_behavior_events_for_user u) _ d tt k2

-- The scope of the event that stands for ClearAll, or with the watch projection for PurgeUser.
abbrev pub scope_of : (with_watch : Bool) → String
scope_of with_watch = if with_watch then "all" else "search"

-- Where the event of scope "search" and ClearAll's transaction both go through, on whatever servers
-- of one SQL, they leave the same tables; so do the event of scope "all" and PurgeUser's.
pub event-eq-endpoint :
    (srv srv' : Server) (u : Uuid) (with_watch : Bool) (db d d' : Db) (s : List String)
    → srv.sql ≡ srv'.sql
    → Returns (apply_history_deleted srv (deleted u (scope_of with_watch)) db) tt d
    → Returns (delete_search_footprint srv' u with_watch db) s d'
    → d ≡ d'
event-eq-endpoint srv srv' u true db d d' s e event endpoint =
    all_scope srv u db d event
    ∙ ap (λ q. without_footprint q u true db) e
    ∙ sym (footprint-Returns srv' u true db d' s endpoint).1
event-eq-endpoint srv srv' u false db d d' s e event endpoint =
    search_scope srv u db d event
    ∙ ap (λ q. without_footprint q u false db) e
    ∙ sym (footprint-Returns srv' u false db d' s endpoint).1

any_of_same :
    (s sid : String) (rest : List String)
    → any (str_eq s) rest ≡ true
    → str_eq s sid ≡ true
    → any (λ x. str_eq x sid) rest ≡ true
unfolding any
any_of_same s sid [] h e = h
any_of_same s sid (x ∷ rest) h e =
    ground (arith, eq_iff s x, eq_iff s sid, eq_iff x sid, any_of_same s sid rest)

any-distinct :
    (sid : String) (xs : List String)
    → any (λ x. str_eq x sid) (distinct xs) ≡ any (λ x. str_eq x sid) xs
unfolding distinct any
any-distinct sid [] = refl
any-distinct sid (x ∷ xs) = ground (arith, any-distinct sid xs, any_of_same x sid xs)

any-own_session :
    (u : Uuid) (sid : String) (user : Option Uuid) (session : Option String) (rest : List String)
    → any (λ x. str_eq x sid) (own_session u user session rest)
      ≡ (opt_is u user && opt_str_is sid session || any (λ x. str_eq x sid) rest)
unfolding any
any-own_session u sid user none rest = ground arith
any-own_session u sid user (some s) rest = ground arith

any-query_log_sessions :
    (u : Uuid) (sid : String) (rows : List QueryLog)
    → any (λ x. str_eq x sid) (query_log_sessions u rows)
      ≡ any (λ r. opt_is u r.user_id && opt_str_is sid r.session_id) rows
unfolding query_log_sessions any
any-query_log_sessions u sid [] = refl
any-query_log_sessions u sid (r ∷ rows) =
    any-own_session u sid r.user_id r.session_id (query_log_sessions u rows)
    ∙ ap (λ b. opt_is u r.user_id && opt_str_is sid r.session_id || b)
        (any-query_log_sessions u sid rows)

any-behavior_sessions :
    (u : Uuid) (sid : String) (rows : List BehaviorEvent)
    → any (λ x. str_eq x sid) (behavior_sessions u rows)
      ≡ any (λ r. opt_is u r.user_id && opt_str_is sid r.session_id) rows
unfolding behavior_sessions any
any-behavior_sessions u sid [] = refl
any-behavior_sessions u sid (r ∷ rows) =
    any-own_session u sid r.user_id r.session_id (behavior_sessions u rows)
    ∙ ap (λ b. opt_is u r.user_id && opt_str_is sid r.session_id || b)
        (any-behavior_sessions u sid rows)

-- The session ids read before the deletion are exactly those that some row of the account in the
-- query log or in the behavior events carries.
pub session_ids_lem :
    (u : Uuid) (db : Db) (sid : String)
    → any (λ x. str_eq x sid) (session_ids u db) ≡ (
        any (λ r. opt_is u r.user_id && opt_str_is sid r.session_id) db.query_log
        || any (λ r. opt_is u r.user_id && opt_str_is sid r.session_id) db.behavior_events)
unfolding session_ids
session_ids_lem u db sid = rw (
  any-distinct sid (query_log_sessions u db.query_log ++ behavior_sessions u db.behavior_events),
  any-append (λ x. str_eq x sid) (query_log_sessions u db.query_log)
      (behavior_sessions u db.behavior_events),
  any-query_log_sessions u sid db.query_log,
  any-behavior_sessions u sid db.behavior_events,
)
