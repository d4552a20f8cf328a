-- ===== src/History/Rows.antt =====
-- The session ids that an account's rows carry.
use vidra_search.Prelude.{
  String, Option, none, some, List, [], ◌∷◌, ◌++◌, any, str_eq, opt_is, if◌then◌else◌,
}
use vidra_search.Store.Rows.{Uuid, BehaviorEvent, QueryLog}
use vidra_search.Store.Tables.{Db}

-- `WHERE user_id = @user_id AND session_id IS NOT NULL`, of one row.
abbrev pub own_session : Uuid → Option Uuid → Option String → List String → List String
own_session u user none rest = rest
own_session u user (some s) rest = if opt_is u user then s ∷ rest else rest

unfoldable pub query_log_sessions : Uuid → List QueryLog → List String
query_log_sessions u [] = []
query_log_sessions u (r ∷ rows) = own_session u r.user_id r.session_id (query_log_sessions u rows)

unfoldable pub behavior_sessions : Uuid → List BehaviorEvent → List String
behavior_sessions u [] = []
behavior_sessions u (r ∷ rows) = own_session u r.user_id r.session_id (behavior_sessions u rows)

-- SELECT DISTINCT
unfoldable pub distinct : List String → List String
distinct [] = []
distinct (s ∷ rest) = let d = distinct rest in if any (str_eq s) rest then d else s ∷ d

-- ListUserSessionIDs
unfoldable pub session_ids : Uuid → Db → List String
unfolding distinct query_log_sessions behavior_sessions
session_ids u db =
    distinct (query_log_sessions u db.query_log ++ behavior_sessions u db.behavior_events)
