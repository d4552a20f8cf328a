-- ===== src/Examples/History.antt =====
-- The history service at concrete inputs.
use vidra_search.Prelude.{
  ℕ, ◌+◌, pos, arith, String, true, false, ◌≡◌, refl, none, some, List, [], ◌∷◌, any, if◌then◌else◌,
}
use vidra_search.Store.Rows.{QueryLog, SearchHistory}
use vidra_search.Store.Tables.{Db, delete_where}
use vidra_search.Store.Stmt.{apply}
use vidra_search.Store.Query.{ok, exec, pure, when, ◌>>=◌}
use vidra_search.Event.Documents.{apply_history_deleted}
use vidra_search.Paging.{limit, offset}
use vidra_search.History.Listing.{Failures, list, list-clear_all}
use vidra_search.History.Service.{
  in_tx, list_session_ids, clear_all, purge_user, delete_search_footprint,
}
use vidra_search.History.Clear.{Ended, clear_all_ends, purge_user_ends}
use vidra_search.History.Drift.{event-eq-endpoint}
use vidra_search.History.Floor.{distinct_users, is_counted, distinct_users-clear_all}
use vidra_search.Examples.Worlds.{server, empty}

abbrev searched : ℕ → ℕ → String → QueryLog
searched id user session = record {
  event_id = id;
  normalized_query = "go";
  display_query = "Go";
  user_id = some user;
  session_id = some session;
  subject_id = none;
  results_count = none;
  submitted_at = 5;
}

-- One account searched in two sessions, another in one.
abbrev ledger : List QueryLog
ledger = searched 1 7 "s1" ∷ searched 2 7 "s2" ∷ searched 3 8 "s3" ∷ []

abbrev db : Db
db = record empty { query_log = ledger }

clear_all_example : Ended server.sql true 7 false db (clear_all server true 7 db)
clear_all_example = clear_all_ends server true 7 db

purge_user_example : Ended server.sql true 7 true db (purge_user server true 7 db)
purge_user_example = purge_user_ends server true 7 db

abbrev left : Db
left = record db { query_log = searched 3 8 "s3" ∷ [] }

event-eq-endpoint_example : left ≡ left
unfolding apply_history_deleted delete_search_footprint list_session_ids exec pure when ◌>>=◌ apply
    delete_where any
event-eq-endpoint_example =
    event-eq-endpoint server server 7 true db left left ("s1" ∷ "s2" ∷ []) refl refl refl

-- Two subjects searched; without the account there is one.
distinct_users-clear_all_example :
    distinct_users 3 "go" (clear_all server true 7 db).db.query_log
      + (if is_counted 3 "go" 7 db.query_log then 1 else 0)
    ≡ distinct_users 3 "go" db.query_log
unfolding clear_all in_tx delete_search_footprint list_session_ids exec pure when ◌>>=◌ apply
distinct_users-clear_all_example = distinct_users-clear_all server true 7 db 3 "go" refl

abbrev used : ℕ → ℕ → SearchHistory
used user at = record {
  user_id = user;
  normalized_query = "go";
  display_query = "Go";
  use_count = 1;
  last_used_at = at;
  hidden = false;
}

-- Two entries of one account and one of another.
abbrev searches : Db
searches = record empty { search_history = used 7 3 ∷ used 8 4 ∷ used 7 5 ∷ [] }

abbrev answering : Failures
answering = record { down = none; negative_offset = "OFFSET must not be negative" }

list-clear_all_example :
    (list answering 7 (pos 2) (pos 0) (clear_all server true 7 searches).db
      ≡ ok (record {
        entries = [];
        limit = limit (pos 2) (pos 20) (pos 100);
        offset = offset (pos 0);
      }))
    × (list answering 8 (pos 2) (pos 0) (clear_all server true 7 searches).db
        ≡ list answering 8 (pos 2) (pos 0) searches)
unfolding clear_all in_tx delete_search_footprint list_session_ids exec pure when ◌>>=◌ apply offset
list-clear_all_example =
    list-clear_all server true 7 8 searches answering (pos 2) (pos 0) refl refl refl (omega arith)
