-- ===== src/History/Clear.antt =====
-- internal/history/service.go, ClearAll and PurgeUser: what a clear removes.
use vidra_search.Prelude.{
  String, Bool, true, false, not, ◌&&◌, ◌≡◌, refl, sym, ap, ◌∙◌, none, some, List, [], ◌∷◌, any,
  opt_is, arith, if◌then◌else◌, ◌==◌, is_some, inl, inr, ◌⊎◌,
}
use vidra_search.Store.Rows.{Uuid}
use vidra_search.Store.Tables.{Db, delete_where}
use vidra_search.Store.Laws.{any-delete_where}
use vidra_search.Store.Stmt.{
  Sql, apply, names_user, begin, commit, list_user_session_ids, delete_user_search_history,
  purge_user_watch_projection, delete_query_log_for_user, delete_behavior_events_for_user,
}
use vidra_search.Store.Query.{Server, Query, Error, Outcome, Returns, ok, err, exec, pure, ◌>>=◌}
use vidra_search.Store.Trace.{Returns-ok, Returns-continue, exec-bind, when-bind}
use vidra_search.History.Rows.{session_ids}
use vidra_search.History.Service.{
  list_session_ids, delete_search_footprint, in_tx, Done, respond, drop_session_recency, clear_all,
  purge_user,
}

-- The tables without the account's search rows, and without its watch projection if that is asked.
unfoldable pub without_footprint : Sql → Uuid → (with_watch : Bool) → Db → Db
without_footprint sql u with_watch db = record db {
  search_history = delete_where (λ r. r.user_id == u) db.search_history;
  query_log = delete_where (λ r. opt_is u r.user_id) db.query_log;
  behavior_events = delete_where (names_user sql u) db.behavior_events;
  watch_projection =
      if with_watch
      then delete_where (λ r. r.user_id == u) db.watch_projection
      else db.watch_projection;
}

module _ (srv : Server) (u : Uuid) where
  -- The statements one after the other.
  in_order :
      (with_watch : Bool) (d : Db)
      → apply srv.sql (delete_behavior_events_for_user u) (
          apply srv.sql (delete_query_log_for_user u) (
            if with_watch
            then apply srv.sql
                (purge_user_watch_projection u)
                (apply srv.sql (delete_user_search_history u) d)
            else apply srv.sql (delete_user_search_history u) d))
        ≡ without_footprint srv.sql u with_watch d
  unfolding apply without_footprint
  in_order true d = refl
  in_order false d = refl

  -- What the transaction's body leaves and returns.
  pub footprint-Returns :
      (with_watch : Bool) (db db' : Db) (s : List String)
      → Returns (delete_search_footprint srv u with_watch db) s db'
      → (s ≡ session_ids u db) × (db' ≡ without_footprint srv.sql u with_watch db)
  unfolding delete_search_footprint list_session_ids ◌>>=◌ pure
  footprint-Returns w db db' s h =
      let (s0, d0, h0, k0) = Returns-continue (list_session_ids srv u db) _ s db' h in
      let listed : Returns (ok (session_ids u db, db)) s0 d0 =
        unfold apply in
        exec-bind srv (λ _ db. ok (session_ids u db, db)) db d0 s0 (list_user_session_ids u) h0 in
      let k1 = exec-bind srv _ d0 db' s (delete_user_search_history u) k0 in
      let k2 = when-bind srv _ _ db' s w (purge_user_watch_projection u) k1 in
      let k3 = exec-bind srv _ _ db' s (delete_query_log_for_user u) k2 in
      let k4 = exec-bind srv _ _ db' s (delete_behavior_events_for_user u) k3 in
      let read : (session_ids u db ≡ s0) × (db ≡ d0) = Returns-ok listed in
      (
        sym (Returns-ok k4).0 ∙ sym read.0,
        sym (Returns-ok k4).1 ∙ in_order w d0 ∙ ap (without_footprint srv.sql u w) (sym read.1),
      )

-- A transaction that returned is its body, run on the tables as they were.
pub in_tx-Returns :
    {A : Type 0} (srv : Server) (m : Query A) (db db' : Db) (a : A)
    → Returns (in_tx srv m db) a db'
    → Returns (m db) a db'
unfolding in_tx ◌>>=◌ pure apply
in_tx-Returns srv m db db' a h =
    let (b, mid, first, rest) =
      Returns-continue (m db) (λ b. exec srv commit >>= λ _. pure b) a db'
        (exec-bind srv (λ _. m >>= λ b. exec srv commit >>= λ _. pure b) db db' a begin h) in
    let last : (b ≡ a) × (mid ≡ db') =
      Returns-ok (exec-bind srv (λ _. pure b) mid db' a commit rest) in
    rw (last.0, last.1) at first

-- The rows that a delete hits are gone, and every other row is there as before.
pub record IsDeleted {ℓ} {A : Type ℓ} (hit : A → Bool) (before after : List A) : Type ℓ where
  pub gone : any hit after ≡ false
  pub kept :
      (q : A → Bool) → any (λ r. not (hit r) && q r) after ≡ any (λ r. not (hit r) && q r) before

none_twice {ℓ} :
    {A : Type ℓ} (hit : A → Bool) (rows : List A) → any (λ r. not (hit r) && hit r) rows ≡ false
unfolding any
none_twice hit [] = refl
none_twice hit (r ∷ rows) = ground (arith, none_twice hit rows)

same_twice {ℓ} :
    {A : Type ℓ} (hit q : A → Bool) (rows : List A)
    → any (λ r. not (hit r) && (not (hit r) && q r)) rows ≡ any (λ r. not (hit r) && q r) rows
unfolding any
same_twice hit q [] = refl
same_twice hit q (r ∷ rows) = ground (arith, same_twice hit q rows)

delete_where-IsDeleted {ℓ} :
    {A : Type ℓ} (hit : A → Bool) (rows : List A) → IsDeleted hit rows (delete_where hit rows)
delete_where-IsDeleted hit rows = record {
  gone = any-delete_where hit hit rows ∙ none_twice hit rows;
  kept = λ q. any-delete_where hit (λ r. not (hit r) && q r) rows ∙ same_twice hit q rows;
}

-- The account is gone from the ledgers, and nothing else has changed.
pub record IsForgotten (sql : Sql) (u : Uuid) (with_watch : Bool) (before after : Db) : Type 0 where
  pub history : IsDeleted (λ r. r.user_id == u) before.search_history after.search_history
  pub log : IsDeleted (λ r. opt_is u r.user_id) before.query_log after.query_log
  pub events : IsDeleted (names_user sql u) before.behavior_events after.behavior_events
  pub watch :
      if with_watch
      then IsDeleted (λ r. r.user_id == u) before.watch_projection after.watch_projection
      else after.watch_projection ≡ before.watch_projection
  pub inbox : after.inbox ≡ before.inbox
  pub documents : after.documents ≡ before.documents
  pub config : after.config ≡ before.config

pub without_footprint-IsForgotten :
    (sql : Sql) (u : Uuid) (w : Bool) (db : Db)
    → IsForgotten sql u w db (without_footprint sql u w db)
unfolding without_footprint
without_footprint-IsForgotten sql u true db = record {
  history = delete_where-IsDeleted (λ r. r.user_id == u) db.search_history;
  log = delete_where-IsDeleted (λ r. opt_is u r.user_id) db.query_log;
  events = delete_where-IsDeleted (names_user sql u) db.behavior_events;
  watch = delete_where-IsDeleted (λ r. r.user_id == u) db.watch_projection;
  inbox = refl;
  documents = refl;
  config = refl;
}
without_footprint-IsForgotten sql u false db = record {
  history = delete_where-IsDeleted (λ r. r.user_id == u) db.search_history;
  log = delete_where-IsDeleted (λ r. opt_is u r.user_id) db.query_log;
  events = delete_where-IsDeleted (names_user sql u) db.behavior_events;
  watch = refl;
  inbox = refl;
  documents = refl;
  config = refl;
}

-- How a request ends: with the account forgotten and its sessions' lists dropped, or with an error
-- and nothing changed.
abbrev pub Ended : Sql → Bool → Uuid → Bool → Db → Done → Type 0
Ended sql has_redis u with_watch before r =
    ((r.error ≡ none)
      × IsForgotten sql u with_watch before r.db
      × (r.dropped ≡ drop_session_recency has_redis (session_ids u before)))
    ⊎ ((e : Error) × (r.error ≡ some e) × (r.db ≡ before) × (r.dropped ≡ []))

module _ (srv : Server) (has_redis : Bool) (u : Uuid) (w : Bool) (db : Db) where
  body-Returns :
      (db' : Db) (s : List String)
      → Returns (in_tx srv (delete_search_footprint srv u w) db) s db'
      → (s ≡ session_ids u db) × (db' ≡ without_footprint srv.sql u w db)
  body-Returns db' s h =
      footprint-Returns srv u w db db' s
        (in_tx-Returns srv (delete_search_footprint srv u w) db db' s h)

  respond-Ended :
      (r : Outcome (List String × Db))
      → ((s : List String) (db' : Db)
          → Returns r s db'
          → (s ≡ session_ids u db) × (db' ≡ without_footprint srv.sql u w db))
      → Ended srv.sql has_redis u w db (respond has_redis db r)
  respond-Ended (err e) known = inr (e, refl, refl, refl)
  respond-Ended (ok (s, db')) known =
      let (read, left) = known s db' refl in
      inl (
        refl,
        rw left (without_footprint-IsForgotten srv.sql u w db),
        ap (drop_session_recency has_redis) read,
      )

  respond-without :
      (r : Outcome (List String × Db))
      → ((s : List String) (db' : Db)
          → Returns r s db'
          → (s ≡ session_ids u db) × (db' ≡ without_footprint srv.sql u w db))
      → (respond has_redis db r).error ≡ none
      → (respond has_redis db r).db ≡ without_footprint srv.sql u w db
  respond-without (err e) known h = absurd (ground (arith, ap is_some h))
  respond-without (ok (s, db')) known h = (known s db' refl).1

-- The tables after a clear without an error.
pub clear_all-without :
    (srv : Server) (has_redis : Bool) (u : Uuid) (db : Db)
    → (clear_all srv has_redis u db).error ≡ none
    → (clear_all srv has_redis u db).db ≡ without_footprint srv.sql u false db
unfolding clear_all
clear_all-without srv has_redis u db h =
    respond-without srv has_redis u false db _
      (λ s db'. body-Returns srv has_redis u false db db' s) h

-- ClearAll either ends without an error, and then every row of the search history, of the query
-- log and of the behavior events that names the account is gone, every other row of them is there,
-- the watch projection, the inbox, the documents and the configuration are unchanged, and the Redis
-- lists of the sessions that the account's rows named were dropped; or it ends with an error, and
-- then nothing was changed or dropped.
pub clear_all_ends :
    (srv : Server) (has_redis : Bool) (u : Uuid) (db : Db)
    → Ended srv.sql has_redis u false db (clear_all srv has_redis u db)
unfolding clear_all
clear_all_ends srv has_redis u db =
    respond-Ended srv has_redis u false db _ (λ s db'. body-Returns srv has_redis u false db db' s)

-- PurgeUser ends as ClearAll does, and without an error the account's watch projection is gone too.
pub purge_user_ends :
    (srv : Server) (has_redis : Bool) (u : Uuid) (db : Db)
    → Ended srv.sql has_redis u true db (purge_user srv has_redis u db)
unfolding purge_user
purge_user_ends srv has_redis u db =
    respond-Ended srv has_redis u true db _ (λ s db'. body-Returns srv has_redis u true db db' s)
