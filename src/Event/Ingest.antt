-- ===== src/Event/Ingest.antt =====
-- service.go: Ingest, applyOne, flush; catalog_legacy.go: legacyCatalogBlocked.
use Prim.Native.String.{◌++◌}
use mathlib.Core.List
use vidra_search.Prelude.{
  ℕ, ◌+◌, ◌-◌, ℤ, String, Bool, true, false, not, ◌&&◌, Option, none, some, List, [], ◌∷◌, any,
  ◌==◌, leb, str_eq, if◌then◌else◌,
}
use vidra_search.Store.Rows.{Float, Time}
use vidra_search.Store.Tables.{Db}
use vidra_search.Store.Stmt.{
  begin, savepoint, release, commit, lock_catalog, catalog_initialized, insert_inbox_event,
}
use vidra_search.Store.Query.{Query, Error, Outcome, ok, err, exec, pure, ◌>>=◌, ◌>>◌}
use vidra_search.Event.Types.{Envelope, Result, event_type, metric_type, is_legacy_catalog_type}
use vidra_search.Event.Env.{Env}
use vidra_search.Event.Behavior.{RedisEffect, session_query, session_video, trend}
use vidra_search.Event.Dispatch.{Applied, dispatch}

-- The calls of the metrics interface.
pub data Observed : Type 0 where
  event : (type outcome : String) → Observed
  lag : ℕ → Observed

-- The calls of the Redis sink.
pub data RedisCall : Type 0 where
  push_session_query push_session_video : (session_id value : String) → RedisCall
  trend_bump : (domain item subject : String) (half_life : Float) (cap_window : ℤ) → RedisCall

-- The insert returns a row only where the ledger held none with that id.
unfoldable pub insert_inbox : Env → Envelope → Query Bool
insert_inbox env ev db =
    (do
      exec env.server (insert_inbox_event (record { event_id = ev.event_id; type = ev.type }))
      pure (not (any (λ r. r.event_id == ev.event_id) db.inbox)))
      db

unfoldable pub attempt_fresh : Env → Envelope → Bool → Query (Option Applied)
attempt_fresh env ev true = do r ← dispatch env ev; exec env.server release; pure (some r)
attempt_fresh env ev false = pure none

-- The body of one event, inside its savepoint. `none` is a redelivery.
unfoldable pub attempt : Env → Envelope → Query (Option Applied)
unfolding insert_inbox attempt_fresh
attempt env ev = do
  exec env.server savepoint
  fresh ← insert_inbox env ev
  attempt_fresh env ev fresh

pub data Delivery : Type 0 where
  refused : Error → Delivery
  duplicate : Delivery
  applied : (outcome : String) (effects : List RedisEffect) (after : Db) → Delivery

abbrev pub deliver : Outcome (Option Applied × Db) → Delivery
deliver (err e) = refused e
deliver (ok (none, db)) = duplicate
deliver (ok (some (outcome, effects), db)) = applied outcome effects db

-- applyOne: what is not committed is rolled back, so only `applied` has a new state. A RELEASE that
-- the database refuses is rolled back as any other statement is, while PostgreSQL then refuses the
-- rest of the outer transaction as well.
unfoldable pub apply_one : Env → Envelope → Db → Delivery
apply_one env ev db = deliver (attempt env ev db)

-- The variables of the loop over the batch.
pub record Batch : Type 0 where
  pub res : Result
  pub effects : List RedisEffect
  pub db : Db
  pub observed : List Observed

abbrev pub observe : Env → (type outcome : String) → List Observed
observe env type outcome = if env.has_metrics then event (metric_type type) outcome ∷ [] else []

-- A lag is observed where the event has a time that is not in the future.
abbrev pub observe_lag : Env → Time → List Observed
observe_lag env at =
    if env.has_metrics && not (at == 0) && leb at env.wall then lag (env.wall - at) ∷ [] else []

abbrev pub fail : Env → Envelope → (code message : String) → Batch → Batch
fail env ev code message b = record b {
  res = record (b.res) {
    failed =
        List.◌++◌ b.res.failed
          (record { event_id = env.uuid_string ev.event_id; code = code; message = message } ∷ []);
  };
  observed = List.◌++◌ b.observed (observe env ev.type "failed");
}

unfoldable pub settle : Env → Envelope → Batch → Delivery → Batch
settle env ev b (refused e) = fail env ev "apply_failed" e b
settle env ev b duplicate = record b {
  res = record (b.res) { duplicates = b.res.duplicates + 1 };
  observed = List.◌++◌ b.observed (observe env ev.type "duplicate");
}
settle env ev b (applied outcome effects after) = record {
  res = record (b.res) { accepted = b.res.accepted + 1 };
  effects = List.◌++◌ b.effects effects;
  db = after;
  observed =
      List.◌++◌ b.observed
        (List.◌++◌ (observe env ev.type outcome) (observe_lag env ev.occurred_at));
}

-- One round of the loop. A legacy catalog event is refused before the inbox is asked.
unfoldable pub step : Env → (legacy_blocked : Bool) → Batch → Envelope → Batch
unfolding settle
step env blocked b ev =
    if blocked && is_legacy_catalog_type (event_type ev.type)
    then fail env ev "catalog_legacy_disabled" "catalog epoch requires full observations" b
    else settle env ev b (apply_one env ev b.db)

unfoldable pub run_batch : Env → Bool → Batch → List Envelope → Batch
run_batch env blocked b [] = b
run_batch env blocked b (ev ∷ evs) = run_batch env blocked (step env blocked b ev) evs

-- The catalog scope `local` has been initialized.
abbrev pub initialized : Db → Bool
initialized db = any (λ scope. str_eq scope "local") db.catalog_scopes

-- Take the catalog's lock, then ask whether the scope exists.
unfoldable pub look : Env → Query Bool
look env = do
  exec env.server lock_catalog
  exec env.server catalog_initialized
  λ db. ok (initialized db, db)

-- legacyCatalogBlocked: the first legacy event makes the transaction take the lock and look.
unfoldable pub legacy_catalog_blocked : Env → List Envelope → Query Bool
unfolding look
legacy_catalog_blocked env [] = pure false
legacy_catalog_blocked env (ev ∷ evs) =
    let later = legacy_catalog_blocked env evs in
    if not (is_legacy_catalog_type (event_type ev.type)) then later else look env

-- flush: errors of the sink are logged and dropped.
unfoldable pub flush : Env → List RedisEffect → List RedisCall
flush env [] = []
flush env (e ∷ es) = let rest = flush env es in if env.has_redis then call e ∷ rest else []
  where
    call : RedisEffect → RedisCall
    call (session_query sid value) = push_session_query sid value
    call (session_video sid value) = push_session_video sid value
    call (trend domain item subject) =
        trend_bump domain item subject env.cfg.trending_half_life_seconds env.cfg.trend_cap_window

-- What the caller and the outside see of one call.
pub record Ingested : Type 0 where
  pub res : Result
  pub error : Option Error
  pub db : Db
  pub calls : List RedisCall
  pub observed : List Observed

abbrev pub no_result : Result
no_result = record { accepted = 0; duplicates = 0; failed = [] }

abbrev pub start : Db → Batch
start db = record { res = no_result; effects = []; db = db; observed = [] }

abbrev pub gives_up : Db → List Observed → Error → Ingested
gives_up db observed e = record {
  res = no_result;
  error = some e;
  db = db;
  calls = [];
  observed = observed;
}

-- What the commit leaves; `before` is what a rollback goes back to.
abbrev pub committed : Env → (before : Db) → Batch → Outcome (Unit {0} × Db) → Ingested
committed env before b (err e) = gives_up before b.observed ("event: commit: " ++ e)
committed env before b (ok (u, after)) = record {
  res = b.res;
  error = none;
  db = after;
  calls = flush env b.effects;
  observed = b.observed;
}

unfoldable pub finish : Env → (before : Db) → Batch → Ingested
unfolding flush
finish env before b = committed env before b (exec env.server commit b.db)

unfoldable pub admitted : Env → List Envelope → (before : Db) → Outcome (Bool × Db) → Ingested
unfolding finish run_batch step
admitted env events before (err e) = gives_up before [] ("event: catalog admission: " ++ e)
admitted env events before (ok (blocked, db)) =
    finish env before (run_batch env blocked (start db) events)

unfoldable pub begun : Env → List Envelope → (before : Db) → Outcome (Unit {0} × Db) → Ingested
unfolding admitted legacy_catalog_blocked
begun env events before (err e) = gives_up before [] ("event: begin tx: " ++ e)
begun env events before (ok (u, db)) =
    admitted env events before (legacy_catalog_blocked env events db)

unfoldable pub ingest : Env → List Envelope → Db → Ingested
unfolding begun
ingest env [] db = record { res = no_result; error = none; db = db; calls = []; observed = [] }
ingest env events db = begun env events db (exec env.server begin db)
