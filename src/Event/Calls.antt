-- ===== src/Event/Calls.antt =====
-- internal/event/service.go, Ingest: how a call ends, and its batch.
use vidra_search.Prelude.{
  Bool, ◌&&◌, ◌≡◌, refl, ap, ◌∙◌, none, some, List, [], ◌∷◌, length, arith, inl, inr, ◌⊎◌,
}
use vidra_search.Store.Tables.{Db}
use vidra_search.Store.Stmt.{apply, begin, commit}
use vidra_search.Store.Query.{Error, Outcome, Returns, ok, err, exec}
use vidra_search.Store.Trace.{exec-Returns}
use vidra_search.Event.Types.{Envelope}
use vidra_search.Event.Env.{Env}
use vidra_search.Event.Fence.{has_legacy, legacy_catalog_blocked_lem}
use vidra_search.Event.Replay.{total, total-run_batch}
use vidra_search.Event.Ingest.{
  Batch, run_batch, start, flush, initialized, legacy_catalog_blocked, committed, finish, admitted,
  begun, Ingested, ingest, no_result, gives_up,
}

-- The loop over the batch, from the tables that the call found.
unfoldable pub batch : Env → List Envelope → Db → Batch
batch env events db = run_batch env (has_legacy events && initialized db) (start db) events

-- A call that returned no error committed its batch, and then flushed its effects.
pub record IsCommitted (env : Env) (events : List Envelope) (db : Db) (r : Ingested) : Type 0 where
  pub res : r.res ≡ (batch env events db).res
  pub tables : r.db ≡ (batch env events db).db
  pub calls : r.calls ≡ flush env (batch env events db).effects

-- A call that returned an error changed nothing, and reports nothing as applied.
pub record IsAborted (db : Db) (r : Ingested) : Type 0 where
  pub res : r.res ≡ no_result
  pub tables : r.db ≡ db
  pub calls : r.calls ≡ []

abbrev pub Concluded : Env → List Envelope → Db → Ingested → Type 0
Concluded env events db r =
    ((r.error ≡ none) × IsCommitted env events db r)
    ⊎ ((e : Error) × (r.error ≡ some e) × IsAborted db r)

module _ (env : Env) (events : List Envelope) (before : Db) where
  aborted : (o : List _) (e : Error) → Concluded env events before (gives_up before o e)
  aborted o e = inr (e, refl, record { res = refl; tables = refl; calls = refl })

  committed-Concluded :
      (b : Batch) (r : Outcome (Unit {0} × Db))
      → b ≡ batch env events before
      → ((u : Unit {0}) (db : Db) → Returns r u db → db ≡ b.db)
      → Concluded env events before (committed env before b r)
  committed-Concluded b (err e) is same = aborted b.observed _
  committed-Concluded b (ok (u, db)) is same = inl (
    refl,
    record {
      res = ap (λ (b : Batch). b.res) is;
      tables = same u db refl ∙ ap (λ (b : Batch). b.db) is;
      calls = ap (λ (b : Batch). flush env b.effects) is;
    },
  )

  admitted-Concluded :
      (r : Outcome (Bool × Db))
      → ((b : Bool) (db' : Db)
          → Returns r b db'
          → (b ≡ (has_legacy events && initialized before)) × (db' ≡ before))
      → Concluded env events before (admitted env events before r)
  unfolding admitted finish apply batch
  admitted-Concluded (err e) known = aborted [] _
  admitted-Concluded (ok (b, db)) known =
      let (flag, same) = known b db refl in
      let b' : Batch = run_batch env b (start db) events in
      committed-Concluded b' (exec env.server commit b'.db)
        (ap (λ f. run_batch env f (start db) events) flag
          ∙ ap (λ d. run_batch env (has_legacy events && initialized before) (start d) events) same)
        (λ u d. exec-Returns env.server commit b'.db d u)

  begun-Concluded :
      (r : Outcome (Unit {0} × Db))
      → ((u : Unit {0}) (db : Db) → Returns r u db → db ≡ before)
      → Concluded env events before (begun env events before r)
  unfolding begun
  begun-Concluded (err e) same = aborted [] _
  begun-Concluded (ok (u, db)) same = rw (same u db refl) (
      admitted-Concluded (legacy_catalog_blocked env events before)
        (λ b db'. legacy_catalog_blocked_lem env events before db' b))

-- A call either returns no error, and then its result, tables and Redis calls are those of its
-- batch; or it returns an error, and then the tables are as before, nothing is reported and Redis
-- is not called.
pub ingest_atomic :
    (env : Env) (events : List Envelope) (db : Db) → Concluded env events db (ingest env events db)
unfolding ingest batch run_batch flush apply
ingest_atomic env [] db = inl (refl, record { res = refl; tables = refl; calls = refl })
ingest_atomic env (ev ∷ events) db =
    begun-Concluded env (ev ∷ events) db (exec env.server begin db)
      (λ u db'. exec-Returns env.server begin db db' u)

-- A call that returns no error reports each event of the batch once: as accepted, as a duplicate
-- or as failed.
pub ingest_counts :
    (env : Env) (events : List Envelope) (db : Db)
    → (ingest env events db).error ≡ none
    → total (ingest env events db).res ≡ length events
ingest_counts env events db h = elim (ingest_atomic env events db) [
  | inl (e, c) ↦ rw c.res (
      unfold batch in
      omega (arith, total-run_batch env (has_legacy events && initialized db) (start db) events))
  | inr (x, e, a) ↦ absurd (cc)
]
