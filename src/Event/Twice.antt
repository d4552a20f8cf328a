-- ===== src/Event/Twice.antt =====
-- Delivering a batch a second time.
use vidra_search.Prelude.{
  ℕ, ◌+◌, Bool, ◌&&◌, ◌≡◌, refl, sym, ap, ◌∙◌, subst, none, List, [], ◌∷◌, inl, inr, any, All,
  length, arith, Bool-cases,
}
use vidra_search.Store.Tables.{Db}
use vidra_search.Store.Stmt.{
  Stmt, apply, insert_inbox_event, savepoint, begin, commit, lock_catalog, catalog_initialized,
}
use vidra_search.Store.Query.{ok, exec, pure, ◌>>=◌}
use vidra_search.Event.Types.{Envelope, Result, event_type, is_legacy_catalog_type}
use vidra_search.Event.Env.{Env}
use vidra_search.Event.Fence.{has_legacy, ingest-keep}
use vidra_search.Event.Visibility.{Keeps-All}
use vidra_search.Event.Redelivery.{Seen, Settled, run_batch-Settled, row_of}
use vidra_search.Event.Calls.{batch, Concluded, ingest_atomic}
use vidra_search.Event.Ingest.{
  insert_inbox, attempt, attempt_fresh, duplicate, apply_one, Batch, settle, step, run_batch, start,
  initialized, look, legacy_catalog_blocked, finish, admitted, begun, flush, ingest, Ingested,
}

-- The database refuses no statement in the state `db`.
abbrev pub Quiet : Env → Db → Type 0
Quiet env db = (st : Stmt) → env.server.refuses st db ≡ none

-- An event whose id the inbox has is a duplicate.
apply_one_of_Seen :
    (env : Env) (ev : Envelope) (db : Db)
    → Quiet env db
    → Seen ev.event_id db
    → apply_one env ev db ≡ duplicate
unfolding apply_one attempt attempt_fresh insert_inbox exec ◌>>=◌ pure apply
apply_one_of_Seen env ev db quiet seen =
    rw (quiet savepoint, quiet (insert_inbox_event (row_of ev)), seen)

-- What a batch of duplicates comes to.
record AllDuplicates (n : ℕ) (b b' : Batch) : Type 0 where
  tables : b'.db ≡ b.db
  effects : b'.effects ≡ b.effects
  accepted : b'.res.accepted ≡ b.res.accepted
  failed : b'.res.failed ≡ b.res.failed
  duplicates : b'.res.duplicates ≡ b.res.duplicates + n

step_of_Seen :
    (env : Env) (blocked : Bool) (b : Batch) (ev : Envelope)
    → Quiet env b.db
    → Settled blocked b.db ev
    → AllDuplicates 1 b (step env blocked b ev)
unfolding step settle
step_of_Seen env blocked b ev quiet (open_, seen) =
    rw (open_, apply_one_of_Seen env ev b.db quiet seen)
      (record { tables = refl; effects = refl; accepted = refl; failed = refl; duplicates = refl })

run_batch_of_Seen :
    (env : Env) (blocked : Bool) (db : Db) (b : Batch) (events : List Envelope)
    → Quiet env db
    → b.db ≡ db
    → All (Settled blocked db) events
    → AllDuplicates (length events) b (run_batch env blocked b events)
unfolding run_batch
run_batch_of_Seen env blocked db b [] quiet e s = record {
  tables = refl;
  effects = refl;
  accepted = refl;
  failed = refl;
  duplicates = omega arith;
}
run_batch_of_Seen env blocked db b (ev ∷ events) quiet e s =
    let here : AllDuplicates 1 b (step env blocked b ev) =
      step_of_Seen env blocked b ev (subst (Quiet env) (sym e) quiet)
        (subst (λ d. Settled blocked d ev) (sym e) s.0) in
    let rest =
      run_batch_of_Seen env blocked db (step env blocked b ev) events quiet (here.tables ∙ e) s.1 in
    record {
      tables = rest.tables ∙ here.tables;
      effects = rest.effects ∙ here.effects;
      accepted = rest.accepted ∙ here.accepted;
      failed = rest.failed ∙ here.failed;
      duplicates = omega (arith, rest.duplicates, here.duplicates);
    }

legacy_catalog_blocked_of_Quiet :
    (env : Env) (events : List Envelope) (db : Db)
    → Quiet env db
    → legacy_catalog_blocked env events db ≡ ok (has_legacy events && initialized db, db)
unfolding legacy_catalog_blocked look exec ◌>>=◌ pure apply any
legacy_catalog_blocked_of_Quiet env [] db quiet = refl
legacy_catalog_blocked_of_Quiet env (ev ∷ events) db quiet =
    elim (Bool-cases (is_legacy_catalog_type (event_type ev.type))) [
      | inl e ↦ rw (e, quiet lock_catalog, quiet catalog_initialized)
      | inr e ↦ rw e (legacy_catalog_blocked_of_Quiet env events db quiet)
    ]

-- A call that the database never refuses, and whose batch leaves the tables alone.
error-ingest_of_Quiet :
    (env : Env) (events : List Envelope) (db : Db)
    → Quiet env db
    → (batch env events db).db ≡ db
    → (ingest env events db).error ≡ none
unfolding ingest begun admitted finish exec apply batch run_batch
error-ingest_of_Quiet env [] db quiet same = refl
error-ingest_of_Quiet env (ev ∷ events) db quiet same =
    rw (quiet begin, legacy_catalog_blocked_of_Quiet env (ev ∷ events) db quiet, same, quiet commit)

apply-scopes :
    (env : Env) (st : Stmt) (db : Db)
    → (apply env.server.sql st db).catalog_scopes ≡ db.catalog_scopes
unfolding apply
apply-scopes env begin db = refl
apply-scopes env _ db = refl

initialized-ingest :
    (env : Env) (events : List Envelope) (db : Db)
    → initialized (ingest env events db).db ≡ initialized db
initialized-ingest env events db =
    ingest-keep env (λ d. initialized d ≡ initialized db) events db
      (Keeps-All env (λ d. initialized d ≡ initialized db) _ events
        λ ev st d s h. rw (apply-scopes env st d) h)
      refl

-- What the sender and the outside see of a redelivery.
pub record IsNoOp (n : ℕ) (db : Db) (r : Ingested) : Type 0 where
  pub error : r.error ≡ none
  pub tables : r.db ≡ db
  pub accepted : r.res.accepted ≡ 0
  pub duplicates : r.res.duplicates ≡ n
  pub failed : r.res.failed ≡ []
  pub calls : r.calls ≡ []

no_op :
    (env : Env) (events : List Envelope) (db : Db) (r : Ingested)
    → r.error ≡ none
    → Concluded env events db r
    → AllDuplicates (length events) (start db) (batch env events db)
    → IsNoOp (length events) db r
unfolding flush
no_op env events db r e (inl (e', c)) d = record {
  error = e;
  tables = c.tables ∙ d.tables;
  accepted = ap (λ (x : Result). x.accepted) c.res ∙ d.accepted;
  duplicates = ap (λ (x : Result). x.duplicates) c.res ∙ d.duplicates ∙ omega arith;
  failed = ap (λ (x : Result). x.failed) c.res ∙ d.failed;
  calls = c.calls ∙ ap (flush env) d.effects;
}
no_op env events db r e (inr (x, e', a)) d = absurd (cc)

redelivered :
    (env env' : Env) (events : List Envelope) (db : Db)
    → (ingest env events db).res.failed ≡ []
    → Quiet env' (ingest env events db).db
    → Concluded env events db (ingest env events db)
    → (ingest env events db).error ≡ none
    → IsNoOp
        (length events)
        (ingest env events db).db
        (ingest env' events (ingest env events db).db)
unfolding batch
redelivered env env' events db clean quiet (inr (x, e, a)) none_ = absurd (cc)
redelivered env env' events db clean quiet (inl (e, c)) none_ =
    let later : Db = (ingest env events db).db in
    let flag : Bool = has_legacy events && initialized db in
    let settled : All (Settled flag (run_batch env flag (start db) events).db) events =
      (run_batch-Settled env flag (start db) events
        (sym (ap (λ (x : Result). x.failed) c.res) ∙ clean)).1 in
    let same_flag : has_legacy events && initialized later ≡ flag =
      ap (λ i. has_legacy events && i) (initialized-ingest env events db) in
    let settled' : All (Settled (has_legacy events && initialized later) later) events =
      subst (λ f. All (Settled f later) events) (sym same_flag)
        (subst (λ d. All (Settled flag d) events) (sym c.tables) settled) in
    let again =
      run_batch_of_Seen env' (has_legacy events && initialized later) later (start later) events
        quiet refl settled' in
    no_op env' events later (ingest env' events later)
      (error-ingest_of_Quiet env' events later quiet again.tables) (ingest_atomic env' events later)
      again

-- A batch that went through without an error or a failed event is, when it is delivered again to a
-- database that refuses nothing (whatever the time and the configuration then), a batch of
-- duplicates: no error, no failure, the tables unchanged and no call of Redis.
pub ingest_twice :
    (env env' : Env) (events : List Envelope) (db : Db)
    → (ingest env events db).error ≡ none
    → (ingest env events db).res.failed ≡ []
    → Quiet env' (ingest env events db).db
    → IsNoOp
        (length events)
        (ingest env events db).db
        (ingest env' events (ingest env events db).db)
ingest_twice env env' events db e clean quiet =
    redelivered env env' events db clean quiet (ingest_atomic env events db) e
