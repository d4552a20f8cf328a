-- ===== src/Event/Keep.antt =====
-- internal/event/service.go, Ingest: invariants of its statements, carried through a batch.
use vidra_search.Prelude.{
  Bool, true, false, ◌&&◌, ◌≡◌, refl, Option, none, some, List, [], ◌∷◌, All, Bool-cases, inl, inr,
}
use vidra_search.Store.Tables.{Db}
use vidra_search.Store.Stmt.{Stmt, apply}
use vidra_search.Store.Query.{Outcome, ok, err}
use vidra_search.Store.Trace.{Steps-keep, Issues, Issues-pure, Issues-exec, Issues-bind}
use vidra_search.Event.Types.{Envelope, event_type, is_legacy_catalog_type}
use vidra_search.Event.Env.{Env}
use vidra_search.Event.Dispatch.{Applied, dispatch}
use vidra_search.Event.Allowed.{Allowed, Issues-dispatch}
use vidra_search.Event.Ingest.{
  insert_inbox, attempt, attempt_fresh, Delivery, refused, duplicate, applied, deliver, apply_one,
  Batch, settle, step, run_batch,
}

-- What the event's type and payload allow.
abbrev pub May : Env → Envelope → Stmt → Type 0
May env ev = Allowed env (event_type ev.type) ev.payload

module _ (env : Env) (ev : Envelope) where
  Issues-insert_inbox : Issues env.server (May env ev) (insert_inbox env ev)
  unfolding insert_inbox
  Issues-insert_inbox = record {
    at = λ a db db' h. (Issues-bind _ _ (Issues-exec _ tt) λ _. Issues-pure _).at a db db' h;
  }

  pub Issues-attempt_fresh :
      (fresh : Bool) → Issues env.server (May env ev) (attempt_fresh env ev fresh)
  unfolding attempt_fresh dispatch
  Issues-attempt_fresh true =
      Issues-bind _ _ (Issues-dispatch env ev (event_type ev.type) refl)
        λ _. Issues-bind _ _ (Issues-exec _ tt) λ _. Issues-pure _
  Issues-attempt_fresh false = Issues-pure _

  -- One event runs only statements that it may.
  pub Issues-attempt : Issues env.server (May env ev) (attempt env ev)
  unfolding attempt
  Issues-attempt =
      Issues-bind _ _ (Issues-exec _ tt)
        λ _. Issues-bind _ _ Issues-insert_inbox Issues-attempt_fresh

-- The tables after a delivery.
abbrev pub after : Delivery → Db → Db
after (applied outcome effects db') db = db'
after _ db = db

pub settle-db :
    (env : Env) (ev : Envelope) (b : Batch) (d : Delivery) → (settle env ev b d).db ≡ after d b.db
unfolding settle
settle-db env ev b (refused e) = refl
settle-db env ev b duplicate = refl
settle-db env ev b (applied outcome effects db') = refl

module _ (env : Env) (P : Db → Type 0) where
  -- Every statement that the event may run keeps `P`.
  abbrev pub Keeps : Envelope → Type 0
  Keeps ev = (st : Stmt) (db : Db) → May env ev st → P db → P (apply env.server.sql st db)

  deliver-keep :
      (ev : Envelope) (db : Db) (r : Outcome (Option Applied × Db))
      → Keeps ev
      → attempt env ev db ≡ r
      → P db
      → P (after (deliver r) db)
  deliver-keep ev db (err e) k e' h = h
  deliver-keep ev db (ok (none, db')) k e' h = h
  deliver-keep ev db (ok (some (o, effects), db')) k e' h =
      Steps-keep P k h ((Issues-attempt env ev).at _ db db' e')

  pub apply_one-keep :
      (ev : Envelope) (db : Db) → Keeps ev → P db → P (after (apply_one env ev db) db)
  unfolding apply_one
  apply_one-keep ev db k h = deliver-keep ev db (attempt env ev db) k refl h

  -- An event that the fence refuses runs nothing.
  abbrev pub KeepsUnless : Bool → Envelope → Type 0
  KeepsUnless blocked ev =
      (blocked && is_legacy_catalog_type (event_type ev.type)) ≡ false → Keeps ev

  pub step-keep :
      (blocked : Bool) (b : Batch) (ev : Envelope)
      → KeepsUnless blocked ev
      → P b.db
      → P (step env blocked b ev).db
  unfolding step
  step-keep blocked b ev k h =
      elim (Bool-cases (blocked && is_legacy_catalog_type (event_type ev.type))) [
        | inl e ↦ rw e h
        | inr e ↦
            rw (e, settle-db env ev b (apply_one env ev b.db)) (apply_one-keep ev b.db (k e) h)
      ]

  pub run_batch-keep :
      (blocked : Bool) (b : Batch) (events : List Envelope)
      → All (KeepsUnless blocked) events
      → P b.db
      → P (run_batch env blocked b events).db
  unfolding run_batch
  run_batch-keep blocked b [] k h = h
  run_batch-keep blocked b (ev ∷ events) k h =
      run_batch-keep blocked (step env blocked b ev) events k.1 (step-keep blocked b ev k.0 h)
