-- ===== src/Event/Fence.antt =====
-- legacyCatalogBlocked, and the rule by which an invariant passes through a whole call of `ingest`.
use vidra_search.Prelude.{
  Bool, ◌&&◌, ◌≡◌, refl, sym, ◌∙◌, ap, List, [], ◌∷◌, any, All, Bool-cases, inl, inr, subst,
}
use vidra_search.Store.Tables.{Db}
use vidra_search.Store.Stmt.{apply, lock_catalog, catalog_initialized, begin, commit}
use vidra_search.Store.Query.{Outcome, Returns, ok, err, exec, pure, ◌>>=◌}
use vidra_search.Store.Trace.{Returns-ok, Returns-continue, exec-Returns}
use vidra_search.Event.Types.{Envelope, event_type, is_legacy_catalog_type}
use vidra_search.Event.Env.{Env}
use vidra_search.Event.Keep.{KeepsUnless, run_batch-keep}
use vidra_search.Event.Ingest.{
  initialized, look, legacy_catalog_blocked, run_batch, committed, finish, admitted, begun, ingest,
  start, Batch,
}

-- The batch has a legacy catalog event.
abbrev pub has_legacy : List Envelope → Bool
has_legacy events = any (λ ev. is_legacy_catalog_type (event_type ev.type)) events

module _ (env : Env) where
  -- The two statements, and the answer.
  pub look-Returns :
      (db db' : Db) (b : Bool) → Returns (look env db) b db' → (b ≡ initialized db) × (db' ≡ db)
  unfolding look ◌>>=◌ apply
  look-Returns db db' b h =
      let (u, d1, first, rest) = Returns-continue (exec env.server lock_catalog db) _ b db' h in
      let (v, d2, second, last) =
        Returns-continue (exec env.server catalog_initialized d1) _ b db' rest in
      let e1 : d1 ≡ db = exec-Returns env.server lock_catalog db d1 u first in
      let e2 : d2 ≡ d1 = exec-Returns env.server catalog_initialized d1 d2 v second in
      (sym (Returns-ok last).0 ∙ ap initialized (e2 ∙ e1), sym (Returns-ok last).1 ∙ e2 ∙ e1)

  -- The flag is true exactly when the batch has a legacy event and the scope is initialized.
  pub legacy_catalog_blocked_lem :
      (events : List Envelope) (db db' : Db) (b : Bool)
      → Returns (legacy_catalog_blocked env events db) b db'
      → (b ≡ (has_legacy events && initialized db)) × (db' ≡ db)
  unfolding legacy_catalog_blocked pure any
  legacy_catalog_blocked_lem [] db db' b h = (sym (Returns-ok h).0, sym (Returns-ok h).1)
  legacy_catalog_blocked_lem (ev ∷ events) db db' b h =
      elim (Bool-cases (is_legacy_catalog_type (event_type ev.type))) [
        | inl e ↦
            let p : Returns (look env db) b db' = rw (e, legacy_catalog_blocked) at h in
            rw e (look-Returns db db' b p)
        | inr e ↦
            let p : Returns (legacy_catalog_blocked env events db) b db' = rw e at h in
            rw e (legacy_catalog_blocked_lem events db db' b p)
      ]

module _ (env : Env) (P : Db → Type 0) (before : Db) (events : List Envelope) where
  -- What the events keep when the flag has its one possible value.
  abbrev pub KeepsAll : Type 0
  KeepsAll = All (KeepsUnless env P (has_legacy events && initialized before)) events

  committed-keep :
      (b : Batch) (r : Outcome (Unit {0} × Db))
      → ((u : Unit {0}) (db : Db) → Returns r u db → db ≡ b.db)
      → P before
      → P b.db
      → P (committed env before b r).db
  committed-keep b (err e) same h k = h
  committed-keep b (ok (u, db)) same h k = subst P (sym (same u db refl)) k

  pub finish-keep : (b : Batch) → P before → P b.db → P (finish env before b).db
  unfolding finish apply
  finish-keep b =
      committed-keep b (exec env.server commit b.db)
        λ u db. exec-Returns env.server commit b.db db u

  admitted-keep :
      (db : Db) (r : Outcome (Bool × Db))
      → ((b : Bool) (db' : Db)
          → Returns r b db'
          → (b ≡ (has_legacy events && initialized before)) × (db' ≡ before))
      → KeepsAll
      → P before
      → P (admitted env events before r).db
  unfolding admitted
  admitted-keep db (err e) known k h = h
  admitted-keep db (ok (b, db')) known k h =
      let (flag, same) = known b db' refl in
      let k' : All (KeepsUnless env P b) events =
        subst (λ f. All (KeepsUnless env P f) events) (sym flag) k in
      finish-keep (run_batch env b (start db') events) h
        (run_batch-keep env P b (start db') events k' (subst P (sym same) h))

  begun-keep :
      (r : Outcome (Unit {0} × Db))
      → ((u : Unit {0}) (db : Db) → Returns r u db → db ≡ before)
      → KeepsAll
      → P before
      → P (begun env events before r).db
  unfolding begun
  begun-keep (err e) same k h = h
  begun-keep (ok (u, db)) same k h = rw (same u db refl) (
      admitted-keep before (legacy_catalog_blocked env events before)
        (λ b db'. legacy_catalog_blocked_lem env events before db' b) k h)

-- What every statement that the events may run keeps, a call of `ingest` keeps.
pub ingest-keep :
    (env : Env) (P : Db → Type 0) (events : List Envelope) (db : Db)
    → KeepsAll env P db events
    → P db
    → P (ingest env events db).db
unfolding ingest apply
ingest-keep env P [] db k h = h
ingest-keep env P (ev ∷ events) db k h =
    begun-keep env P db (ev ∷ events) (exec env.server begin db)
      (λ u db'. exec-Returns env.server begin db db' u) k h
