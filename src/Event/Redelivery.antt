-- ===== src/Event/Redelivery.antt =====
-- internal/event/service.go, applyOne and Ingest: redelivered events.
use vidra_search.Prelude.{
  Bool, true, false, not, ◌&&◌, ◌≡◌, refl, sym, ◌∙◌, subst, Option, none, some, List, [], ◌∷◌, ◌++◌,
  any, All, Bool-cases, inl, inr, ◌==◌, ==_refl,
}
use vidra_search.Store.Rows.{Uuid, InboxRow}
use vidra_search.Store.Tables.{Db}
use vidra_search.Store.Stmt.{Stmt, apply, insert_inbox_event, savepoint, release}
use vidra_search.Store.Query.{Error, Outcome, Returns, ok, err, exec, pure, ◌>>=◌}
use vidra_search.Store.Trace.{Returns-ok, Returns-continue, exec-Returns, Steps-keep}
use vidra_search.Store.Laws.{any-insert_new, any-insert_new_of_any}
use vidra_search.Event.Types.{Envelope, event_type, is_legacy_catalog_type}
use vidra_search.Event.Env.{Env}
use vidra_search.Event.Dispatch.{Applied, dispatch}
use vidra_search.Event.Keep.{after, settle-db, Issues-attempt_fresh, run_batch-keep, KeepsUnless}
use vidra_search.Event.Ingest.{
  insert_inbox, attempt, attempt_fresh, Delivery, refused, duplicate, applied, deliver, apply_one,
  Batch, settle, step, run_batch,
}

append-ne-nil {ℓ} : {A : Type ℓ} (xs : List A) (y : A) → xs ++ y ∷ [] ≡ [] → ⊥
append-ne-nil [] y h = cc
append-ne-nil (x ∷ xs) y h = cc

-- The inbox has the event's id.
abbrev pub Seen : Uuid → Db → Type 0
Seen id db = any (λ r. r.event_id == id) db.inbox ≡ true

abbrev pub row_of : Envelope → InboxRow
row_of ev = record { event_id = ev.event_id; type = ev.type }

pub apply-Seen :
    (env : Env) (id : Uuid) (st : Stmt) (db : Db)
    → Seen id db
    → Seen id (apply env.server.sql st db)
unfolding apply
apply-Seen env id (insert_inbox_event r) db h = any-insert_new_of_any _ _ r db.inbox h
apply-Seen env id _ db h = h

Seen-insert :
    (env : Env) (ev : Envelope) (db : Db)
    → Seen ev.event_id (apply env.server.sql (insert_inbox_event (row_of ev)) db)
unfolding apply
Seen-insert env ev db = any-insert_new _ (row_of ev) db.inbox (==_refl ev.event_id)

not-false : (b : Bool) → not b ≡ false → b ≡ true
not-false true h = refl
not-false false h = sym h

module _ (env : Env) (ev : Envelope) where
  insert_inbox-Returns :
      (db db' : Db) (fresh : Bool)
      → Returns (insert_inbox env ev db) fresh db'
      → (fresh ≡ not (any (λ r. r.event_id == ev.event_id) db.inbox))
        × (db' ≡ apply env.server.sql (insert_inbox_event (row_of ev)) db)
  unfolding insert_inbox ◌>>=◌ pure
  insert_inbox-Returns db db' fresh h =
      let (u, mid, first, last) =
        Returns-continue (exec env.server (insert_inbox_event (row_of ev)) db) _ fresh db' h in
      (
        sym (Returns-ok last).0,
        sym (Returns-ok last).1
            ∙ exec-Returns env.server (insert_inbox_event (row_of ev)) db mid u first,
      )

  fresh-Seen :
      (fresh : Bool) (mid db' : Db) (a : Applied)
      → Seen ev.event_id mid
      → Returns (attempt_fresh env ev fresh mid) (some a) db'
      → Seen ev.event_id db'
  fresh-Seen fresh mid db' a seen h =
      Steps-keep (Seen ev.event_id) (λ st d _. apply-Seen env ev.event_id st d) seen
        ((Issues-attempt_fresh env ev fresh).at _ mid db' h)

  stale :
      (fresh : Bool) (mid db' : Db)
      → Returns (attempt_fresh env ev fresh mid) none db'
      → fresh ≡ false
  unfolding attempt_fresh ◌>>=◌ pure
  stale false mid db' h = refl
  stale true mid db' h =
      let (r, d, first, rest) = Returns-continue (dispatch env ev mid) _ none db' h in
      let (u, d', second, last) = Returns-continue (exec env.server release d) _ none db' rest in
      absurd (cc ((Returns-ok last).0))

  delivered :
      (db db' d0 d1 : Db) (fresh : Bool) (r : Option Applied)
      → d0 ≡ db
      → fresh ≡ not (any (λ r. r.event_id == ev.event_id) d0.inbox)
      → Seen ev.event_id d1
      → Returns (attempt_fresh env ev fresh d1) r db'
      → Seen ev.event_id (after (deliver (ok (r, db'))) db)
  delivered db db' d0 d1 fresh (some a) e told seen h = fresh-Seen fresh d1 db' a seen h
  delivered db db' d0 d1 fresh none e told seen h =
      let known : Seen ev.event_id d0 = not-false _ (sym told ∙ stale fresh d1 db' h) in
      subst (Seen ev.event_id) e known

  -- An attempt that is not refused shows that the inbox has the id, after it or already before.
  attempt-Seen :
      (db db' : Db) (r : Option Applied)
      → Returns (attempt env ev db) r db'
      → Seen ev.event_id (after (deliver (ok (r, db'))) db)
  unfolding attempt ◌>>=◌ apply
  attempt-Seen db db' r h =
      let (u, d0, first, rest) = Returns-continue (exec env.server savepoint db) _ r db' h in
      let (fresh, d1, second, last) = Returns-continue (insert_inbox env ev d0) _ r db' rest in
      let e0 : d0 ≡ db = exec-Returns env.server savepoint db d0 u first in
      let told = insert_inbox-Returns d0 d1 fresh second in
      let seen : Seen ev.event_id d1 = rw told.1 (Seen-insert env ev d0) in
      delivered db db' d0 d1 fresh r e0 told.0 seen last

-- A delivery that is refused, or an event that the fence stops, is counted in `failed`.
no_failure :
    (env : Env) (ev : Envelope) (b : Batch) (d : Delivery)
    → (settle env ev b d).res.failed ≡ []
    → (b.res.failed ≡ []) × ((e : Error) → d ≡ refused e → ⊥)
unfolding settle
no_failure env ev b (refused e) h = absurd (append-ne-nil b.res.failed _ h)
no_failure env ev b duplicate h = (h, λ e k. cc)
no_failure env ev b (applied o es db) h = (h, λ e k. cc)

deliver-Seen :
    (env : Env) (ev : Envelope) (db : Db) (r : Outcome (Option Applied × Db))
    → attempt env ev db ≡ r
    → ((e : Error) → deliver r ≡ refused e → ⊥)
    → Seen ev.event_id (after (deliver r) db)
deliver-Seen env ev db (err e) h n = absurd (n e refl)
deliver-Seen env ev db (ok (r, db')) h n = attempt-Seen env ev db db' r h

-- A round that adds no failure was not fenced, and leaves the event's id in the inbox.
step-Seen :
    (env : Env) (blocked : Bool) (b : Batch) (ev : Envelope)
    → (step env blocked b ev).res.failed ≡ []
    → (b.res.failed ≡ [])
      × ((blocked && is_legacy_catalog_type (event_type ev.type)) ≡ false)
      × Seen ev.event_id (step env blocked b ev).db
unfolding step apply_one
step-Seen env blocked b ev h =
    elim (Bool-cases (blocked && is_legacy_catalog_type (event_type ev.type))) [
      | inl e ↦ absurd (append-ne-nil b.res.failed _ (rw e at h))
      | inr e ↦
          let h' : (settle env ev b (deliver (attempt env ev b.db))).res.failed ≡ [] = rw e at h in
          let (none_before, not_refused) = no_failure env ev b (deliver (attempt env ev b.db)) h' in
          (
            none_before,
            e,
            rw (e, settle-db env ev b (deliver (attempt env ev b.db)))
                (deliver-Seen env ev b.db (attempt env ev b.db) refl not_refused),
          )
    ]

-- What a batch without a failure says of each of its events.
abbrev pub Settled : Bool → Db → Envelope → Type 0
Settled blocked db ev =
    ((blocked && is_legacy_catalog_type (event_type ev.type)) ≡ false) × Seen ev.event_id db

Keeps-Seen :
    (env : Env) (id : Uuid) (blocked : Bool) (events : List Envelope)
    → All (KeepsUnless env (Seen id) blocked) events
Keeps-Seen env id blocked [] = tt
Keeps-Seen env id blocked (ev ∷ events) =
    (λ e st db s h. apply-Seen env id st db h, Keeps-Seen env id blocked events)

pub run_batch-Settled :
    (env : Env) (blocked : Bool) (b : Batch) (events : List Envelope)
    → (run_batch env blocked b events).res.failed ≡ []
    → (b.res.failed ≡ []) × All (Settled blocked (run_batch env blocked b events).db) events
unfolding run_batch
run_batch-Settled env blocked b [] h = (h, tt)
run_batch-Settled env blocked b (ev ∷ events) h =
    let (now, later) = run_batch-Settled env blocked (step env blocked b ev) events h in
    let (before, open_, seen) = step-Seen env blocked b ev now in
    let kept =
      run_batch-keep env (Seen ev.event_id) blocked (step env blocked b ev) events
        (Keeps-Seen env ev.event_id blocked events) seen in
    (before, ((open_, kept), later))
