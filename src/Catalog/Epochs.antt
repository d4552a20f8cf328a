-- ===== src/Catalog/Epochs.antt =====
-- internal/store: catalog_epoch.go and catalog_retention.go under the fences.
use vidra_search.Prelude.{
  ◌==◌, ==_refl, String, Bool, true, false, Option, none, some, List, ◌∷◌, any, ◌≡◌, inr, refl, sym,
  subst, ◌∙◌, arith, if◌then◌else◌,
}
use vidra_search.Store.Rows.{Uuid}
use vidra_search.Catalog.Tables.{
  Statement, EpochRow, ScopeRow, SnapshotRow, CatalogDb, Host, lock_catalog, begin, commit,
  delete_snapshots, select_scope, select_epoch_used, select_predecessor, insert_epoch, set_epoch,
  delete_expired,
}
use vidra_search.Catalog.Tx.{
  Ends, unless_failed, write, call, Leads, Leads-pure, Leads-raise, Leads-read, Leads-write,
  Leads-if, Leads-weaken,
}
use vidra_search.Catalog.Authority.{
  epoch_used, eq_opt, reset_scope, add_epoch, drop_snapshot, drop_expired, expired, prune_snapshots,
  predecessor_of, retry_matches, retry_epoch, move_epoch, new_epoch, bad_epoch_request, epoch_from,
  set_catalog_epoch,
}
use vidra_search.Catalog.Fence.{known, IsFenced, Rises, Fenced, drop_snapshot-Fenced, unknown}
use vidra_search.Catalog.Admission.{Ending}

-- A statement that leaves these tables alone, last.
call-Fenced :
    (start : CatalogDb) (h : Host) (st : Statement)
    → Leads (Fenced start) (call h st) (Ending start)
unfolding write
call-Fenced start h st = record { from = λ db f. go db f (h.fails st db) }
  where
    go :
        (db : CatalogDb)
        → Fenced start db
        → (o : Option String) → Ends (Ending start) (unless_failed o tt db)
    go db f none = f
    go db f (some e) = tt

module _ (start : CatalogDb) (h : Host) (u : Uuid) (expected : Option Uuid) where
  known-add :
      (v : Uuid) (es : List EpochRow)
      → known v es ≡ true
      → known v (record { epoch = u; predecessor = expected } ∷ es) ≡ true
  unfolding any
  known-add v es k = ground (arith, k)

  IsFenced-add :
      (es : List EpochRow) (s : Option ScopeRow) (p : Option SnapshotRow)
      → IsFenced es s p
      → IsFenced (record { epoch = u; predecessor = expected } ∷ es) s p
  IsFenced-add es none none f = tt
  IsFenced-add es none (some p) f = absurd f
  IsFenced-add es (some s) p (k, c, m, q) = (known-add s.epoch es k, c, m, q)

  -- The epoch is in the history now, and was not when the run started.
  abbrev IsNew : CatalogDb → Type 0
  IsNew db = Fenced start db × (known u start.epochs ≡ false) × (known u db.epochs ≡ true)

  abbrev IsCleared : CatalogDb → Type 0
  IsCleared db = IsNew db × (db.snapshot ≡ none)

  added-IsNew :
      (db : CatalogDb)
      → Fenced start db × (epoch_used u db ≡ false)
      → IsNew (add_epoch u expected db)
  unfolding any
  added-IsNew db ((a, l), n) = (
    (
      IsFenced-add db.epochs db.scope db.snapshot a,
      record { history = λ v k. known-add v db.epochs (l.history v k); fences = l.fences },
    ),
    unknown (known u start.epochs) (known u db.epochs) (l.history u) n,
    ground (arith, ==_refl u),
  )

  drop_snapshot-IsCleared : (db : CatalogDb) → IsNew db → IsCleared (drop_snapshot db)
  drop_snapshot-IsCleared db (f, n, k) = ((drop_snapshot-Fenced start db f, n, k), refl)

  Rises-new :
      (s : Option ScopeRow)
      → known u start.epochs ≡ false
      → Rises start.epochs s (reset_scope u start).scope
  Rises-new none n = tt
  Rises-new (some s) n = inr n

  reset-Fenced : (db : CatalogDb) → IsCleared db → Fenced start (reset_scope u db)
  reset-Fenced db (((a, l), n, k), e) = (
    subst (λ p. IsFenced db.epochs (reset_scope u db).scope p) (sym e) (k, omega arith, refl, tt),
    record { history = l.history; fences = Rises-new start.scope n },
  )

  move_epoch-Fenced :
      Leads
        (λ db. Fenced start db × (epoch_used u db ≡ false))
        (move_epoch h u expected)
        (Ending start)
  unfolding move_epoch
  move_epoch-Fenced = Leads-write {R = IsNew} h insert_epoch (add_epoch u expected) _ added-IsNew (
      Leads-write {R = IsCleared} h delete_snapshots drop_snapshot _ drop_snapshot-IsCleared (
        Leads-write {R = Fenced start} h set_epoch (reset_scope u) _ reset-Fenced
          (call-Fenced start h commit)))

  new_epoch-Fenced : Leads (Fenced start) (new_epoch h u expected) (Ending start)
  unfolding new_epoch
  new_epoch-Fenced = Leads-read h select_epoch_used (epoch_used u) _ (λ t.
      Leads-if t _ _ (λ e. Leads-raise _)
        (λ e. Leads-weaken (move_epoch h u expected) (λ db p. (p.0, p.1 ∙ e)) move_epoch-Fenced))

  retry_matches-Fenced :
      (p : Option (Option Uuid))
      → Leads (Fenced start) (retry_matches h u expected p) (Ending start)
  retry_matches-Fenced none = Leads-raise _
  retry_matches-Fenced (some p) =
      Leads-if (eq_opt p expected) _ _ (λ e. call-Fenced start h commit) (λ e. Leads-raise _)

  retry_epoch-Fenced : Leads (Fenced start) (retry_epoch h u expected) (Ending start)
  unfolding retry_epoch
  retry_epoch-Fenced =
      Leads-read h select_predecessor (λ db. predecessor_of u db.epochs) _
        (λ p. Leads-weaken (retry_matches h u expected p) (λ db f. f.0) (retry_matches-Fenced p))

  epoch_from-Fenced :
      (o : Option Uuid) → Leads (Fenced start) (epoch_from h u expected o) (Ending start)
  epoch_from-Fenced none =
      Leads-if (eq_opt expected none) _ _ (λ e. new_epoch-Fenced) (λ e. Leads-raise _)
  epoch_from-Fenced (some current) =
      Leads-if (current == u) _ _ (λ e. retry_epoch-Fenced)
        (λ e.
          Leads-if (eq_opt expected (some current)) _ _ (λ f. new_epoch-Fenced)
            (λ f. Leads-raise _))

  pub set_catalog_epoch-Fenced :
      (scope : String) → Leads (Fenced start) (set_catalog_epoch h u expected scope) (Ending start)
  unfolding set_catalog_epoch
  set_catalog_epoch-Fenced scope =
      Leads-if (bad_epoch_request h u expected scope) _ _ (λ e. Leads-raise _)
        (λ e.
          Leads-write {R = Fenced start} h begin (λ db. db) _ (λ db f. f)
            (Leads-write {R = Fenced start} h lock_catalog (λ db. db) _ (λ db f. f)
              (Leads-read h select_scope _ _ (λ o.
                Leads-weaken (epoch_from h u expected o) (λ db f. f.0) (epoch_from-Fenced o)))))

drop_expired-Fenced :
    (start db : CatalogDb) (h : Host) → Fenced start db → Fenced start (drop_expired h db)
drop_expired-Fenced start db h f = either (expired h db.snapshot == 0)
  where
    either : (t : Bool) → Fenced start (if t then db else drop_snapshot db)
    either true = f
    either false = drop_snapshot-Fenced start db f

pub prune_snapshots-Fenced :
    (start : CatalogDb) (h : Host) → Leads (Fenced start) (prune_snapshots h) (Ending start)
unfolding prune_snapshots
prune_snapshots-Fenced start h =
    Leads-write {R = Fenced start} h begin (λ db. db) _ (λ db f. f)
      (Leads-write {R = Fenced start} h lock_catalog (λ db. db) _ (λ db f. f)
        (Leads-read h delete_expired _ _ (λ n.
          Leads-write {R = Fenced start} h delete_expired (drop_expired h) _
            (λ db f. drop_expired-Fenced start db h f.0)
            (Leads-write {R = Fenced start} h commit (λ db. db) _ (λ db f. f)
              (Leads-pure n (λ db f. f))))))
