-- ===== src/Catalog/History.antt =====
-- The catalog's authority through whole calls: IngestCatalog, SetCatalogEpoch, PruneCatalogSnapshots.
use vidra_search.Prelude.{
  ℕ, ltb, ◌==◌, String, Bool, true, false, ◌||◌, Option, List, [], ◌∷◌, length, str_eq, ◌≡◌, subst,
}
use vidra_search.Store.Rows.{Uuid}
use vidra_search.Event.Types.{Envelope, Failure}
use vidra_search.Catalog.Digests.{Checked, good, bad}
use vidra_search.Catalog.Tables.{CatalogDb, Host, begin, savepoint, commit, release, lock_catalog}
use vidra_search.Catalog.Tx.{
  Ends, Tx, Leads, Leads-pure, Leads-raise, Leads-lift, Leads-write, Leads-bind, Leads-if,
}
use vidra_search.Catalog.Authority.{set_catalog_epoch, prune_snapshots}
use vidra_search.Catalog.Intake.{
  Parsers, apply_page, apply_end, apply_typed, bad_envelope, apply_catalog_body, apply_catalog_one,
  Progress, settle_catalog, run_catalog, run_batch, max_batch, ingest_catalog,
}
use vidra_search.Catalog.Fence.{HasAuthority, Later, Later-refl, Fenced}
use vidra_search.Catalog.Admission.{Ending}
use vidra_search.Catalog.Epochs.{set_catalog_epoch-Fenced, prune_snapshots-Fenced}
use vidra_search.Catalog.Completion.{stage_end-Fenced, complete_snapshot-Fenced}
use vidra_search.Catalog.Pages.{stage_page-Fenced}

module _ (start : CatalogDb) (h : Host) (p : Parsers) where
  apply_typed-Fenced :
      (a b : Bool) (payload : String)
      → Leads (Fenced start) (apply_typed h p a b payload) (Ending start)
  unfolding apply_page apply_end
  apply_typed-Fenced true b payload = Leads-lift _ _ (λ page e.
      Leads-bind {R = Ending start} _ _
        (stage_page-Fenced start h page.identity page.digest page.documents)
        (λ u. Leads-pure page.identity (λ db f. f)))
  apply_typed-Fenced false true payload = Leads-lift _ _ (λ end e.
      Leads-bind {R = Ending start} _ _ (stage_end-Fenced start h end.identity end.manifest)
        (λ u. Leads-pure end.identity (λ db f. f)))
  apply_typed-Fenced false false payload = Leads-raise _

  apply_catalog_one-Fenced :
      (ev : Envelope) → Leads (Fenced start) (apply_catalog_one h p ev) (Ending start)
  unfolding apply_catalog_one apply_catalog_body
  apply_catalog_one-Fenced ev =
      Leads-if (bad_envelope ev) _ _ (λ e. Leads-raise _)
        (λ e.
          Leads-write {R = Fenced start} h savepoint (λ db. db) _ (λ db f. f)
            (Leads-bind {R = Ending start} _ _
              (apply_typed-Fenced (str_eq ev.type "catalog.snapshot.page")
                (str_eq ev.type "catalog.snapshot.end") ev.payload)
              (λ id.
                Leads-bind {R = Ending start} _ _ (complete_snapshot-Fenced start h id) (λ done.
                  Leads-write {R = Fenced start} h release (λ db. db) _ (λ db f. f)
                    (Leads-pure done (λ db f. f))))))

  settle_catalog-Fenced :
      (ev : Envelope) (s : Progress) (r : Checked (Bool × CatalogDb))
      → Fenced start s.tables
      → Ends (Ending start) r
      → Fenced start (settle_catalog h p ev s r).tables
  settle_catalog-Fenced ev s (good (done, db)) f e = e
  settle_catalog-Fenced ev s (bad x) f e = f

  run_catalog-Fenced :
      (events : List Envelope) (s : Progress)
      → Fenced start s.tables
      → Fenced start (run_catalog h p events s).tables
  unfolding run_catalog
  run_catalog-Fenced [] s f = f
  run_catalog-Fenced (ev ∷ evs) s f =
      run_catalog-Fenced evs (settle_catalog h p ev s (apply_catalog_one h p ev s.tables)) (
        settle_catalog-Fenced ev s (apply_catalog_one h p ev s.tables) f
          ((apply_catalog_one-Fenced ev).from s.tables f))

  run_batch-Fenced :
      (events : List Envelope) → Leads (Fenced start) (run_batch h p events) (Ending start)
  unfolding run_batch
  run_batch-Fenced events = record {
    from = λ db f.
        let s = run_catalog h p events (record { accepted = 0; failed = []; tables = db }) in
        (Leads-write {R = Fenced start} h commit (λ db. db) _ (λ db g. g)
            (Leads-pure (s.accepted, s.failed) (λ db g. g))).from
          s.tables
          (run_catalog-Fenced events (record { accepted = 0; failed = []; tables = db }) f);
  }

  ingest_catalog-Fenced :
      (events : List Envelope) → Leads (Fenced start) (ingest_catalog h p events) (Ending start)
  unfolding ingest_catalog
  ingest_catalog-Fenced events =
      Leads-if (length events == 0 || ltb max_batch (length events)) _ _ (λ e. Leads-raise _)
        (λ e.
          Leads-write {R = Fenced start} h begin (λ db. db) _ (λ db f. f)
            (Leads-write {R = Fenced start} h lock_catalog (λ db. db) _ (λ db f. f)
              (run_batch-Fenced events)))

-- A call that ended well; any other leaves the tables as they were.
pub data Moves (db after : CatalogDb) : Type 0 where
  ingested :
      (h : Host) (p : Parsers) (events : List Envelope) (r : ℕ × List Failure)
      → ingest_catalog h p events db ≡ good (r, after)
      → Moves db after
  set :
      (h : Host) (u : Uuid) (expected : Option Uuid) (scope : String)
      → set_catalog_epoch h u expected scope db ≡ good (tt, after)
      → Moves db after
  pruned : (h : Host) (n : ℕ) → prune_snapshots h db ≡ good (n, after) → Moves db after

-- Any number of calls, by any hosts, one after the other.
pub data Reaches (start : CatalogDb) : CatalogDb → Type 0 where
  still : Reaches start start
  moved : {db after : CatalogDb} → Reaches start db → Moves db after → Reaches start after

ended :
    {A : Type 0} (start db after : CatalogDb) (m : Tx A) (a : A)
    → Leads (Fenced start) m (Ending start)
    → Fenced start db
    → m db ≡ good (a, after)
    → Fenced start after
ended start db after m a l f e = subst (Ends (Ending start)) e (l.from db f)

Moves-Fenced : (start db after : CatalogDb) → Moves db after → Fenced start db → Fenced start after
Moves-Fenced start db after (ingested h p events r e) f =
    ended start db after (ingest_catalog h p events) r (ingest_catalog-Fenced start h p events) f e
Moves-Fenced start db after (set h u expected scope e) f =
    ended start db after (set_catalog_epoch h u expected scope) tt
      (set_catalog_epoch-Fenced start h u expected scope) f e
Moves-Fenced start db after (pruned h n e) f =
    ended start db after (prune_snapshots h) n (prune_snapshots-Fenced start h) f e

Reaches-Fenced : (start db : CatalogDb) → HasAuthority start → Reaches start db → Fenced start db
Reaches-Fenced start db a still = (a, Later-refl start)
Reaches-Fenced start db a (moved {db = mid} r m) =
    Moves-Fenced start mid db m (Reaches-Fenced start mid a r)

-- Whatever calls of IngestCatalog, SetCatalogEpoch and PruneCatalogSnapshots follow one another, from
-- tables with a consistent authority they reach tables with one: the completed generation is at most
-- the highest, a pending snapshot is of the current epoch and of the highest generation, which is not
-- completed, and a manifest is published exactly when a generation is completed. No epoch leaves the
-- history. While the epoch is the same, the highest and the completed generation have not fallen;
-- another epoch is one that the history did not have at the start.
pub Reaches-HasAuthority :
    (start db : CatalogDb)
    → HasAuthority start
    → Reaches start db
    → HasAuthority db × Later start db
Reaches-HasAuthority start db a r = Reaches-Fenced start db a r
