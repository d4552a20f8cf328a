-- ===== src/Catalog/Intake.antt =====
-- internal/event/catalog_service.go: IngestCatalog and applyCatalogOne; internal/store/catalog_status.go.
use vidra_search.Prelude.{
  ℕ, ◌+◌, ltb, ◌==◌, pos, String, Bool, true, false, not, ◌&&◌, ◌||◌, Option, none, some, List, [],
  ◌∷◌, ◌++◌, any, length, str_eq, if◌then◌else◌,
}
use vidra_search.Store.Rows.{Uuid, Time}
use vidra_search.Event.Types.{Envelope, Failure}
use vidra_search.Catalog.Digests.{
  Identity, Manifest, PageDigest, CatalogError, Checked, good, bad, invalid, conflict, quota,
  already_completed, sql, eq_ℤ,
}
use vidra_search.Catalog.Tables.{
  ScopeRow, SnapshotRow, CatalogDb, Host, begin, savepoint, commit, release, lock_catalog,
  select_status,
}
use vidra_search.Catalog.Tx.{Tx, pure, lift, raise, read, call, ◌>>=◌, ◌>>◌}
use vidra_search.Catalog.Staging.{stage_page, stage_end}
use vidra_search.Catalog.Activation.{complete_snapshot, is_local}

-- catalog_payload.go's `parseCatalogPage` and `parseCatalogEnd`.
pub record PagePayload : Type 0 where
  pub identity : Identity
  pub digest : PageDigest
  pub documents : String

pub record EndPayload : Type 0 where
  pub identity : Identity
  pub manifest : Manifest

pub record Parsers : Type 0 where
  pub page : String → Checked PagePayload
  pub end : String → Checked EndPayload
  pub uuid_string : Uuid → String
  pub error_text : CatalogError → String

abbrev pub max_batch : ℕ
max_batch = 500

-- The variables of the loop.
pub record Progress : Type 0 where
  pub accepted : ℕ
  pub failed : List Failure
  pub tables : CatalogDb

abbrev pub error_code : CatalogError → String
error_code already_completed = "catalog_already_completed"
error_code (quota e) = "catalog_quota"
error_code (conflict e) = "catalog_conflict"
error_code (invalid e) = "catalog_invalid"
error_code (sql e) = "catalog_invalid"

abbrev pub bad_envelope : Envelope → Bool
bad_envelope ev = ev.event_id == 0 || not (eq_ℤ ev.schema_version (pos 2)) || ev.occurred_at == 0

module _ (h : Host) (p : Parsers) where
  unfoldable pub apply_page : String → Tx Identity
  apply_page payload = do
    page ← lift (p.page payload)
    stage_page h page.identity page.digest page.documents
    pure page.identity

  unfoldable pub apply_end : String → Tx Identity
  apply_end payload = do
    end ← lift (p.end payload)
    stage_end h end.identity end.manifest
    pure end.identity

  -- The switch over the event's type.
  abbrev pub apply_typed : (is_page is_end : Bool) → String → Tx Identity
  apply_typed true is_end payload = apply_page payload
  apply_typed false true payload = apply_end payload
  apply_typed false false payload = raise (invalid "catalog: unsupported event type")

  -- applyCatalogOne, in its savepoint
  unfoldable pub apply_catalog_body : Envelope → Tx Bool
  apply_catalog_body ev = do
    call h savepoint
    id ←
        apply_typed (str_eq ev.type "catalog.snapshot.page") (str_eq ev.type "catalog.snapshot.end")
          ev.payload
    done ← complete_snapshot h id
    call h release
    pure done

  unfoldable pub apply_catalog_one : Envelope → Tx Bool
  apply_catalog_one ev =
      if bad_envelope ev then raise (invalid "catalog: invalid envelope") else apply_catalog_body ev

  -- One round: a failed event is rolled back to its savepoint and reported. The calls of the metrics
  -- are left out.
  abbrev pub settle_catalog : Envelope → Progress → Checked (Bool × CatalogDb) → Progress
  settle_catalog ev s (good (done, db)) = record s { accepted = s.accepted + 1; tables = db }
  settle_catalog ev s (bad e) = record s {
    failed =
        s.failed
        ++ record {
          event_id = p.uuid_string ev.event_id;
          code = error_code e;
          message = p.error_text e;
        }
          ∷ [];
  }

  unfoldable pub run_catalog : List Envelope → Progress → Progress
  run_catalog [] s = s
  run_catalog (ev ∷ evs) s = run_catalog evs (settle_catalog ev s (apply_catalog_one ev s.tables))

  -- Past the lock: the commit's outcome decides what is left.
  unfoldable pub run_batch : List Envelope → Tx (ℕ × List Failure)
  run_batch events db =
      let s = run_catalog events (record { accepted = 0; failed = []; tables = db }) in
      (call h commit >> pure (s.accepted, s.failed)) s.tables

  -- IngestCatalog
  unfoldable pub ingest_catalog : List Envelope → Tx (ℕ × List Failure)
  ingest_catalog events =
      if length events == 0 || ltb max_batch (length events)
      then raise (invalid "catalog: batch requires 1..500 events")
      else do call h begin; call h lock_catalog; run_batch events

-- What ReadCatalogStatus reads of the scope; the constants of the protocol are left out.
pub record Status : Type 0 where
  pub epoch : Option Uuid
  pub ready : Bool
  pub highest : ℕ
  pub completed : ℕ
  pub completed_at : Option Time
  pub completed_manifest : Option Manifest
  pub oldest_staged_at : Option Time
  pub staged : ℕ
  pub foreign_eligible : Bool

-- The pending row that the left join finds.
abbrev pub staged_at : ScopeRow → Option SnapshotRow → Option Time
staged_at s none = none
staged_at s (some p) =
    if p.epoch == s.epoch && p.generation == s.highest then some p.created_at else none

abbrev pub count_staged : Option Time → ℕ
count_staged none = 0
count_staged (some t) = 1

abbrev pub status_of : CatalogDb → Option ScopeRow → Status
status_of db none = record {
  epoch = none;
  ready = false;
  highest = 0;
  completed = 0;
  completed_at = none;
  completed_manifest = none;
  oldest_staged_at = none;
  staged = 0;
  foreign_eligible = false;
}
status_of db (some s) = record {
  epoch = some s.epoch;
  ready = ltb 0 s.completed;
  highest = s.highest;
  completed = s.completed;
  completed_at = s.completed_at;
  completed_manifest = if ltb 0 s.completed then s.manifest else none;
  oldest_staged_at = staged_at s db.snapshot;
  staged = count_staged (staged_at s db.snapshot);
  foreign_eligible = any (λ d. not (is_local d) && d.eligible) db.documents;
}

unfoldable pub read_status : Host → (scope : String) → Tx Status
read_status h scope =
    if not (str_eq scope "local")
    then raise (conflict "unsupported scope")
    else read h select_status (λ db. status_of db db.scope)
