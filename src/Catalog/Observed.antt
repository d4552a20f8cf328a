-- ===== src/Catalog/Observed.antt =====
-- internal/store: what CompleteCatalogSnapshot promises of the tables.
use vidra_search.Prelude.{◌<◌, Bool, true, false, none, some, List, any, keep, map, ◌≡◌}
use vidra_search.Prelude.Sort.{stable_sort}
use vidra_search.Store.Rows.{Uuid}
use vidra_search.Catalog.Digests.{Identity, Manifest, good}
use vidra_search.Catalog.Tables.{ScopeRow, SnapshotRow, CatalogDb, Host}
use vidra_search.Catalog.Authority.{is_pending}
use vidra_search.Catalog.Staging.{staged_pages, member}
use vidra_search.Catalog.Snapshot.{SnapshotPage, verify_snapshot}
use vidra_search.Catalog.Activation.{page_less, snapshot_page, incoming_rows, document_ids}
use vidra_search.Catalog.Merge.{is_served, is_foreign}

-- The pages of the pending snapshot, in order.
abbrev pub ordered_pages : CatalogDb → List SnapshotPage
ordered_pages db = map snapshot_page (stable_sort page_less (staged_pages db))

-- The scope's highest generation is pending, with an end and pages that verify against it.
pub record IsObserved (h : Host) (id : Identity) (db : CatalogDb) (scope : ScopeRow) (m : Manifest)
    : Type 0 where
  pub current : db.scope ≡ some scope
  pub epoch : scope.epoch ≡ id.epoch
  pub highest : scope.highest ≡ id.generation
  pub pending : SnapshotRow
  pub held : db.snapshot ≡ some pending
  pub fresh : is_pending h id.epoch id.generation (some pending) ≡ true
  pub declared : pending.declared ≡ some m
  pub verified : verify_snapshot h.codec m (ordered_pages db) pending.canonical_bytes ≡ good tt

-- The corpus is the observation, and the scope names it.
pub record IsPublished (h : Host) (id : Identity) (before after : CatalogDb) (scope : ScopeRow)
    (m : Manifest) : Type 0 where
  pub served :
      (u : Uuid)
      → any (is_served u) after.documents ≡ member u (document_ids (incoming_rows h before))
  pub others : keep is_foreign after.documents ≡ keep is_foreign before.documents
  pub rises : scope.completed < id.generation
  pub published :
      after.scope
      ≡ some
          (record scope { completed = id.generation; completed_at = some h.now; manifest = some m })
  pub slot : after.snapshot ≡ none
  pub history : after.epochs ≡ before.epochs

-- What a completion may come to.
pub data Completes (h : Host) (id : Identity) (before : CatalogDb) : Bool → CatalogDb → Type 0 where
  waits : Completes h id before false before
  publishes :
      {after : CatalogDb} (scope : ScopeRow) (m : Manifest)
      → IsObserved h id before scope m
      → IsPublished h id before after scope m
      → Completes h id before true after
