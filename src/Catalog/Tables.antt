-- ===== src/Catalog/Tables.antt =====
-- The tables of migrations/0019 to 0021, with the documents, as internal/store/catalog_*.go use them.
use vidra_search.Prelude.{ℕ, String, Bool, Option, List}
use vidra_search.Store.Rows.{Uuid, Time, Document}
use vidra_search.Catalog.Digests.{Manifest, Codec}

-- search.catalog_epochs. A check admits the scope `local` only.
pub record EpochRow : Type 0 where
  pub epoch : Uuid
  pub predecessor : Option Uuid

-- search.catalog_scopes. The columns completed_page_count, completed_document_count and the two
-- digests are one manifest; before a completion the counts are 0 and the digests NULL.
pub record ScopeRow : Type 0 where
  pub epoch : Uuid
  pub highest : ℕ
  pub completed : ℕ
  pub completed_at : Option Time
  pub manifest : Option Manifest

-- search.catalog_snapshot_pages; `documents` is the text of its JSONB.
pub record PageRow : Type 0 where
  pub page_index : ℕ
  pub documents : String
  pub document_count : ℕ
  pub content_sha256 : String

-- search.catalog_snapshots, with the pages that are deleted with it.
pub record SnapshotRow : Type 0 where
  pub epoch : Uuid
  pub generation : ℕ
  pub created_at : Time
  pub declared : Option Manifest
  pub canonical_bytes : ℕ
  pub pages : List PageRow

-- The scope is the primary key of both, and can only be `local`.
pub record CatalogDb : Type 0 where
  pub epochs : List EpochRow
  pub scope : Option ScopeRow
  pub snapshot : Option SnapshotRow
  pub documents : List Document

-- The statements, by what they do.
pub data Statement : Type 0 where
  begin savepoint commit release lock_catalog : Statement
  select_scope select_epoch_used select_predecessor : Statement
  select_pending select_page select_totals select_collision : Statement
  select_declared select_page_bounds select_completed : Statement
  select_snapshot select_pages select_invalid select_status : Statement
  insert_epoch insert_page insert_snapshot set_epoch set_highest charge_bytes declare_manifest :
      Statement
  upsert_incoming suppress_orphans set_completed : Statement
  delete_snapshots delete_expired : Statement

-- The database and its clock: which statements fail, in which state.
pub record Host : Type 0 where
  pub codec : Codec
  -- the text of a JSONB made of canonical bytes, and the documents of its array as rows
  pub jsonb : List ℕ → String
  pub incoming : String → List Document
  -- what the activation asks of each element
  pub incoming_is_valid : String → Bool
  pub fails : Statement → CatalogDb → Option String
  -- `now()` and `clock_timestamp()` in this transaction, and the age of a pending snapshot
  pub now : Time
  pub is_fresh : (created_at : Time) → (now : Time) → Bool
