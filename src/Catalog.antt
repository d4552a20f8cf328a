-- ===== src/Catalog.antt =====
-- internal/catalog and the catalog_*.go files of internal/store and internal/event: canonical
-- snapshots of the source's catalog, staged page by page and completed at once.
pub mod Decimal
pub mod Generation
pub mod Digests
pub mod Tables
pub mod Tx
pub mod Authority
pub mod Staging
pub mod Snapshot
pub mod Activation
pub mod Intake
pub mod Fence
pub mod Admission
pub mod Epochs
pub mod Pages
pub mod Completion
pub mod History
pub mod Merge
pub mod Projection
pub mod Observed
pub mod Completes
pub mod Publishing
pub mod Whole
pub mod Verified
pub mod Budgets
