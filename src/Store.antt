-- ===== src/Store.antt =====
-- The PostgreSQL tables of migrations/ and the statements of internal/store/queries that event
-- intake and the history service run.
pub mod Rows
pub mod Tables
pub mod Stmt
pub mod Query
pub mod Trace
pub mod Laws
