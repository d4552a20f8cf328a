-- ===== src/History.antt =====
-- internal/history/service.go: clearing a user's search history and purging a user.
pub mod Rows
pub mod Service
pub mod Clear
pub mod Drift
pub mod Floor
pub mod Listing
