-- ===== src/Worker.antt =====
-- internal/worker: what the jobs compute.
pub mod Sessionize
pub mod Order
pub mod Derivations
