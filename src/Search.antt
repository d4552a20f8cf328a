-- ===== src/Search.antt =====
-- internal/search: the search service.
pub mod Service
pub mod Features
pub mod Advanced
pub mod Pages
pub mod Forward
