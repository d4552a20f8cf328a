-- ===== src/Suggest.antt =====
-- internal/ranking/suggest.go, the blend of suggestions, and internal/suggest, the service before it.
pub mod Blend
pub mod Slots
pub mod Promote
pub mod Carry
pub mod Prefix
pub mod Requests
pub mod Service
pub mod Sharing
pub mod Streams
