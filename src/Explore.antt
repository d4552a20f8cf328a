-- ===== src/Explore.antt =====
-- internal/ranking/diversity.go: selection by maximal marginal relevance, and the exploration slot.
pub mod Mmr
pub mod Picks
pub mod Slot
