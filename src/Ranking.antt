-- ===== src/Ranking.antt =====
-- internal/ranking/advanced.go and simple.go: the heuristic ranker of the advanced search.
pub mod Score
pub mod Rerank
pub mod Repetition
pub mod Order
pub mod Baseline
