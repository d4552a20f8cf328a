-- ===== src/Recommendation.antt =====
-- internal/recommendation: the composer of feeds, the related and home feeds in both modes.
pub mod Composer
pub mod Bounds
pub mod Feeds
pub mod Rounds
pub mod Fairness
pub mod Promises
pub mod Candidates
pub mod Merge
pub mod OfferRuns
pub mod Scoring
pub mod Compose
pub mod Sources
pub mod Advanced
pub mod Fits
pub mod Sound
pub mod Served
pub mod Hidden
