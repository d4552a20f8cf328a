-- ===== src/Examples.antt =====
-- Runs of the models, and each theorem with hypotheses at a concrete input.
mod Worlds
mod Event
mod History
mod Recommendation
mod Suggest
mod Explore
mod Suggestions
mod Search
mod Worker
mod CatalogWorld
mod Catalog
mod AdvancedFeeds
mod Ranking
