-- ===== src/Lib.antt =====
-- vidra-search keeps a search index of videos and the activity of their viewers in one PostgreSQL
-- schema, fed by events, and answers with search hits, suggestions and recommendation feeds. This
-- library models the core of its Go code.
--
-- Parts and files:
--
-- Store: the tables that events and the history service write (migrations/), their statements
--   (internal/store/queries/*.sql) as functions on tables, `apply`, and a transaction's handle as a
--   state monad `Query` with Go's errors. A statement may be refused, by the parameter
--   `Server.refuses` of the statement and the state, and then leaves the tables alone.
-- Normalize, Index: internal/normalize, internal/index and the optional values of internal/pgconv.
-- Event: internal/event. Types and Payloads are types.go; HistoryRule is history_rule.go; Documents,
--   Behavior and Dispatch are the handlers of service.go; Ingest is `Service.Ingest` with its
--   transaction, savepoints, inbox, catalog fence (catalog_legacy.go) and Redis effects. The other
--   children hold the proofs: Replay, Redelivery and Twice on redelivered batches; Calls on the ends of
--   a call; Fence and Visibility on documents; Consent on the personal rows; Allowed and Keep on the
--   statements that each event may issue.
-- History: internal/history. Service has the operations that delete, with their proofs in Clear, Drift
--   and Floor; Listing is `Service.List` with its query on the table, and what it shows after a clear.
-- Paging: internal/paging.
-- Recommendation: internal/recommendation. Composer collects picks; Feeds and Rounds are
--   the simple related and home feeds of service.go; Bounds, Fairness and Promises their proofs.
--   Candidates, Scoring, Compose, Sources and Advanced are advanced.go and the dispatch between the
--   modes; Merge and OfferRuns hold the proofs on the candidate set, Fits, Sound, Served and Hidden
--   those on what the advanced feeds can serve.
-- Experiment: internal/experiment. Assign is the registry, Tiling its proofs.
-- Suggest: internal/ranking/suggest.go and internal/suggest. Blend and Slots are the blend, Promote and
--   Carry its proofs; Prefix, Requests and Service are the suggestion service with its cache and
--   streams, Sharing and Streams their proofs.
-- Explore: internal/ranking/diversity.go, the maximal marginal relevance and the exploration slot.
-- Catalog: the full observations of internal/catalog, internal/store/catalog_*.go and
--   internal/event/catalog_service.go. Decimal is strconv's base 10, Generation its JSON form; Digests,
--   Snapshot the digests and VerifySnapshot; Tables and Tx the catalog's tables and code on them, where a
--   statement may fail; Authority, Staging and Activation the operations of the store; Intake is
--   `Service.IngestCatalog`. Fence, Admission, Epochs, Pages, Completion and
--   History hold the proofs on the authority of the scope; Observed, Merge, Projection, Completes and
--   Publishing those on a completion; Whole and Verified those on a verified snapshot; Budgets those on
--   the quotas.
-- Trending: internal/trending and internal/ranking/covis.go, the floors before publication.
-- Ranking: internal/ranking/advanced.go and simple.go. Score and Rerank are the heuristic ranker;
--   Repetition, Order and Baseline its proofs.
-- Search: internal/search. Service is the simple mode, Features and Advanced the recall and its reranking,
--   with the rankers behind their interface; Pages and Forward are proofs on paging.
-- Worker: internal/worker/sessionize.go, with its proofs in Order and Derivations.
-- Examples: runs at concrete inputs.
--
-- The event service calls the store within one transaction and hands its Redis effects over after
-- the commit; the history service works on the same tables; the feeds read the store's answers and
-- clamp with Paging; the suggestion service gathers its candidates from the store and Redis and
-- hands them to the blend; the catalog's batches go through the event service to the store's
-- staging and completion.
--
-- Representation. A uuid and a time are natural numbers; a floating-point number is its bit
-- pattern, and the arithmetic on it is a parameter. Go's `int` is a signed integer `ℤ`; the limits
-- of feeds are at most 100, so their conversion to `int32` keeps them; the search offsets wrap as
-- Go's do. Maps are lists or functions with what Go does on a missing key. Parameters are: the
-- decoders of encoding/json, the clock, uuid and number formatting, the Unicode forms behind
-- normalization, the bytes of a string, the store's answers to the queries of feeds, searches and
-- suggestions, the session's videos, and the texts of the cache; for the catalog SHA-256, the
-- canonical form of a JSON array, the rows of a stored page, JSON strings and the failures of the
-- database. The FNV-1a hash is written out modulo 2 ^ 64. A history page's order among equal times
-- is the table's, which SQL leaves open. The round robin of the home feed runs on fuel, one more
-- than its longest stream, which is enough since every round but the last reaches a further place
-- of some stream. Every other loop is structural recursion.
--
-- Not modelled: the HTTP layer, configuration, telemetry, the Redis client, migrations and the
-- worker's schedule, which are input and output; model files and training; the SQL of search,
-- suggestion and rollups; of the catalog, the field checks of internal/catalog.ObjectFields, the
-- payload parsers and the reader's batch.
pub mod Prelude
pub mod Store
pub mod Normalize
pub mod Index
pub mod Event
pub mod History
pub mod Paging
pub mod Recommendation
pub mod Experiment
pub mod Suggest
pub mod Explore
pub mod Trending
pub mod Catalog
pub mod Worker
pub mod Ranking
pub mod Search
mod Examples
