-- ===== src/Event.antt =====
-- internal/event: event intake.
pub mod Types
pub mod Payloads
pub mod Env
pub mod HistoryRule
pub mod Documents
pub mod Behavior
pub mod Dispatch
pub mod Ingest
pub mod Allowed
pub mod Keep
pub mod Fence
pub mod Visibility
pub mod Consent
pub mod Replay
pub mod Redelivery
pub mod Calls
pub mod Twice
