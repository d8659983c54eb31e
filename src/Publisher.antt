-- ===== src/Publisher.antt =====
-- internal/publisher/publisher.go: the single writer of every per-query gauge.
pub mod Coerce
pub mod Columns
pub mod Outcome
pub mod State
pub mod Apply
pub mod Pool
pub mod Reset
pub mod Run
pub mod Isolation
pub mod Tenancy
pub mod Signature
pub mod Snapshot
pub mod Failures
pub mod Counting
pub mod Clearing
pub mod Board
