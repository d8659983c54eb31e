-- ===== src/Tests.antt =====
-- Concrete inputs: the theorems applied to them.
pub mod Client
pub mod Queries
pub mod Runner
pub mod Server
pub mod Catalog
pub mod Config
pub mod Daemon
pub mod Snapshot
pub mod Board
pub mod Startup
pub mod Goroutines
pub mod Leak
pub mod Publisher
