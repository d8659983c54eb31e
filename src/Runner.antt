-- ===== src/Runner.antt =====
-- internal/runner/runner.go: the per-tenant scheduling loop and its cycles.
pub mod Liveness
pub mod Due
pub mod Stagger
pub mod Cycle
pub mod Schedule
pub mod Serve
