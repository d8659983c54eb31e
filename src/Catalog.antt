-- ===== src/Catalog.antt =====
-- internal/catalog/catalog.go: rows, pool statistics and errors; the connection string is in
-- Catalog/Dsn.antt and `Query` in Catalog/Fetch.antt.
pub mod Dsn
pub mod Fetch
pub mod Pool
use ducklake_metrics_daemon.Prelude.{ℕ}
use ducklake_metrics_daemon.Prelude.Int.{ℤ}
use ducklake_metrics_daemon.Prelude.Text.{Text}
use ducklake_metrics_daemon.Prelude.Dict.{Dict}
use ducklake_metrics_daemon.Extern.{Extern, Value}

-- One result row: column name to decoded value.
abbrev pub Row : Extern → Type 0
Row x = Dict (Value x)

-- A snapshot of the pool's counters (int32, int32, int32, int64).
pub record Stats : Type 0 where
  pub acquired_conns : ℤ
  pub idle_conns : ℤ
  pub total_conns : ℤ
  pub empty_acquire_count : ℤ

-- Why `Query` failed; the driver's message is kept as text.
pub data QueryError : Type 0 where
  query_failed : Text → QueryError
  row_cap_exceeded : ℤ → QueryError
  row_decode : Text → QueryError
  row_iteration : Text → QueryError
