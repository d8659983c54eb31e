-- ===== src/Metrics.antt =====
-- internal/metrics/metrics.go: the metric vectors of the daemon.
pub mod Vectors
pub mod Register
use ducklake_metrics_daemon.Prelude.{ℕ, ◌≡◌, refl, Bool, true, false, ◌==◌, arith}
use ducklake_metrics_daemon.Prelude.Text.{Text, text_eq, text_eq_iff}

-- The fields of `Self`, one metric vector each.
pub data Self : Type 0 where
  up query_duration_seconds query_last_success_seconds query_errors_total : Self
  liveness_failures_total connect_failures_total tenant_restarts_total query_panics_total : Self
  pool_acquired_conns pool_idle_conns pool_total_conns pool_empty_acquire_total : Self
  scheduler_fires_total cycle_duration_seconds cycle_completed_total cycle_killed_total : Self

-- A metric vector: one of `Self`, or the gauge of a query and a value, by its registered name.
pub data Metric : Type 0 where
  self : Self → Metric
  gauge : Text → Metric

self_index : Self → ℕ
self_index up = 0
self_index query_duration_seconds = 1
self_index query_last_success_seconds = 2
self_index query_errors_total = 3
self_index liveness_failures_total = 4
self_index connect_failures_total = 5
self_index tenant_restarts_total = 6
self_index query_panics_total = 7
self_index pool_acquired_conns = 8
self_index pool_idle_conns = 9
self_index pool_total_conns = 10
self_index pool_empty_acquire_total = 11
self_index scheduler_fires_total = 12
self_index cycle_duration_seconds = 13
self_index cycle_completed_total = 14
self_index cycle_killed_total = 15

unfoldable pub metric_eq : Metric → Metric → Bool
unfolding self_index
metric_eq (self a) (self b) = self_index a == self_index b
metric_eq (gauge a) (gauge b) = text_eq a b
metric_eq (self a) (gauge b) = false
metric_eq (gauge a) (self b) = false

pub metric_eq_refl : (m : Metric) → metric_eq m m ≡ true
unfolding metric_eq
metric_eq_refl (self a) = ground arith
metric_eq_refl (gauge a) = (text_eq_iff a a).1 refl
