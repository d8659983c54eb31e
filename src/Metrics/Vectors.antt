-- ===== src/Metrics/Vectors.antt =====
-- The vectors of `Self` as `Register` constructs them (metrics.go). The help texts are left out.
use ducklake_metrics_daemon.Prelude.{List, [], ◌∷◌, ◌++◌}
use ducklake_metrics_daemon.Prelude.Text.{Text, codes}
use ducklake_metrics_daemon.Metrics.{
  Self, up, query_duration_seconds, query_last_success_seconds, query_errors_total,
  liveness_failures_total, connect_failures_total, tenant_restarts_total, query_panics_total,
  pool_acquired_conns, pool_idle_conns, pool_total_conns, pool_empty_acquire_total,
  scheduler_fires_total, cycle_duration_seconds, cycle_completed_total, cycle_killed_total,
}

pub data VecKind : Type 0 where
  gauge_vec counter_vec : VecKind

-- What a vector is constructed with.
pub record Vector : Type 0 where
  pub kind : VecKind
  pub name : Text
  pub labels : List Text

abbrev tenant_only : List Text
tenant_only = codes "tenant" ∷ []

abbrev tenant_query : List Text
tenant_query = codes "tenant" ∷ codes "query" ∷ []

abbrev tenant_reason : List Text
tenant_reason = codes "tenant" ∷ codes "reason" ∷ []

abbrev vec : VecKind → Text → List Text → Vector
vec kind name labels = record {
  kind = kind;
  name = codes "ducklake_metrics_" ++ name;
  labels = labels;
}

unfoldable pub vector_of : Self → Vector
vector_of up = vec gauge_vec (codes "up") tenant_only
vector_of query_duration_seconds = vec gauge_vec (codes "query_duration_seconds") tenant_query
vector_of query_last_success_seconds =
    vec gauge_vec (codes "query_last_success_timestamp") tenant_query
vector_of query_errors_total = vec counter_vec (codes "query_errors_total") tenant_query
vector_of liveness_failures_total = vec counter_vec (codes "liveness_failures_total") tenant_reason
vector_of connect_failures_total = vec counter_vec (codes "connect_failures_total") tenant_reason
vector_of tenant_restarts_total = vec counter_vec (codes "tenant_restarts_total") tenant_reason
vector_of query_panics_total = vec counter_vec (codes "query_panics_total") tenant_query
vector_of pool_acquired_conns = vec gauge_vec (codes "pool_acquired_conns") tenant_only
vector_of pool_idle_conns = vec gauge_vec (codes "pool_idle_conns") tenant_only
vector_of pool_total_conns = vec gauge_vec (codes "pool_total_conns") tenant_only
vector_of pool_empty_acquire_total = vec counter_vec (codes "pool_empty_acquire_total") tenant_only
vector_of scheduler_fires_total = vec counter_vec (codes "scheduler_fires_total") tenant_only
vector_of cycle_duration_seconds = vec gauge_vec (codes "cycle_duration_seconds") tenant_only
vector_of cycle_completed_total = vec counter_vec (codes "cycle_completed_total") tenant_only
vector_of cycle_killed_total = vec counter_vec (codes "cycle_killed_total") tenant_only

-- The arguments of the first `MustRegister`.
abbrev pub all_self : List Self
all_self =
    up ∷ query_duration_seconds ∷ query_last_success_seconds ∷ query_errors_total
    ∷ liveness_failures_total ∷ connect_failures_total ∷ tenant_restarts_total ∷ query_panics_total
    ∷ pool_acquired_conns ∷ pool_idle_conns ∷ pool_total_conns ∷ pool_empty_acquire_total
    ∷ scheduler_fires_total ∷ cycle_duration_seconds ∷ cycle_completed_total ∷ cycle_killed_total
    ∷ []
