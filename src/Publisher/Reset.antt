-- ===== src/Publisher/Reset.antt =====
-- `ResetTenantGauges` of publisher.go.
use ducklake_metrics_daemon.Prelude.{[], ◌∷◌}
use ducklake_metrics_daemon.Prelude.Text.{Text, codes}
use ducklake_metrics_daemon.Prelude.Dict
use ducklake_metrics_daemon.Prelude.Dict.{Dict}
use ducklake_metrics_daemon.Metrics.{
  Metric, self, pool_acquired_conns, pool_idle_conns, pool_total_conns,
}
use ducklake_metrics_daemon.Extern.{Extern}
use ducklake_metrics_daemon.Publisher.State.{Publisher}

-- The label of `prometheus.Labels{"tenant": tenant}`.
unfoldable pub tenant_label : Text
tenant_label = codes "tenant"

module _ (x : Extern) where
  -- `for _, g := range perQ { g.DeletePartialMatch(tlabel) }`
  unfoldable pub delete_query : Text → Dict Metric → x.Store → x.Store
  delete_query t [] s = s
  delete_query t ((_, g) ∷ gs) s = delete_query t gs (x.delete_partial s g tenant_label t)

  unfoldable pub delete_queries : Text → Dict (Dict Metric) → x.Store → x.Store
  unfolding delete_query
  delete_queries t [] s = s
  delete_queries t ((_, gs) ∷ rest) s = delete_queries t rest (delete_query t gs s)

  unfoldable pub delete_pool : Text → x.Store → x.Store
  delete_pool t s =
      let s₁ = x.delete_partial s (self pool_acquired_conns) tenant_label t in
      let s₂ = x.delete_partial s₁ (self pool_idle_conns) tenant_label t in
      x.delete_partial s₂ (self pool_total_conns) tenant_label t

  unfoldable pub reset_tenant_gauges : Text → Publisher x → Publisher x
  unfolding delete_queries delete_pool
  reset_tenant_gauges t p = record p {
    store = delete_pool t (delete_queries t p.gauges p.store);
    last_labels = Dict.delete p.last_labels t;
    empty_acquire_baselines = Dict.delete p.empty_acquire_baselines t;
    empty_acquire_seen = Dict.delete p.empty_acquire_seen t;
  }
