-- ===== src/Publisher/Clearing.antt =====
-- `ResetTenantGauges` (publisher.go).
use ducklake_metrics_daemon.Prelude.{
  ◌≡◌, refl, ◌∙◌, Bool, false, ◌&&◌, ◌||◌, none, List, [], ◌∷◌, arith, any, if◌then◌else◌,
}
use ducklake_metrics_daemon.Prelude.Text.{Text, text_eq, text_eq_refl}
use ducklake_metrics_daemon.Prelude.Dict
use ducklake_metrics_daemon.Prelude.Dict.{Dict, get-delete}
use ducklake_metrics_daemon.Metrics.{
  Metric, self, metric_eq, pool_acquired_conns, pool_idle_conns, pool_total_conns,
}
use ducklake_metrics_daemon.Extern.{Extern, Laws, has_label}
use ducklake_metrics_daemon.Publisher.State.{Publisher}
use ducklake_metrics_daemon.Publisher.Reset.{
  tenant_label, delete_query, delete_queries, delete_pool, reset_tenant_gauges,
}
use ducklake_metrics_daemon.Publisher.Isolation.{belongs}
use ducklake_metrics_daemon.Publisher.Snapshot.Dropped.{has_metric}

-- The metric is a gauge of one of the queries.
abbrev pub has_gauge : Metric → Dict (Dict Metric) → Bool
has_gauge n [] = false
has_gauge n ((_, gs) ∷ rest) = has_metric n gs || has_gauge n rest

abbrev pub is_pool_gauge : Metric → Bool
is_pool_gauge n =
    metric_eq (self pool_acquired_conns) n
    || metric_eq (self pool_idle_conns) n
    || metric_eq (self pool_total_conns) n

-- The metric has the label `tenant` first, and no other label of that name.
pub record HasTenantFirst (x : Extern) (n : Metric) : Type 0 where
  pub rest : List Text
  pub names : x.label_names n ≡ tenant_label ∷ rest
  pub once : any (λ l. text_eq l tenant_label) rest ≡ false

has_label_absent :
    (ls : List Text) (l t : Text) (ks : List Text)
    → any (λ m. text_eq m l) ls ≡ false
    → has_label ls l t ks ≡ false
has_label_absent [] l t ks h = refl
has_label_absent (m ∷ ls) l t [] h = refl
has_label_absent (m ∷ ls) l t (k ∷ ks) h = ground (arith, has_label_absent ls l t ks)

module _ (x : Extern) (law : Laws x) where
  has_label-belongs :
      (n : Metric) (t : Text) (ks : List Text)
      → HasTenantFirst x n
      → has_label (x.label_names n) tenant_label t ks ≡ belongs t ks
  has_label-belongs n t [] h = rw h.names
  has_label-belongs n t (k ∷ ks) h =
      rw h.names (
        ground (arith, text_eq_refl tenant_label, has_label_absent h.rest tenant_label t ks h.once))

  read-delete_tenant :
      (s : x.Store) (m : Metric) (t : Text) (n : Metric) (ks : List Text)
      → HasTenantFirst x n
      → x.read (x.delete_partial s m tenant_label t) n ks
        ≡ (if metric_eq m n && belongs t ks then none else x.read s n ks)
  read-delete_tenant s m t n ks h =
      law.read-delete_partial s m tenant_label t n ks ∙ rw (has_label-belongs n t ks h)

  read-delete_query :
      (t : Text) (gs : Dict Metric) (s : x.Store) (n : Metric) (ks : List Text)
      → HasTenantFirst x n
      → x.read (delete_query x t gs s) n ks
        ≡ (if has_metric n gs && belongs t ks then none else x.read s n ks)
  unfolding delete_query
  read-delete_query t [] s n ks h = refl
  read-delete_query t ((_, g) ∷ gs) s n ks h = ground (
    arith,
    read-delete_query t gs (x.delete_partial s g tenant_label t) n ks h,
    read-delete_tenant s g t n ks h,
  )

  read-delete_queries :
      (t : Text) (qs : Dict (Dict Metric)) (s : x.Store) (n : Metric) (ks : List Text)
      → HasTenantFirst x n
      → x.read (delete_queries x t qs s) n ks
        ≡ (if has_gauge n qs && belongs t ks then none else x.read s n ks)
  unfolding delete_queries
  read-delete_queries t [] s n ks h = refl
  read-delete_queries t ((_, gs) ∷ qs) s n ks h = ground (
    arith,
    read-delete_queries t qs (delete_query x t gs s) n ks h,
    read-delete_query t gs s n ks h,
  )

  read-delete_pool :
      (t : Text) (s : x.Store) (n : Metric) (ks : List Text)
      → HasTenantFirst x n
      → x.read (delete_pool x t s) n ks
        ≡ (if is_pool_gauge n && belongs t ks then none else x.read s n ks)
  unfolding delete_pool
  read-delete_pool t s n ks h =
      let s₁ = x.delete_partial s (self pool_acquired_conns) tenant_label t in
      let s₂ = x.delete_partial s₁ (self pool_idle_conns) tenant_label t in
      ground (
        arith,
        read-delete_tenant s (self pool_acquired_conns) t n ks h,
        read-delete_tenant s₁ (self pool_idle_conns) t n ks h,
        read-delete_tenant s₂ (self pool_total_conns) t n ks h,
      )

  -- In a metric whose first label is the tenant, and only that one, a reset removes exactly the
  -- tenant's series if the metric is a query gauge or a pool gauge, and leaves every other series.
  pub read-reset :
      (t : Text) (p : Publisher x) (n : Metric) (ks : List Text)
      → HasTenantFirst x n
      → x.read (reset_tenant_gauges x t p).store n ks ≡ (
          if (has_gauge n p.gauges || is_pool_gauge n) && belongs t ks
          then none
          else x.read p.store n ks)
  unfolding reset_tenant_gauges
  read-reset t p n ks h = ground (
    arith,
    read-delete_queries t p.gauges p.store n ks h,
    read-delete_pool t (delete_queries x t p.gauges p.store) n ks h,
  )

  -- A reset forgets the tenant's tracking, its baseline and that it was seen, and no other
  -- tenant's.
  pub reset_tracking :
      (t u : Text) (p : Publisher x)
      → (Dict.get (reset_tenant_gauges x t p).last_labels u
          ≡ (if text_eq t u then none else Dict.get p.last_labels u))
        × (Dict.get (reset_tenant_gauges x t p).empty_acquire_baselines u
            ≡ (if text_eq t u then none else Dict.get p.empty_acquire_baselines u))
        × (Dict.get (reset_tenant_gauges x t p).empty_acquire_seen u
            ≡ (if text_eq t u then none else Dict.get p.empty_acquire_seen u))
  unfolding reset_tenant_gauges
  reset_tracking t u p = (
    get-delete p.last_labels t u,
    get-delete p.empty_acquire_baselines t u,
    get-delete p.empty_acquire_seen t u,
  )
