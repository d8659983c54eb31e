-- ===== src/Publisher/Board/Quiet.antt =====
-- Messages that publish nothing leave every per-query gauge and the tracking alone (publisher.go).
use ducklake_metrics_daemon.Prelude.{◌≡◌, refl, ◌∙◌, true, List, [], ◌∷◌, arith}
use ducklake_metrics_daemon.Prelude.Int
use ducklake_metrics_daemon.Prelude.Int.{ℤ, pos, ◌-ℤ◌}
use ducklake_metrics_daemon.Prelude.Text.{Text}
use ducklake_metrics_daemon.Metrics.{
  Self, self, gauge, metric_eq, query_errors_total, pool_acquired_conns, pool_idle_conns,
  pool_total_conns, pool_empty_acquire_total,
}
use ducklake_metrics_daemon.Extern.{Extern, Laws}
use ducklake_metrics_daemon.Catalog.{Stats}
use ducklake_metrics_daemon.Publisher.Outcome.{done, final, set_gauge, inc}
use ducklake_metrics_daemon.Publisher.State.{Result, Publisher}
use ducklake_metrics_daemon.Publisher.Apply.{count_error}
use ducklake_metrics_daemon.Publisher.Pool.{
  baseline, pool_gauges, bump_empty_acquire_counter, apply_pool_stat, pooled,
}

pub record Quiet {x : Extern} (p p' : Publisher x) : Type 0 where
  pub gauges : p'.gauges ≡ p.gauges
  pub specs : p'.query_spec ≡ p.query_spec
  pub tracking : p'.last_labels ≡ p.last_labels
  pub reads :
      (g : Text) (ks : List Text) → x.read p'.store (gauge g) ks ≡ x.read p.store (gauge g) ks

module _ (x : Extern) (law : Laws x) where
  read-set_self :
      (s : x.Store) (m : Self) (ls : List Text) (v : x.Float) (g : Text) (ks : List Text)
      → x.read (x.set s (self m) ls v) (gauge g) ks ≡ x.read s (gauge g) ks
  unfolding metric_eq
  read-set_self s m ls v g ks = ground (arith, law.read-set s (self m) ls v (gauge g) ks)

  set_self :
      (m : Self) (ls : List Text) (v : x.Float) (s : x.Store)
      → x.accepts (self m) ls ≡ true
      → set_gauge x (self m) ls v s ≡ done (x.set s (self m) ls v)
  unfolding set_gauge
  set_self m ls v s h = ground (arith, h)

  pool_gauges-done :
      (t : Text) (st : Stats) (s : x.Store)
      → x.accepts (self pool_acquired_conns) (t ∷ []) ≡ true
      → x.accepts (self pool_idle_conns) (t ∷ []) ≡ true
      → x.accepts (self pool_total_conns) (t ∷ []) ≡ true
      → (s' : x.Store) × (pool_gauges x t st s ≡ done s')
        × ((g : Text) (ks : List Text) → x.read s' (gauge g) ks ≡ x.read s (gauge g) ks)
  unfolding pool_gauges
  pool_gauges-done t st s ha hi ht =
      let a = x.of_int st.acquired_conns in
      let i = x.of_int st.idle_conns in
      let n = x.of_int st.total_conns in
      let s₁ = x.set s (self pool_acquired_conns) (t ∷ []) a in
      let s₂ = x.set s₁ (self pool_idle_conns) (t ∷ []) i in
      (
        x.set s₂ (self pool_total_conns) (t ∷ []) n,
        rw
            (
              set_self pool_acquired_conns (t ∷ []) a s ha,
              set_self pool_idle_conns (t ∷ []) i s₁ hi,
              set_self pool_total_conns (t ∷ []) n s₂ ht,
            )
            refl,
        λ g ks.
            read-set_self s₂ pool_total_conns (t ∷ []) n g ks
            ∙ read-set_self s₁ pool_idle_conns (t ∷ []) i g ks
            ∙ read-set_self s pool_acquired_conns (t ∷ []) a g ks,
      )

  bump-Quiet :
      (t : Text) (current : ℤ) (p : Publisher x)
      → x.accepts (self pool_empty_acquire_total) (t ∷ []) ≡ true
      → (p' : Publisher x) × (bump_empty_acquire_counter x p t current ≡ done p') × Quiet p p'
  unfolding bump_empty_acquire_counter
  bump-Quiet t current p h = (
    final (bump_empty_acquire_counter x p t current),
    ground (arith, h),
    record {
      gauges = ground (arith, h);
      specs = ground (arith, h);
      tracking = ground (arith, h);
      reads = λ g ks. ground (
        arith,
        h,
        law.read-add p.store (self pool_empty_acquire_total) (t ∷ [])
            (x.float_int (Int.int64 (current -ℤ baseline x p t))) (gauge g) ks,
      );
    },
  )

  pub apply_pool_stat-Quiet :
      (r : Result x) (p : Publisher x)
      → x.accepts (self pool_acquired_conns) (r.tenant ∷ []) ≡ true
      → x.accepts (self pool_idle_conns) (r.tenant ∷ []) ≡ true
      → x.accepts (self pool_total_conns) (r.tenant ∷ []) ≡ true
      → x.accepts (self pool_empty_acquire_total) (r.tenant ∷ []) ≡ true
      → (p' : Publisher x) × (apply_pool_stat x r p ≡ done p') × Quiet p p'
  unfolding apply_pool_stat pooled
  apply_pool_stat-Quiet r p ha hi ht he =
      let (s, e, same) = pool_gauges-done r.tenant r.stats p.store ha hi ht in
      let (p', h, q) =
        bump-Quiet r.tenant r.stats.empty_acquire_count (record p { store = s }) he in
      (
        p',
        ground (arith, e, h),
        record {
          gauges = q.gauges;
          specs = q.specs;
          tracking = q.tracking;
          reads = λ g ks. q.reads g ks ∙ same g ks;
        },
      )

  pub count_error-Quiet :
      (r : Result x) (p : Publisher x)
      → x.accepts (self query_errors_total) (r.tenant ∷ r.query ∷ []) ≡ true
      → (p' : Publisher x) × (count_error x r p ≡ done p') × Quiet p p'
  unfolding count_error inc
  count_error-Quiet r p h = (
    record p { store = x.add p.store (self query_errors_total) (r.tenant ∷ r.query ∷ []) (pos 1) },
    ground (arith, h),
    record {
      gauges = refl;
      specs = refl;
      tracking = refl;
      reads = λ g ks.
          law.read-add p.store (self query_errors_total) (r.tenant ∷ r.query ∷ []) (pos 1) (gauge g)
            ks;
    },
  )
