-- ===== src/Publisher/Pool.antt =====
-- `applyPoolStat` and `bumpEmptyAcquireCounter` of publisher.go.
use ducklake_metrics_daemon.Prelude.{Bool, true, false, none, some, [], ◌∷◌, if◌then◌else◌}
use ducklake_metrics_daemon.Prelude.Int.{ℤ, pos, ltb_ℤ, ◌-ℤ◌, int64}
use ducklake_metrics_daemon.Prelude.Text.{Text}
use ducklake_metrics_daemon.Prelude.Dict
use ducklake_metrics_daemon.Prelude.Dict.{Dict}
use ducklake_metrics_daemon.Metrics.{
  self, pool_acquired_conns, pool_idle_conns, pool_total_conns, pool_empty_acquire_total,
}
use ducklake_metrics_daemon.Extern.{Extern}
use ducklake_metrics_daemon.Catalog.{Stats}
use ducklake_metrics_daemon.Publisher.Outcome.{Outcome, done, panicked, ◌>>=◌, set_gauge}
use ducklake_metrics_daemon.Publisher.State.{Result, Publisher, stored}

module _ (x : Extern) where
  -- `emptyAcquireSeen[tenant]`: a missing key reads false.
  unfoldable pub is_seen : Publisher x → Text → Bool
  is_seen p t = elim (Dict.get p.empty_acquire_seen t) [ none ↦ false | some b ↦ b ]

  -- `emptyAcquireBaselines[tenant]`: a missing key reads 0.
  unfoldable pub baseline : Publisher x → Text → ℤ
  baseline p t = elim (Dict.get p.empty_acquire_baselines t) [ none ↦ pos 0 | some b ↦ b ]

  unfoldable pub reseed : Publisher x → Text → ℤ → Publisher x
  reseed p t current = record p {
    empty_acquire_baselines = Dict.put p.empty_acquire_baselines t current;
  }

  unfoldable pub seed : Publisher x → Text → ℤ → Publisher x
  seed p t current = record p {
    empty_acquire_seen = Dict.put p.empty_acquire_seen t true;
    empty_acquire_baselines = Dict.put p.empty_acquire_baselines t current;
  }

  -- `WithLabelValues(tenant).Add(float64(delta))`
  unfoldable pub emit : Publisher x → Text → ℤ → ℤ → Outcome (Publisher x)
  unfolding reseed
  emit p t current delta =
      if x.accepts (self pool_empty_acquire_total) (t ∷ [])
      then done (
          reseed
            (record p {
              store = x.add p.store (self pool_empty_acquire_total) (t ∷ []) (x.float_int delta);
            })
            t current)
      else panicked p

  unfoldable pub bump_empty_acquire_counter : Publisher x → Text → ℤ → Outcome (Publisher x)
  unfolding emit seed reseed is_seen baseline
  bump_empty_acquire_counter p t current =
      let last = baseline p t in
      let delta = int64 (current -ℤ last) in
      if is_seen p t
      then if ltb_ℤ (pos 0) delta
        then emit p t current delta
        else if ltb_ℤ current last
        then done (reseed p t current)
        else done p
      else done (seed p t current)

  unfoldable pub pool_gauges : Text → Stats → x.Store → Outcome x.Store
  pool_gauges t st s = do
    s₁ ← set_gauge x (self pool_acquired_conns) (t ∷ []) (x.of_int st.acquired_conns) s
    s₂ ← set_gauge x (self pool_idle_conns) (t ∷ []) (x.of_int st.idle_conns) s₁
    set_gauge x (self pool_total_conns) (t ∷ []) (x.of_int st.total_conns) s₂

  unfoldable pub pooled : Text → ℤ → Outcome (Publisher x) → Outcome (Publisher x)
  unfolding bump_empty_acquire_counter
  pooled t current (panicked p) = panicked p
  pooled t current (done p) = bump_empty_acquire_counter p t current

  unfoldable pub apply_pool_stat : Result x → Publisher x → Outcome (Publisher x)
  unfolding pool_gauges pooled
  apply_pool_stat r p =
      pooled r.tenant r.stats.empty_acquire_count (stored p (pool_gauges r.tenant r.stats p.store))
