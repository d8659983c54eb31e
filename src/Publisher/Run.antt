-- ===== src/Publisher/Run.antt =====
-- `apply`, `safeApply` and the loop of `Run` (publisher.go).
use ducklake_metrics_daemon.Prelude.{List, [], ◌∷◌}
use ducklake_metrics_daemon.Prelude.Text.{codes}
use ducklake_metrics_daemon.Metrics.{self, query_panics_total}
use ducklake_metrics_daemon.Extern.{Extern}
use ducklake_metrics_daemon.Publisher.Outcome.{Outcome, done, panicked, inc}
use ducklake_metrics_daemon.Publisher.State.{
  stored, Kind, kind_query, kind_pool_stat, kind_other, Result, Publisher,
}
use ducklake_metrics_daemon.Publisher.Apply.{apply_query}
use ducklake_metrics_daemon.Publisher.Pool.{apply_pool_stat}

module _ (x : Extern) where
  unfoldable pub dispatch : Kind → Result x → Publisher x → Outcome (Publisher x)
  dispatch kind_query r p = apply_query x r p
  dispatch kind_pool_stat r p = apply_pool_stat x r p
  dispatch (kind_other n) r p = done p

  unfoldable pub apply : Result x → Publisher x → Outcome (Publisher x)
  unfolding dispatch
  apply r p = dispatch r.kind r p

  -- The deferred handler counts the panic; a panic of its own escapes.
  unfoldable pub recovered : Result x → Outcome (Publisher x) → Outcome (Publisher x)
  recovered r (done p) = done p
  recovered r (panicked p) =
      stored p (inc x (self query_panics_total) (r.tenant ∷ codes "_publisher" ∷ []) p.store)

  unfoldable pub safe_apply : Result x → Publisher x → Outcome (Publisher x)
  unfolding recovered
  safe_apply r p = recovered r (apply r p)

  -- What the `select` of the loop takes next.
  pub data Event : Type 0 where
    canceled : Event
    closed : Event
    received : Result x → Event

  -- Why the loop is not running any more.
  pub data Exit : Type 0 where
    on_cancel on_close on_panic still_running : Exit

  -- The events that the loop has not read stay behind.
  unfoldable pub run : List Event → Publisher x → Exit × Publisher x × List Event
  run [] p = (still_running, p, [])
  run (canceled ∷ es) p = (on_cancel, p, es)
  run (closed ∷ es) p = (on_close, p, es)
  run (received r ∷ es) p = elim (safe_apply r p) [
    | done p' ↦ run es p'
    | panicked p' ↦ (on_panic, p', es)
  ]
