-- ===== src/Runner/Schedule.antt =====
-- `Run` of runner.go after the stagger: the fires on startup and on every tick, until the context is
-- cancelled. A cycle runs in its own goroutine; here it is its context and its queries.
pub mod Fires
use ducklake_metrics_daemon.Prelude.{Bool, true, false, List, [], ◌∷◌}
use ducklake_metrics_daemon.Prelude.Int.{ℤ}
use ducklake_metrics_daemon.Prelude.Text.{Text}
use ducklake_metrics_daemon.Prelude.Dict.{Dict}
use ducklake_metrics_daemon.Queries.{Query}
use ducklake_metrics_daemon.Metrics.{self, scheduler_fires_total}
use ducklake_metrics_daemon.Extern.{Extern}
use ducklake_metrics_daemon.Publisher.Outcome.{Outcome, done, panicked, ◌>>=◌, inc}
use ducklake_metrics_daemon.Runner.Liveness.{Liveness, mark_fire}
use ducklake_metrics_daemon.Runner.Due.{due_queries}

-- A cycle that was started: whether its context is cancelled, and its queries.
pub record Started : Type 0 where
  pub cancelled : Bool
  pub queries : List Query

-- `cancelPrev()`: the newest cycle's context; before the first fire it does nothing.
unfoldable pub cancel_prev : List Started → List Started
cancel_prev [] = []
cancel_prev (c ∷ cs) = record c { cancelled = true } ∷ cs

-- The two clock readings of a fire, in `MarkFire` and for the due queries.
pub record Reading : Type 0 where
  pub mark : ℤ
  pub due : ℤ

module _ (x : Extern) where
  -- The cycles are the newest first.
  pub record Scheduler : Type 0 where
    pub liveness : Liveness
    pub last_run : Dict ℤ
    pub cycles : List Started
    pub store : x.Store

  -- What follows the counter in `fire`.
  abbrev pub start : List Query → ℤ → Scheduler → Outcome x.Store → Outcome Scheduler
  start qs now s (panicked store) = panicked (record s { store = store })
  start qs now s (done store) =
      let (due, last_run) = due_queries qs s.last_run now in
      done (record {
        liveness = s.liveness;
        last_run = last_run;
        cycles = record { cancelled = false; queries = due } ∷ s.cycles;
        store = store;
      })

  unfoldable pub fire : Text → List Query → Reading → Scheduler → Outcome Scheduler
  fire tenant qs r s =
      let marked : Scheduler = record {
        liveness = mark_fire r.mark s.liveness;
        last_run = s.last_run;
        cycles = cancel_prev s.cycles;
        store = s.store;
      } in
      start qs r.due marked (inc x (self scheduler_fires_total) (tenant ∷ []) s.store)

  -- The fires so far.
  unfoldable pub fires : Text → List Query → List Reading → Scheduler → Outcome Scheduler
  fires tenant qs [] s = done s
  fires tenant qs (r ∷ rs) s = fire tenant qs r s >>= fires tenant qs rs

-- The deferred `cancelPrev()`.
unfoldable pub shut_down : {x : Extern} → Scheduler x → Scheduler x
shut_down s = record s { cycles = cancel_prev s.cycles }
