-- ===== src/Runner/Serve.antt =====
-- `Run` of runner.go: the wait for the stagger, the first fire, the ticks, and the deferred cancellation
-- on every way out.
pub mod Runs
use ducklake_metrics_daemon.Prelude.{Bool, true, false, List, [], ◌∷◌, if◌then◌else◌}
use ducklake_metrics_daemon.Prelude.Int.{ℤ, pos, ltb_ℤ}
use ducklake_metrics_daemon.Prelude.Text.{Text}
use ducklake_metrics_daemon.Queries.{Query}
use ducklake_metrics_daemon.Extern.{Extern}
use ducklake_metrics_daemon.Publisher.Outcome.{Outcome, done, panicked}
use ducklake_metrics_daemon.Runner.Stagger.{stagger}
use ducklake_metrics_daemon.Runner.Schedule.{Reading, Scheduler, fire, shut_down}

-- What the `select` of the stagger takes.
pub data Wait : Type 0 where
  waited : Wait
  cancelled : Wait

-- What the `select` of the loop takes: `ctx.Done()`, or a tick with the clock readings of its fire.
pub data Turn : Type 0 where
  stopped : Turn
  ticked : Reading → Turn

module _ (x : Extern) where
  -- The scheduler, and whether `Run` has returned.
  pub record Serving : Type 0 where
    pub scheduler : Scheduler x
    pub returned : Bool

  abbrev pub serving : Bool → Scheduler x → Serving
  serving b s = record { scheduler = s; returned = b }

  abbrev pub after_fire : Outcome (Scheduler x) → (Scheduler x → Outcome Serving) → Outcome Serving
  after_fire (panicked s) next = panicked (serving false s)
  after_fire (done s) next = next s

  -- The loop.
  unfoldable pub turns : Text → List Query → List Turn → Scheduler x → Outcome Serving
  turns tenant qs [] s = done (serving false s)
  turns tenant qs (stopped ∷ ts) s = done (serving true s)
  turns tenant qs (ticked r ∷ ts) s = after_fire (fire x tenant qs r s) (turns tenant qs ts)

  -- `defer func() { cancelPrev() }()`: on a return and on a panic.
  abbrev pub unwound : Outcome Serving → Outcome Serving
  unwound (panicked s) = panicked (serving s.returned (shut_down s.scheduler))
  unwound (done s) = done (if s.returned then serving true (shut_down s.scheduler) else s)

  -- From the first fire on; `time.NewTicker` panics on an interval that is not positive.
  unfoldable pub served :
      Text → ℤ → List Query → Reading → List Turn → Scheduler x → Outcome Serving
  unfolding turns
  served tenant interval qs first ts s = unwound (
      after_fire (fire x tenant qs first s) (λ s'.
        let rest = turns tenant qs ts s' in
        if ltb_ℤ (pos 0) interval then rest else panicked (serving false s')))

  abbrev pub after_wait : Wait → Outcome Serving → Scheduler x → Outcome Serving
  after_wait waited rest s = rest
  after_wait cancelled rest s = done (serving true s)

  unfoldable pub run :
      Text → ℤ → List Query → Wait → Reading → List Turn → Scheduler x → Outcome Serving
  unfolding served
  run tenant interval qs wait first ts s =
      let rest = served tenant interval qs first ts s in
      if ltb_ℤ (pos 0) (stagger tenant interval) then after_wait wait rest s else rest
