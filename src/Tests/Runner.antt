-- ===== src/Tests/Runner.antt =====
-- Examples for runner.go.
use ducklake_metrics_daemon.Prelude.{
  ℕ, ◌/◌, ◌≡◌, ◌≢◌, refl, true, false, none, some, List, [], ◌∷◌, ◌++◌, ◌≤◌, arith,
}
use ducklake_metrics_daemon.Prelude.Int.{ℤ, pos, negsuc, ◌*ℤ◌, IsInt64}
use ducklake_metrics_daemon.Prelude.Text.{Text, codes, text_eq}
use ducklake_metrics_daemon.Prelude.Dict
use ducklake_metrics_daemon.Prelude.Sort.{find}
use ducklake_metrics_daemon.Prelude.Result
use ducklake_metrics_daemon.Catalog.{query_failed}
use ducklake_metrics_daemon.Runner.Due.Spacing.{
  ticks, ticks-IsSpaced, IsSpaced, IsTime, window, dispatches,
}
use ducklake_metrics_daemon.Daemon.Startup.Warnings.{warned, is_warned, warned_every_cycle}
use ducklake_metrics_daemon.Queries.{Query}
use ducklake_metrics_daemon.Runner.Cycle.{
  completed, Step, Surroundings, no_stats, cycle_loop, run_cycle,
}
use ducklake_metrics_daemon.Runner.Cycle.{deferred, stopped}
use ducklake_metrics_daemon.Runner.Cycle.Counted.{when, is_completed, is_poisoned, deferred_lem}
use ducklake_metrics_daemon.Metrics.{
  Metric, self, query_panics_total, cycle_completed_total, cycle_killed_total,
}
use ducklake_metrics_daemon.Extern.{same_series}
use ducklake_metrics_daemon.Publisher.Outcome.{done}
use ducklake_metrics_daemon.Tests.Client.{client_laws, Series}
use ducklake_metrics_daemon.Prelude.{not, ◌&&◌, All}
use ducklake_metrics_daemon.Prelude.Int.{◌+ℤ◌, ◌-ℤ◌}
use ducklake_metrics_daemon.Runner.Liveness.{new_liveness}
use ducklake_metrics_daemon.Runner.Schedule.{Scheduler, Reading}
use ducklake_metrics_daemon.Runner.Cycle.Sent.{all_messages, run_cycle-sent}
use ducklake_metrics_daemon.Tests.Client.{client, no_series}
use ducklake_metrics_daemon.Tests.Queries.{files, rows}

abbrev pub minute : ℤ
minute = pos 60000000000

window_fits : IsInt64 (window files)
unfolding ◌*ℤ◌
window_fits = record { above = omega arith; below = omega arith }

time : (n : ℕ) → n ≤ 9223372036854775807 → IsTime (pos n)
time n h = record {
  nonneg = omega arith;
  fits = record { above = omega arith; below = omega arith };
}

ticks-IsSpaced_example :
    IsSpaced files none
      (ticks (files ∷ rows ∷ []) [] (pos 60000000000 ∷ pos 120000000000 ∷ pos 900000000000 ∷ []))
unfolding find text_eq Dict.get
ticks-IsSpaced_example =
    ticks-IsSpaced (files ∷ rows ∷ []) files []
      (pos 60000000000 ∷ pos 120000000000 ∷ pos 900000000000 ∷ []) none (refl, (refl, tt)) refl refl
      window_fits refl tt
      (
        time 60000000000 (omega arith),
        (time 120000000000 (omega arith), (time 900000000000 (omega arith), tt)),
      )

full_seconds : ℤ → ℤ
full_seconds (pos n) = pos (n / 1000000000)
full_seconds (negsuc n) = negsuc n

-- A cycle interval of 15 minutes; the second tick comes half a second early.
warned_every_cycle_example :
    All
      (λ (e : ℤ × List Query). dispatches e.1 files.name ≡ true)
      (ticks (files ∷ rows ∷ []) [] (pos 900000000000 ∷ pos 1799500000000 ∷ []))
unfolding find text_eq warned is_warned full_seconds ◌+ℤ◌ ◌-ℤ◌
warned_every_cycle_example =
    warned_every_cycle (files ∷ rows ∷ []) files full_seconds 900000000000
      (pos 900000000000 ∷ pos 1799500000000 ∷ []) (λ n h. refl) (omega arith) (refl, (refl, tt))
      refl window_fits (time 900000000000 (omega arith), (time 1799500000000 (omega arith), tt))
      (omega arith, tt)

-- Each query fails at once, and the context stays alive.
abbrev failing_step : Step client
failing_step = record {
  cancelled = false;
  answer = some (Result.err (query_failed (codes "down")));
  duration = pos 1;
  now = pos 7;
  sends = true;
}

abbrev failing : Surroundings client
failing = record {
  step = λ i. failing_step;
  stats = no_stats;
  stats_sent = true;
  cancelled_at_end = false;
  duration = pos 2;
}

run_cycle-sent_example :
    let end =
      (cycle_loop client
        (codes "acme")
        failing
        0
        (files ∷ rows ∷ [])
        (record { store = no_series; sent = [] })).1 in
    (rest : List _) × ((run_cycle client (codes "acme") (files ∷ rows ∷ []) failing no_series).0
        ++ rest
      ≡ all_messages client (codes "acme") failing 0 (files ∷ rows ∷ []))
    × (end ≡ completed → rest ≡ [])
    × (end ≢ completed → rest ≢ [])
run_cycle-sent_example = run_cycle-sent client (codes "acme") (files ∷ rows ∷ []) failing no_series

-- A cycle that the next tick has cancelled.
abbrev overrun : Surroundings client
overrun = record failing { cancelled_at_end = true }

deferred_lem_example :
    (s : Series) × (deferred client
        (codes "acme")
        overrun
        (record { store = no_series; sent = [] }, stopped)
      ≡ done s)
    × ((n : Metric) (ks : List Text)
        → s.totals n ks
          ≡ no_series.totals n ks
            +ℤ when (
                is_poisoned stopped
                && same_series (self query_panics_total) (codes "acme" ∷ codes "_cycle" ∷ []) n ks)
            +ℤ when (
                is_completed stopped
                && same_series (self cycle_completed_total) (codes "acme" ∷ []) n ks)
            +ℤ when (
                not (is_completed stopped)
                && overrun.cancelled_at_end
                && same_series (self cycle_killed_total) (codes "acme" ∷ []) n ks))
deferred_lem_example =
    deferred_lem client client_laws (codes "acme") overrun (record { store = no_series; sent = [] })
      stopped (record { panics = refl; duration = refl; completions = refl; kills = refl })

abbrev pub idle : Scheduler client
idle = record { liveness = new_liveness minute; last_run = []; cycles = []; store = no_series }

abbrev two_ticks : List Reading
two_ticks =
    record { mark = minute; due = minute }
    ∷ record { mark = pos 120000000000; due = pos 120000000000 }
    ∷ []
