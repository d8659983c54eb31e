-- ===== src/Tests/Goroutines.antt =====
-- Examples for `Run` of runner.go, the pools of catalog.go and the shutdown of main.go.
use ducklake_metrics_daemon.Prelude.{
  ℕ, ℕ, ℕ, inr, ◌⊎◌, ℕ, ◌≢◌, leb, ℕ, ◌≡◌, ◌≤◌, ◌↔◌, refl, true, false, some, List, [], ◌∷◌, ◌++◌,
  arith, length,
}
use ducklake_metrics_daemon.Prelude.Text.{Text, codes}
use ducklake_metrics_daemon.Prelude.Int.{ℤ, pos, ◌+ℤ◌, ◌-ℤ◌, ◌*ℤ◌, ◌<ℤ◌, IsInt64}
use ducklake_metrics_daemon.Prelude.Result.{ok, err}
use ducklake_metrics_daemon.Publisher.Outcome.{done, panicked}
use ducklake_metrics_daemon.Catalog.Pool.{
  Pgxpool, OpenError, Catalog, IsOpen, open_catalog, close, opened, count_created, count_closed,
  open_catalog_lem,
}
use ducklake_metrics_daemon.Runner.Liveness.{new_liveness, snapshot}
use ducklake_metrics_daemon.Runner.Cycle.{no_stats, Surroundings, completed, cycle_loop, run_cycle}
use ducklake_metrics_daemon.Runner.Cycle.Cancelled.{run_cycle_cancelled}
use ducklake_metrics_daemon.Runner.Schedule.{Scheduler, Reading}
use ducklake_metrics_daemon.Runner.Schedule.Fires.{IsSerial, AreCancelled, fired}
use ducklake_metrics_daemon.Runner.Serve.{waited, serving, run}
use ducklake_metrics_daemon.Runner.Serve.Runs.{ticks_then, run_lem, run_alive, run_bad_interval}
use ducklake_metrics_daemon.Server.{liveness_status}
use ducklake_metrics_daemon.Daemon.Shutdown.{
  http_fails, Phase, exited, inbox_capacity, System, exit_code, Step, signal, fires, tenant_returns,
  wakes, closes, start, Run, here, later,
}
use ducklake_metrics_daemon.Daemon.Shutdown.Order.{shutdown_ordered}
use ducklake_metrics_daemon.Daemon.Shutdown.Finish.{
  left, Advances, HasExited, Orderly, shutdown_finishes,
}
use ducklake_metrics_daemon.Tests.Client.{client, client_laws, no_series}
use ducklake_metrics_daemon.Tests.Queries.{files, rows}
use ducklake_metrics_daemon.Tests.Runner.{minute, idle}
use ducklake_metrics_daemon.Tests.Catalog.{conn}

abbrev reading : ℤ → Reading
reading t = record { mark = t; due = t }

abbrev later_ticks : List Reading
later_ticks = reading (pos 120000000000) ∷ reading (pos 180000000000) ∷ []

run_lem_example :
    (s : Scheduler client) × (run client
        (codes "acme")
        minute
        (files ∷ rows ∷ [])
        waited
        (reading minute)
        (ticks_then later_ticks true)
        idle
      ≡ done (serving client true s))
    × (length s.cycles ≡ 3)
    × (fired client client_laws (codes "acme") (files ∷ rows ∷ []) s
        ≡ fired client client_laws (codes "acme") (files ∷ rows ∷ []) idle +ℤ pos 3)
    × (s.liveness.last_fire ≡ pos 180000000000)
    × IsSerial s.cycles
    × (true ≡ true → AreCancelled s.cycles)
run_lem_example =
    run_lem client client_laws (codes "acme") (files ∷ rows ∷ []) minute (reading minute)
      later_ticks true idle (omega arith) refl refl

run_bad_interval_example :
    (s : Scheduler client) × (run client
        (codes "acme")
        (pos 0)
        (files ∷ rows ∷ [])
        waited
        (reading minute)
        (ticks_then later_ticks true)
        idle
      ≡ panicked (serving client false s))
    × (length s.cycles ≡ 1)
    × AreCancelled s.cycles
    × (fired client client_laws (codes "acme") (files ∷ rows ∷ []) s
        ≡ fired client client_laws (codes "acme") (files ∷ rows ∷ []) idle +ℤ pos 1)
run_bad_interval_example =
    run_bad_interval client client_laws (codes "acme") (files ∷ rows ∷ []) (pos 0) waited
      (reading minute) (ticks_then later_ticks true) idle (omega arith) refl refl

-- The context is cancelled during the first query.
abbrev killed : Surroundings client
killed = record {
  step = λ i. record {
    cancelled = leb 1 i;
    answer = some (ok ([], []));
    duration = pos 1;
    now = pos 2;
    sends = true;
  };
  stats = no_stats;
  stats_sent = true;
  cancelled_at_end = true;
  duration = pos 3;
}

run_cycle_cancelled_example :
    (length (run_cycle client (codes "acme") (files ∷ rows ∷ []) killed no_series).0 ≤ 1)
    × ((cycle_loop client
          (codes "acme")
          killed
          0
          (files ∷ rows ∷ [])
          (record { store = no_series; sent = [] })).1
        ≢ completed)
run_cycle_cancelled_example =
    run_cycle_cancelled client (codes "acme") killed 1 (files ∷ rows ∷ []) no_series (omega arith)
      (λ j le. ground (arith, le))

age_fits : IsInt64 (pos 360000000000 -ℤ pos 180000000000)
unfolding ◌-ℤ◌
age_fits = record { above = omega arith; below = omega arith }

two_fit : IsInt64 (pos 2 *ℤ minute)
unfolding ◌*ℤ◌
two_fit = record { above = omega arith; below = omega arith }

run_alive_example :
    (s : Scheduler client) × (run client
        (codes "acme")
        minute
        (files ∷ rows ∷ [])
        waited
        (reading minute)
        (ticks_then later_ticks false)
        idle
      ≡ done (serving client false s))
    × (((liveness_status (snapshot s.liveness) (pos 360000000000)).alive ≡ false)
        ↔ (pos 2 *ℤ minute <ℤ pos 360000000000 -ℤ pos 180000000000))
unfolding new_liveness
run_alive_example =
    run_alive client client_laws (codes "acme") (files ∷ rows ∷ []) (reading minute) later_ticks
      idle (pos 360000000000) (omega arith) refl refl (omega arith) age_fits two_fit

-- A pool that refuses its ping.
abbrev unreachable : Pgxpool
unreachable = record {
  Parsed = Text;
  Pool = Text;
  parse_config = λ t. ok t;
  new_with_config = λ c. ok c.application_name;
  ping = λ p. some (codes "refused");
  stat = λ p. no_stats;
}

open_catalog_lem_example :
    let (r, calls) = open_catalog unreachable (codes "acme") conn in
    ((cat : Catalog unreachable) → r ≡ ok cat → IsOpen unreachable (codes "acme") conn cat)
    × (count_closed unreachable (calls ++ close unreachable (opened unreachable r))
        ≡ count_created unreachable (calls ++ close unreachable (opened unreachable r)))
    × ((e : OpenError)
        → r ≡ err e
        → count_closed unreachable calls ≡ count_created unreachable calls)
open_catalog_lem_example = open_catalog_lem unreachable (codes "acme") conn

-- One tenant, whose cycle outlives it: the inbox is closed while the cycle is still there.
abbrev orphaned : System
orphaned = record (start 1) {
  main = Phase.draining;
  cancelled = true;
  tenants = 0;
  cycles = 1;
  closed = true;
}

orphaned-Run : Run (start 1) orphaned
orphaned-Run =
    later
      (later (later (later (later here (fires refl)) signal) (tenant_returns refl refl))
        (wakes refl refl))
      (closes refl refl)

shutdown_ordered_example :
    (0 ≤ inbox_capacity)
    × (true ≡ true
        → (orphaned.tenants ≡ 0)
          × (true ≡ true)
          × ((t : System) → Step orphaned t → (t.buffered ≤ 0) × (t.closed ≡ true)))
    × ((k : ℕ)
        → orphaned.main ≡ exited k
        → (orphaned.tenants ≡ 0)
          × (orphaned.closed ≡ true)
          × (orphaned.listening ≡ false)
          × (k ≡ exit_code orphaned.http_failed))
shutdown_ordered_example = shutdown_ordered 1 orphaned orphaned-Run

-- The server fails while a tenant runs.
abbrev unheard : System
unheard = record (start 1) { cancelled = true; listening = false; http_failed = true }

unheard-Run : Run (start 1) unheard
unheard-Run = later here (http_fails refl)

shutdown_finishes_example :
    ((t : System) → Step unheard t → (t.cancelled ≡ true) × (left t ≤ left unheard))
    × (Advances unheard ⊎ HasExited unheard)
    × ((t : System) × Orderly (left unheard) unheard t × HasExited t)
shutdown_finishes_example = shutdown_finishes 1 unheard unheard-Run (inr refl)
