-- ===== src/Runner/Due.antt =====
-- `dueQueries` of runner.go.
pub mod Spacing
use ducklake_metrics_daemon.Prelude.{
  Bool, true, false, not, ◌&&◌, Option, none, some, List, [], ◌∷◌, any, if◌then◌else◌,
}
use ducklake_metrics_daemon.Prelude.Int.{ℤ, pos, negsuc, ltb_ℤ, ◌-ℤ◌, ◌*ℤ◌, int64}
use ducklake_metrics_daemon.Prelude.Text.{Text}
use ducklake_metrics_daemon.Prelude.Dict
use ducklake_metrics_daemon.Prelude.Dict.{Dict}
use ducklake_metrics_daemon.Queries.{Query}

abbrev pub max_duration : ℤ
max_duration = pos 9223372036854775807

abbrev pub min_duration : ℤ
min_duration = negsuc 9223372036854775807

-- `t.Sub(u)`: a difference that does not fit becomes the longest duration.
unfoldable pub time_sub : ℤ → ℤ → ℤ
time_sub t u =
    let d = t -ℤ u in
    if ltb_ℤ max_duration d then max_duration else if ltb_ℤ d min_duration then min_duration else d

-- `time.Duration(n) * time.Second`, in int64.
unfoldable pub seconds : ℤ → ℤ
seconds n = int64 (n *ℤ pos 1000000000)

abbrev pub has_interval : Query → Bool
has_interval q = ltb_ℤ (pos 0) q.interval_seconds

-- The query has run, and its window has not passed.
unfoldable pub is_early : Option ℤ → ℤ → Query → Bool
is_early none now q = false
is_early (some last) now q = ltb_ℤ (time_sub now last) (seconds q.interval_seconds)

-- The test of the loop's `continue`.
unfoldable pub is_waiting : Dict ℤ → ℤ → Query → Bool
unfolding is_early
is_waiting last_run now q = has_interval q && is_early (Dict.get last_run q.name) now q

-- The second loop, with `lastRun` passed along.
unfoldable pub due_loop : List Query → Dict ℤ → ℤ → List Query × Dict ℤ
due_loop [] last_run now = ([], last_run)
due_loop (q ∷ qs) last_run now =
    let skipped = due_loop qs last_run now in
    let (due, after) = due_loop qs (Dict.put last_run q.name now) now in
    if is_waiting last_run now q then skipped else (q ∷ due, after)

unfoldable pub due_queries : List Query → Dict ℤ → ℤ → List Query × Dict ℤ
unfolding due_loop
due_queries qs last_run now =
    if any has_interval qs then due_loop qs last_run now else (qs, last_run)
