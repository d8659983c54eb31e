-- ===== src/Runner/Cycle.antt =====
-- `runCycle` of runner.go. What the surroundings answer at each step is a parameter: whether the
-- context is cancelled, what the catalog returns, and which arm of a `select` is taken.
pub mod Sent
pub mod Counted
pub mod Published
pub mod Cancelled
use ducklake_metrics_daemon.Prelude.{
  ℕ, suc, Bool, true, false, Option, none, some, List, [], ◌∷◌, ◌++◌, if◌then◌else◌,
}
use ducklake_metrics_daemon.Prelude.Text.{Text, codes}
use ducklake_metrics_daemon.Prelude.Result
use ducklake_metrics_daemon.Prelude.Int.{pos}
use ducklake_metrics_daemon.Queries.{Query}
use ducklake_metrics_daemon.Metrics.{
  self, query_duration_seconds, query_last_success_seconds, query_panics_total,
  cycle_duration_seconds, cycle_completed_total, cycle_killed_total,
}
use ducklake_metrics_daemon.Extern.{Extern}
use ducklake_metrics_daemon.Catalog.{Row, Stats, QueryError}
use ducklake_metrics_daemon.Publisher.Outcome.{Outcome, done, panicked, ◌>>=◌, set_gauge, inc}
use ducklake_metrics_daemon.Publisher.State.{Result, kind_query, kind_pool_stat}

-- How the body of a cycle ends: `completed` set, an early return, or a panic.
pub data End : Type 0 where
  completed stopped poisoned : End

abbrev pub no_stats : Stats
no_stats = record {
  acquired_conns = pos 0;
  idle_conns = pos 0;
  total_conns = pos 0;
  empty_acquire_count = pos 0;
}

module _ (x : Extern) where
  -- What `Catalog.Query` answers; `none` is a panic in it.
  abbrev pub Answer : Type 0
  Answer = Option (Result.Result QueryError (List (Row x) × List Text))

  -- One round of the loop: `ctx.Err() != nil` at its start, the answer, the duration and the time
  -- that are recorded, and whether the send wins the `select`.
  pub record Step : Type 0 where
    pub cancelled : Bool
    pub answer : Answer
    pub duration : x.Float
    pub now : x.Float
    pub sends : Bool

  pub record Surroundings : Type 0 where
    pub step : ℕ → Step
    pub stats : Stats
    pub stats_sent : Bool
    pub cancelled_at_end : Bool
    pub duration : x.Float

  -- The series, and the messages that reached the inbox.
  pub record Cycle : Type 0 where
    pub store : x.Store
    pub sent : List (Result x)

  abbrev pub message : Text → Query → Result.Result QueryError (List (Row x) × List Text) → Result x
  message tenant q (Result.ok (rows, cols)) = record {
    kind = kind_query;
    tenant = tenant;
    query = q.name;
    rows = rows;
    cols = cols;
    error = none;
    stats = no_stats;
  }
  message tenant q (Result.err e) = record {
    kind = kind_query;
    tenant = tenant;
    query = q.name;
    rows = [];
    cols = [];
    error = some e;
    stats = no_stats;
  }

  abbrev pub stats_message : Text → Stats → Result x
  stats_message tenant stats = record {
    kind = kind_pool_stat;
    tenant = tenant;
    query = [];
    rows = [];
    cols = [];
    error = none;
    stats = stats;
  }

  abbrev pub is_ok : Result.Result QueryError (List (Row x) × List Text) → Bool
  is_ok (Result.ok _) = true
  is_ok (Result.err _) = false

  -- The two gauges of a query.
  unfoldable pub record_query : Text → Query → Step → Bool → x.Store → Outcome x.Store
  record_query tenant q st good store =
      set_gauge x (self query_duration_seconds) (tenant ∷ q.name ∷ []) st.duration store >>= (λ s.
        if good
        then set_gauge x (self query_last_success_seconds) (tenant ∷ q.name ∷ []) st.now s
        else done s)

  abbrev pub sent_to : Cycle → x.Store → Result x → Cycle
  sent_to c s m = record { store = s; sent = c.sent ++ m ∷ [] }

  -- The `select` of a round, once the gauges are set; `next` is the rest of the loop.
  abbrev pub offered :
      Cycle → Result x → Bool → (Cycle → Cycle × End) → Outcome x.Store → Cycle × End
  offered c m sends next (panicked s) = (record c { store = s }, poisoned)
  offered c m sends next (done s) =
      if sends then next (sent_to c s m) else (record c { store = s }, stopped)

  -- The rest of a round, after the answer.
  abbrev pub answered : Cycle → Answer → Text → Query → Step → (Cycle → Cycle × End) → Cycle × End
  answered c none tenant q st next = (c, poisoned)
  answered c (some r) tenant q st next =
      offered c (message tenant q r) st.sends next (record_query tenant q st (is_ok r) c.store)

  -- The body, from the query with the index `i`.
  unfoldable pub cycle_loop : Text → Surroundings → ℕ → List Query → Cycle → Cycle × End
  unfolding record_query
  cycle_loop tenant e i [] c =
      if e.stats_sent
      then (sent_to c c.store (stats_message tenant e.stats), completed)
      else (c, stopped)
  cycle_loop tenant e i (q ∷ qs) c =
      let round =
        answered c (e.step i).answer tenant q (e.step i) (cycle_loop tenant e (suc i) qs) in
      if (e.step i).cancelled then (c, stopped) else round

  -- The deferred function.
  abbrev pub count_panic : Text → End → x.Store → Outcome x.Store
  count_panic tenant poisoned s = inc x (self query_panics_total) (tenant ∷ codes "_cycle" ∷ []) s
  count_panic tenant completed s = done s
  count_panic tenant stopped s = done s

  abbrev pub count_end : Text → End → Bool → x.Store → Outcome x.Store
  count_end tenant completed cancelled s = inc x (self cycle_completed_total) (tenant ∷ []) s
  count_end tenant stopped cancelled s =
      if cancelled then inc x (self cycle_killed_total) (tenant ∷ []) s else done s
  count_end tenant poisoned cancelled s =
      if cancelled then inc x (self cycle_killed_total) (tenant ∷ []) s else done s

  abbrev pub deferred : Text → Surroundings → Cycle × End → Outcome x.Store
  deferred tenant e (c, end) =
      count_panic tenant end c.store
      >>= set_gauge x (self cycle_duration_seconds) (tenant ∷ []) e.duration
      >>= count_end tenant end e.cancelled_at_end

  -- The messages that were sent, and the series at the end.
  unfoldable pub run_cycle :
      Text → List Query → Surroundings → x.Store → List (Result x) × Outcome x.Store
  unfolding cycle_loop
  run_cycle tenant qs e store =
      let r = cycle_loop tenant e 0 qs (record { store = store; sent = [] }) in
      (r.0.sent, deferred tenant e r)
