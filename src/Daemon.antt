-- ===== src/Daemon.antt =====
-- cmd/ducklake-metrics-daemon/main.go: connecting with backoff, the reasons of a failed connection, and
-- the list of --list-queries.
pub mod Backoff
pub mod Listing
pub mod Tenant
pub mod Startup
pub mod Shutdown
use ducklake_metrics_daemon.Prelude.{
  ℕ, suc, ◌*◌, Bool, true, false, ◌||◌, Option, none, some, List, [], ◌∷◌, ◌++◌, ltb, is_empty,
  if◌then◌else◌,
}
use ducklake_metrics_daemon.Prelude.Text.{Text, codes, text_eq}
use ducklake_metrics_daemon.Prelude.Dict
use ducklake_metrics_daemon.Prelude.Dict.{Dict}
use ducklake_metrics_daemon.Prelude.Result.{Result, ok, err, ◌>>=◌}
use ducklake_metrics_daemon.Metrics.{self, connect_failures_total}
use ducklake_metrics_daemon.Extern.{Extern}
use ducklake_metrics_daemon.Publisher.Outcome
use ducklake_metrics_daemon.Publisher.Outcome.{Outcome, done, panicked, inc}
use ducklake_metrics_daemon.Queries.{Query, LoadError, load_builtins, load_file}
use ducklake_metrics_daemon.Queries.Merge.{merge}
use ducklake_metrics_daemon.Config.Env.{split, trim}

-- What `errors.As` and `errors.Is` find in the error of an attempt.
pub record ConnectError : Type 0 where
  pub pg_code : Option Text
  pub deadline_exceeded : Bool
  pub net_op : Option Text
  pub dns : Bool

abbrev pg_reason : Text → Text
pg_reason code =
    if text_eq code (codes "28P01") || text_eq code (codes "28000")
    then codes "auth"
    else if text_eq code (codes "3D000")
    then codes "invalid_database"
    else codes "postgres_" ++ code

is_dial : Option Text → Bool
is_dial none = false
is_dial (some op) = text_eq op (codes "dial")

net_reason : ConnectError → Text
unfolding is_dial
net_reason e =
    if e.deadline_exceeded
    then codes "timeout"
    else if is_dial e.net_op || e.dns
    then codes "dial"
    else codes "other"

unfoldable pub classify_connect_error : ConnectError → Text
unfolding net_reason
classify_connect_error e = elim e.pg_code [ some code ↦ pg_reason code | none ↦ net_reason e ]

-- The delays in seconds.
abbrev pub max_delay : ℕ
max_delay = 60

unfoldable pub next_delay : ℕ → ℕ
next_delay d = let twice = 2 * d in if ltb max_delay twice then max_delay else twice

-- What happens at an attempt: it succeeds, or it fails and the `select` takes the timer or `ctx.Done()`.
pub data Attempt : Type 0 where
  opened : Attempt
  failed : ConnectError → Attempt
  failed_then_canceled : ConnectError → Attempt

pub data Connection : Type 0 where
  connected canceled still_trying : Connection

module _ (x : Extern) where
  -- The failures are counted in `store`; `waits` are the delays that were waited for.
  pub record Connecting : Type 0 where
    pub store : x.Store
    pub waits : List ℕ

  count_failure : Text → ConnectError → x.Store → Outcome x.Store
  count_failure tenant e s =
      inc x (self connect_failures_total) (tenant ∷ classify_connect_error e ∷ []) s

  abbrev after_failure :
      Connecting
      → Outcome x.Store
      → (x.Store → Outcome (Connecting × Connection))
      → Outcome (Connecting × Connection)
  after_failure c (panicked s) k = panicked (record c { store = s }, still_trying)
  after_failure c (done s) k = k s

  -- The loop, from the delay `d`, over the attempts so far.
  unfoldable pub connect_loop :
      Text → ℕ → List Attempt → Connecting → Outcome (Connecting × Connection)
  unfolding count_failure
  connect_loop tenant d [] c = done (c, still_trying)
  connect_loop tenant d (opened ∷ rest) c = done (c, connected)
  connect_loop tenant d (failed e ∷ rest) c = after_failure c (count_failure tenant e c.store) (λ s.
      connect_loop tenant (next_delay d) rest (record { store = s; waits = c.waits ++ d ∷ [] }))
  connect_loop tenant d (failed_then_canceled e ∷ rest) c =
      after_failure c (count_failure tenant e c.store)
        (λ s. done (record c { store = s }, canceled))

  unfoldable pub connect_with_backoff :
      Text → List Attempt → x.Store → Outcome (Connecting × Connection)
  unfolding connect_loop
  connect_with_backoff tenant attempts store =
      connect_loop tenant 1 attempts (record { store = store; waits = [] })

-- The loop of `splitCSV`.
pub kept : List Text → List Text
kept [] = []
kept (p ∷ ps) =
    let rest = kept ps in let name = trim p in if is_empty name then rest else name ∷ rest

unfoldable pub split_csv : Text → List Text
unfolding kept
split_csv s = kept (split s)

-- `for _, p := range ... { disabled[p] = true }`
unfoldable pub disable_all : List Text → Dict Bool → Dict Bool
disable_all [] d = d
disable_all (p ∷ ps) d = disable_all ps (Dict.put d p true)

-- The queries that `runListQueries` prints; an error is exit code 2.
unfoldable pub list_queries :
    (Text → Option (List Query))
    → Text
    → (Text → Option Text)
    → (Text → Text)
    → Result LoadError (List Query)
unfolding split_csv disable_all
list_queries unmarshal builtin_yaml read_file env =
    load_builtins unmarshal builtin_yaml >>= (λ builtins.
      load_file unmarshal read_file (env (codes "DUCKLAKE_METRICS_CONFIG")) >>= (λ user. ok (
        merge builtins user (disable_all (split_csv (env (codes "DUCKLAKE_METRICS_DISABLE"))) []))))
