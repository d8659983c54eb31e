-- ===== src/Lib.antt =====
-- The DuckLake metrics daemon: a Go program that runs SQL queries against the catalog databases of
-- several tenants on a schedule and shows their results as Prometheus gauges.
--
-- How the parts work together. The configuration (internal/config) and the query library
-- (internal/queries) are read at startup. For each tenant the runner (internal/runner) fires a cycle
-- on every tick of a ticker; a cycle asks the catalog (internal/catalog) the queries that are due, one
-- after another, and sends each result to the inbox of the publisher (internal/publisher). The
-- publisher is the one writer of the gauges of internal/metrics: it sets the series of the rows,
-- deletes the series whose rows are gone, and keeps the label tuples that it emitted for the next
-- result. The server (internal/server) answers the two probes from the runners' liveness.
--
-- Which file models which part:
--   Queries.antt, Queries/Validation, Queries/Merge   internal/queries: `validate`, `load`,
--     `LoadBuiltins`, `LoadFile`, `Merge`, `sortByName`
--   Metrics.antt, Metrics/Vectors   the vectors of internal/metrics, one constructor of `Self` each with
--     its kind, name and labels, and the gauge of a query and a value by its name
--   Metrics/Register   internal/metrics: `Register`, with the panics of `MustRegister`
--   Extern.antt   what comes from other packages, as the record `Extern`: float64, strconv and fmt on
--     floats, pgtype.Numeric, and the metric vectors of the Prometheus client as one store of series
--     with the operations that the daemon calls; `Laws` is their documented behaviour
--   Catalog.antt, Catalog/Dsn, Catalog/Fetch, Catalog/Pool   internal/catalog: `DSN`, `quoteKV`,
--     `Query`, and `Open`, `Close`, `Stat`, with pgxpool as the record `Pgxpool`
--   Config.antt, Config/Env, Config/Tenants, Config/Loading   internal/config: `Load`, `validate`, the
--     readers of environment variables, `LoadTenants`, `validateTenant`; Config/Env/Seconds is about
--     `parseSeconds` on a decimal print
--   Publisher/State, Coerce, Columns, Outcome, Apply, Pool, Reset, Run   internal/publisher, the state
--     and every method; other children of Publisher hold the proofs: Isolation, Tenancy (a
--     tenant's messages and the other tenants' series), Signature, Snapshot (what the gauges show
--     after a result, in the middle of one, and after a panic in it), Failures, Counting, Clearing
--   Publisher/Board   the abstract view of the publisher: a board has a number or nothing for each
--     query, value and label tuple, and a message tells what changes on it, without tracking,
--     signatures or column positions. Board/Invariant relates a publisher to a board, Board/Publish,
--     Quiet and Step are one message, Board/Refines is the loop, Board/Interleaving two orders of it,
--     and Board/Accepted the messages that the Prometheus client takes
--   Runner/Liveness, Due, Stagger, Cycle, Schedule, Serve   internal/runner: `Liveness`, `dueQueries`,
--     `stagger`, `runCycle`, the closure `fire` of `Run`, and `Run` itself; Runner/Cycle/Published
--     puts a cycle before the publisher, Runner/Serve/Runs the scheduler before the liveness probe
--   Server.antt, Server/Healthy, Server/Ready, Server/Routes   internal/server: `LivenessStatus`, the
--     handlers, `Mux`, `ListenAndServe`
--   Daemon.antt, Daemon/Tenant   cmd/ducklake-metrics-daemon/main.go: `connectWithBackoff`,
--     `classifyConnectError`, `runTenant`, `splitCSV`, `runListQueries`
--   Daemon/Startup   the same file: `main` up to its goroutines, which puts the loaders, `Register`
--     and `publisher.New` together, and the closures that the probes read
--   Daemon/Startup/Warnings   the same file: which queries `main` warns of for a short interval; the
--     conversion `int(d.Seconds())` by float64 is a parameter
--   Daemon/Shutdown   the same file: the goroutines and the shutdown of `main` as a step relation
--   Prelude   Boolean tests, lists, int64 with its wrap-around, Go strings as bytes, maps as association
--     lists, sorting, decimal print, errors
--   Tests   a concrete metric client, and the theorems at concrete inputs
--
-- How Go is rendered. A string is the list of its bytes. A map is an association list without a
-- repeated key, and a missing key reads the zero value; a loop over a map takes the entries in the
-- order of the list. A loop over the runes of a string decodes UTF-8 (Catalog/Dsn); `TrimSpace` takes
-- ASCII white space only. Integers are `Prelude.Int.ℤ`, and what is computed on int64 goes through the
-- function `int64`, which wraps around. A time is the number of nanoseconds since the Unix epoch. Code
-- that may panic returns an `Outcome`, which has the state at that moment, and `recover` continues
-- from it. Where a goroutine takes part in a `select` or reads the clock, the answer is an argument;
-- in Daemon/Shutdown, where the goroutines interleave, every possible answer is a step.
-- The one fuel is that of decimal print, `n + 1` steps for the number `n`.
--
-- Not modelled: flag parsing and logging in `main`; help texts; the mux, the listener and the
-- graceful shutdown of net/http; contexts with a timeout, which are part of what the driver
-- answers; and the text of internal/queries/builtin.yaml. In Daemon/Shutdown tenants and cycles are
-- counted, and that closing a pool waits for its connections is left out.
pub mod Prelude
pub mod Queries
pub mod Metrics
pub mod Extern
pub mod Catalog
pub mod Config
pub mod Publisher
pub mod Runner
pub mod Server
pub mod Daemon
pub mod Tests
