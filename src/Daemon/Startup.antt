-- ===== src/Daemon/Startup.antt =====
-- `main` of main.go up to the goroutines: the configuration, the queries, the gauges, and what the
-- probes and the tenants share. The libraries under the loaders are parameters, as in their modules.
pub mod Shows
pub mod Probes
pub mod Warnings
use ducklake_metrics_daemon.Prelude.{Bool, true, false, Option, none, some, List, [], ◌∷◌}
use ducklake_metrics_daemon.Prelude.Int.{ℤ}
use ducklake_metrics_daemon.Prelude.Text.{Text}
use ducklake_metrics_daemon.Prelude.Sort.{sort}
use ducklake_metrics_daemon.Prelude.Dict
use ducklake_metrics_daemon.Prelude.Dict.{Dict, keys}
use ducklake_metrics_daemon.Prelude.Result
use ducklake_metrics_daemon.Prelude.Result.{ok, err}
use ducklake_metrics_daemon.Catalog.Dsn.{Conn}
use ducklake_metrics_daemon.Config
use ducklake_metrics_daemon.Config.{ConfigError}
use ducklake_metrics_daemon.Config.Tenants.{Tenant}
use ducklake_metrics_daemon.Queries.{Query, LoadError, load_builtins, load_file}
use ducklake_metrics_daemon.Queries.Merge.{merge}
use ducklake_metrics_daemon.Metrics.Register.{Registered, register}
use ducklake_metrics_daemon.Extern.{Extern}
use ducklake_metrics_daemon.Publisher.State
use ducklake_metrics_daemon.Publisher.State.{Publisher}
use ducklake_metrics_daemon.Runner.Liveness.{Liveness, LivenessSnapshot, new_liveness, snapshot}

-- The ways to exit with code 2.
pub data StartError : Type 0 where
  config_load : ConfigError → StartError
  builtin_queries : LoadError → StartError
  user_queries : LoadError → StartError

-- `sortedKeys`
unfoldable pub sorted_keys : Dict Conn → List Text
sorted_keys m = sort (λ t. t) (keys m)

-- The loop that fills `livenesses`.
unfoldable pub livenesses_of : ℤ → Dict Conn → Dict Liveness → Dict Liveness
livenesses_of interval [] m = m
livenesses_of interval ((id, _) ∷ ts) m =
    livenesses_of interval ts (Dict.put m id (new_liveness interval))

-- The loop of `snapshots`.
unfoldable pub snapshots_of : Dict Liveness → Dict LivenessSnapshot → Dict LivenessSnapshot
snapshots_of [] out = out
snapshots_of ((t, l) ∷ ls) out = snapshots_of ls (Dict.put out t (snapshot l))

-- `isReady`: a missing key reads false.
abbrev pub is_ready : Dict Bool → Text → Bool
is_ready ready t = elim (Dict.get ready t) [ none ↦ false | some b ↦ b ]

-- `markReady`
unfoldable pub mark_ready : Dict Bool → Text → Dict Bool
mark_ready ready t = Dict.put ready t true

module _ (x : Extern) where
  -- What `main` holds when it starts the goroutines.
  pub record Daemon : Type 0 where
    pub config : Config.Config
    pub queries : List Query
    pub tenant_ids : List Text
    pub livenesses : Dict Liveness
    pub ready : Dict Bool
    pub publisher : Publisher x

  -- An exit with code 2, a panic of `MustRegister`, or a daemon.
  pub data Start : Type 0 where
    exits : StartError → Start
    panics : Start
    started : Daemon → Start

  -- The state that the goroutines share, with `publisher.New`; the server and the signals are in
  -- Server and Daemon/Shutdown.
  abbrev pub with_gauges : Config.Config → List Query → x.Store → Option Registered → Start
  with_gauges cfg qs store none = panics
  with_gauges cfg qs store (some reg) = started (record {
    config = cfg;
    queries = qs;
    tenant_ids = sorted_keys cfg.tenants;
    livenesses = livenesses_of cfg.cycle_interval cfg.tenants [];
    ready = [];
    publisher = State.new x reg.gauges qs store;
  })

  module _ (is_valid : Text → List Text → Bool) (unmarshal : Text → Option (List Query))
      (builtin_yaml : Text) (read_file : Text → Option Text) (store : x.Store) where
    abbrev pub with_user : Config.Config → List Query → Result.Result LoadError (List Query) → Start
    with_user cfg builtins (err e) = exits (user_queries e)
    with_user cfg builtins (ok user) =
        let qs = merge builtins user cfg.disabled_queries in
        with_gauges cfg qs store (register is_valid qs)

    abbrev pub with_builtins : Config.Config → Result.Result LoadError (List Query) → Start
    with_builtins cfg (err e) = exits (builtin_queries e)
    with_builtins cfg (ok builtins) =
        with_user cfg builtins (load_file unmarshal read_file cfg.user_queries_path)

    abbrev pub with_config : Result.Result ConfigError Config.Config → Start
    with_config (err e) = exits (config_load e)
    with_config (ok cfg) = with_builtins cfg (load_builtins unmarshal builtin_yaml)

    unfoldable pub start : (Text → Text) → (Text → Result.Result Text (List Tenant)) → Start
    start env read = with_config (Config.load env read)
