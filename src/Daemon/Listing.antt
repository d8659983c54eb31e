-- ===== src/Daemon/Listing.antt =====
-- The --list-queries list against the daemon's own (main.go, config.go).
use ducklake_metrics_daemon.Prelude.{◌≡◌, refl, Bool, true, List, [], ◌∷◌, Option, arith}
use ducklake_metrics_daemon.Prelude.Text.{Text, codes}
use ducklake_metrics_daemon.Prelude.Dict
use ducklake_metrics_daemon.Prelude.Dict.{Dict}
use ducklake_metrics_daemon.Prelude.Result.{Result, ok}
use ducklake_metrics_daemon.Queries.{Query, load_builtins, load_file}
use ducklake_metrics_daemon.Queries.Merge.{merge}
use ducklake_metrics_daemon.Config.{config_of}
use ducklake_metrics_daemon.Config.Env.{split, trim, add_names, parse_csv_set}
use ducklake_metrics_daemon.Config.Tenants.{Tenant}
use ducklake_metrics_daemon.Catalog.Dsn.{Conn}
use ducklake_metrics_daemon.Daemon.{kept, split_csv, disable_all, list_queries}

disable_all-kept : (ps : List Text) (d : Dict Bool) → disable_all (kept ps) d ≡ add_names ps d
unfolding disable_all kept add_names
disable_all-kept [] d = refl
disable_all-kept (p ∷ ps) d =
    ground (arith, disable_all-kept ps d, disable_all-kept ps (Dict.put d (trim p) true))

-- The two readers of the disabled names give the same set.
pub disable_all-split_csv : (s : Text) → disable_all (split_csv s) [] ≡ parse_csv_set s
unfolding split_csv parse_csv_set
disable_all-split_csv s = disable_all-kept (split s) []

-- --list-queries lists the queries that the daemon itself would run: for built-in and user queries
-- that load, the merge with the disabled names of the loaded configuration.
pub list_queries_lem :
    (unmarshal : Text → Option (List Query)) (builtin_yaml : Text) (read_file : Text → Option Text)
    (env : Text → Text) (read : Text → Result Text (List Tenant)) (tenants : Dict Conn)
    (builtins user : List Query)
    → load_builtins unmarshal builtin_yaml ≡ ok builtins
    → load_file unmarshal read_file (config_of env read tenants).user_queries_path ≡ ok user
    → list_queries unmarshal builtin_yaml read_file env
      ≡ ok (merge builtins user (config_of env read tenants).disabled_queries)
unfolding list_queries config_of
list_queries_lem unmarshal builtin_yaml read_file env read tenants builtins user h k =
    rw (h, k, disable_all-split_csv (env (codes "DUCKLAKE_METRICS_DISABLE"))) refl
