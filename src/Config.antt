-- ===== src/Config.antt =====
-- internal/config: reading the environment (config.go) and the tenants file (tenants.go). The
-- environment is a function from names to values, as `os.Getenv` answers, with [] for a variable that
-- is not set.
pub mod Env
pub mod Tenants
pub mod Loading
use ducklake_metrics_daemon.Prelude.{
  Bool, ◌||◌, Option, none, some, List, [], ◌∷◌, ◌++◌, is_empty, if◌then◌else◌,
}
use ducklake_metrics_daemon.Prelude.Int.{ℤ, pos, ltb_ℤ}
use ducklake_metrics_daemon.Prelude.Text.{Text, codes}
use ducklake_metrics_daemon.Prelude.Dict.{Dict}
use ducklake_metrics_daemon.Prelude.Result.{Result, ok, err, ◌>>=◌}
use ducklake_metrics_daemon.Catalog.Dsn.{Conn}
use ducklake_metrics_daemon.Config.Env.{parse_csv_set, parse_seconds, parse_int}
use ducklake_metrics_daemon.Config.Tenants.{Tenant, TenantsError, load_tenants}

pub record Config : Type 0 where
  pub tenants : Dict Conn
  pub http_port : ℤ
  pub user_queries_path : Text
  pub disabled_queries : Dict Bool
  pub cycle_interval : ℤ
  pub liveness_timeout : ℤ
  pub query_timeout : ℤ
  pub tenant_restart_cooldown : ℤ
  pub max_query_rows : ℤ

pub data ConfigError : Type 0 where
  no_tenants port_out_of_range : ConfigError
  query_timeout_too_long : ℤ → ℤ → ConfigError
  negative_max_rows : ConfigError
  missing_vars : List Text → ConfigError
  bad_tenants : TenantsError → ConfigError

unfoldable pub validate : Config → Result ConfigError Config
validate c =
    if is_empty c.tenants
    then err no_tenants
    else if ltb_ℤ c.http_port (pos 1) || ltb_ℤ (pos 65535) c.http_port
    then err port_out_of_range
    else if ltb_ℤ c.query_timeout c.cycle_interval
    then if ltb_ℤ c.max_query_rows (pos 0) then err negative_max_rows else ok c
    else err (query_timeout_too_long c.query_timeout c.cycle_interval)

pub record SingleTenant : Type 0 where
  pub id : Text
  pub conn : Conn

-- `if value == "" { missing = append(missing, name) }`
unfoldable pub need : Text → Text → List Text → List Text
need value name missing = if is_empty value then missing ++ name ∷ [] else missing

unfoldable pub single_tenant : (Text → Text) → SingleTenant
single_tenant env = record {
  id = env (codes "DUCKLAKE_TENANT");
  conn = record {
    host = env (codes "DUCKLAKE_RDS_HOST");
    port = parse_int env (codes "DUCKLAKE_RDS_PORT") (pos 5432);
    database = env (codes "DUCKLAKE_RDS_DATABASE");
    username = env (codes "DUCKLAKE_RDS_USERNAME");
    password = env (codes "DUCKLAKE_RDS_PASSWORD");
  };
}

unfoldable pub missing_of : SingleTenant → List Text
unfolding need
missing_of t = need t.conn.password (codes "DUCKLAKE_RDS_PASSWORD") (
    need t.conn.username (codes "DUCKLAKE_RDS_USERNAME") (
      need t.conn.database (codes "DUCKLAKE_RDS_DATABASE")
        (need t.conn.host (codes "DUCKLAKE_RDS_HOST") (need t.id (codes "DUCKLAKE_TENANT") []))))

unfoldable pub load_single_tenant : (Text → Text) → Result ConfigError SingleTenant
unfolding missing_of single_tenant
load_single_tenant env =
    let t = single_tenant env in
    let missing = missing_of t in if is_empty missing then ok t else err (missing_vars missing)

only : SingleTenant → Dict Conn
only t = (t.id, t.conn) ∷ []

lifted : Result TenantsError (Dict Conn) → Result ConfigError (Dict Conn)
lifted (ok m) = ok m
lifted (err e) = err (bad_tenants e)

-- `read` is `os.ReadFile` and `yaml.Unmarshal` of the tenants file: an error, or its list.
module _ (env : Text → Text) (read : Text → Result Text (List Tenant)) where
  -- The tenants: of the file when a path is set, else the one of the environment.
  unfoldable pub tenants_of : Result ConfigError (Dict Conn)
  unfolding only lifted
  tenants_of =
      let path = env (codes "DUCKLAKE_TENANTS_CONFIG") in
      if is_empty path
      then load_single_tenant env >>= (λ t. ok (only t))
      else lifted (load_tenants env read path)

  -- The configuration that `Load` validates, around the tenants.
  unfoldable pub config_of : Dict Conn → Config
  config_of tenants = record {
    tenants = tenants;
    http_port = parse_int env (codes "DUCKLAKE_METRICS_PORT") (pos 9100);
    user_queries_path = env (codes "DUCKLAKE_METRICS_CONFIG");
    disabled_queries = parse_csv_set (env (codes "DUCKLAKE_METRICS_DISABLE"));
    cycle_interval = parse_seconds env (codes "DUCKLAKE_CYCLE_INTERVAL") (pos 300000000000);
    liveness_timeout =
        parse_seconds env (codes "DUCKLAKE_METRICS_LIVENESS_TIMEOUT") (pos 300000000000);
    query_timeout = parse_seconds env (codes "DUCKLAKE_QUERY_TIMEOUT") (pos 60000000000);
    tenant_restart_cooldown =
        parse_seconds env (codes "DUCKLAKE_TENANT_RESTART_COOLDOWN") (pos 300000000000);
    max_query_rows = parse_int env (codes "DUCKLAKE_MAX_QUERY_ROWS") (pos 10000);
  }

  unfoldable pub load : Result ConfigError Config
  load = tenants_of >>= (λ ts. validate (config_of ts))
