-- ===== src/Tests/Config.antt =====
-- Examples for config.go and tenants.go.
use ducklake_metrics_daemon.Prelude.{◌⊎◌, ◌≡◌, ◌≢◌, ◌↔◌, refl, List, [], ◌∷◌, All, if◌then◌else◌}
use ducklake_metrics_daemon.Prelude.Int.{pos, int64, ◌*ℤ◌, ◌≤ℤ◌, IsInt64}
use ducklake_metrics_daemon.Prelude.Text.{Text, codes, text_eq}
use ducklake_metrics_daemon.Prelude.Dict
use ducklake_metrics_daemon.Prelude.Dict.{Dict, HasDistinctKeys}
use ducklake_metrics_daemon.Prelude.Result.{Result, ok}
use ducklake_metrics_daemon.Catalog.Dsn.{Conn}
use ducklake_metrics_daemon.Config.{validate, tenants_of, config_of, load}
use ducklake_metrics_daemon.Config.Env.{atoi, parse_seconds, parse_int}
use ducklake_metrics_daemon.Runner.Due.{seconds}
use ducklake_metrics_daemon.Prelude.Decimal.{format_int}
use ducklake_metrics_daemon.Config.Env.Seconds.{parse_seconds_lem}
use ducklake_metrics_daemon.Config.Tenants.{
  Tenant, conn_of, add_tenants, validate_tenant, load_tenants,
}
use ducklake_metrics_daemon.Config.Tenants.Loaded.{IsEntry, listed, load_tenants-ok}
use ducklake_metrics_daemon.Config.Loading.{IsValid, validate_config_iff, load-IsValid}

abbrev pub tenant : Text → Tenant
tenant id = record {
  id = id;
  host = codes "h";
  port = pos 0;
  database = codes "d";
  username = codes "u";
  password_env = codes "PW";
}

-- Every variable is set to the same number, and so is the path.
abbrev pub env : Text → Text
env name = if text_eq name (codes "DUCKLAKE_QUERY_TIMEOUT") then codes "60" else codes "300"

abbrev pub read : Text → Result Text (List Tenant)
read path = ok (tenant (codes "a") ∷ tenant (codes "b-1") ∷ [])

abbrev pub loaded : Dict Conn
loaded = listed env (tenant (codes "a") ∷ tenant (codes "b-1") ∷ [])

validate_config_iff_example :
    (validate (config_of env read loaded) ≡ ok (config_of env read loaded))
    ↔ IsValid (config_of env read loaded)
validate_config_iff_example = validate_config_iff (config_of env read loaded)

load_tenants-ok_example :
    ((codes "f" ≡ []) × (loaded ≡ []))
    ⊎ ((ts : List Tenant) × (read (codes "f") ≡ ok ts)
        × (loaded ≡ listed env ts)
        × (loaded ≢ [])
        × HasDistinctKeys loaded
        × All IsEntry loaded)
unfolding load_tenants text_eq add_tenants conn_of validate_tenant Dict.get Dict.put
load_tenants-ok_example = load_tenants-ok env read (codes "f") loaded refl

pub env-load : load env read ≡ ok (config_of env read loaded)
unfolding load text_eq conn_of tenants_of load_tenants add_tenants validate_tenant Dict.get Dict.put
    validate config_of parse_int atoi parse_seconds seconds int64 ◌*ℤ◌
env-load = refl

load-IsValid_example :
    IsValid (config_of env read loaded)
    × (tenants_of env read ≡ ok (config_of env read loaded).tenants)
load-IsValid_example = load-IsValid env read (config_of env read loaded) env-load

parse_seconds_lem_example :
    let v = parse_seconds env (codes "DUCKLAKE_CYCLE_INTERVAL") (pos 1) in
    (v ≡ pos 300000000000)
    × (pos 1 ≤ℤ pos 300 → IsInt64 (pos 300 *ℤ pos 1000000000) → v ≡ pos 300 *ℤ pos 1000000000)
unfolding text_eq format_int int64 ◌*ℤ◌
parse_seconds_lem_example =
    parse_seconds_lem env (codes "DUCKLAKE_CYCLE_INTERVAL") (pos 1) (pos 300) refl
