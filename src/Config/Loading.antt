-- ===== src/Config/Loading.antt =====
-- What a loaded configuration guarantees (config.go, tenants.go).
use ducklake_metrics_daemon.Config.Tenants.Loaded.{IsComplete}
use ducklake_metrics_daemon.Prelude.{
  ◌++◌, ◌≡◌, ◌≢◌, ◌↔◌, refl, true, false, List, [], ◌∷◌, arith, is_empty, is_empty_iff,
  if◌then◌else◌,
}
use ducklake_metrics_daemon.Prelude.Int.{pos, ◌≤ℤ◌, ◌<ℤ◌}
use ducklake_metrics_daemon.Prelude.Text.{Text}
use ducklake_metrics_daemon.Prelude.Result.{Result, ok, >>=-eq-ok}
use ducklake_metrics_daemon.Config.Tenants.{Tenant}
use ducklake_metrics_daemon.Config.{
  Config, SingleTenant, validate, need, missing_of, single_tenant, load_single_tenant, tenants_of,
  config_of, load,
}

pub record IsValid (c : Config) : Type 0 where
  pub tenants : c.tenants ≢ []
  pub port_low : pos 1 ≤ℤ c.http_port
  pub port_high : c.http_port ≤ℤ pos 65535
  pub timeout : c.query_timeout <ℤ c.cycle_interval
  pub rows : pos 0 ≤ℤ c.max_query_rows

validate-IsValid : (c d : Config) → validate c ≡ ok d → IsValid c × (d ≡ c)
unfolding validate
validate-IsValid c d h = (
  record {
    tenants = ground (arith, is_empty_iff c.tenants);
    port_low = ground arith;
    port_high = ground arith;
    timeout = ground arith;
    rows = ground arith;
  },
  ground arith,
)

IsValid-validate : (c : Config) → IsValid c → validate c ≡ ok c
unfolding validate
IsValid-validate c h = ground (arith, is_empty_iff c.tenants)

-- Validation returns the configuration unchanged exactly when it has a tenant, a port from 1 to
-- 65535, a query timeout below the cycle interval and a row cap that is not negative.
pub validate_config_iff : (c : Config) → (validate c ≡ ok c) ↔ IsValid c
validate_config_iff c = (λ h. (validate-IsValid c c h).0, IsValid-validate c)

is_empty-append : (xs : List Text) (n : Text) → is_empty (xs ++ n ∷ []) ≡ false
is_empty-append [] n = refl
is_empty-append (x ∷ xs) n = refl

is_empty-need :
    (v n : Text) (ms : List Text)
    → is_empty (need v n ms) ≡ (if is_empty v then false else is_empty ms)
unfolding need
is_empty-need v n ms = ground (arith, is_empty-append ms n)

is_empty-missing_of_lem :
    (t : SingleTenant)
    → is_empty (missing_of t) ≡ (
        if is_empty t.conn.password
        then false
        else if is_empty t.conn.username
        then false
        else if is_empty t.conn.database
        then false
        else if is_empty t.conn.host
        then false
        else if is_empty t.id
        then false
        else true)
unfolding missing_of
is_empty-missing_of_lem t = simp is_empty-need

is_empty-missing_of :
    (t : SingleTenant) → (is_empty (missing_of t) ≡ true) ↔ ((t.id ≢ []) × IsComplete t.conn)
is_empty-missing_of t = (
  λ h. (
    ground (arith, h, is_empty-missing_of_lem t, is_empty_iff t.id),
    record {
      host = ground (arith, h, is_empty-missing_of_lem t, is_empty_iff t.conn.host);
      database = ground (arith, h, is_empty-missing_of_lem t, is_empty_iff t.conn.database);
      username = ground (arith, h, is_empty-missing_of_lem t, is_empty_iff t.conn.username);
      password = ground (arith, h, is_empty-missing_of_lem t, is_empty_iff t.conn.password);
    },
  ),
  λ (h, c). ground (
    arith,
    is_empty-missing_of_lem t,
    is_empty_iff t.id,
    is_empty_iff t.conn.host,
    is_empty_iff t.conn.database,
    is_empty_iff t.conn.username,
    is_empty_iff t.conn.password,
  ),
)

-- The single tenant that the variables describe is loaded exactly when its id, host, database, user
-- name and password are all set.
load_single_tenant_iff :
    (env : Text → Text)
    → let t = single_tenant env in
      (load_single_tenant env ≡ ok t) ↔ ((t.id ≢ []) × IsComplete t.conn)
unfolding load_single_tenant
load_single_tenant_iff env = ground (arith, is_empty-missing_of (single_tenant env))

-- A loaded configuration is valid, as `validate` demands, and its tenants are the loaded ones.
pub load-IsValid :
    (env : Text → Text) (read : Text → Result Text (List Tenant)) (c : Config)
    → load env read ≡ ok c
    → IsValid c × (tenants_of env read ≡ ok c.tenants)
unfolding load config_of
load-IsValid env read c h =
    let (ts, v, e) = >>=-eq-ok (λ ts. validate (config_of env read ts)) (tenants_of env read) h in
    let (valid, same) = validate-IsValid (config_of env read ts) c v in rw same (valid, e)
