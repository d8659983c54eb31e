-- ===== src/Config/Tenants.antt =====
-- internal/config/tenants.go: the tenants file.
pub mod Loaded
use ducklake_metrics_daemon.Prelude.{
  ℕ, suc, Bool, true, false, ◌&&◌, ◌||◌, Option, none, some, List, [], ◌∷◌, leb, ◌==◌, is_empty,
  if◌then◌else◌,
}
use ducklake_metrics_daemon.Prelude.Int.{ℤ, pos, negsuc}
use ducklake_metrics_daemon.Prelude.Text.{Text}
use ducklake_metrics_daemon.Prelude.Dict
use ducklake_metrics_daemon.Prelude.Dict.{Dict}
use ducklake_metrics_daemon.Prelude.Result.{Result, ok, err}
use ducklake_metrics_daemon.Catalog.Dsn.{Conn}

pub record Tenant : Type 0 where
  pub id : Text
  pub host : Text
  pub port : ℤ
  pub database : Text
  pub username : Text
  pub password_env : Text

pub data TenantError : Type 0 where
  bad_id no_host no_database no_username no_password_env : TenantError

pub data TenantsError : Type 0 where
  unreadable : Text → TenantsError
  no_entries : TenantsError
  invalid : ℕ → Text → TenantError → TenantsError
  duplicate : ℕ → Text → TenantsError
  no_password : ℕ → Text → Text → TenantsError

is_alnum : ℕ → Bool
is_alnum c = (leb b'a' c && leb c b'z') || (leb b'0' c && leb c b'9')

id_tail : Text → Bool
unfolding is_alnum
id_tail [] = true
id_tail (c ∷ s) = (is_alnum c || c == b'_' || c == b'-') && id_tail s

-- tenantIDRE, `^[a-z0-9][a-z0-9_-]*$`
unfoldable pub tenant_id_re : Text → Bool
unfolding id_tail
tenant_id_re [] = false
tenant_id_re (c ∷ s) = is_alnum c && id_tail s

-- `none` is the nil error.
unfoldable pub validate_tenant : Tenant → Option TenantError
unfolding tenant_id_re
validate_tenant t =
    if tenant_id_re t.id
    then if is_empty t.host
      then some no_host
      else if is_empty t.database
      then some no_database
      else if is_empty t.username
      then some no_username
      else if is_empty t.password_env
      then some no_password_env
      else none
    else some bad_id

unfoldable pub conn_of : Tenant → Text → Conn
conn_of t password = record {
  host = t.host;
  port = elim t.port [ pos n ↦ if n == 0 then pos 5432 else pos n | negsuc n ↦ negsuc n ];
  database = t.database;
  username = t.username;
  password = password;
}

-- The checks of one round of the loop: an error, or the entry of the map.
unfoldable pub check_tenant :
    ℕ → Tenant → Bool → Text → Option TenantError → Result TenantsError Conn
check_tenant i t dup password (some e) = err (invalid i t.id e)
check_tenant i t dup password none =
    if dup
    then err (duplicate i t.id)
    else if is_empty password
    then err (no_password i t.id t.password_env)
    else ok (conn_of t password)

abbrev pub is_some : Option Conn → Bool
is_some none = false
is_some (some c) = true

abbrev pub and_then :
    Result TenantsError Conn
    → (Conn → Result TenantsError (Dict Conn))
    → Result TenantsError (Dict Conn)
and_then (err e) k = err e
and_then (ok c) k = k c

module _ (env : Text → Text) where
  -- The loop, from the index `i`.
  unfoldable pub add_tenants : ℕ → List Tenant → Dict Conn → Result TenantsError (Dict Conn)
  unfolding check_tenant
  add_tenants i [] out = ok out
  add_tenants i (t ∷ ts) out =
      and_then
        (check_tenant i t (is_some (Dict.get out t.id)) (env t.password_env) (validate_tenant t))
        (λ c. add_tenants (suc i) ts (Dict.put out t.id c))

  unfoldable pub parsed : Result Text (List Tenant) → Result TenantsError (Dict Conn)
  parsed (err e) = err (unreadable e)
  parsed (ok []) = err no_entries
  parsed (ok (t ∷ ts)) = add_tenants 0 (t ∷ ts) []

  -- `read` reads the file and parses it.
  unfoldable pub load_tenants :
      (Text → Result Text (List Tenant)) → Text → Result TenantsError (Dict Conn)
  unfolding parsed
  load_tenants read path = if is_empty path then ok [] else parsed (read path)
