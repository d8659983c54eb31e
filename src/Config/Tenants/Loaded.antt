-- ===== src/Config/Tenants/Loaded.antt =====
-- What a loaded tenants file guarantees (tenants.go).
use ducklake_metrics_daemon.Prelude.{
  ap, zero, ◌==◌, if◌then◌else◌, ◌⊎◌, subst, inl, inr, ◌++◌, append_assoc, append-nil, ℕ, suc, ◌≡◌,
  ◌≢◌, refl, Bool, true, none, List, [], ◌∷◌, arith, All, is_empty_iff, Option-cases,
}
use ducklake_metrics_daemon.Prelude.Int.{ℤ, pos, negsuc}
use ducklake_metrics_daemon.Prelude.Text.{Text}
use ducklake_metrics_daemon.Prelude.Dict
use ducklake_metrics_daemon.Prelude.Dict.{Dict, HasDistinctKeys, HasDistinctKeys-put, All-put}
use ducklake_metrics_daemon.Prelude.Result.{Result, ok, err}
use ducklake_metrics_daemon.Catalog.Dsn.{Conn}
use ducklake_metrics_daemon.Config.Tenants.{
  parsed, is_some, and_then, Tenant, TenantsError, tenant_id_re, validate_tenant, conn_of,
  check_tenant, add_tenants, load_tenants,
}

-- The connection inputs that must be present are.
pub record IsComplete (c : Conn) : Type 0 where
  pub host : c.host ≢ []
  pub database : c.database ≢ []
  pub username : c.username ≢ []
  pub password : c.password ≢ []

conn_of-IsComplete :
    (t : Tenant) (p : Text) → validate_tenant t ≡ none → p ≢ [] → IsComplete (conn_of t p)
unfolding validate_tenant conn_of
conn_of-IsComplete t p h hp = record {
  host = ground (arith, is_empty_iff t.host);
  database = ground (arith, is_empty_iff t.database);
  username = ground (arith, is_empty_iff t.username);
  password = hp;
}

validate_tenant-id : (t : Tenant) → validate_tenant t ≡ none → tenant_id_re t.id ≡ true
unfolding validate_tenant
validate_tenant-id t h = ground arith

-- An entry of the map: an id of the pattern, with complete connection inputs.
abbrev pub IsEntry : Text × Conn → Type 0
IsEntry e = (tenant_id_re e.0 ≡ true) × IsComplete e.1

check_tenant-ok :
    (i : ℕ) (t : Tenant) (dup : Bool) (p : Text) (c : Conn)
    → check_tenant i t dup p (validate_tenant t) ≡ ok c
    → IsEntry (t.id, c)
unfolding check_tenant
check_tenant-ok i t dup p c h = elim (Option-cases (validate_tenant t)) [
  | inl e ↦
      let same : conn_of t p ≡ c = ground (arith, e, h) in
      (
        validate_tenant-id t e,
        subst (λ d. IsComplete d) same
            (conn_of-IsComplete t p e (ground (arith, e, h, is_empty_iff p))),
      )
  | inr (r, e) ↦ cc (e, h)
]

and_then-ok :
    (r : Result TenantsError Conn) (k : Conn → Result TenantsError (Dict Conn)) (m : Dict Conn)
    → and_then r k ≡ ok m
    → (c : Conn) × (r ≡ ok c) × (k c ≡ ok m)
and_then-ok (ok c) k m h = (c, refl, h)
and_then-ok (err e) k m h = cc

add_tenants-IsEntry :
    (env : Text → Text) (i : ℕ) (ts : List Tenant) (out m : Dict Conn)
    → All IsEntry out
    → add_tenants env i ts out ≡ ok m
    → All IsEntry m
unfolding add_tenants
add_tenants-IsEntry env i [] out m h e = subst (λ n. All IsEntry n) (ground (arith, e)) h
add_tenants-IsEntry env i (t ∷ ts) out m h e =
    let (c, ec, em) =
      and_then-ok
        (check_tenant i t (is_some (Dict.get out t.id)) (env t.password_env) (validate_tenant t))
        (λ c. add_tenants env (suc i) ts (Dict.put out t.id c)) m e in
    add_tenants-IsEntry env (suc i) ts (Dict.put out t.id c) m
      (All-put IsEntry out t.id c h
        (check_tenant-ok i t (is_some (Dict.get out t.id)) (env t.password_env) c ec))
      em

-- The port of PostgreSQL where the file has none.
abbrev pub port_of : ℤ → ℤ
port_of (pos zero) = pos 5432
port_of (pos (suc n)) = pos (suc n)
port_of (negsuc n) = negsuc n

-- A tenant of the file: its id and its connection inputs.
abbrev pub entry_of : (Text → Text) → Tenant → Text × Conn
entry_of env t = (
  t.id,
  record {
    host = t.host;
    port = port_of t.port;
    database = t.database;
    username = t.username;
    password = env t.password_env;
  },
)

-- The tenants in the order of the file.
abbrev pub listed : (Text → Text) → List Tenant → Dict Conn
listed env [] = []
listed env (t ∷ ts) = entry_of env t ∷ listed env ts

port-conn_of : (t : Tenant) (p : Text) → (conn_of t p).port ≡ port_of t.port
unfolding conn_of
port-conn_of t p = go t.port
  where
    go :
        (z : ℤ)
        → elim z [ pos n ↦ if n == 0 then pos 5432 else pos n | negsuc n ↦ negsuc n ] ≡ port_of z
    go (pos zero) = refl
    go (pos (suc n)) = ground arith
    go (negsuc n) = refl

entry_of-conn_of :
    (env : Text → Text) (t : Tenant) → (t.id, conn_of t (env t.password_env)) ≡ entry_of env t
unfolding conn_of
entry_of-conn_of env t =
    ap
      (λ z. (
        t.id,
        record {
          host = t.host;
          port = z;
          database = t.database;
          username = t.username;
          password = env t.password_env;
        },
      ))
      (port-conn_of t (env t.password_env))

put_new :
    (m : Dict Conn) (k : Text) (c : Conn) → Dict.get m k ≡ none → Dict.put m k c ≡ m ++ (k, c) ∷ []
unfolding Dict.get Dict.put
put_new [] k c h = refl
put_new ((j, d) ∷ m) k c h = ground (arith, h, put_new m k c)

check_tenant-new :
    (i : ℕ) (t : Tenant) (out : Dict Conn) (p : Text) (c : Conn)
    → check_tenant i t (is_some (Dict.get out t.id)) p (validate_tenant t) ≡ ok c
    → (Dict.get out t.id ≡ none) × (conn_of t p ≡ c)
unfolding check_tenant
check_tenant-new i t out p c h = elim (Option-cases (validate_tenant t)) [
  | inl e ↦ (ground (arith, e, h), ground (arith, e, h))
  | inr (r, e) ↦ cc (e, h)
]

add_tenants-listed :
    (env : Text → Text) (i : ℕ) (ts : List Tenant) (out m : Dict Conn)
    → HasDistinctKeys out
    → add_tenants env i ts out ≡ ok m
    → (m ≡ out ++ listed env ts) × HasDistinctKeys m
unfolding add_tenants
add_tenants-listed env i [] out m d e =
    let same : out ≡ m = ground (arith, e) in
    (ground (arith, same, append-nil out), subst (λ n. HasDistinctKeys n) same d)
add_tenants-listed env i (t ∷ ts) out m d e =
    let (c, ec, em) =
      and_then-ok
        (check_tenant i t (is_some (Dict.get out t.id)) (env t.password_env) (validate_tenant t))
        (λ c. add_tenants env (suc i) ts (Dict.put out t.id c)) m e in
    let (new, same) = check_tenant-new i t out (env t.password_env) c ec in
    let (h, hd) =
      add_tenants-listed env (suc i) ts (Dict.put out t.id c) m (HasDistinctKeys-put out t.id c d)
        em in
    (
      ground (
        arith,
        h,
        same,
        entry_of-conn_of env t,
        put_new out t.id c new,
        append_assoc out ((t.id, c) ∷ []) (listed env ts),
      ),
      hd,
    )

parsed-ok :
    (env : Text → Text) (r : Result Text (List Tenant)) (m : Dict Conn)
    → parsed env r ≡ ok m
    → (ts : List Tenant) × (r ≡ ok ts)
      × (m ≡ listed env ts)
      × (m ≢ [])
      × HasDistinctKeys m
      × All IsEntry m
unfolding parsed
parsed-ok env (err e) m h = cc
parsed-ok env (ok []) m h = cc
parsed-ok env (ok (t ∷ ts)) m h =
    let (same, distinct) = add_tenants-listed env 0 (t ∷ ts) [] m tt h in
    (t ∷ ts, refl, same, λ e. cc (e, same), distinct, add_tenants-IsEntry env 0 (t ∷ ts) [] m tt h)

-- Without a path there is no tenant and no error. A tenants file that loads gives one entry for each of its tenants, in order, with the password of
-- its variable and the port 5432 in place of 0; there is at least one, no id stands twice, every id
-- matches the pattern, and no host, database, user name or password is empty.
pub load_tenants-ok :
    (env : Text → Text) (read : Text → Result Text (List Tenant)) (path : Text) (m : Dict Conn)
    → load_tenants env read path ≡ ok m
    → ((path ≡ []) × (m ≡ []))
      ⊎ ((ts : List Tenant) × (read path ≡ ok ts)
          × (m ≡ listed env ts)
          × (m ≢ [])
          × HasDistinctKeys m
          × All IsEntry m)
unfolding load_tenants
load_tenants-ok env read [] m h = inl (refl, ground (arith, h))
load_tenants-ok env read (c ∷ path) m h = inr (parsed-ok env (read (c ∷ path)) m h)
