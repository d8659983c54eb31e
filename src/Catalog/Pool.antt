-- ===== src/Catalog/Pool.antt =====
-- `Open`, `Close` and `Stat` of catalog.go. pgxpool is a parameter; the pools that the code creates and
-- closes are kept as a list of calls.
use ducklake_metrics_daemon.Prelude.{
  ℕ, suc, ◌≡◌, refl, Option, none, some, List, [], ◌∷◌, ◌++◌, arith, Option-cases, inl, inr,
}
use ducklake_metrics_daemon.Prelude.Int.{ℤ, pos}
use ducklake_metrics_daemon.Prelude.Text.{Text, codes}
use ducklake_metrics_daemon.Prelude.Result.{Result, ok, err, Result-cases}
use ducklake_metrics_daemon.Catalog.{Stats}
use ducklake_metrics_daemon.Catalog.Dsn.{Conn, dsn}

-- What `Open` sets on a parsed configuration.
pub record PoolConfig (Parsed : Type 0) : Type 0 where
  pub parsed : Parsed
  pub max_conns : ℕ
  pub min_conns : ℕ
  pub max_conn_idle_time : ℤ
  pub application_name : Text

-- `ParseConfig`, `NewWithConfig`, `Ping` within ten seconds, and `Stat`; an error is its text.
pub record Pgxpool : Type 1 where
  pub Parsed : Type 0
  pub Pool : Type 0
  pub parse_config : Text → Result Text Parsed
  pub new_with_config : PoolConfig Parsed → Result Text Pool
  pub ping : Pool → Option Text
  pub stat : Pool → Stats

pub data OpenError : Type 0 where
  bad_config : Text → Text → OpenError
  no_pool : Text → Text → OpenError
  no_ping : Text → Text → OpenError

module _ (g : Pgxpool) where
  pub data Call : Type 0 where
    created : g.Pool → Call
    closed : g.Pool → Call

  -- `pool` is `none` for a nil pool.
  pub record Catalog : Type 0 where
    pub tenant : Text
    pub pool : Option g.Pool

  unfoldable pub pool_config : Text → g.Parsed → PoolConfig g.Parsed
  pool_config tenant parsed = record {
    parsed = parsed;
    max_conns = 4;
    min_conns = 0;
    max_conn_idle_time = pos 300000000000;
    application_name = codes "ducklake-metrics-daemon/" ++ tenant;
  }

  -- After `Ping`.
  abbrev pub pinged : Text → g.Pool → Option Text → Result OpenError Catalog × List Call
  pinged tenant pool (some e) = (err (no_ping tenant e), created pool ∷ closed pool ∷ [])
  pinged tenant pool none = (ok (record { tenant = tenant; pool = some pool }), created pool ∷ [])

  abbrev pub with_pool : Text → Result Text g.Pool → Result OpenError Catalog × List Call
  with_pool tenant (err e) = (err (no_pool tenant e), [])
  with_pool tenant (ok pool) = pinged tenant pool (g.ping pool)

  abbrev pub with_parsed : Text → Result Text g.Parsed → Result OpenError Catalog × List Call
  with_parsed tenant (err e) = (err (bad_config tenant e), [])
  with_parsed tenant (ok parsed) = with_pool tenant (g.new_with_config (pool_config tenant parsed))

  unfoldable pub open_catalog : Text → Conn → Result OpenError Catalog × List Call
  open_catalog tenant c = with_parsed tenant (g.parse_config (dsn c))

  -- A nil catalog or a nil pool is left alone.
  unfoldable pub close : Option Catalog → List Call
  close none = []
  close (some c) = elim c.pool [ none ↦ [] | some pool ↦ closed pool ∷ [] ]

  abbrev zero_stats : Stats
  zero_stats = record {
    acquired_conns = pos 0;
    idle_conns = pos 0;
    total_conns = pos 0;
    empty_acquire_count = pos 0;
  }

  unfoldable pub stat : Option Catalog → Stats
  stat none = zero_stats
  stat (some c) = elim c.pool [ none ↦ zero_stats | some pool ↦ g.stat pool ]

  abbrev pub count_created : List Call → ℕ
  count_created [] = 0
  count_created (created p ∷ cs) = suc (count_created cs)
  count_created (closed p ∷ cs) = count_created cs

  abbrev pub count_closed : List Call → ℕ
  count_closed [] = 0
  count_closed (created p ∷ cs) = count_closed cs
  count_closed (closed p ∷ cs) = suc (count_closed cs)

  -- The catalog of a result, nil for an error.
  abbrev pub opened : Result OpenError Catalog → Option Catalog
  opened (err e) = none
  opened (ok c) = some c

  -- What `Open` answers, and the pool that it used.
  pub record IsOpen (tenant : Text) (c : Conn) (cat : Catalog) : Type 0 where
    pub parsed : g.Parsed
    pub pool : g.Pool
    pub from_dsn : g.parse_config (dsn c) ≡ ok parsed
    pub made : g.new_with_config (pool_config tenant parsed) ≡ ok pool
    pub reachable : g.ping pool ≡ none
    pub is_catalog : cat ≡ record { tenant = tenant; pool = some pool }

  -- A catalog that `Open` returns has a pool that answered the ping, made from the connection string of
  -- the tenant; whatever happens, every pool that `Open` creates is closed, by `Open` itself on an error
  -- and else by `Close` on its result.
  pub open_catalog_lem :
      (tenant : Text) (c : Conn)
      → let (r, calls) = open_catalog tenant c in
        ((cat : Catalog) → r ≡ ok cat → IsOpen tenant c cat)
        × (count_closed (calls ++ close (opened r)) ≡ count_created (calls ++ close (opened r)))
        × ((e : OpenError) → r ≡ err e → count_closed calls ≡ count_created calls)
  unfolding open_catalog close
  open_catalog_lem tenant c = elim (Result-cases (g.parse_config (dsn c))) [
    | inl (e, h) ↦ rw h (λ cat b. cc b, refl, λ e b. refl)
    | inr (parsed, h) ↦ elim (Result-cases (g.new_with_config (pool_config tenant parsed))) [
      | inl (e, k) ↦ rw (h, k) (λ cat b. cc b, refl, λ e b. refl)
      | inr (pool, k) ↦ elim (Option-cases (g.ping pool)) [
        | inr (e, l) ↦ rw (h, k, l) (λ cat b. cc b, refl, λ e b. refl)
        | inl l ↦
            rw (h, k, l)
              (
                λ cat b. record {
                  parsed = parsed;
                  pool = pool;
                  from_dsn = h;
                  made = k;
                  reachable = l;
                  is_catalog = ground (arith, b);
                },
                refl,
                λ e b. cc b,
              )
      ]
    ]
  ]
