-- ===== src/Daemon/Startup/Shows.antt =====
-- From the environment to the gauges: main.go composes config.go, queries.go, metrics.go and
-- publisher.go.
use ducklake_metrics_daemon.Prelude.{
  ◌≡◌, ◌≢◌, refl, sym, subst, Bool, true, Option, none, some, List, [], arith, All, Option-cases,
  inl, inr,
}
use ducklake_metrics_daemon.Prelude.Text.{Text}
use ducklake_metrics_daemon.Prelude.Sort.{find, IsDistinct, IsAscending-IsDistinct}
use ducklake_metrics_daemon.Prelude.Result
use ducklake_metrics_daemon.Prelude.Result.{ok, err, Result-cases}
use ducklake_metrics_daemon.Config
use ducklake_metrics_daemon.Config.Tenants.{Tenant}
use ducklake_metrics_daemon.Config.Loading.{IsValid, load-IsValid}
use ducklake_metrics_daemon.Queries.{Query, load_builtins, load_file}
use ducklake_metrics_daemon.Queries.Merge.{name_of, merge, merge-IsAscending}
use ducklake_metrics_daemon.Metrics.{gauge}
use ducklake_metrics_daemon.Metrics.Register.{gauge_name, Registered, register}
use ducklake_metrics_daemon.Extern.{Extern, Laws}
use ducklake_metrics_daemon.Publisher.State
use ducklake_metrics_daemon.Publisher.Run.{Event, on_panic, run}
use ducklake_metrics_daemon.Publisher.Board.{declares, replay, empty_board}
use ducklake_metrics_daemon.Publisher.Board.Accepted.{
  TakesTexts, EventHasPlainLabels, EventFits-of_plain,
}
use ducklake_metrics_daemon.Publisher.Board.Refines.{run_shows}
use ducklake_metrics_daemon.Daemon.Startup.{Daemon, started, livenesses_of, sorted_keys, start}

module _ (x : Extern) (is_valid : Text → List Text → Bool) (unmarshal : Text → Option (List Query))
    (builtin_yaml : Text) (read_file : Text → Option Text) (store : x.Store) (env : Text → Text)
    (read : Text → Result.Result Text (List Tenant)) where
  -- What a started daemon went through.
  pub record Came (d : Daemon x) : Type 0 where
    pub loaded : Config.load env read ≡ ok d.config
    pub builtins : List Query
    pub user : List Query
    pub builtin : load_builtins unmarshal builtin_yaml ≡ ok builtins
    pub users : load_file unmarshal read_file d.config.user_queries_path ≡ ok user
    pub merged : d.queries ≡ merge builtins user d.config.disabled_queries
    pub reg : Registered
    pub registered : register is_valid d.queries ≡ some reg
    pub publisher : d.publisher ≡ State.new x reg.gauges d.queries store

  pub start-started :
      (d : Daemon x)
      → start x is_valid unmarshal builtin_yaml read_file store env read ≡ started d
      → Came d
  unfolding start
  start-started d h = elim (Result-cases (Config.load env read)) [
    | inl (e, a) ↦ absurd (ground (arith, a, h))
    | inr (cfg, a) ↦ elim (Result-cases (load_builtins unmarshal builtin_yaml)) [
      | inl (e, b) ↦ absurd (ground (arith, a, b, h))
      | inr (bs, b) ↦ elim (Result-cases (load_file unmarshal read_file cfg.user_queries_path)) [
        | inl (e, c) ↦ absurd (ground (arith, a, b, c, h))
        | inr (us, c) ↦
            let qs = merge bs us cfg.disabled_queries in
            elim (Option-cases (register is_valid qs)) [
              | inl f ↦ absurd (ground (arith, a, b, c, f, h))
              | inr (reg, f) ↦
                  let here : Daemon x = record {
                    config = cfg;
                    queries = qs;
                    tenant_ids = sorted_keys cfg.tenants;
                    livenesses = livenesses_of cfg.cycle_interval cfg.tenants [];
                    ready = [];
                    publisher = State.new x reg.gauges qs store;
                  } in
                  let e : here ≡ d = ground (arith, a, b, c, f, h) in
                  subst Came e (record {
                    loaded = a;
                    builtins = bs;
                    user = us;
                    builtin = b;
                    users = c;
                    merged = refl;
                    reg = reg;
                    registered = f;
                    publisher = refl;
                  })
            ]
      ]
    ]
  ]

-- When the start succeeds, with a client that shows no series of a query's gauge and that takes every
-- right number of valid texts as label values: the configuration is valid; and for every sequence of
-- messages whose labels are valid texts without a NUL byte, the publisher does not end on a panic, and
-- every gauge of every query of the daemon shows for every label tuple what the board shows that the
-- messages it has read tell.
pub daemon_shows :
    (x : Extern) (law : Laws x) (is_valid : Text → List Text → Bool)
    (unmarshal : Text → Option (List Query)) (builtin_yaml : Text) (read_file : Text → Option Text)
    (store : x.Store) (env : Text → Text) (read : Text → Result.Result Text (List Tenant))
    (d : Daemon x) (P : Text → Type 0) (es : List (Event x))
    → start x is_valid unmarshal builtin_yaml read_file store env read ≡ started d
    → ((g : Text) (ks : List Text) → x.read store (gauge g) ks ≡ none)
    → TakesTexts x d.queries P
    → All (EventHasPlainLabels x d.queries P) es
    → IsValid d.config
      × ((run x es d.publisher).0 ≢ on_panic)
      × ((n : Text) (q : Query)
          → find name_of d.queries n ≡ some q
          → (v : Text) → declares q v ≡ true
          → (ks : List Text)
          → x.read (run x es d.publisher).1.store (gauge (gauge_name n v)) ks
            ≡ replay x d.queries es (empty_board x) n v ks)
daemon_shows x law is_valid unmarshal builtin_yaml read_file store env read d P es h clear takes
      plain =
    let c = start-started x is_valid unmarshal builtin_yaml read_file store env read d h in
    let distinct : IsDistinct name_of d.queries = subst (IsDistinct name_of) (sym c.merged) (
      IsAscending-IsDistinct name_of (merge c.builtins c.user d.config.disabled_queries)
        (merge-IsAscending c.builtins c.user d.config.disabled_queries)) in
    let fits = EventFits-of_plain x d.queries P es takes plain in
    let (calm, shown) =
      run_shows x law is_valid d.queries c.reg store es distinct c.registered clear fits in
    ((load-IsValid env read d.config c.loaded).0, rw c.publisher calm, rw c.publisher shown)
