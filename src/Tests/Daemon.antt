-- ===== src/Tests/Daemon.antt =====
-- Examples for main.go.
use ducklake_metrics_daemon.Prelude.{
  ℕ, ◌≡◌, refl, Bool, true, false, Option, none, some, List, [], ◌∷◌,
}
use ducklake_metrics_daemon.Prelude.Int.{pos, ◌+ℤ◌}
use ducklake_metrics_daemon.Prelude.Text.{Text, codes}
use ducklake_metrics_daemon.Prelude.Dict
use ducklake_metrics_daemon.Prelude.Result.{ok}
use ducklake_metrics_daemon.Metrics.{self, up}
use ducklake_metrics_daemon.Publisher.Outcome.{done, panicked, final}
use ducklake_metrics_daemon.Queries.{Query, load_builtins, load_file}
use ducklake_metrics_daemon.Queries.Merge.{merge}
use ducklake_metrics_daemon.Config.{config_of}
use ducklake_metrics_daemon.Daemon.{
  ConnectError, Connecting, connected, connect_with_backoff, list_queries,
}
use ducklake_metrics_daemon.Daemon.Backoff.{
  then_opens, failures, count_reason, connect_with_backoff_lem,
}
use ducklake_metrics_daemon.Daemon.Listing.{list_queries_lem}
use ducklake_metrics_daemon.Daemon.Tenant.{run_tenant, run_tenant_lem}
use ducklake_metrics_daemon.Tests.Client.{client, client_laws, no_series}
use ducklake_metrics_daemon.Tests.Queries.{files, rows}
use ducklake_metrics_daemon.Tests.Config.{env, read}

abbrev bad_password : ConnectError
bad_password = record {
  pg_code = some (codes "28P01");
  deadline_exceeded = false;
  net_op = none;
  dns = false;
}

abbrev slow : ConnectError
slow = record { pg_code = none; deadline_exceeded = true; net_op = none; dns = false }

connect_with_backoff_lem_example :
    (c : Connecting client) × (connect_with_backoff client
        (codes "t")
        (then_opens (slow ∷ bad_password ∷ slow ∷ []))
        no_series
      ≡ done (c, connected))
    × (c.waits ≡ 1 ∷ 2 ∷ 4 ∷ [])
    × ((r : Text)
        → failures client client_laws (codes "t") r c.store
          ≡ pos 0 +ℤ pos (count_reason r (slow ∷ bad_password ∷ slow ∷ [])))
connect_with_backoff_lem_example =
    connect_with_backoff_lem client client_laws (codes "t") (slow ∷ bad_password ∷ slow ∷ [])
      no_series (refl, (refl, (refl, tt)))

abbrev pub unmarshal : Text → Option (List Query)
unmarshal d = some (files ∷ rows ∷ [])

abbrev pub read_file : Text → Option Text
read_file path = some (codes "queries: []")

list_queries_lem_example :
    list_queries unmarshal [] read_file env
    ≡ ok (merge (files ∷ rows ∷ []) (files ∷ rows ∷ []) (config_of env read []).disabled_queries)
unfolding load_builtins ducklake_metrics_daemon.Queries.load
    ducklake_metrics_daemon.Queries.validate load_file config_of
    ducklake_metrics_daemon.Prelude.Text.text_eq
list_queries_lem_example =
    list_queries_lem unmarshal [] read_file env read [] (files ∷ rows ∷ []) (files ∷ rows ∷ []) refl
      refl

-- The state after one failed attempt.
abbrev after_slow : Connecting client
after_slow = (final (connect_with_backoff client (codes "t") (then_opens (slow ∷ [])) no_series)).0

-- The scheduler panics.
run_tenant_lem_example :
    let l' = final (
      run_tenant client
        (codes "t")
        (then_opens (slow ∷ []))
        (λ s. panicked s)
        (record { store = no_series; ready = [] })) in
    (client.read l'.store (self up) (codes "t" ∷ []) ≡ some (pos 0))
    × (Dict.get l'.ready (codes "t") ≡ some true)
unfolding connect_with_backoff ducklake_metrics_daemon.Publisher.Outcome.inc
run_tenant_lem_example =
    run_tenant_lem client client_laws (codes "t") (then_opens (slow ∷ [])) (λ s. panicked s)
      (record { store = no_series; ready = [] }) after_slow refl refl
