-- ===== src/Tests/Publisher.antt =====
-- Examples for the messages of the publisher (publisher.go).
use ducklake_metrics_daemon.Prelude.{
  ◌≤◌, ◌≡◌, ◌≢◌, refl, inl, inr, Bool, true, false, ◌&&◌, ◌||◌, Option, none, some, List, [], ◌∷◌,
  All, arith, if◌then◌else◌, ℕ, any,
}
use ducklake_metrics_daemon.Prelude.Int.{pos, ◌+ℤ◌, ◌-ℤ◌}
use ducklake_metrics_daemon.Prelude.Text.{Text, codes, text_eq}
use ducklake_metrics_daemon.Prelude.Dict
use ducklake_metrics_daemon.Prelude.Dict.{Dict, HasDistinctKeys}
use ducklake_metrics_daemon.Metrics.{Metric, self, metric_eq, query_errors_total}
use ducklake_metrics_daemon.Extern.{same_series}
use ducklake_metrics_daemon.Catalog.{QueryError, query_failed}
use ducklake_metrics_daemon.Publisher.Outcome.{done, final}
use ducklake_metrics_daemon.Publisher.State.{Publisher, Result, kind_query, new}
use ducklake_metrics_daemon.Publisher.Apply.{apply_query}
use ducklake_metrics_daemon.Publisher.Pool.{is_seen, baseline}
use ducklake_metrics_daemon.Publisher.Reset.{reset_tenant_gauges, tenant_label}
use ducklake_metrics_daemon.Publisher.Run.{run, received, canceled}
use ducklake_metrics_daemon.Publisher.Tenancy.Runs.{run_isolated}
use ducklake_metrics_daemon.Publisher.Counting.{IsCount, observe, observe_lem, counted}
use ducklake_metrics_daemon.Publisher.Failures.{
  query_error, apply_query_failed, apply_query_unknown,
}
use ducklake_metrics_daemon.Publisher.Clearing.{read-reset}
use ducklake_metrics_daemon.Runner.Cycle.{no_stats}
use ducklake_metrics_daemon.Tests.Client.{client, client_laws}
use ducklake_metrics_daemon.Tests.Snapshot.{files_v, acme, table, fresh, after_first}

-- A result of the query `files`, and one of a query that failed.
abbrev result : Text → Option QueryError → Result client
result tenant error = record {
  kind = kind_query;
  tenant = tenant;
  query = codes "files";
  rows = table;
  cols = codes "l" ∷ codes "v" ∷ [];
  error = error;
  stats = no_stats;
}

abbrev down : Result client
down = result acme (some (query_failed (codes "down")))

abbrev unknown : Result client
unknown = record (result acme none) { query = codes "nope" }

-- Tenant `u`'s messages leave the series of `t` alone.
run_isolated_example :
    let s =
      (run client
        (received (result (codes "u") none)
          ∷ received (result (codes "u") (some (query_failed [])))
          ∷ canceled
          ∷ [])
        after_first).1.store in
    (s.gauges files_v (acme ∷ codes "a" ∷ [])
      ≡ after_first.store.gauges files_v (acme ∷ codes "a" ∷ []))
    × (s.totals files_v (acme ∷ codes "a" ∷ [])
        ≡ after_first.store.totals files_v (acme ∷ codes "a" ∷ []))
unfolding ducklake_metrics_daemon.Publisher.Apply.publish
    ducklake_metrics_daemon.Publisher.Coerce.gauge_value Dict.get text_eq
    ducklake_metrics_daemon.Publisher.Outcome.set_gauge Dict.put new
    ducklake_metrics_daemon.Publisher.Apply.signature ducklake_metrics_daemon.Prelude.Text.join
    ducklake_metrics_daemon.Publisher.Apply.tuple
    ducklake_metrics_daemon.Publisher.Coerce.to_label_string
run_isolated_example =
    run_isolated client client_laws acme
      (received (result (codes "u") none)
        ∷ received (result (codes "u") (some (query_failed [])))
        ∷ canceled
        ∷ [])
      after_first (((refl, (refl, tt)), tt), tt) (refl, (refl, (tt, tt))) files_v
      (acme ∷ codes "a" ∷ []) refl

count : (n : ℕ) → n ≤ 9007199254740992 → IsCount (pos n)
count n h = record { nonneg = omega arith; exact = omega arith }

observe_lem_example :
    (p' : Publisher client) × (observe client client_laws acme fresh (pos 3 ∷ pos 5 ∷ pos 9 ∷ [])
      ≡ done p')
    × (counted client client_laws acme p'
        ≡ counted client client_laws acme fresh +ℤ (pos 9 -ℤ pos 3))
unfolding is_seen Dict.get new baseline
observe_lem_example =
    observe_lem client client_laws acme fresh (pos 3) (pos 5 ∷ pos 9 ∷ []) refl refl
      (count 0 (omega arith)) (count 3 (omega arith))
      (omega arith, count 5 (omega arith), (omega arith, count 9 (omega arith), tt))

apply_query_failed_example :
    (p' : Publisher client) × (apply_query client down after_first ≡ done p')
    × (p'.last_labels ≡ after_first.last_labels)
    × ((n : Metric) (ks : List Text) → p'.store.gauges n ks ≡ after_first.store.gauges n ks)
    × ((n : Metric) (ks : List Text)
        → p'.store.totals n ks ≡ (
            if same_series (self query_errors_total) (acme ∷ codes "files" ∷ []) n ks
            then after_first.store.totals n ks +ℤ pos 1
            else after_first.store.totals n ks))
apply_query_failed_example =
    apply_query_failed client client_laws down after_first refl
      (query_error (query_failed (codes "down")) refl)

apply_query_unknown_example : apply_query client unknown after_first ≡ done after_first
unfolding Dict.get ducklake_metrics_daemon.Publisher.Apply.publish
    ducklake_metrics_daemon.Publisher.Coerce.gauge_value text_eq
    ducklake_metrics_daemon.Publisher.Outcome.set_gauge new Dict.put
apply_query_unknown_example = apply_query_unknown client unknown after_first refl (inl refl)

read-reset_example :
    (reset_tenant_gauges client acme after_first).store.gauges files_v (acme ∷ codes "a" ∷ [])
    ≡ none
unfolding tenant_label text_eq ducklake_metrics_daemon.Publisher.Apply.publish reset_tenant_gauges
    ducklake_metrics_daemon.Publisher.Coerce.gauge_value Dict.get
    ducklake_metrics_daemon.Publisher.Outcome.set_gauge new metric_eq
read-reset_example =
    read-reset client client_laws acme after_first files_v (acme ∷ codes "a" ∷ [])
      (record { rest = codes "l" ∷ []; names = refl; once = refl })
