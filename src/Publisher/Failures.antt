-- ===== src/Publisher/Failures.antt =====
-- Messages that publish nothing: a failed query, a missing column, an unknown query (publisher.go).
use ducklake_metrics_daemon.Prelude.{
  ◌∙◌, ◌≡◌, refl, ◌⊎◌, true, none, some, List, [], ◌∷◌, arith, if◌then◌else◌,
}
use ducklake_metrics_daemon.Prelude.Int.{pos, ◌+ℤ◌}
use ducklake_metrics_daemon.Prelude.Text.{Text}
use ducklake_metrics_daemon.Prelude.Dict
use ducklake_metrics_daemon.Prelude.Dict.{Dict}
use ducklake_metrics_daemon.Queries.{Query}
use ducklake_metrics_daemon.Metrics.{Metric, self, query_errors_total}
use ducklake_metrics_daemon.Extern.{Extern, Laws, same_series}
use ducklake_metrics_daemon.Catalog.{QueryError}
use ducklake_metrics_daemon.Publisher.Columns.{index_label_columns, index_value_columns}
use ducklake_metrics_daemon.Publisher.Outcome.{done, inc}
use ducklake_metrics_daemon.Publisher.State.{Result, Publisher}
use ducklake_metrics_daemon.Publisher.Apply.{apply_query, count_error}

module _ (x : Extern) where
  -- The query failed, or its result lacks a declared column.
  pub data Fails (r : Result x) (p : Publisher x) : Type 0 where
    query_error : (e : QueryError) → r.error ≡ some e → Fails r p
    no_label_column :
        (q : Query) (gs : Dict Metric)
        → r.error ≡ none
        → Dict.get p.query_spec r.query ≡ some q
        → Dict.get p.gauges r.query ≡ some gs
        → index_label_columns r.cols q.labels ≡ none
        → Fails r p
    no_value_column :
        (q : Query) (gs : Dict Metric)
        → r.error ≡ none
        → Dict.get p.query_spec r.query ≡ some q
        → Dict.get p.gauges r.query ≡ some gs
        → index_value_columns r.cols q.values ≡ none
        → Fails r p

  -- A message that fails is only counted.
  pub apply_query-Fails :
      (r : Result x) (p : Publisher x) → Fails r p → apply_query x r p ≡ count_error x r p
  unfolding apply_query
  apply_query-Fails r p (query_error e h) = ground arith
  apply_query-Fails r p (no_label_column q gs h s g c) = ground arith
  apply_query-Fails r p (no_value_column q gs h s g c) = ground arith

  -- When the error counter takes the tenant and the query: a result that failed or lacks a declared
  -- column is counted once, for its tenant and query, and changes nothing else: every gauge keeps
  -- its value, every other counter its total, and the tracking stays.
  pub apply_query_failed :
      (law : Laws x) (r : Result x) (p : Publisher x)
      → x.accepts (self query_errors_total) (r.tenant ∷ r.query ∷ []) ≡ true
      → Fails r p
      → (p' : Publisher x) × (apply_query x r p ≡ done p')
        × (p'.last_labels ≡ p.last_labels)
        × ((n : Metric) (ks : List Text) → x.read p'.store n ks ≡ x.read p.store n ks)
        × ((n : Metric) (ks : List Text)
            → x.total p'.store n ks ≡ (
                if same_series (self query_errors_total) (r.tenant ∷ r.query ∷ []) n ks
                then x.total p.store n ks +ℤ pos 1
                else x.total p.store n ks))
  apply_query_failed law r p ok f =
      let m = self query_errors_total in
      let ls = r.tenant ∷ r.query ∷ [] in
      (
        record p { store = x.add p.store m ls (pos 1) },
        apply_query-Fails r p f ∙ unfold count_error inc in ground arith,
        refl,
        λ n ks. law.read-add p.store m ls (pos 1) n ks,
        λ n ks. law.total-add p.store m ls (pos 1) n ks,
      )

  -- A result of a query that the publisher has no spec or no gauges for changes nothing.
  pub apply_query_unknown :
      (r : Result x) (p : Publisher x)
      → r.error ≡ none
      → (Dict.get p.query_spec r.query ≡ none) ⊎ (Dict.get p.gauges r.query ≡ none)
      → apply_query x r p ≡ done p
  unfolding apply_query
  apply_query_unknown r p h u = ground arith
