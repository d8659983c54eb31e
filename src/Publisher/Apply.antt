-- ===== src/Publisher/Apply.antt =====
-- `applyQuery` of publisher.go.
use ducklake_metrics_daemon.Prelude.{ℕ, Option, none, some, List, [], ◌∷◌}
use ducklake_metrics_daemon.Prelude.Text.{Text, join}
use ducklake_metrics_daemon.Prelude.Dict
use ducklake_metrics_daemon.Prelude.Dict.{Dict, or_empty}
use ducklake_metrics_daemon.Queries.{Query}
use ducklake_metrics_daemon.Metrics.{Metric, self, query_errors_total}
use ducklake_metrics_daemon.Extern.{Extern}
use ducklake_metrics_daemon.Catalog.{Row, QueryError}
use ducklake_metrics_daemon.Publisher.Coerce.{to_label_string, gauge_value}
use ducklake_metrics_daemon.Publisher.Columns.{cell, index_label_columns, index_value_columns}
use ducklake_metrics_daemon.Publisher.Outcome.{Outcome, done, panicked, ◌>>=◌, set_gauge, inc}
use ducklake_metrics_daemon.Publisher.State.{Result, Publisher, Tuples, stored}

-- strings.Join(vals, "\x00")
unfoldable pub signature : List Text → Text
signature vals = join vals (0 ∷ [])

module _ (x : Extern) where
  -- What the loops read of a message: its tenant, its query and its columns.
  pub record Scope : Type 0 where
    pub tenant : Text
    pub query : Text
    pub cols : List Text
    pub label_idx : List ℕ

  unfoldable pub label_values : List Text → List ℕ → Row x → List Text
  label_values cols [] row = []
  label_values cols (i ∷ is) row = to_label_string x (cell x row cols i) ∷ label_values cols is row

  -- `vals` of one row: the tenant, then the labels in declared order.
  unfoldable pub tuple : Scope → Row x → List Text
  unfolding label_values
  tuple c row = c.tenant ∷ label_values c.cols c.label_idx row

  -- The loop that builds `newTuples`.
  unfoldable pub new_tuples : Scope → List (Row x) → Tuples → Tuples
  new_tuples c [] m = m
  new_tuples c (row ∷ rows) m =
      new_tuples c rows (Dict.put m (signature (tuple c row)) (tuple c row))

  unfoldable pub written :
      Scope → Dict Metric → Text → List Text → Option x.Float → x.Store → Outcome x.Store
  written c gs vname vals none s = inc x (self query_errors_total) (c.tenant ∷ c.query ∷ []) s
  -- a missing gauge is a nil vector, and its method panics
  written c gs vname vals (some v) s = elim (Dict.get gs vname) [
    | none ↦ panicked s
    | some m ↦ set_gauge x m vals v s
  ]

  -- The inner loop of the Set phase, over `valueIdx`.
  unfoldable pub set_values : Scope → Dict Metric → Row x → Dict ℕ → x.Store → Outcome x.Store
  unfolding written
  set_values c gs row [] s = done s
  set_values c gs row ((vname, idx) ∷ vi) s =
      written c gs vname (tuple c row) (gauge_value x (cell x row c.cols idx)) s
      >>= set_values c gs row vi

  -- The Set phase, over the rows.
  unfoldable pub set_rows : Scope → Dict Metric → Dict ℕ → List (Row x) → x.Store → Outcome x.Store
  unfolding set_values
  set_rows c gs vi [] s = done s
  set_rows c gs vi (row ∷ rows) s = set_values c gs row vi s >>= set_rows c gs vi rows

  -- `for _, g := range queryGauges { g.DeleteLabelValues(vals...) }`
  unfoldable pub delete_all : Dict Metric → List Text → x.Store → x.Store
  delete_all [] vals s = s
  delete_all ((_, g) ∷ gs) vals s = delete_all gs vals (x.delete s g vals)

  -- The Delete phase, over `prev`.
  unfoldable pub delete_dropped : Dict Metric → Tuples → Tuples → x.Store → x.Store
  unfolding delete_all
  delete_dropped gs new [] s = s
  delete_dropped gs new ((sig, vals) ∷ prev) s =
      delete_dropped gs new prev
        (elim (Dict.get new sig) [ some _ ↦ s | none ↦ delete_all gs vals s ])

  -- After the Set phase: the Delete phase and the new tracking. A panic skips both.
  unfoldable pub tracked :
      Dict Metric → Tuples → Scope → Publisher x → Outcome x.Store → Outcome (Publisher x)
  unfolding delete_dropped
  tracked gs new c p (panicked s) =
      let last = or_empty (Dict.get p.last_labels c.tenant) in
      panicked (record p { last_labels = Dict.put p.last_labels c.tenant last; store = s })
  tracked gs new c p (done s) =
      let last = or_empty (Dict.get p.last_labels c.tenant) in
      let prev = or_empty (Dict.get last c.query) in
      done (record p {
        last_labels = Dict.put p.last_labels c.tenant (Dict.put last c.query new);
        store = delete_dropped gs new prev s;
      })

  -- The rest of `applyQuery`, once both kinds of columns are found.
  unfoldable pub publish :
      Dict Metric → Scope → Dict ℕ → List (Row x) → Publisher x → Outcome (Publisher x)
  unfolding set_rows new_tuples tracked
  publish gs c vi rows p = tracked gs (new_tuples c rows []) c p (set_rows c gs vi rows p.store)

  -- `QueryErrorsTotal.WithLabelValues(r.Tenant, r.Query).Inc()`
  unfoldable pub count_error : Result x → Publisher x → Outcome (Publisher x)
  count_error r p = stored p (inc x (self query_errors_total) (r.tenant ∷ r.query ∷ []) p.store)

  unfoldable pub with_columns :
      Dict Metric
      → Result x
      → Option (List ℕ)
      → Option (Dict ℕ)
      → Publisher x
      → Outcome (Publisher x)
  with_columns gs r none vi p = count_error r p
  with_columns gs r (some li) none p = count_error r p
  with_columns gs r (some li) (some vi) p =
      publish gs (record { tenant = r.tenant; query = r.query; cols = r.cols; label_idx = li }) vi
        r.rows p

  -- An unknown query, or one without gauges, is only logged.
  unfoldable pub with_spec :
      Option Query → Option (Dict Metric) → Result x → Publisher x → Outcome (Publisher x)
  unfolding with_columns
  with_spec none gs r p = done p
  with_spec (some q) none r p = done p
  with_spec (some q) (some gs) r p =
      with_columns gs r (index_label_columns r.cols q.labels) (index_value_columns r.cols q.values)
        p

  unfoldable pub checked : Option QueryError → Result x → Publisher x → Outcome (Publisher x)
  unfolding with_spec
  checked (some e) r p = count_error r p
  checked none r p = with_spec (Dict.get p.query_spec r.query) (Dict.get p.gauges r.query) r p

  unfoldable pub apply_query : Result x → Publisher x → Outcome (Publisher x)
  unfolding checked
  apply_query r p = checked r.error r p
