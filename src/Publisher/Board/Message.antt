-- ===== src/Publisher/Board/Message.antt =====
-- A result as `applyQuery` reads it, by column positions, against the result by column names
-- (publisher.go).
use ducklake_metrics_daemon.Prelude.{
  ℕ, ◌≡◌, refl, sym, ap, subst, true, some, List, [], ◌∷◌, arith, All, get_or,
}
use ducklake_metrics_daemon.Prelude.Text.{Text, text_eq_iff}
use ducklake_metrics_daemon.Prelude.Dict
use ducklake_metrics_daemon.Prelude.Dict.{Dict, HasDistinctKeys}
use ducklake_metrics_daemon.Prelude.Sort.{find}
use ducklake_metrics_daemon.Queries.{Query}
use ducklake_metrics_daemon.Queries.Merge.{name_of}
use ducklake_metrics_daemon.Metrics.{
  Metric, self, gauge, query_errors_total, pool_acquired_conns, pool_idle_conns, pool_total_conns,
  pool_empty_acquire_total,
}
use ducklake_metrics_daemon.Metrics.Register.{gauge_name}
use ducklake_metrics_daemon.Extern.{Extern}
use ducklake_metrics_daemon.Catalog.{Row}
use ducklake_metrics_daemon.Publisher.Coerce.{gauge_value}
use ducklake_metrics_daemon.Publisher.Columns.{index_label_columns, index_value_columns}
use ducklake_metrics_daemon.Publisher.Columns.ByName.{
  index_label_columns-some, index_value_columns-some,
}
use ducklake_metrics_daemon.Publisher.State.{Result}
use ducklake_metrics_daemon.Publisher.Apply.{Scope, tuple}
use ducklake_metrics_daemon.Publisher.Signature.{IsClean, AreClean}
use ducklake_metrics_daemon.Publisher.Snapshot.{has_row, last_value}
use ducklake_metrics_daemon.Publisher.Board.{declares, field, series_of, shows, newest}
use ducklake_metrics_daemon.Publisher.Board.Total.{Takes}

-- What a message must be for the client to take its series and for signatures to tell them apart.
pub record Fits (x : Extern) (qs : List Query) (r : Result x) : Type 0 where
  pub errors : x.accepts (self query_errors_total) (r.tenant ∷ r.query ∷ []) ≡ true
  pub acquired : x.accepts (self pool_acquired_conns) (r.tenant ∷ []) ≡ true
  pub idle : x.accepts (self pool_idle_conns) (r.tenant ∷ []) ≡ true
  pub total : x.accepts (self pool_total_conns) (r.tenant ∷ []) ≡ true
  pub empty : x.accepts (self pool_empty_acquire_total) (r.tenant ∷ []) ≡ true
  pub clean :
      (q : Query)
      → find name_of qs r.query ≡ some q
      → All (λ row. IsClean (series_of x r.tenant q row)) r.rows
  pub takes :
      (q : Query)
      → find name_of qs r.query ≡ some q
      → All
          (λ row.
            (v : Text)
            → declares q v ≡ true
            → x.accepts (gauge (gauge_name r.query v)) (series_of x r.tenant q row) ≡ true)
          r.rows

All-of_get {ℓ} :
    {V : Type ℓ} (P : Text → Type 0) (m : Dict V)
    → HasDistinctKeys m
    → ((k : Text) (v : V) → Dict.get m k ≡ some v → P k)
    → All (λ (e : Text × V). P e.0) m
unfolding Dict.get
All-of_get P [] d h = tt
All-of_get P ((k, v) ∷ m) (new, d) h = (
  h k v (ground (arith, text_eq_iff k k)),
  All-of_get P m d λ j w e. h j w (ground (arith, e, new, text_eq_iff k j)),
)

module _ (x : Extern) (t n : Text) (cols : List Text) (q : Query) (li : List ℕ)
    (labels : index_label_columns cols q.labels ≡ some li) where
  abbrev pub scope : Scope x
  scope = record { tenant = t; query = n; cols = cols; label_idx = li }

  pub tuple-series_of : (row : Row x) → tuple x scope row ≡ series_of x t q row
  unfolding tuple
  tuple-series_of row = ap (◌∷◌ t) (index_label_columns-some x cols q.labels li row labels)

  pub has_row-shows :
      (ks : List Text) (rows : List (Row x)) → has_row x scope ks rows ≡ shows x t q rows ks
  has_row-shows ks [] = refl
  has_row-shows ks (row ∷ rows) = ground (arith, tuple-series_of row, has_row-shows ks rows)

  pub last_value-newest :
      (v : Text) (idx : ℕ) (ks : List Text) (rows : List (Row x))
      → get_or cols idx [] ≡ v
      → last_value x scope idx ks rows ≡ newest x t q v ks rows
  last_value-newest v idx ks [] e = refl
  last_value-newest v idx ks (row ∷ rows) e = ground (
    arith,
    tuple-series_of row,
    last_value-newest v idx ks rows e,
    ap (λ n. gauge_value x (field x row n)) e,
  )

  pub AreClean-series_of :
      (rows : List (Row x))
      → All (λ row. IsClean (series_of x t q row)) rows
      → AreClean x scope rows
  AreClean-series_of [] h = tt
  AreClean-series_of (row ∷ rows) (c, h) =
      (subst IsClean (sym (tuple-series_of row)) c, AreClean-series_of rows h)

  -- Every column that the result publishes has a gauge that takes every row.
  pub every_gauge :
      (gs : Dict Metric) (vi : Dict ℕ) (rows : List (Row x))
      → index_value_columns cols q.values ≡ some vi
      → ((v : Text) → declares q v ≡ true → Dict.get gs v ≡ some (gauge (gauge_name n v)))
      → All
          (λ row.
            (v : Text)
            → declares q v ≡ true
            → x.accepts (gauge (gauge_name n v)) (series_of x t q row) ≡ true)
          rows
      → All (λ row. All (λ (e : Text × ℕ). Takes x scope gs row e.0) vi) rows
  every_gauge gs vi [] hv g h = tt
  every_gauge gs vi (row ∷ rows) hv g (a, h) =
      let (d, _, only) = index_value_columns-some cols q.values vi hv in
      (
        All-of_get (Takes x scope gs row) vi d λ v j e.
            (gauge (gauge_name n v), g v (only v j e), rw (tuple-series_of row) (a v (only v j e))),
        every_gauge gs vi rows hv g h,
      )
