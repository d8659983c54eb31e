-- ===== src/Publisher/Board/Total.antt =====
-- A result whose series the client takes is published without a panic (publisher.go).
use ducklake_metrics_daemon.Prelude.{
  ℕ, ◌≡◌, refl, true, Option, none, some, List, [], ◌∷◌, arith, All,
}
use ducklake_metrics_daemon.Prelude.Text.{Text}
use ducklake_metrics_daemon.Prelude.Dict
use ducklake_metrics_daemon.Prelude.Dict.{Dict}
use ducklake_metrics_daemon.Metrics.{Metric, self, query_errors_total}
use ducklake_metrics_daemon.Extern.{Extern}
use ducklake_metrics_daemon.Catalog.{Row}
use ducklake_metrics_daemon.Publisher.Coerce.{gauge_value}
use ducklake_metrics_daemon.Publisher.Columns.{cell}
use ducklake_metrics_daemon.Publisher.Outcome.{done, final, set_gauge, inc}
use ducklake_metrics_daemon.Publisher.State.{Publisher}
use ducklake_metrics_daemon.Publisher.Apply.{
  Scope, tuple, written, set_values, set_rows, tracked, publish,
}

module _ (x : Extern) (c : Scope x) (gs : Dict Metric) where
  -- The column has a gauge that takes the row's tuple.
  abbrev pub Takes : Row x → Text → Type 0
  Takes row v = (m : Metric) × (Dict.get gs v ≡ some m) × (x.accepts m (tuple x c row) ≡ true)

  written-done :
      (vname : Text) (row : Row x) (o : Option x.Float) (s : x.Store)
      → x.accepts (self query_errors_total) (c.tenant ∷ c.query ∷ []) ≡ true
      → Takes row vname
      → (s' : x.Store) × (written x c gs vname (tuple x c row) o s ≡ done s')
  unfolding written inc set_gauge
  written-done vname row none s e t =
      (final (written x c gs vname (tuple x c row) none s), ground (arith, e))
  written-done vname row (some v) s e (m, g, ok) =
      (final (written x c gs vname (tuple x c row) (some v) s), ground (arith, g, ok))

  set_values-done :
      (row : Row x) (vi : Dict ℕ) (s : x.Store)
      → x.accepts (self query_errors_total) (c.tenant ∷ c.query ∷ []) ≡ true
      → All (λ (e : Text × ℕ). Takes row e.0) vi
      → (s' : x.Store) × (set_values x c gs row vi s ≡ done s')
  unfolding set_values
  set_values-done row [] s e t = (s, refl)
  set_values-done row ((vname, i) ∷ vi) s e (t, ts) =
      let (a, h) = written-done vname row (gauge_value x (cell x row c.cols i)) s e t in
      let (b, k) = set_values-done row vi a e ts in (b, rw h k)

  set_rows-done :
      (vi : Dict ℕ) (rows : List (Row x)) (s : x.Store)
      → x.accepts (self query_errors_total) (c.tenant ∷ c.query ∷ []) ≡ true
      → All (λ row. All (λ (e : Text × ℕ). Takes row e.0) vi) rows
      → (s' : x.Store) × (set_rows x c gs vi rows s ≡ done s')
  unfolding set_rows
  set_rows-done vi [] s e t = (s, refl)
  set_rows-done vi (row ∷ rows) s e (t, ts) =
      let (a, h) = set_values-done row vi s e t in
      let (b, k) = set_rows-done vi rows a e ts in (b, rw h k)

  pub publish-total :
      (vi : Dict ℕ) (rows : List (Row x)) (p : Publisher x)
      → x.accepts (self query_errors_total) (c.tenant ∷ c.query ∷ []) ≡ true
      → All (λ row. All (λ (e : Text × ℕ). Takes row e.0) vi) rows
      → (p' : Publisher x) × (publish x gs c vi rows p ≡ done p')
  unfolding publish tracked
  publish-total vi rows p e t =
      let (s, h) = set_rows-done vi rows p.store e t in
      (final (publish x gs c vi rows p), ground (arith, h))
