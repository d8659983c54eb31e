-- ===== src/Publisher/Snapshot/Tracking.antt =====
-- The tracking of a tenant and a query stays true over a good message (publisher.go).
use ducklake_metrics_daemon.Prelude.{
  ℕ, ◌≡◌, false, Option, none, some, List, [], ◌∷◌, arith, Option-cases, inl, inr,
}
use ducklake_metrics_daemon.Prelude.Text.{Text, texts_eq}
use ducklake_metrics_daemon.Prelude.Dict
use ducklake_metrics_daemon.Prelude.Dict.{Dict}
use ducklake_metrics_daemon.Metrics.{Metric}
use ducklake_metrics_daemon.Extern.{Extern, Laws}
use ducklake_metrics_daemon.Catalog.{Row}
use ducklake_metrics_daemon.Publisher.Coerce.{gauge_value}
use ducklake_metrics_daemon.Publisher.Columns.{cell}
use ducklake_metrics_daemon.Publisher.Outcome.{done, Outcome-cases}
use ducklake_metrics_daemon.Publisher.State.{Publisher}
use ducklake_metrics_daemon.Publisher.Apply.{
  Scope, tuple, new_tuples, written, set_values, set_rows, publish,
}
use ducklake_metrics_daemon.Publisher.Signature.{
  AreClean, IsKeyed-new_tuples, in_tuples-new_tuples, in_tuples,
}
use ducklake_metrics_daemon.Publisher.Snapshot.{has_row, read-inc, read-set_gauge}
use ducklake_metrics_daemon.Publisher.Snapshot.Dropped.{read-delete_dropped}
use ducklake_metrics_daemon.Publisher.Snapshot.Exact.{
  tuples_of, IsTracked, publish-done, dropped_or_absent,
}

module _ (x : Extern) (law : Laws x) where
  read-written_other :
      (c : Scope x) (gs : Dict Metric) (vname : Text) (vals : List Text) (o : Option x.Float)
      (s s' : x.Store) (n : Metric) (ks : List Text)
      → texts_eq vals ks ≡ false
      → written x c gs vname vals o s ≡ done s'
      → x.read s' n ks ≡ x.read s n ks
  unfolding written
  read-written_other c gs vname vals none s s' n ks f h =
      ground (arith, read-inc x law _ _ s s' n ks h)
  read-written_other c gs vname vals (some v) s s' n ks f h =
      elim (Option-cases (Dict.get gs vname)) [
        | inl e ↦ ground arith
        | inr (m, e) ↦ ground (arith, read-set_gauge x law m vals v s s' n ks)
      ]

  read-set_values_other :
      (c : Scope x) (gs : Dict Metric) (row : Row x) (vi : Dict ℕ) (s s' : x.Store) (n : Metric)
      (ks : List Text)
      → texts_eq (tuple x c row) ks ≡ false
      → set_values x c gs row vi s ≡ done s'
      → x.read s' n ks ≡ x.read s n ks
  unfolding set_values
  read-set_values_other c gs row [] s s' n ks f h = ground arith
  read-set_values_other c gs row ((vname, i) ∷ vi) s s' n ks f h =
      elim (Outcome-cases
        (written x c gs vname (tuple x c row) (gauge_value x (cell x row c.cols i)) s)) [
          | inl (q, e) ↦ ground (
            arith,
            read-set_values_other c gs row vi q s' n ks f,
            read-written_other c gs vname (tuple x c row) (gauge_value x (cell x row c.cols i)) s q
                n ks f e,
          )
          | inr (q, e) ↦ ground arith
        ]

  pub read-set_rows_other :
      (c : Scope x) (gs : Dict Metric) (vi : Dict ℕ) (rows : List (Row x)) (s s' : x.Store)
      (n : Metric) (ks : List Text)
      → has_row x c ks rows ≡ false
      → set_rows x c gs vi rows s ≡ done s'
      → x.read s' n ks ≡ x.read s n ks
  unfolding set_rows
  read-set_rows_other c gs vi [] s s' n ks f h = ground arith
  read-set_rows_other c gs vi (row ∷ rows) s s' n ks f h =
      elim (Outcome-cases (set_values x c gs row vi s)) [
        | inl (q, e) ↦ ground (
          arith,
          read-set_values_other c gs row vi s q n ks,
          read-set_rows_other c gs vi rows q s' n ks,
        )
        | inr (q, e) ↦ ground arith
      ]

  -- A result that does not panic and whose labels have no NUL byte keeps the tracking true: every
  -- series of the tenant that a gauge of the query shows is one of the tracked tuples, which are
  -- afterwards exactly the rows'.
  pub publish-IsTracked :
      (gs : Dict Metric) (c : Scope x) (vi : Dict ℕ) (rows : List (Row x)) (p p' : Publisher x)
      → AreClean x c rows
      → IsTracked gs c.tenant c.query p
      → publish x gs c vi rows p ≡ done p'
      → IsTracked gs c.tenant c.query p'
        × ((ks : List Text) → in_tuples ks (tuples_of p' c.tenant c.query) ≡ has_row x c ks rows)
  publish-IsTracked gs c vi rows p p' clean tr h =
      let (s, e, st, tu) = publish-done x law gs c vi rows p p' h in
      let new = new_tuples x c rows [] in
      let prev = tuples_of p c.tenant c.query in
      let rowed : (ks : List Text)
          → in_tuples ks (tuples_of p' c.tenant c.query) ≡ has_row x c ks rows =
        λ ks. rw tu (ground (arith, in_tuples-new_tuples x c rows [] ks clean tt)) in
      (
        record {
          keyed = rw tu (IsKeyed-new_tuples x c rows [] clean tt);
          covers = λ n ks m own out. rw st (
              ground (
                arith,
                read-delete_dropped x law gs new prev s n ks,
                rowed ks,
                dropped_or_absent x law c rows prev ks tr.keyed clean,
                tr.covers n ks m own,
                read-set_rows_other c gs vi rows p.store s n ks,
              ));
        },
        rowed,
      )
