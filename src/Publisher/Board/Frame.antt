-- ===== src/Publisher/Board/Frame.antt =====
-- What a published result leaves alone, and that it does not panic (publisher.go).
use ducklake_metrics_daemon.Prelude.{
  ◌&&◌, ℕ, ◌≡◌, true, false, Option, none, some, List, [], ◌∷◌, arith, Bool-cases, Option-cases,
  inl, inr,
}
use ducklake_metrics_daemon.Prelude.Text.{Text, text_eq, text_eq_iff}
use ducklake_metrics_daemon.Prelude.Dict
use ducklake_metrics_daemon.Prelude.Dict.{Dict, get-put, or_empty, HasDistinctKeys}
use ducklake_metrics_daemon.Metrics.{Metric, metric_eq}
use ducklake_metrics_daemon.Extern.{Extern, Laws}
use ducklake_metrics_daemon.Catalog.{Row}
use ducklake_metrics_daemon.Publisher.Coerce.{gauge_value}
use ducklake_metrics_daemon.Publisher.Columns.{cell}
use ducklake_metrics_daemon.Publisher.Outcome.{Outcome-cases, done}
use ducklake_metrics_daemon.Publisher.State.{Publisher}
use ducklake_metrics_daemon.Publisher.Apply.{
  Scope, tuple, new_tuples, written, set_values, set_rows, tracked, publish,
}
use ducklake_metrics_daemon.Publisher.Snapshot.{read-inc, read-set_gauge}
use ducklake_metrics_daemon.Publisher.Snapshot.Dropped.{has_metric, read-delete_dropped}
use ducklake_metrics_daemon.Publisher.Snapshot.Exact.{tuples_of, publish-done}

-- A metric that is none of the gauges.
get-has_metric :
    (gs : Dict Metric) (a : Text) (m n : Metric)
    → Dict.get gs a ≡ some m
    → has_metric n gs ≡ false
    → metric_eq m n ≡ false
unfolding Dict.get
get-has_metric [] a m n h f = cc h
get-has_metric ((b, g) ∷ gs) a m n h f = ground (arith, get-has_metric gs a m n)

-- A metric among the gauges has a key.
pub has_metric-get :
    (gs : Dict Metric) (n : Metric)
    → HasDistinctKeys gs
    → has_metric n gs ≡ true
    → (a : Text) × (g : Metric) × (Dict.get gs a ≡ some g) × (metric_eq g n ≡ true)
unfolding Dict.get
has_metric-get [] n d h = cc h
has_metric-get ((b, g) ∷ gs) n (new, d) h = elim (Bool-cases (metric_eq g n)) [
  | inl e ↦ (b, g, ground (arith, text_eq_iff b b), e)
  | inr e ↦
      let (a, m, found, same) = has_metric-get gs n d (ground (arith, e, h)) in
      (a, m, ground (arith, new, found, text_eq_iff b a), same)
]

module _ (x : Extern) (law : Laws x) where
  read-written_frame :
      (c : Scope x) (gs : Dict Metric) (vname : Text) (vals : List Text) (o : Option x.Float)
      (s s' : x.Store) (n : Metric) (ks : List Text)
      → has_metric n gs ≡ false
      → written x c gs vname vals o s ≡ done s'
      → x.read s' n ks ≡ x.read s n ks
  unfolding written
  read-written_frame c gs vname vals none s s' n ks f h =
      ground (arith, read-inc x law _ _ s s' n ks h)
  read-written_frame c gs vname vals (some v) s s' n ks f h =
      elim (Option-cases (Dict.get gs vname)) [
        | inl e ↦ ground arith
        | inr (m, e) ↦
            ground (arith, read-set_gauge x law m vals v s s' n ks, get-has_metric gs vname m n e f)
      ]

  read-set_values_frame :
      (c : Scope x) (gs : Dict Metric) (row : Row x) (vi : Dict ℕ) (s s' : x.Store) (n : Metric)
      (ks : List Text)
      → has_metric n gs ≡ false
      → set_values x c gs row vi s ≡ done s'
      → x.read s' n ks ≡ x.read s n ks
  unfolding set_values
  read-set_values_frame c gs row [] s s' n ks f h = ground arith
  read-set_values_frame c gs row ((vname, i) ∷ vi) s s' n ks f h =
      let o = gauge_value x (cell x row c.cols i) in
      elim (Outcome-cases (written x c gs vname (tuple x c row) o s)) [
        | inl (q, e) ↦ ground (
          arith,
          read-set_values_frame c gs row vi q s' n ks f,
          read-written_frame c gs vname (tuple x c row) o s q n ks f e,
        )
        | inr (q, e) ↦ ground arith
      ]

  read-set_rows_frame :
      (c : Scope x) (gs : Dict Metric) (vi : Dict ℕ) (rows : List (Row x)) (s s' : x.Store)
      (n : Metric) (ks : List Text)
      → has_metric n gs ≡ false
      → set_rows x c gs vi rows s ≡ done s'
      → x.read s' n ks ≡ x.read s n ks
  unfolding set_rows
  read-set_rows_frame c gs vi [] s s' n ks f h = ground arith
  read-set_rows_frame c gs vi (row ∷ rows) s s' n ks f h =
      elim (Outcome-cases (set_values x c gs row vi s)) [
        | inl (q, e) ↦ ground (
          arith,
          read-set_values_frame c gs row vi s q n ks f e,
          read-set_rows_frame c gs vi rows q s' n ks f,
        )
        | inr (q, e) ↦ ground arith
      ]

  -- A published result changes no metric but the gauges of its query.
  pub read-publish_frame :
      (gs : Dict Metric) (c : Scope x) (vi : Dict ℕ) (rows : List (Row x)) (p p' : Publisher x)
      (n : Metric) (ks : List Text)
      → has_metric n gs ≡ false
      → publish x gs c vi rows p ≡ done p'
      → x.read p'.store n ks ≡ x.read p.store n ks
  read-publish_frame gs c vi rows p p' n ks f h =
      let (s, e, st, _) = publish-done x law gs c vi rows p p' h in
      ground (
        arith,
        st,
        read-delete_dropped x law gs (new_tuples x c rows []) (tuples_of p c.tenant c.query) s n ks,
        read-set_rows_frame c gs vi rows p.store s n ks f e,
      )

-- The tracking of every other tenant and query stays.
pub publish-tuples :
    {x : Extern} (gs : Dict Metric) (c : Scope x) (vi : Dict ℕ) (rows : List (Row x))
    (p p' : Publisher x) (t q : Text)
    → publish x gs c vi rows p ≡ done p'
    → text_eq c.tenant t && text_eq c.query q ≡ false
    → tuples_of p' t q ≡ tuples_of p t q
unfolding publish tracked
publish-tuples {x} gs c vi rows p p' t q h other =
    elim (Outcome-cases (set_rows x c gs vi rows p.store)) [
      | inr (s, e) ↦ absurd (ground (arith, e, h))
      | inl (s, e) ↦
          let last = or_empty (Dict.get p.last_labels c.tenant) in
          ground (
            arith,
            e,
            h,
            other,
            get-put p.last_labels c.tenant (Dict.put last c.query (new_tuples x c rows [])) t,
            get-put last c.query (new_tuples x c rows []) q,
            text_eq_iff c.tenant t,
          )
    ]

-- The specifications and the gauges stay.
pub publish-tables :
    {x : Extern} (gs : Dict Metric) (c : Scope x) (vi : Dict ℕ) (rows : List (Row x))
    (p p' : Publisher x)
    → publish x gs c vi rows p ≡ done p'
    → (p'.gauges ≡ p.gauges) × (p'.query_spec ≡ p.query_spec)
unfolding publish tracked
publish-tables {x} gs c vi rows p p' h = elim (Outcome-cases (set_rows x c gs vi rows p.store)) [
  | inr (s, e) ↦ absurd (ground (arith, e, h))
  | inl (s, e) ↦ (ground (arith, e, h), ground (arith, e, h))
]
