-- ===== src/Publisher/Snapshot/Exact.antt =====
-- The whole of a good message (publisher.go): the tenant's series of the query become those of the
-- rows, and the tracking says so.
use ducklake_metrics_daemon.Prelude.{
  subst, ℕ, ◌⊎◌, subst, ◌≡◌, refl, ◌∙◌, true, false, none, some, List, [], ◌∷◌, arith,
  if◌then◌else◌, Bool-cases, inl, inr,
}
use ducklake_metrics_daemon.Prelude.Text.{Text, text_eq_iff, texts_eq, texts_eq_iff}
use ducklake_metrics_daemon.Prelude.Dict
use ducklake_metrics_daemon.Prelude.Dict.{Dict, or_empty, HasDistinctKeys, get-put}
use ducklake_metrics_daemon.Metrics.{Metric, metric_eq_refl}
use ducklake_metrics_daemon.Extern.{Extern, Laws}
use ducklake_metrics_daemon.Catalog.{Row}
use ducklake_metrics_daemon.Publisher.Outcome.{done, Outcome-cases}
use ducklake_metrics_daemon.Publisher.State.{Publisher, Tuples}
use ducklake_metrics_daemon.Publisher.Apply.{
  Scope, tuple, signature, new_tuples, set_rows, delete_dropped, publish,
}
use ducklake_metrics_daemon.Publisher.Isolation.{belongs}
use ducklake_metrics_daemon.Publisher.Signature.{
  IsClean, IsKeyed, is_some, in_tuples, IsClean-in_tuples, AreClean, get-new_tuples,
}
use ducklake_metrics_daemon.Publisher.Snapshot.{
  or_else, AreSeparate, last_value, has_row, read-set_rows, last_value_absent,
}
use ducklake_metrics_daemon.Publisher.Snapshot.Dropped.{has_metric, is_dropped, read-delete_dropped}

pub has_metric_of_get :
    (gs : Dict Metric) (name : Text) (n : Metric)
    → Dict.get gs name ≡ some n
    → has_metric n gs ≡ true
unfolding Dict.get
has_metric_of_get [] name n h = cc
has_metric_of_get ((v, g) ∷ gs) name n h =
    ground (arith, has_metric_of_get gs name n, metric_eq_refl n)

pub not_dropped :
    (new : Tuples) (ks : List Text) (prev : Tuples)
    → IsKeyed prev
    → is_some (Dict.get new (signature ks)) ≡ true
    → is_dropped new ks prev ≡ false
not_dropped new ks [] k h = refl
not_dropped new ks ((sig, vals) ∷ prev) ((e, c), k) h =
    ground (arith, not_dropped new ks prev k h, texts_eq_iff vals ks)

dropped :
    (new : Tuples) (ks : List Text) (prev : Tuples)
    → IsKeyed prev
    → in_tuples ks prev ≡ true
    → is_some (Dict.get new (signature ks)) ≡ false
    → is_dropped new ks prev ≡ true
dropped new ks [] k i h = cc
dropped new ks ((sig, vals) ∷ prev) ((e, c), k) i h =
    ground (arith, dropped new ks prev k, texts_eq_iff vals ks)

-- The tuples tracked for a tenant and a query.
abbrev pub tuples_of : {x : Extern} → Publisher x → Text → Text → Tuples
tuples_of p t q = or_empty (Dict.get (or_empty (Dict.get p.last_labels t)) q)

-- The tracking of a tenant and a query is true: every series of the tenant that the query's gauges
-- show is tracked, each tuple under its own signature.
pub record IsTracked {x : Extern} (gs : Dict Metric) (t q : Text) (p : Publisher x) : Type 0 where
  pub keyed : IsKeyed (tuples_of p t q)
  pub covers :
      (n : Metric) (ks : List Text)
      → has_metric n gs ≡ true
      → belongs t ks ≡ true
      → in_tuples ks (tuples_of p t q) ≡ false
      → x.read p.store n ks ≡ none

module _ (x : Extern) (law : Laws x) where
  pub IsClean-has_row :
      (c : Scope x) (ks : List Text) (rows : List (Row x))
      → AreClean x c rows
      → has_row x c ks rows ≡ true
      → IsClean ks
  IsClean-has_row c ks [] h e = cc
  IsClean-has_row c ks (row ∷ rows) (hr, h) e = elim (Bool-cases (texts_eq (tuple x c row) ks)) [
    | inl same ↦ subst IsClean ((texts_eq_iff (tuple x c row) ks).0 same) hr
    | inr other ↦ IsClean-has_row c ks rows h (ground arith)
  ]

  -- Between the Set phase and the Delete phase, a tuple is dropped exactly if it was tracked and no
  -- row has it; a tuple that is not tracked shows nothing.
  pub dropped_or_absent :
      (c : Scope x) (rows : List (Row x)) (prev : Tuples) (ks : List Text)
      → IsKeyed prev
      → AreClean x c rows
      → ((has_row x c ks rows ≡ true) × (is_dropped (new_tuples x c rows []) ks prev ≡ false))
        ⊎ ((has_row x c ks rows ≡ false)
            × ((is_dropped (new_tuples x c rows []) ks prev ≡ true) ⊎ (in_tuples ks prev ≡ false)))
  dropped_or_absent c rows prev ks keyed clean = elim (Bool-cases (has_row x c ks rows)) [
    | inl present ↦ inl (
      present,
      not_dropped _ ks prev keyed (
          get-new_tuples x c rows [] ks clean (IsClean-has_row c ks rows clean present)
          ∙ rw present),
    )
    | inr absent ↦ elim (Bool-cases (in_tuples ks prev)) [
      | inl old ↦ inr (
        absent,
        inl (
            dropped _ ks prev keyed old (
              get-new_tuples x c rows [] ks clean (IsClean-in_tuples ks prev keyed old)
              ∙ rw absent (unfold Dict.get in refl))),
      )
      | inr fresh ↦ inr (absent, inr fresh)
    ]
  ]

  -- What a message that does not panic leaves behind.
  pub publish-done :
      (gs : Dict Metric) (c : Scope x) (vi : Dict ℕ) (rows : List (Row x)) (p p' : Publisher x)
      → publish x gs c vi rows p ≡ done p'
      → (s : x.Store) × (set_rows x c gs vi rows p.store ≡ done s)
        × (p'.store ≡ delete_dropped x gs (new_tuples x c rows []) (tuples_of p c.tenant c.query) s)
        × (tuples_of p' c.tenant c.query ≡ new_tuples x c rows [])
  unfolding publish
  publish-done gs c vi rows p p' h = elim (Outcome-cases (set_rows x c gs vi rows p.store)) [
    | inl (s, e) ↦ (
      s,
      e,
      ground arith,
      ground (
        arith,
        get-put p.last_labels c.tenant
            (Dict.put (or_empty (Dict.get p.last_labels c.tenant)) c.query (new_tuples x c rows []))
            c.tenant,
        get-put (or_empty (Dict.get p.last_labels c.tenant)) c.query (new_tuples x c rows [])
            c.query,
        text_eq_iff c.tenant c.tenant,
        text_eq_iff c.query c.query,
      ),
    )
    | inr (s, e) ↦ absurd (ground arith)
  ]

  -- After a result that does not panic, the gauge of a value column shows, of the tenant's series,
  -- exactly those that have a row: each with the value of the last row of that tuple that has a
  -- numeric one, else with its value from before. The query's gauges are different metrics, no
  -- value column stands twice, no label of the rows has a NUL byte, and the tracking was true
  -- before.
  pub read-publish :
      (gs : Dict Metric) (c : Scope x) (vi : Dict ℕ) (rows : List (Row x)) (p p' : Publisher x)
      (name : Text) (idx : ℕ) (n : Metric) (ks : List Text)
      → AreSeparate gs
      → HasDistinctKeys vi
      → AreClean x c rows
      → IsTracked gs c.tenant c.query p
      → Dict.get gs name ≡ some n
      → Dict.get vi name ≡ some idx
      → belongs c.tenant ks ≡ true
      → publish x gs c vi rows p ≡ done p'
      → x.read p'.store n ks ≡ (
          if has_row x c ks rows
          then or_else (last_value x c idx ks rows) (x.read p.store n ks)
          else none)
  read-publish gs c vi rows p p' name idx n ks sep d clean tr g a own h =
      let (s, e, st, _) = publish-done gs c vi rows p p' h in
      let new = new_tuples x c rows [] in
      let prev = tuples_of p c.tenant c.query in
      rw st (
        ground (
          arith,
          read-delete_dropped x law gs new prev s n ks,
          has_metric_of_get gs name n g,
          read-set_rows x law c gs vi rows p.store s name idx n ks sep d g a e,
          dropped_or_absent c rows prev ks tr.keyed clean,
          tr.covers n ks,
          last_value_absent x law c idx ks rows,
        ))
