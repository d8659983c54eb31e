-- ===== src/Publisher/Snapshot/Leak.antt =====
-- What a panic in the middle of a result leaves behind (publisher.go): `safeApply` recovers, but the
-- tuples that were already set are not tracked.
use ducklake_metrics_daemon.Prelude.{ℕ, ◌≡◌, refl, false, List, [], ◌∷◌, arith, inl, inr}
use ducklake_metrics_daemon.Prelude.Text.{Text, text_eq_iff}
use ducklake_metrics_daemon.Prelude.Dict
use ducklake_metrics_daemon.Prelude.Dict.{Dict, or_empty, get-put}
use ducklake_metrics_daemon.Metrics.{Metric}
use ducklake_metrics_daemon.Extern.{Extern, Laws}
use ducklake_metrics_daemon.Catalog.{Row}
use ducklake_metrics_daemon.Publisher.Outcome.{Outcome-cases, done, panicked}
use ducklake_metrics_daemon.Publisher.State.{Publisher, Tuples}
use ducklake_metrics_daemon.Publisher.Apply.{Scope, new_tuples, set_rows, tracked, publish}
use ducklake_metrics_daemon.Publisher.Signature.{in_tuples}
use ducklake_metrics_daemon.Publisher.Snapshot.{has_row}
use ducklake_metrics_daemon.Publisher.Snapshot.Dropped.{is_dropped, read-delete_dropped}
use ducklake_metrics_daemon.Publisher.Snapshot.Exact.{tuples_of, publish-done}
use ducklake_metrics_daemon.Publisher.Snapshot.Tracking.{read-set_rows_other}

untracked-is_dropped :
    (new : Tuples) (ks : List Text) (prev : Tuples)
    → in_tuples ks prev ≡ false
    → is_dropped new ks prev ≡ false
untracked-is_dropped new ks [] h = refl
untracked-is_dropped new ks ((sig, vals) ∷ prev) h =
    ground (arith, h, untracked-is_dropped new ks prev)

module _ (x : Extern) (law : Laws x) where
  publish-panicked :
      (gs : Dict Metric) (c : Scope x) (vi : Dict ℕ) (rows : List (Row x)) (p p' : Publisher x)
      → publish x gs c vi rows p ≡ panicked p'
      → tuples_of p' c.tenant c.query ≡ tuples_of p c.tenant c.query
  unfolding publish tracked Dict.get
  publish-panicked gs c vi rows p p' h = elim (Outcome-cases (set_rows x c gs vi rows p.store)) [
    | inl (s, e) ↦ absurd (ground (arith, e, h))
    | inr (s, e) ↦ ground (
      arith,
      e,
      h,
      get-put p.last_labels c.tenant (or_empty (Dict.get p.last_labels c.tenant)) c.tenant,
      text_eq_iff c.tenant c.tenant,
    )
  ]

  -- A series that is not tracked and has no row is out of reach of a good result.
  publish-untracked :
      (gs : Dict Metric) (c : Scope x) (vi : Dict ℕ) (rows : List (Row x)) (p p' : Publisher x)
      (n : Metric) (ks : List Text)
      → in_tuples ks (tuples_of p c.tenant c.query) ≡ false
      → has_row x c ks rows ≡ false
      → publish x gs c vi rows p ≡ done p'
      → x.read p'.store n ks ≡ x.read p.store n ks
  publish-untracked gs c vi rows p p' n ks free absent h =
      let (s, e, st, _) = publish-done x law gs c vi rows p p' h in
      let new = new_tuples x c rows [] in
      let prev = tuples_of p c.tenant c.query in
      rw st (
        ground (
          arith,
          read-delete_dropped x law gs new prev s n ks,
          untracked-is_dropped new ks prev free,
          read-set_rows_other x law c gs vi rows p.store s n ks absent e,
        ))

  -- When a result panics half-way, and the next one of the same tenant and query is good and has no row
  -- for a series that was not tracked before the panic, then that series still shows what the panicking
  -- result had set: it is not deleted.
  pub panic_leaks :
      (gs : Dict Metric) (c c' : Scope x) (vi vi' : Dict ℕ) (rows rows' : List (Row x))
      (p p' p'' : Publisher x) (n : Metric) (ks : List Text)
      → c'.tenant ≡ c.tenant
      → c'.query ≡ c.query
      → in_tuples ks (tuples_of p c.tenant c.query) ≡ false
      → has_row x c' ks rows' ≡ false
      → publish x gs c vi rows p ≡ panicked p'
      → publish x gs c' vi' rows' p' ≡ done p''
      → x.read p''.store n ks ≡ x.read p'.store n ks
  panic_leaks gs c c' vi vi' rows rows' p p' p'' n ks et eq free absent h h' =
      publish-untracked gs c' vi' rows' p' p'' n ks
        (rw (et, eq, publish-panicked gs c vi rows p p' h) free) absent h'
