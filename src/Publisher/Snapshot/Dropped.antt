-- ===== src/Publisher/Snapshot/Dropped.antt =====
-- The Delete phase of `applyQuery` (publisher.go): it removes the dropped tuples from every gauge
-- of the query, and nothing else.
use ducklake_metrics_daemon.Prelude.{
  ◌≡◌, refl, Bool, true, false, ◌&&◌, ◌||◌, none, List, [], ◌∷◌, arith, if◌then◌else◌, Option-cases,
  inl, inr,
}
use ducklake_metrics_daemon.Prelude.Text.{Text, texts_eq}
use ducklake_metrics_daemon.Prelude.Dict
use ducklake_metrics_daemon.Prelude.Dict.{Dict}
use ducklake_metrics_daemon.Metrics.{Metric, metric_eq}
use ducklake_metrics_daemon.Extern.{Extern, Laws}
use ducklake_metrics_daemon.Publisher.State.{Tuples}
use ducklake_metrics_daemon.Publisher.Signature.{is_some}
use ducklake_metrics_daemon.Publisher.Apply.{delete_all, delete_dropped}

abbrev pub has_metric : Metric → Dict Metric → Bool
has_metric n [] = false
has_metric n ((_, g) ∷ gs) = metric_eq g n || has_metric n gs

-- A tuple of `prev` that `new` has no signature of.
abbrev pub is_dropped : Tuples → List Text → Tuples → Bool
is_dropped new ks [] = false
is_dropped new ks ((sig, vals) ∷ prev) =
    (texts_eq vals ks && (if is_some (Dict.get new sig) then false else true))
    || is_dropped new ks prev

module _ (x : Extern) (law : Laws x) where
  pub read-delete_all :
      (gs : Dict Metric) (vals : List Text) (s : x.Store) (n : Metric) (ks : List Text)
      → x.read (delete_all x gs vals s) n ks
        ≡ (if has_metric n gs && texts_eq vals ks then none else x.read s n ks)
  unfolding delete_all
  read-delete_all [] vals s n ks = refl
  read-delete_all ((_, g) ∷ gs) vals s n ks =
      ground
        (arith, read-delete_all gs vals (x.delete s g vals) n ks, law.read-delete s g vals n ks)

  -- After the Delete phase a series is gone if its metric is one of the gauges and its tuple is
  -- tracked in `prev` under a signature that `new` lacks; every other series reads as before.
  pub read-delete_dropped :
      (gs : Dict Metric) (new prev : Tuples) (s : x.Store) (n : Metric) (ks : List Text)
      → x.read (delete_dropped x gs new prev s) n ks
        ≡ (if has_metric n gs && is_dropped new ks prev then none else x.read s n ks)
  unfolding delete_dropped
  read-delete_dropped gs new [] s n ks = ground arith
  read-delete_dropped gs new ((sig, vals) ∷ prev) s n ks = elim (Option-cases (Dict.get new sig)) [
    | inl e ↦ ground (
      arith,
      read-delete_dropped gs new prev (delete_all x gs vals s) n ks,
      read-delete_all gs vals s n ks,
    )
    | inr (v, e) ↦ ground (arith, read-delete_dropped gs new prev s n ks)
  ]
