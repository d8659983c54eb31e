-- ===== src/Publisher/Snapshot/Window.antt =====
-- A scrape in the middle of a message sees no gap: the two phases of `applyQuery` (publisher.go),
-- stopped after any row and after any tuple of the old tracking.
use ducklake_metrics_daemon.Prelude.{ℕ, ◌≡◌, true, some, List, [], arith}
use ducklake_metrics_daemon.Prelude.Text.{Text}
use ducklake_metrics_daemon.Prelude.Dict
use ducklake_metrics_daemon.Prelude.Dict.{Dict, HasDistinctKeys}
use ducklake_metrics_daemon.Metrics.{Metric}
use ducklake_metrics_daemon.Extern.{Extern, Laws}
use ducklake_metrics_daemon.Catalog.{Row}
use ducklake_metrics_daemon.Publisher.Outcome.{done}
use ducklake_metrics_daemon.Publisher.State.{Tuples}
use ducklake_metrics_daemon.Publisher.Apply.{Scope, new_tuples, set_rows, delete_dropped}
use ducklake_metrics_daemon.Publisher.Signature.{IsKeyed, AreClean, is_some, get-new_tuples}
use ducklake_metrics_daemon.Publisher.Snapshot.{AreSeparate, has_row, read-set_rows}
use ducklake_metrics_daemon.Publisher.Snapshot.Dropped.{read-delete_dropped}
use ducklake_metrics_daemon.Publisher.Snapshot.Exact.{not_dropped, IsClean-has_row}

module _ (x : Extern) (law : Laws x) where
  -- For gauges of different metrics, a declared value column, and clean label tuples: a series that is
  -- shown before the Set phase is shown after any number of its rows; and a series that one of the
  -- rows has reads the same after any number of tuples of the old tracking as before the Delete phase.
  pub no_gap :
      (gs : Dict Metric) (c : Scope x) (vi : Dict ℕ) (rows_so_far rows : List (Row x))
      (prev_so_far : Tuples) (s s₁ s₂ : x.Store) (name : Text) (idx : ℕ) (n : Metric)
      (ks : List Text)
      → AreSeparate gs
      → HasDistinctKeys vi
      → AreClean x c rows
      → IsKeyed prev_so_far
      → Dict.get gs name ≡ some n
      → Dict.get vi name ≡ some idx
      → set_rows x c gs vi rows_so_far s ≡ done s₁
      → (is_some (x.read s n ks) ≡ true → is_some (x.read s₁ n ks) ≡ true)
        × (has_row x c ks rows ≡ true
            → x.read (delete_dropped x gs (new_tuples x c rows []) prev_so_far s₂) n ks
              ≡ x.read s₂ n ks)
  no_gap gs c vi rs rows prev s s₁ s₂ name idx n ks sep d clean keyed g a h = (
    λ shown. ground (arith, shown, read-set_rows x law c gs vi rs s s₁ name idx n ks sep d g a h),
    λ present. ground (
      arith,
      read-delete_dropped x law gs (new_tuples x c rows []) prev s₂ n ks,
      not_dropped (new_tuples x c rows []) ks prev keyed,
      get-new_tuples x c rows [] ks clean (IsClean-has_row x law c ks rows clean present),
    ),
  )
