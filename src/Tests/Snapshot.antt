-- ===== src/Tests/Snapshot.antt =====
-- Examples for the two phases of `applyQuery` (publisher.go).
use ducklake_metrics_daemon.Prelude.{
  ◌≡◌, ◌≢◌, refl, Bool, true, false, ◌&&◌, Option, none, some, List, [], ◌∷◌, All, arith,
  if◌then◌else◌, ℕ,
}
use ducklake_metrics_daemon.Prelude.Int.{ℤ, pos}
use ducklake_metrics_daemon.Prelude.Text.{Text, codes, text_eq, text_eq_iff}
use ducklake_metrics_daemon.Prelude.Dict
use ducklake_metrics_daemon.Prelude.Dict.{Dict, HasDistinctKeys}
use ducklake_metrics_daemon.Metrics.{Metric, gauge, metric_eq}
use ducklake_metrics_daemon.Extern.{Any}
use ducklake_metrics_daemon.Catalog.{Row}
use ducklake_metrics_daemon.Publisher.Outcome.{done, final}
use ducklake_metrics_daemon.Publisher.State.{Publisher, Tuples, new}
use ducklake_metrics_daemon.Publisher.Apply.{
  label_values, Scope, tuple, signature, new_tuples, set_rows, delete_dropped, publish,
}
use ducklake_metrics_daemon.Publisher.Coerce.{to_label_string}
use ducklake_metrics_daemon.Publisher.Signature.{
  IsClean, AreClean, signature_inj, in_tuples, is_some,
}
use ducklake_metrics_daemon.Publisher.Snapshot.{AreSeparate, has_row}
use ducklake_metrics_daemon.Publisher.Snapshot.Exact.{IsTracked, tuples_of, read-publish}
use ducklake_metrics_daemon.Publisher.Snapshot.Tracking.{publish-IsTracked}
use ducklake_metrics_daemon.Publisher.Snapshot.Window.{no_gap}
use ducklake_metrics_daemon.Tests.Client.{client, client_laws, no_series}
use ducklake_metrics_daemon.Tests.Queries.{files}

abbrev pub files_v : Metric
files_v = gauge (codes "files_v")

abbrev pub gauges : Dict Metric
gauges = (codes "v", files_v) ∷ []

abbrev pub acme : Text
acme = codes "t"

abbrev scope : Scope client
scope = record {
  tenant = acme;
  query = codes "files";
  cols = codes "l" ∷ codes "v" ∷ [];
  label_idx = 0 ∷ [];
}

abbrev pub value_idx : Dict ℕ
value_idx = (codes "v", 1) ∷ []

abbrev pub row : Text → ℤ → Row client
row l n = (codes "l", Any.string l) ∷ (codes "v", Any.int64 n) ∷ []

abbrev pub table : List (Row client)
table = row (codes "a") (pos 1) ∷ row (codes "b") (pos 2) ∷ []

abbrev pub series_a : List Text
series_a = acme ∷ codes "a" ∷ []

gauges_AreSeparate : AreSeparate gauges
unfolding Dict.get
gauges_AreSeparate a b m n ha hb e =
    ground (arith, text_eq_iff (codes "v") a, text_eq_iff (codes "v") b)

pub series_IsClean : (l : ℕ) → l ≢ 0 → IsClean (acme ∷ (l ∷ []) ∷ [])
series_IsClean l h = record { some_label = λ e. cc e; free = ((omega arith, tt), ((h, tt), tt)) }

table-AreClean : AreClean client scope table
unfolding tuple label_values to_label_string Dict.get text_eq
table-AreClean = (series_IsClean b'a' (omega arith), (series_IsClean b'b' (omega arith), tt))

abbrev pub fresh : Publisher client
fresh = new client ((codes "files", gauges) ∷ []) (files ∷ []) no_series

fresh-IsTracked : IsTracked gauges acme (codes "files") fresh
unfolding new Dict.get
fresh-IsTracked = record { keyed = tt; covers = λ n ks h b i. refl }

-- The publisher after the first result, whose rows are the whole table.
abbrev pub after_first : Publisher client
after_first = final (publish client gauges scope value_idx table fresh)

publish-IsTracked_example :
    IsTracked gauges acme (codes "files") after_first
    × ((ks : List Text)
        → in_tuples ks (tuples_of after_first acme (codes "files")) ≡ has_row client scope ks table)
unfolding publish ducklake_metrics_daemon.Publisher.Coerce.gauge_value Dict.get text_eq
    ducklake_metrics_daemon.Publisher.Outcome.set_gauge
publish-IsTracked_example =
    publish-IsTracked client client_laws gauges scope value_idx table fresh after_first
      table-AreClean fresh-IsTracked refl

-- The second result lacks the row `b`.
abbrev second : List (Row client)
second = row (codes "a") (pos 5) ∷ []

second-AreClean : AreClean client scope second
unfolding tuple Dict.get text_eq
second-AreClean = (table-AreClean.0, tt)

read-publish_example :
    (final (publish client gauges scope value_idx second after_first)).store.gauges files_v
      (acme ∷ codes "b" ∷ [])
    ≡ none
unfolding Dict.get text_eq publish ducklake_metrics_daemon.Publisher.Coerce.gauge_value
    ducklake_metrics_daemon.Publisher.Outcome.set_gauge
    ducklake_metrics_daemon.Prelude.Text.texts_eq tuple to_label_string
read-publish_example =
    read-publish client client_laws gauges scope value_idx second after_first
      (final (publish client gauges scope value_idx second after_first)) (codes "v") 1 files_v
      (acme ∷ codes "b" ∷ []) gauges_AreSeparate (refl, tt) second-AreClean
      publish-IsTracked_example.0 refl refl refl refl

abbrev tuple_b : Tuples
tuple_b = (signature (acme ∷ codes "b" ∷ []), acme ∷ codes "b" ∷ []) ∷ []

abbrev new_tracked : Tuples
new_tracked = new_tuples client scope second []

signature_inj_example : series_a ≡ series_a
signature_inj_example =
    signature_inj series_a series_a (series_IsClean b'a' (omega arith))
      (series_IsClean b'a' (omega arith)) refl

no_gap_example :
    (is_some (after_first.store.gauges files_v series_a) ≡ true
      → is_some (
          (final (set_rows client scope gauges value_idx second after_first.store)).gauges files_v
            series_a)
        ≡ true)
    × (has_row client scope series_a second ≡ true
        → (delete_dropped client gauges
              (new_tuples client scope second [])
              tuple_b
              after_first.store).gauges
            files_v series_a
          ≡ after_first.store.gauges files_v series_a)
unfolding Dict.get text_eq set_rows ducklake_metrics_daemon.Publisher.Coerce.gauge_value
    ducklake_metrics_daemon.Publisher.Outcome.set_gauge publish new metric_eq
    ducklake_metrics_daemon.Prelude.Text.texts_eq tuple to_label_string
no_gap_example =
    no_gap client client_laws gauges scope value_idx second second tuple_b after_first.store
      (final (set_rows client scope gauges value_idx second after_first.store)) after_first.store
      (codes "v") 1 files_v series_a gauges_AreSeparate (refl, tt) second-AreClean
      ((refl, series_IsClean b'b' (omega arith)), tt) refl refl refl
