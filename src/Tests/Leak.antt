-- ===== src/Tests/Leak.antt =====
-- An example for a result that panics half-way (publisher.go): the client refuses one label value, as
-- the Prometheus client does for one that is not valid UTF-8.
use ducklake_metrics_daemon.Prelude.{
  ◌≡◌, refl, Bool, true, false, not, Option, none, some, List, [], ◌∷◌, any,
}
use ducklake_metrics_daemon.Prelude.Int.{pos}
use ducklake_metrics_daemon.Prelude.Text.{Text, codes, text_eq}
use ducklake_metrics_daemon.Prelude.Dict
use ducklake_metrics_daemon.Extern.{Extern, Laws}
use ducklake_metrics_daemon.Catalog.{Row}
use ducklake_metrics_daemon.Publisher.Outcome.{done, panicked, final}
use ducklake_metrics_daemon.Publisher.State.{Publisher, new}
use ducklake_metrics_daemon.Publisher.Apply.{Scope, publish}
use ducklake_metrics_daemon.Publisher.Snapshot.Leak.{panic_leaks}
use ducklake_metrics_daemon.Tests.Client.{client, no_series}
use ducklake_metrics_daemon.Tests.Queries.{files}
use ducklake_metrics_daemon.Tests.Snapshot.{acme, gauges, files_v, row, series_a, value_idx}

abbrev picky : Extern
picky = record client { accepts = λ m ls. not (any (λ l. text_eq l (codes "b")) ls) }

abbrev picky_laws : Laws picky
picky_laws = record {
  read-set = λ s m ls v n ks. refl;
  read-delete = λ s m ls n ks. refl;
  read-delete_partial = λ s m l v n ks. refl;
  read-add = λ s m ls d n ks. refl;
  total-add = λ s m ls d n ks. refl;
  float_int-small = λ n low high. refl;
  total-delete = λ s m ls n ks. refl;
  total-set = λ s m ls v n ks. refl;
}

abbrev scope : Scope picky
scope = record {
  tenant = acme;
  query = codes "files";
  cols = codes "l" ∷ codes "v" ∷ [];
  label_idx = 0 ∷ [];
}

abbrev poisoned : List (Row picky)
poisoned = row (codes "a") (pos 1) ∷ row (codes "b") (pos 2) ∷ []

abbrev good : List (Row picky)
good = row (codes "c") (pos 3) ∷ []

abbrev fresh : Publisher picky
fresh = new picky ((codes "files", gauges) ∷ []) (files ∷ []) no_series

abbrev after_panic : Publisher picky
after_panic = final (publish picky gauges scope value_idx poisoned fresh)

abbrev after_good : Publisher picky
after_good = final (publish picky gauges scope value_idx good after_panic)

panic_leaks_example : after_good.store.gauges files_v series_a ≡ some (pos 1)
unfolding Dict.get new ducklake_metrics_daemon.Prelude.Text.texts_eq
    ducklake_metrics_daemon.Publisher.Apply.tuple text_eq
    ducklake_metrics_daemon.Publisher.Coerce.to_label_string publish
    ducklake_metrics_daemon.Publisher.Coerce.gauge_value
    ducklake_metrics_daemon.Publisher.Outcome.set_gauge ducklake_metrics_daemon.Metrics.metric_eq
panic_leaks_example =
    panic_leaks picky picky_laws gauges scope scope value_idx value_idx poisoned good fresh
      after_panic after_good files_v series_a refl refl refl refl refl refl
