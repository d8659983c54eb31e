-- ===== src/Tests/Queries.antt =====
-- Examples for queries.go.
use ducklake_metrics_daemon.Prelude.{◌≡◌, refl, Bool, true, none, some, [], ◌∷◌, ◌↔◌}
use ducklake_metrics_daemon.Prelude.Int.{pos}
use ducklake_metrics_daemon.Prelude.Text.{codes, text_eq}
use ducklake_metrics_daemon.Prelude.Dict
use ducklake_metrics_daemon.Prelude.Dict.{Dict}
use ducklake_metrics_daemon.Prelude.Sort.{find}
use ducklake_metrics_daemon.Queries.{Query, validate}
use ducklake_metrics_daemon.Queries.Validation.{IsValid, validate_iff}
use ducklake_metrics_daemon.Queries.Merge.{
  name_of, merge, enabled, sort_by_name, find-merge, merge_order_independent,
}

abbrev pub files : Query
files = record {
  name = codes "files";
  help = codes "h";
  labels = codes "l" ∷ [];
  values = codes "v" ∷ [];
  sql = codes "select";
  interval_seconds = pos 600;
}

abbrev pub rows : Query
rows = record files { name = codes "rows"; interval_seconds = pos 0 }

abbrev pub slow_rows : Query
slow_rows = record rows { interval_seconds = pos 60 }

abbrev no_files : Dict Bool
no_files = (codes "files", true) ∷ []

validate_iff_example : (validate files ≡ none) ↔ IsValid files
validate_iff_example = validate_iff files

find-merge_example :
    find name_of (merge (files ∷ rows ∷ []) (slow_rows ∷ []) no_files) (codes "rows")
    ≡ some slow_rows
unfolding find Dict.get text_eq
find-merge_example = find-merge (files ∷ rows ∷ []) (slow_rows ∷ []) no_files (codes "rows")

-- The map in another order than the one that the loops fill it in.
abbrev by_name : Dict Query
by_name = (codes "rows", rows) ∷ (codes "files", files) ∷ []

merge_order_independent_example :
    sort_by_name (enabled no_files by_name) ≡ merge (files ∷ rows ∷ []) [] no_files
unfolding Dict.get text_eq
merge_order_independent_example =
    merge_order_independent (files ∷ rows ∷ []) [] no_files by_name (refl, refl, (refl, refl, tt))
      (λ n. refl)
