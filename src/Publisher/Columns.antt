-- ===== src/Publisher/Columns.antt =====
-- `indexLabelColumns` and `indexValueColumns` of publisher.go, and reading a row by column index.
pub mod ByName
use ducklake_metrics_daemon.Prelude.{ℕ, suc, Option, none, some, List, [], ◌∷◌, get_or}
use ducklake_metrics_daemon.Prelude.Text.{Text}
use ducklake_metrics_daemon.Prelude.Dict
use ducklake_metrics_daemon.Prelude.Dict.{Dict}
use ducklake_metrics_daemon.Extern.{Extern, Value, nil}
use ducklake_metrics_daemon.Catalog.{Row}

-- `byName`: the last column of each name wins.
unfoldable pub by_name : ℕ → List Text → Dict ℕ → Dict ℕ
by_name i [] m = m
by_name i (c ∷ cols) m = by_name (suc i) cols (Dict.put m c i)

-- The loop of `indexLabelColumns`; `none` is the error of a missing column.
unfoldable pub label_indices : Dict ℕ → List Text → Option (List ℕ)
label_indices m [] = some []
label_indices m (name ∷ want) =
    let rest = label_indices m want in
    elim (Dict.get m name) [
      | none ↦ none
      | some i ↦ elim rest [ none ↦ none | some out ↦ some (i ∷ out) ]
    ]

unfoldable pub index_label_columns : List Text → List Text → Option (List ℕ)
unfolding label_indices
index_label_columns cols want = label_indices (by_name 0 cols []) want

-- The loop of `indexValueColumns`.
unfoldable pub value_indices : Dict ℕ → List Text → Dict ℕ → Option (Dict ℕ)
value_indices m [] out = some out
value_indices m (name ∷ want) out = elim (Dict.get m name) [
  | none ↦ none
  | some i ↦ value_indices m want (Dict.put out name i)
]

unfoldable pub index_value_columns : List Text → List Text → Option (Dict ℕ)
unfolding value_indices
index_value_columns cols want = value_indices (by_name 0 cols []) want []

module _ (x : Extern) where
  -- `row[r.Cols[i]]`: a missing key reads nil. The indices come from `byName`, so they are in range.
  abbrev pub cell : Row x → List Text → ℕ → Value x
  cell row cols i = elim (Dict.get row (get_or cols i [])) [ none ↦ nil | some v ↦ v ]
