-- ===== src/Catalog/Fetch.antt =====
-- `Query` (catalog.go). What the driver answers is a parameter: an error, or the column names, the
-- rows in order, each one decoded or not, and the error that ended the iteration, if any.
pub mod Cap
use ducklake_metrics_daemon.Prelude.{
  leb, ◌&&◌, Option, none, some, List, [], ◌∷◌, ◌++◌, length, if◌then◌else◌, ltb,
}
use ducklake_metrics_daemon.Prelude.Int.{ℤ, pos, pos_part, ltb_ℤ}
use ducklake_metrics_daemon.Prelude.Text.{Text}
use ducklake_metrics_daemon.Prelude.Dict
use ducklake_metrics_daemon.Prelude.Dict.{Dict}
use ducklake_metrics_daemon.Prelude.Result.{Result, ok, err}
use ducklake_metrics_daemon.Extern.{Extern, Value}
use ducklake_metrics_daemon.Catalog.{
  Row, QueryError, query_failed, row_cap_exceeded, row_decode, row_iteration,
}

module _ (x : Extern) where
  -- What `rows` yields.
  pub record Cursor : Type 0 where
    pub columns : List Text
    pub fetched : List (Result Text (List (Value x)))
    pub failure : Option Text

  -- The loop that fills a row; `none` is the panic of an index out of range.
  unfoldable pub fill : List Text → List (Value x) → Row x → Option (Row x)
  fill [] vals row = some row
  fill (name ∷ names) [] row = none
  fill (name ∷ names) (v ∷ vals) row = fill names vals (Dict.put row name v)

  abbrev pub Fetched : Type 0
  Fetched = Option (Result QueryError (List (Row x)))

  abbrev next_row : Option (Row x) → (Row x → Fetched) → Fetched
  next_row none k = none
  next_row (some row) k = k row

  abbrev decoded : Result Text (List (Value x)) → (List (Value x) → Fetched) → Fetched
  decoded (err e) k = some (err (row_decode e))
  decoded (ok vals) k = k vals

  finished : Option Text → List (Row x) → Result QueryError (List (Row x))
  finished none out = ok out
  finished (some e) out = err (row_iteration e)

  -- The loop over the rows.
  fetch : ℤ → List Text → Option Text → List (Result Text (List (Value x))) → List (Row x) → Fetched
  unfolding fill finished
  fetch max_rows cols failure [] out = some (finished failure out)
  fetch max_rows cols failure (r ∷ rs) out =
      let more = decoded r (λ vals.
        next_row (fill cols vals []) (λ row. fetch max_rows cols failure rs (out ++ row ∷ []))) in
      if ltb_ℤ (pos 0) max_rows && leb (pos_part max_rows) (length out)
      then some (err (row_cap_exceeded max_rows))
      else more

  abbrev with_columns : List Text → Fetched → Option (Result QueryError (List (Row x) × List Text))
  with_columns cols none = none
  with_columns cols (some (err e)) = some (err e)
  with_columns cols (some (ok rows)) = some (ok (rows, cols))

  unfoldable pub query :
      Result Text Cursor → ℤ → Option (Result QueryError (List (Row x) × List Text))
  unfolding fetch
  query (err e) max_rows = some (err (query_failed e))
  query (ok c) max_rows = with_columns c.columns (fetch max_rows c.columns c.failure c.fetched [])
