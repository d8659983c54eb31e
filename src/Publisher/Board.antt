-- ===== src/Publisher/Board.antt =====
-- What the gauges promise to show, told without tracking, signatures or column positions: for each
-- query, value column and label tuple a number or nothing.
pub mod Frame
pub mod Total
pub mod Message
pub mod Quiet
pub mod Invariant
pub mod Publish
pub mod Step
pub mod Refines
pub mod Interleaving
pub mod Accepted
use ducklake_metrics_daemon.Prelude.{
  Bool, true, false, ◌&&◌, Option, none, some, List, [], ◌∷◌, any, if◌then◌else◌,
}
use ducklake_metrics_daemon.Prelude.Text.{Text, text_eq, texts_eq}
use ducklake_metrics_daemon.Prelude.Dict
use ducklake_metrics_daemon.Prelude.Sort.{find}
use ducklake_metrics_daemon.Queries.{Query}
use ducklake_metrics_daemon.Queries.Merge.{name_of}
use ducklake_metrics_daemon.Extern.{Extern, Value, nil}
use ducklake_metrics_daemon.Catalog.{Row, QueryError}
use ducklake_metrics_daemon.Publisher.Coerce.{to_label_string, gauge_value}
use ducklake_metrics_daemon.Publisher.State.{Result, Kind, kind_query, kind_pool_stat, kind_other}
use ducklake_metrics_daemon.Publisher.Run.{Event, canceled, closed, received}
use ducklake_metrics_daemon.Publisher.Isolation.{belongs}
use ducklake_metrics_daemon.Publisher.Snapshot.{or_else}

-- The result has all these columns.
abbrev pub has_columns : List Text → List Text → Bool
has_columns cols [] = true
has_columns cols (n ∷ ns) = any (λ c. text_eq c n) cols && has_columns cols ns

abbrev pub declares : Query → Text → Bool
declares q v = any (λ w. text_eq w v) q.values

module _ (x : Extern) where
  -- The column of this name; a missing one is null.
  abbrev pub field : Row x → Text → Value x
  field row n = elim (Dict.get row n) [ none ↦ nil | some v ↦ v ]

  abbrev pub labels_of : List Text → Row x → List Text
  labels_of [] row = []
  labels_of (l ∷ ls) row = to_label_string x (field row l) ∷ labels_of ls row

  -- The tenant and the row's labels.
  abbrev pub series_of : Text → Query → Row x → List Text
  series_of t q row = t ∷ labels_of q.labels row

  abbrev pub shows : Text → Query → List (Row x) → List Text → Bool
  shows t q rows ks = any (λ row. texts_eq (series_of t q row) ks) rows

  -- The value of the last row of the series that has a numeric one.
  abbrev pub newest : Text → Query → Text → List Text → List (Row x) → Option x.Float
  newest t q v ks [] = none
  newest t q v ks (row ∷ rows) =
      or_else (newest t q v ks rows)
        (if texts_eq (series_of t q row) ks then gauge_value x (field row v) else none)

  -- By query, value column and label tuple.
  abbrev pub Board : Type 0
  Board = Text → Text → List Text → Option x.Float

  abbrev pub empty_board : Board
  empty_board n v ks = none

  -- The rows of a result replace the tenant's series of the query.
  abbrev pub replaced : Result x → Query → Board → Board
  replaced r q b p v ks =
      if text_eq q.name p && declares q v && belongs r.tenant ks
      then if shows r.tenant q r.rows ks
        then or_else (newest r.tenant q v ks r.rows) (b p v ks)
        else none
      else b p v ks

  abbrev pub published : Result x → Option Query → Board → Board
  published r none b = b
  published r (some q) b =
      if has_columns r.cols q.labels && has_columns r.cols q.values then replaced r q b else b

  abbrev pub accepted : List Query → Result x → Option QueryError → Board → Board
  accepted qs r (some e) b = b
  accepted qs r none b = published r (find name_of qs r.query) b

  abbrev pub told : List Query → Result x → Kind → Board → Board
  told qs r kind_query b = accepted qs r r.error b
  told qs r kind_pool_stat b = b
  told qs r (kind_other n) b = b

  -- The board after the events that the loop reads.
  abbrev pub replay : List Query → List (Event x) → Board → Board
  replay qs [] b = b
  replay qs (canceled ∷ es) b = b
  replay qs (closed ∷ es) b = b
  replay qs (received r ∷ es) b = replay qs es (told qs r r.kind b)
