-- ===== src/Catalog/Fetch/Cap.antt =====
-- The row cap of `Query` (catalog.go).
use mathlib.Core.Logic.{inl, inr}
use ducklake_metrics_daemon.Prelude.{
  Bool-cases, ◌≡◌, refl, Bool, false, ◌&&◌, none, some, List, [], ◌∷◌, ◌++◌, append_assoc,
  append-nil, arith, length, length-append, if◌then◌else◌,
}
use ducklake_metrics_daemon.Prelude.Int.{ℤ, pos, ltb_ℤ}
use ducklake_metrics_daemon.Prelude.Text.{Text}
use ducklake_metrics_daemon.Prelude.Result.{Result, ok, err}
use ducklake_metrics_daemon.Extern.{Extern, Value}
use ducklake_metrics_daemon.Catalog.{Row, row_cap_exceeded}
use ducklake_metrics_daemon.Catalog.Fetch.{Cursor, fill, fetch, finished, query}

module _ (x : Extern) where
  -- Each fetched row is decoded and fills one row of the result.
  abbrev pub Fills : List Text → List (Result Text (List (Value x))) → List (Row x) → Type 0
  Fills cols [] [] = Unit
  Fills cols (ok vals ∷ rs) (row ∷ rows) = (fill x cols vals [] ≡ some row) × Fills cols rs rows
  Fills cols [] (_ ∷ _) = ⊥
  Fills cols (ok _ ∷ _) [] = ⊥
  Fills cols (err _ ∷ _) _ = ⊥

  abbrev pub exceeds : ℤ → List (Row x) → Bool
  exceeds max_rows rows = ltb_ℤ (pos 0) max_rows && ltb_ℤ max_rows (pos (length rows))

  fetch_lem :
      (m : ℤ) (cols : List Text) (rs : List (Result Text (List (Value x))))
      (rows out : List (Row x))
      → Fills cols rs rows
      → exceeds m out ≡ false
      → fetch x m cols none rs out
        ≡ some (if exceeds m (out ++ rows) then err (row_cap_exceeded m) else ok (out ++ rows))
  unfolding fetch finished
  fetch_lem m cols [] [] out f h = rw (append-nil, h) refl
  fetch_lem m cols [] (_ ∷ _) out f h = elim f [ ]
  fetch_lem m cols (ok _ ∷ _) [] out f h = elim f [ ]
  fetch_lem m cols (err _ ∷ _) _ out f h = elim f [ ]
  fetch_lem m cols (ok vals ∷ rs) (row ∷ rows) out (f, fs) h =
      elim (Bool-cases (exceeds m (out ++ row ∷ []))) [
        | inl b ↦ ground (arith, b, length-append out (row ∷ []), length-append out (row ∷ rows))
        | inr b ↦ ground (
          arith,
          f,
          h,
          b,
          fetch_lem m cols rs rows (out ++ row ∷ []) fs b,
          append_assoc out (row ∷ []) rows,
          length-append out (row ∷ []),
        )
      ]

  -- When every fetched row is decoded and has a value for each column, and the iteration ends
  -- without an error, the query returns all rows in order with the columns, unless the cap is
  -- positive and there are more rows: then it fails with the cap.
  pub query_all :
      (c : Cursor x) (max_rows : ℤ) (rows : List (Row x))
      → c.failure ≡ none
      → Fills c.columns c.fetched rows
      → query x (ok c) max_rows
        ≡ some (
            if exceeds max_rows rows then err (row_cap_exceeded max_rows) else ok (rows, c.columns))
  unfolding query
  query_all c max_rows rows e f =
      ground (arith, e, fetch_lem max_rows c.columns c.fetched rows [] f (ground arith))
