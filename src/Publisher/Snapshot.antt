-- ===== src/Publisher/Snapshot.antt =====
-- What one good message makes of its query's series: the Set phase of `applyQuery` (publisher.go).
pub mod Dropped
pub mod Exact
pub mod Tracking
pub mod Window
pub mod Leak
use ducklake_metrics_daemon.Prelude.{
  ℕ, ◌≡◌, ◌≢◌, ◌⊎◌, inl, inr, refl, sym, ◌∙◌, ap, subst, Bool, true, false, ◌&&◌, ◌||◌, Option,
  none, some, List, [], ◌∷◌, arith, All, any, if◌then◌else◌, Bool-cases, Option-cases,
}
use ducklake_metrics_daemon.Prelude.Text.{Text, text_eq, text_eq_iff, texts_eq, texts_eq_iff}
use ducklake_metrics_daemon.Prelude.Int.{pos}
use ducklake_metrics_daemon.Prelude.Dict
use ducklake_metrics_daemon.Prelude.Dict.{HasDistinctKeys, Dict}
use ducklake_metrics_daemon.Metrics.{Metric, self, query_errors_total, metric_eq, metric_eq_refl}
use ducklake_metrics_daemon.Extern.{Extern, Laws, same_series}
use ducklake_metrics_daemon.Catalog.{Row}
use ducklake_metrics_daemon.Publisher.Coerce.{gauge_value}
use ducklake_metrics_daemon.Publisher.Columns.{cell}
use ducklake_metrics_daemon.Publisher.Outcome.{
  Outcome, done, panicked, ◌>>=◌, set_gauge, inc, Outcome-cases,
}
use ducklake_metrics_daemon.Publisher.Apply.{Scope, tuple, written, set_values, set_rows}

abbrev pub or_else {ℓ} : {A : Type ℓ} → Option A → Option A → Option A
or_else none b = b
or_else (some a) b = some a

-- Two value columns of a query have two gauges.
abbrev pub AreSeparate : Dict Metric → Type 0
AreSeparate gs =
    (a b : Text) (m n : Metric)
    → Dict.get gs a ≡ some m
    → Dict.get gs b ≡ some n
    → metric_eq m n ≡ true
    → a ≡ b

module _ (x : Extern) where
  -- The value that the last row with these labels has in the column, if one is numeric.
  abbrev pub last_value : Scope x → ℕ → List Text → List (Row x) → Option x.Float
  last_value c idx ks [] = none
  last_value c idx ks (row ∷ rows) =
      or_else (last_value c idx ks rows)
        (if texts_eq (tuple x c row) ks then gauge_value x (cell x row c.cols idx) else none)

  -- One of the rows has these labels.
  abbrev pub has_row : Scope x → List Text → List (Row x) → Bool
  has_row c ks = any (λ row. texts_eq (tuple x c row) ks)

module _ (x : Extern) (law : Laws x) where
  pub read-inc :
      (m : Metric) (ls : List Text) (s s' : x.Store) (n : Metric) (ks : List Text)
      → inc x m ls s ≡ done s'
      → x.read s' n ks ≡ x.read s n ks
  unfolding inc
  read-inc m ls s s' n ks h = ground (arith, law.read-add s m ls (pos 1) n ks)

  pub read-set_gauge :
      (m : Metric) (ls : List Text) (v : x.Float) (s s' : x.Store) (n : Metric) (ks : List Text)
      → set_gauge x m ls v s ≡ done s'
      → x.read s' n ks ≡ (if same_series m ls n ks then some v else x.read s n ks)
  unfolding set_gauge
  read-set_gauge m ls v s s' n ks h = ground (arith, law.read-set s m ls v n ks)

  -- What one value of a row writes to the gauge `n` of column `name`.
  read-written :
      (c : Scope x) (gs : Dict Metric) (vname : Text) (vals : List Text) (o : Option x.Float)
      (s s' : x.Store) (name : Text) (n : Metric) (ks : List Text)
      → AreSeparate gs
      → Dict.get gs name ≡ some n
      → written x c gs vname vals o s ≡ done s'
      → x.read s' n ks
        ≡ or_else (if text_eq vname name && texts_eq vals ks then o else none) (x.read s n ks)
  unfolding written
  read-written c gs vname vals none s s' name n ks sep g h =
      ground (arith, read-inc _ _ s s' n ks h)
  read-written c gs vname vals (some v) s s' name n ks sep g h =
      elim (Option-cases (Dict.get gs vname)) [
        | inl e ↦ ground arith
        | inr (m, e) ↦ ground (
          arith,
          read-set_gauge m vals v s s' n ks,
          sep vname name m n e g,
          text_eq_iff vname name,
          metric_eq_refl n,
        )
      ]

  read-set_values_absent :
      (c : Scope x) (gs : Dict Metric) (row : Row x) (vi : Dict ℕ) (s s' : x.Store) (name : Text)
      (n : Metric) (ks : List Text)
      → AreSeparate gs
      → Dict.get gs name ≡ some n
      → Dict.get vi name ≡ none
      → set_values x c gs row vi s ≡ done s'
      → x.read s' n ks ≡ x.read s n ks
  unfolding set_values Dict.get
  read-set_values_absent c gs row [] s s' name n ks sep g a h = ground arith
  read-set_values_absent c gs row ((vname, idx) ∷ vi) s s' name n ks sep g a h =
      elim (Outcome-cases
        (written x c gs vname (tuple x c row) (gauge_value x (cell x row c.cols idx)) s)) [
          | inl (q, e) ↦ ground (
            arith,
            read-set_values_absent c gs row vi q s' name n ks sep g,
            read-written c gs vname (tuple x c row) (gauge_value x (cell x row c.cols idx)) s q name
                n ks sep g e,
          )
          | inr (q, e) ↦ ground arith
        ]

  -- A row writes its column's value to its own series and to no other.
  read-set_values :
      (c : Scope x) (gs : Dict Metric) (row : Row x) (vi : Dict ℕ) (s s' : x.Store) (name : Text)
      (idx : ℕ) (n : Metric) (ks : List Text)
      → AreSeparate gs
      → HasDistinctKeys vi
      → Dict.get gs name ≡ some n
      → Dict.get vi name ≡ some idx
      → set_values x c gs row vi s ≡ done s'
      → x.read s' n ks
        ≡ or_else
            (if texts_eq (tuple x c row) ks then gauge_value x (cell x row c.cols idx) else none)
            (x.read s n ks)
  unfolding set_values Dict.get
  read-set_values c gs row [] s s' name idx n ks sep d g a h = ground arith
  read-set_values c gs row ((vname, i) ∷ vi) s s' name idx n ks sep (new, d) g a h =
      elim (Outcome-cases
        (written x c gs vname (tuple x c row) (gauge_value x (cell x row c.cols i)) s)) [
          | inr (q, e) ↦ ground arith
          | inl (q, e) ↦
              let w =
                read-written c gs vname (tuple x c row) (gauge_value x (cell x row c.cols i)) s q
                  name n ks sep g e in
              elim (Bool-cases (text_eq vname name)) [
                | inl same ↦ ground (
                  arith,
                  w,
                  text_eq_iff vname name,
                  read-set_values_absent c gs row vi q s' name n ks sep g,
                )
                | inr other ↦
                    ground (arith, w, read-set_values c gs row vi q s' name idx n ks sep d g)
              ]
        ]

  -- After a Set phase that does not panic, the gauge of a value column holds for each series the
  -- value of the last row of that tuple that has a numeric one, else what it held before, when the
  -- gauges are different metrics and no value column stands twice.
  pub read-set_rows :
      (c : Scope x) (gs : Dict Metric) (vi : Dict ℕ) (rows : List (Row x)) (s s' : x.Store)
      (name : Text) (idx : ℕ) (n : Metric) (ks : List Text)
      → AreSeparate gs
      → HasDistinctKeys vi
      → Dict.get gs name ≡ some n
      → Dict.get vi name ≡ some idx
      → set_rows x c gs vi rows s ≡ done s'
      → x.read s' n ks ≡ or_else (last_value x c idx ks rows) (x.read s n ks)
  unfolding set_rows
  read-set_rows c gs vi [] s s' name idx n ks sep d g a h = ground arith
  read-set_rows c gs vi (row ∷ rows) s s' name idx n ks sep d g a h =
      elim (Outcome-cases (set_values x c gs row vi s)) [
        | inr (q, e) ↦ ground arith
        | inl (q, e) ↦ ground (
          arith,
          read-set_values c gs row vi s q name idx n ks sep d g a e,
          read-set_rows c gs vi rows q s' name idx n ks sep d g a,
        )
      ]

  pub last_value_absent :
      (c : Scope x) (idx : ℕ) (ks : List Text) (rows : List (Row x))
      → has_row x c ks rows ≡ false
      → last_value x c idx ks rows ≡ none
  last_value_absent c idx ks [] h = refl
  last_value_absent c idx ks (row ∷ rows) h = ground (arith, last_value_absent c idx ks rows)
