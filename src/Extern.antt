-- ===== src/Extern.antt =====
-- What the daemon takes from outside the repository, as parameters: float64 with strconv and fmt,
-- pgtype.Numeric, and the Prometheus client's metric vectors behind their documented laws.
use ducklake_metrics_daemon.Prelude.{
  ◌≡◌, Bool, false, ◌&&◌, ◌||◌, Option, none, some, List, [], ◌∷◌, if◌then◌else◌,
}
use ducklake_metrics_daemon.Prelude.Int.{ℤ, pos, ◌+ℤ◌, ◌≤ℤ◌}
use ducklake_metrics_daemon.Prelude.Text.{Text, text_eq, texts_eq}
use ducklake_metrics_daemon.Metrics.{Metric, metric_eq}

-- A Go `any` as pgx decodes it; `other` is every type that the code does not name.
pub data Any (Float Float32 Numeric Other : Type 0) : Type 0 where
  nil : Any Float Float32 Numeric Other
  string : Text → Any Float Float32 Numeric Other
  bytes : Text → Any Float Float32 Numeric Other
  int64 : ℤ → Any Float Float32 Numeric Other
  int32 : ℤ → Any Float Float32 Numeric Other
  int16 : ℤ → Any Float Float32 Numeric Other
  int : ℤ → Any Float Float32 Numeric Other
  float64 : Float → Any Float Float32 Numeric Other
  float32 : Float32 → Any Float Float32 Numeric Other
  bool : Bool → Any Float Float32 Numeric Other
  numeric : Numeric → Any Float Float32 Numeric Other
  other : Other → Any Float Float32 Numeric Other

pub record Extern : Type 1 where
  -- float64 and float32; `of_int` is the conversion float64(n), `widen` is float64(f)
  pub Float : Type 0
  pub Float32 : Type 0
  pub is_nan : Float → Bool
  pub of_int : ℤ → Float
  pub widen : Float32 → Float
  -- the integer that float64(n) stands for
  pub float_int : ℤ → ℤ
  -- strconv.ParseFloat(s, 64), strconv.FormatFloat(f, 'f', -1, 64)
  pub parse_float : Text → Option Float
  pub format_float : Float → Text
  -- pgtype.Numeric: its Valid field, and Float64Value with the Valid field of the result
  pub Numeric : Type 0
  pub numeric_valid : Numeric → Bool
  pub float64_value : Numeric → Option (Float × Bool)
  -- fmt.Sprintf("%v", v)
  pub Other : Type 0
  pub sprint : Any Float Float32 Numeric Other → Text
  -- the series of all metric vectors of the registry
  pub Store : Type 0
  pub label_names : Metric → List Text
  -- WithLabelValues does not panic: the arity is right and the values are valid UTF-8
  pub accepts : Metric → List Text → Bool
  pub set : Store → Metric → List Text → Float → Store
  pub add : Store → Metric → List Text → ℤ → Store
  pub delete : Store → Metric → List Text → Store
  pub delete_partial : Store → Metric → Text → Text → Store
  -- what a scrape shows: a gauge's value, and a counter's total
  pub read : Store → Metric → List Text → Option Float
  pub total : Store → Metric → List Text → ℤ

abbrev pub Value : Extern → Type 0
Value x = Any x.Float x.Float32 x.Numeric x.Other

-- One of the labels called `n` has the value `v`.
abbrev pub has_label : List Text → Text → Text → List Text → Bool
has_label (m ∷ ms) n v (u ∷ us) = (text_eq m n && text_eq u v) || has_label ms n v us
has_label [] n v us = false
has_label (m ∷ ms) n v [] = false

-- The same series of the same vector.
abbrev pub same_series : Metric → List Text → Metric → List Text → Bool
same_series m ls n ks = metric_eq m n && texts_eq ls ks

-- The documented behaviour of the client's operations.
pub record Laws (x : Extern) : Type 0 where
  pub read-set :
      (s : x.Store) (m : Metric) (ls : List Text) (v : x.Float) (n : Metric) (ks : List Text)
      → x.read (x.set s m ls v) n ks ≡ (if same_series m ls n ks then some v else x.read s n ks)
  pub read-delete :
      (s : x.Store) (m : Metric) (ls : List Text) (n : Metric) (ks : List Text)
      → x.read (x.delete s m ls) n ks ≡ (if same_series m ls n ks then none else x.read s n ks)
  pub read-delete_partial :
      (s : x.Store) (m : Metric) (l v : Text) (n : Metric) (ks : List Text)
      → x.read (x.delete_partial s m l v) n ks
        ≡ (if metric_eq m n && has_label (x.label_names n) l v ks then none else x.read s n ks)
  pub read-add :
      (s : x.Store) (m : Metric) (ls : List Text) (d : ℤ) (n : Metric) (ks : List Text)
      → x.read (x.add s m ls d) n ks ≡ x.read s n ks
  pub total-add :
      (s : x.Store) (m : Metric) (ls : List Text) (d : ℤ) (n : Metric) (ks : List Text)
      → x.total (x.add s m ls d) n ks
        ≡ (if same_series m ls n ks then x.total s n ks +ℤ d else x.total s n ks)
  -- float64 has the integers up to 2 ^ 53
  pub float_int-small : (n : ℤ) → pos 0 ≤ℤ n → n ≤ℤ pos 9007199254740992 → x.float_int n ≡ n
  -- a deleted series is counted from 0 again
  pub total-delete :
      (s : x.Store) (m : Metric) (ls : List Text) (n : Metric) (ks : List Text)
      → x.total (x.delete s m ls) n ks ≡ (if same_series m ls n ks then pos 0 else x.total s n ks)
  pub total-set :
      (s : x.Store) (m : Metric) (ls : List Text) (v : x.Float) (n : Metric) (ks : List Text)
      → x.total (x.set s m ls v) n ks ≡ x.total s n ks
