-- ===== src/Metrics/Register.antt =====
-- `Register` (metrics.go). The registry of the Prometheus client is the list of the names that it
-- holds: it takes a vector whose name and labels are valid and whose name is new, and
-- `MustRegister` panics on any other.
pub mod Separate
pub mod Complete
use ducklake_metrics_daemon.Prelude.{
  Bool, not, ◌&&◌, Option, none, some, List, [], ◌∷◌, ◌++◌, any, if◌then◌else◌,
}
use ducklake_metrics_daemon.Prelude.Text.{Text, codes, text_eq}
use ducklake_metrics_daemon.Prelude.Dict
use ducklake_metrics_daemon.Prelude.Dict.{Dict, or_empty}
use ducklake_metrics_daemon.Queries.{Query}
use ducklake_metrics_daemon.Metrics.{Self, Metric, gauge}
use ducklake_metrics_daemon.Metrics.Vectors.{vector_of, all_self}

abbrev pub is_registered : List Text → Text → Bool
is_registered names n = any (λ m. text_eq m n) names

-- `name := q.Name + "_" + v`
unfoldable pub gauge_name : Text → Text → Text
gauge_name q v = q ++ (codes "_" ++ v)

-- `append([]string{"tenant"}, q.Labels...)`
abbrev pub gauge_labels : Query → List Text
gauge_labels q = codes "tenant" ∷ q.labels

-- The registry and the gauges, while they are filled.
pub record Registered : Type 0 where
  pub names : List Text
  pub gauges : Dict (Dict Metric)

-- `gauges[q][v] = g`
abbrev pub add_gauge : Dict (Dict Metric) → Text → Text → Metric → Dict (Dict Metric)
add_gauge gauges q v g = Dict.put gauges q (Dict.put (or_empty (Dict.get gauges q)) v g)

abbrev pub and_then {ℓ κ} : {A : Type ℓ} {B : Type κ} → Option A → (A → Option B) → Option B
and_then none k = none
and_then (some a) k = k a

-- Whether the client accepts a name and its label names.
module _ (is_valid : Text → List Text → Bool) where
  -- `none` is the panic.
  unfoldable pub must_register : Text → List Text → List Text → Option (List Text)
  must_register name labels names =
      if is_valid name labels && not (is_registered names name) then some (name ∷ names) else none

  unfoldable pub register_self : List Self → List Text → Option (List Text)
  unfolding must_register
  register_self [] names = some names
  register_self (m ∷ ms) names =
      and_then (must_register (vector_of m).name (vector_of m).labels names) (register_self ms)

  -- The loop over `q.Values`.
  unfoldable pub register_values : Query → List Text → Registered → Option Registered
  unfolding must_register
  register_values q [] r = some r
  register_values q (v ∷ vs) r =
      and_then (must_register (gauge_name q.name v) (gauge_labels q) r.names) (λ names.
        register_values q vs (record {
          names = names;
          gauges = add_gauge r.gauges q.name v (gauge (gauge_name q.name v));
        }))

  -- The loop over the queries.
  unfoldable pub register_queries : List Query → Registered → Option Registered
  unfolding register_values
  register_queries [] r = some r
  register_queries (q ∷ qs) r =
      and_then
        (register_values q q.values
          (record { names = r.names; gauges = Dict.put r.gauges q.name [] }))
        (register_queries qs)

  unfoldable pub register : List Query → Option Registered
  unfolding register_self register_queries
  register qs =
      and_then (register_self all_self [])
        (λ names. register_queries qs (record { names = names; gauges = [] }))
