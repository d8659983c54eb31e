-- ===== src/Publisher/State.antt =====
-- The types of publisher.go: the messages, the actor's state, and `New`.
use ducklake_metrics_daemon.Prelude.{ℕ, Bool, Option, List, [], ◌∷◌}
use ducklake_metrics_daemon.Prelude.Int.{ℤ}
use ducklake_metrics_daemon.Prelude.Text.{Text}
use ducklake_metrics_daemon.Prelude.Dict
use ducklake_metrics_daemon.Prelude.Dict.{Dict}
use ducklake_metrics_daemon.Queries.{Query}
use ducklake_metrics_daemon.Metrics.{Metric}
use ducklake_metrics_daemon.Extern.{Extern}
use ducklake_metrics_daemon.Publisher.Outcome.{Outcome, done, panicked}
use ducklake_metrics_daemon.Catalog.{Row, Stats, QueryError}

-- A Go int constant: any other number is possible too.
pub data Kind : Type 0 where
  kind_query kind_pool_stat : Kind
  kind_other : ℕ → Kind

pub record Result (x : Extern) : Type 0 where
  pub kind : Kind
  pub tenant : Text
  pub query : Text
  pub rows : List (Row x)
  pub cols : List Text
  pub error : Option QueryError
  pub stats : Stats

-- The tuples emitted last, by tenant, query and signature.
abbrev pub Tuples : Type 0
Tuples = Dict (List Text)

-- The series of the client stand in `store`; in Go they are behind the pointers of `self` and
-- `gauges`.
pub record Publisher (x : Extern) : Type 0 where
  pub gauges : Dict (Dict Metric)
  pub query_spec : Dict Query
  pub last_labels : Dict (Dict Tuples)
  pub empty_acquire_baselines : Dict ℤ
  pub empty_acquire_seen : Dict Bool
  pub store : x.Store

-- The loop of `New` that fills `spec`.
unfoldable pub spec_of : Dict Query → List Query → Dict Query
spec_of m [] = m
spec_of m (q ∷ qs) = spec_of (Dict.put m q.name q) qs

unfoldable pub new : (x : Extern) → Dict (Dict Metric) → List Query → x.Store → Publisher x
unfolding spec_of
new x gauges qs store = record {
  gauges = gauges;
  query_spec = spec_of [] qs;
  last_labels = [];
  empty_acquire_baselines = [];
  empty_acquire_seen = [];
  store = store;
}

module _ {x : Extern} where
  -- A step on the series alone.
  abbrev pub stored : Publisher x → Outcome x.Store → Outcome (Publisher x)
  stored p (done s) = done (record p { store = s })
  stored p (panicked s) = panicked (record p { store = s })
