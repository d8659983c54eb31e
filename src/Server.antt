-- ===== src/Server.antt =====
-- internal/server/server.go: the two probe handlers and the liveness decision. A response body is
-- kept as the parts that the handler formats.
pub mod Healthy
pub mod Ready
pub mod Routes
use ducklake_metrics_daemon.Prelude.{
  ℕ, Bool, true, false, not, Option, none, some, List, [], ◌∷◌, ◌++◌, is_empty, length,
  if◌then◌else◌,
}
use ducklake_metrics_daemon.Prelude.Int.{ℤ, pos, ltb_ℤ, ◌*ℤ◌, int64}
use ducklake_metrics_daemon.Prelude.Text.{Text, codes}
use ducklake_metrics_daemon.Prelude.Dict
use ducklake_metrics_daemon.Prelude.Dict.{Dict, keys}
use ducklake_metrics_daemon.Prelude.Sort.{sort}
use ducklake_metrics_daemon.Metrics.{self, liveness_failures_total}
use ducklake_metrics_daemon.Extern.{Extern}
use ducklake_metrics_daemon.Runner.Liveness.{LivenessSnapshot}
use ducklake_metrics_daemon.Runner.Due.{time_sub}
use ducklake_metrics_daemon.Publisher.Outcome.{Outcome, done, panicked, ◌>>=◌, inc}

pub data LivenessReason : Type 0 where
  starting ok stale_schedule : LivenessReason

abbrev pub reason_text : LivenessReason → Text
reason_text starting = codes "starting"
reason_text ok = codes "ok"
reason_text stale_schedule = codes "stale_schedule"

-- The verdict on one tenant; a stale one carries the age and the threshold of its message.
pub record Status : Type 0 where
  pub alive : Bool
  pub reason : LivenessReason
  pub age : ℤ
  pub threshold : ℤ

abbrev pub stale_schedule_multiplier : ℤ
stale_schedule_multiplier = pos 2

fired_status : Option ℤ → ℤ → ℤ → Status
fired_status none interval now = record {
  alive = true;
  reason = starting;
  age = pos 0;
  threshold = pos 0;
}
fired_status (some fire) interval now =
    let age = time_sub now fire in
    let threshold = int64 (stale_schedule_multiplier *ℤ interval) in
    if ltb_ℤ threshold age
    then record { alive = false; reason = stale_schedule; age = age; threshold = threshold }
    else record { alive = true; reason = ok; age = age; threshold = threshold }

unfoldable pub liveness_status : LivenessSnapshot → ℤ → Status
unfolding fired_status
liveness_status s now = fired_status s.last_fire s.interval now

-- One line of an unhealthy response.
pub record Failure : Type 0 where
  pub tenant : Text
  pub status : Status

pub data Body : Type 0 where
  unhealthy : List Failure → Body
  healthy : ℕ → Body
  all_ready : Body
  still_connecting : List Text → Body
  not_ready : ℕ → Body

pub record Response : Type 0 where
  pub code : ℕ
  pub body : Body

-- `sortedKeys`
unfoldable pub sorted_keys : Dict LivenessSnapshot → List Text
sorted_keys m = sort (λ t. t) (keys m)

-- `snaps[t]`: a missing key reads the zero snapshot.
abbrev pub snapshot_of : Dict LivenessSnapshot → Text → LivenessSnapshot
snapshot_of snaps t = elim (Dict.get snaps t) [
  | none ↦ record { interval = pos 0; last_fire = none }
  | some s ↦ s
]

abbrev pub status_of : Dict LivenessSnapshot → ℤ → Text → Status
status_of snaps now t = liveness_status (snapshot_of snaps t) now

module _ (x : Extern) where
  -- What the loop of `handleHealthy` has built up.
  pub record Scan : Type 0 where
    pub failures : List Failure
    pub store : x.Store

  counted : Text → Status → Scan → Outcome x.Store → Outcome Scan
  counted t st s (panicked q) = panicked (record s { store = q })
  counted t st s (done q) =
      done (record { failures = s.failures ++ record { tenant = t; status = st } ∷ []; store = q })

  -- One round of the loop.
  check_tenant : Text → Status → Scan → Outcome Scan
  unfolding counted
  check_tenant t st s =
      if st.alive
      then done s
      else counted t st s
          (inc x (self liveness_failures_total) (t ∷ reason_text st.reason ∷ []) s.store)

  check_tenants : (Text → Status) → List Text → Scan → Outcome Scan
  unfolding check_tenant
  check_tenants status [] s = done s
  check_tenants status (t ∷ ts) s = check_tenant t (status t) s >>= check_tenants status ts

  -- A panic of the loop leaves the request without a response.
  respond : ℕ → Outcome Scan → Outcome (Scan × Option Response)
  respond n (panicked s) = panicked (s, none)
  respond n (done s) = done (
    s,
    some (
        if is_empty s.failures
        then record { code = 200; body = healthy n }
        else record { code = 503; body = unhealthy s.failures }),
  )

  unfoldable pub handle_healthy :
      Dict LivenessSnapshot → ℤ → x.Store → Outcome (Scan × Option Response)
  unfolding check_tenants respond sorted_keys
  handle_healthy snaps now store =
      let tenants = sorted_keys snaps in
      respond (length tenants)
        (check_tenants (status_of snaps now) tenants (record { failures = []; store = store }))

-- The loop of `handleReady`: whether any tenant is ready, and those that are not.
ready_loop : (Text → Bool) → List Text → Bool → List Text → Bool × List Text
ready_loop ready [] any_ready waiting = (any_ready, waiting)
ready_loop ready (t ∷ ts) any_ready waiting =
    let r = ready t in
    ready_loop ready ts (if r then true else any_ready) (if r then waiting else waiting ++ t ∷ [])

ready_response : ℕ → Bool × List Text → Response
ready_response n (any_ready, waiting) =
    if any_ready
    then record {
      code = 200;
      body = if is_empty waiting then all_ready else still_connecting waiting;
    }
    else record { code = 503; body = not_ready n }

unfoldable pub handle_ready : Dict LivenessSnapshot → (Text → Bool) → Response
unfolding ready_loop ready_response sorted_keys
handle_ready snaps ready =
    let tenants = sorted_keys snaps in
    ready_response (length tenants) (ready_loop ready tenants false [])
