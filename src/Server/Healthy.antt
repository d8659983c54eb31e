-- ===== src/Server/Healthy.antt =====
-- `LivenessStatus` and `/-/healthy` (server.go).
use mathlib.Core.Logic.{inl, inr}
use ducklake_metrics_daemon.Prelude.{
  none, ◌≡◌, refl, true, false, ◌↔◌, some, List, [], ◌∷◌, ◌++◌, append_assoc, append-nil, arith,
  Bool-cases, All, is_empty, length, if◌then◌else◌,
}
use ducklake_metrics_daemon.Prelude.Int.{ℤ, pos, ltb_ℤ, ◌*ℤ◌, ◌-ℤ◌, ◌<ℤ◌, IsInt64, int64-of_IsInt64}
use ducklake_metrics_daemon.Prelude.Text.{Text}
use ducklake_metrics_daemon.Prelude.Dict.{Dict}
use ducklake_metrics_daemon.Metrics.{self, liveness_failures_total}
use ducklake_metrics_daemon.Extern.{Extern}
use ducklake_metrics_daemon.Runner.Liveness.{LivenessSnapshot}
use ducklake_metrics_daemon.Runner.Due.{time_sub}
use ducklake_metrics_daemon.Publisher.Outcome.{done, inc}
use ducklake_metrics_daemon.Server.{
  LivenessReason, reason_text, Status, fired_status, liveness_status, Failure, unhealthy, healthy,
  sorted_keys, status_of, Scan, counted, check_tenant, check_tenants, respond, handle_healthy,
}

time_sub-fits : (t u : ℤ) → IsInt64 (t -ℤ u) → time_sub t u ≡ t -ℤ u
unfolding time_sub
time_sub-fits t u h = ground arith

ltb_ℤ_iff : (a b : ℤ) → (ltb_ℤ a b ≡ true) ↔ (a <ℤ b)
ltb_ℤ_iff a b = ground arith

-- A tenant that fired is not alive exactly when more than two intervals have passed since the fire,
-- as long as the difference and two intervals fit int64.
pub liveness_status-alive :
    (s : LivenessSnapshot) (fire now : ℤ)
    → s.last_fire ≡ some fire
    → IsInt64 (now -ℤ fire)
    → IsInt64 (pos 2 *ℤ s.interval)
    → ((liveness_status s now).alive ≡ false) ↔ (pos 2 *ℤ s.interval <ℤ now -ℤ fire)
unfolding liveness_status fired_status
liveness_status-alive s fire now e hd ht =
    ground (arith, e, time_sub-fits now fire hd, int64-of_IsInt64 (pos 2 *ℤ s.interval) ht)

-- The lines of the tenants that are not alive, in order.
abbrev pub failure_of : (Text → Status) → Text → Failure
failure_of status t = record { tenant = t; status = status t }

abbrev pub failing : (Text → Status) → List Text → List Failure
failing status [] = []
failing status (t ∷ ts) =
    let rest = failing status ts in if (status t).alive then rest else failure_of status t ∷ rest

module _ (x : Extern) where
  check_tenant_dead :
      (t : Text) (st : Status) (s : Scan x)
      → st.alive ≡ false
      → x.accepts (self liveness_failures_total) (t ∷ reason_text st.reason ∷ []) ≡ true
      → check_tenant x t st s
        ≡ done (record {
          failures = s.failures ++ record { tenant = t; status = st } ∷ [];
          store =
              x.add s.store (self liveness_failures_total) (t ∷ reason_text st.reason ∷ []) (pos 1);
        })
  unfolding check_tenant counted inc
  check_tenant_dead t st s b ok = ground (arith, b, ok)

  check_tenant_alive :
      (t : Text) (st : Status) (s : Scan x) → st.alive ≡ true → check_tenant x t st s ≡ done s
  unfolding check_tenant
  check_tenant_alive t st s b = ground (arith, b)

  -- The counter takes the tenant with each reason.
  abbrev pub TakesTenant : Text → Type 0
  TakesTenant t =
      (r : LivenessReason)
      → x.accepts (self liveness_failures_total) (t ∷ reason_text r ∷ []) ≡ true

  check_tenants_lem :
      (status : Text → Status) (ts : List Text) (s : Scan x)
      → All TakesTenant ts
      → (s' : Scan x) × (check_tenants x status ts s ≡ done s')
        × (s'.failures ≡ s.failures ++ failing status ts)
  unfolding check_tenants
  check_tenants_lem status [] s ok = (s, refl, ground (arith, append-nil s.failures))
  check_tenants_lem status (t ∷ ts) s (ok, oks) = elim (Bool-cases (status t).alive) [
    | inl b ↦
        let (s', e, h) = check_tenants_lem status ts s oks in
        (s', rw (check_tenant_alive t (status t) s b) e, ground (arith, h, b))
    | inr b ↦
        let s1 : Scan x = record {
          failures = s.failures ++ failure_of status t ∷ [];
          store =
              x.add s.store (self liveness_failures_total) (t ∷ reason_text (status t).reason ∷ [])
                (pos 1);
        } in
        let (s', e, h) = check_tenants_lem status ts s1 oks in
        (
          s',
          rw (check_tenant_dead t (status t) s b (ok (status t).reason)) e,
          ground
              (arith, h, b, append_assoc s.failures (failure_of status t ∷ []) (failing status ts)),
        )
  ]

  -- When the counter takes every tenant of the map with each reason, the probe answers: with 200 and the number of
  -- tenants when every tenant is alive, and else with 503 and exactly the tenants that are not
  -- alive, in the order of `sorted_keys`.
  pub handle_healthy_lem :
      (snaps : Dict LivenessSnapshot) (now : ℤ) (store : x.Store)
      → All TakesTenant (sorted_keys snaps)
      → let dead = failing (status_of snaps now) (sorted_keys snaps) in
        (s : Scan x) × (handle_healthy x snaps now store
          ≡ done (
            s,
            some (
                if is_empty dead
                then record { code = 200; body = healthy (length (sorted_keys snaps)) }
                else record { code = 503; body = unhealthy dead }),
          ))
  unfolding handle_healthy respond
  handle_healthy_lem snaps now store ok =
      let (s, e, h) =
        check_tenants_lem (status_of snaps now) (sorted_keys snaps)
          (record { failures = []; store = store }) ok in
      (s, rw (e, h) refl)

  check_tenants_alive :
      (status : Text → Status) (ts : List Text) (s : Scan x)
      → ((t : Text) → (status t).alive ≡ true)
      → check_tenants x status ts s ≡ done s
  unfolding check_tenants
  check_tenants_alive status [] s h = refl
  check_tenants_alive status (t ∷ ts) s h =
      rw (check_tenant_alive t (status t) s (h t)) (check_tenants_alive status ts s h)

  -- Without a tenant that is not alive, the probe answers 200 and counts nothing.
  pub handle_healthy_alive :
      (snaps : Dict LivenessSnapshot) (now : ℤ) (store : x.Store)
      → ((t : Text) → (status_of snaps now t).alive ≡ true)
      → handle_healthy x snaps now store
        ≡ done (
          record { failures = []; store = store },
          some (record { code = 200; body = healthy (length (sorted_keys snaps)) }),
        )
  unfolding handle_healthy respond
  handle_healthy_alive snaps now store h =
      rw
        (check_tenants_alive (status_of snaps now) (sorted_keys snaps)
          (record { failures = []; store = store }) h)
        refl

-- A tenant that never fired is alive.
pub liveness_status-starting :
    (s : LivenessSnapshot) (now : ℤ) → s.last_fire ≡ none → (liveness_status s now).alive ≡ true
unfolding liveness_status fired_status
liveness_status-starting s now h = ground (arith, h)
