-- ===== src/Tests/Server.antt =====
-- Examples for server.go.
use ducklake_metrics_daemon.Prelude.{
  ◌≡◌, refl, Bool, not, none, some, [], ◌∷◌, arith, any, filter_by, is_empty, length, if◌then◌else◌,
}
use ducklake_metrics_daemon.Prelude.Int.{pos, ◌*ℤ◌, ◌-ℤ◌, IsInt64}
use ducklake_metrics_daemon.Prelude.Text.{Text, codes, text_eq}
use ducklake_metrics_daemon.Prelude.Dict.{Dict, keys}
use ducklake_metrics_daemon.Runner.Liveness.{LivenessSnapshot}
use ducklake_metrics_daemon.Publisher.Outcome.{done}
use ducklake_metrics_daemon.Server.{
  status_of, sorted_keys, Scan, healthy, unhealthy, all_ready, still_connecting, not_ready,
  handle_healthy, handle_ready,
}
use ducklake_metrics_daemon.Server.Healthy.{failing, handle_healthy_lem}
use ducklake_metrics_daemon.Server.Ready.{handle_ready_lem}
use ducklake_metrics_daemon.Tests.Client.{client, no_series}

abbrev fired : LivenessSnapshot
fired = record { interval = pos 300; last_fire = some (pos 1000) }

abbrev snaps : Dict LivenessSnapshot
snaps = (codes "b", fired) ∷ (codes "a", record { interval = pos 300; last_fire = none }) ∷ []

abbrev ready : Text → Bool
ready t = text_eq t (codes "a")

age_fits : IsInt64 (pos 1601 -ℤ pos 1000)
unfolding ◌-ℤ◌
age_fits = record { above = omega arith; below = omega arith }

threshold_fits : IsInt64 (pos 2 *ℤ pos 300)
unfolding ◌*ℤ◌
threshold_fits = record { above = omega arith; below = omega arith }

handle_healthy_lem_example :
    let dead = failing (status_of snaps (pos 1601)) (sorted_keys snaps) in
    (s : Scan client) × (handle_healthy client snaps (pos 1601) no_series
      ≡ done (
        s,
        some (
            if is_empty dead
            then record { code = 200; body = healthy (length (sorted_keys snaps)) }
            else record { code = 503; body = unhealthy dead }),
      ))
unfolding sorted_keys ducklake_metrics_daemon.Prelude.Sort.sort
    ducklake_metrics_daemon.Prelude.Text.Order.text_lt
handle_healthy_lem_example =
    handle_healthy_lem client snaps (pos 1601) no_series (λ r. refl, (λ r. refl, tt))

handle_ready_lem_example :
    let waiting = filter_by (λ t. not (ready t)) (sorted_keys snaps) in
    handle_ready snaps ready ≡ (
      if any ready (keys snaps)
      then record {
        code = 200;
        body = if is_empty waiting then all_ready else still_connecting waiting;
      }
      else record { code = 503; body = not_ready (length (sorted_keys snaps)) })
handle_ready_lem_example = handle_ready_lem snaps ready
