-- ===== src/Server/Ready.antt =====
-- `/-/ready` (server.go).
use ducklake_metrics_daemon.Prelude.{
  ◌≡◌, refl, ◌∙◌, Bool, false, not, ◌||◌, List, [], ◌∷◌, ◌++◌, append_assoc, append-nil, arith, any,
  filter_by, is_empty, length, if◌then◌else◌,
}
use ducklake_metrics_daemon.Prelude.Text.{Text}
use ducklake_metrics_daemon.Prelude.Sort.{insert, sort}
use ducklake_metrics_daemon.Prelude.Dict.{Dict, keys}
use ducklake_metrics_daemon.Runner.Liveness.{LivenessSnapshot}
use ducklake_metrics_daemon.Server.{
  all_ready, still_connecting, not_ready, sorted_keys, ready_loop, ready_response, handle_ready,
}

ready_loop_lem :
    (ready : Text → Bool) (ts : List Text) (b : Bool) (w : List Text)
    → ready_loop ready ts b w ≡ (any ready ts || b, w ++ filter_by (λ t. not (ready t)) ts)
unfolding ready_loop
ready_loop_lem ready [] b w = rw append-nil
ready_loop_lem ready (t ∷ ts) b w =
    ready_loop_lem ready ts _ _
    ∙ ground (arith, append_assoc w (t ∷ []) (filter_by (λ t. not (ready t)) ts))

any-insert :
    (p : Text → Bool) (t : Text) (ts : List Text) → any p (insert (λ t. t) t ts) ≡ (p t || any p ts)
unfolding insert
any-insert p t [] = refl
any-insert p t (u ∷ us) = ground (arith, any-insert p t us)

any-sort : (p : Text → Bool) (ts : List Text) → any p (sort (λ t. t) ts) ≡ any p ts
unfolding sort
any-sort p [] = refl
any-sort p (t ∷ ts) = ground (arith, any-insert p t (sort (λ t. t) ts), any-sort p ts)

-- The probe answers 200 exactly when some tenant of the map is ready, and then its body lists the
-- tenants that are not, in the order of `sorted_keys`, if there are any; else it answers 503 with
-- the number of tenants.
pub handle_ready_lem :
    (snaps : Dict LivenessSnapshot) (ready : Text → Bool)
    → let waiting = filter_by (λ t. not (ready t)) (sorted_keys snaps) in
      handle_ready snaps ready ≡ (
        if any ready (keys snaps)
        then record {
          code = 200;
          body = if is_empty waiting then all_ready else still_connecting waiting;
        }
        else record { code = 503; body = not_ready (length (sorted_keys snaps)) })
unfolding handle_ready ready_response sorted_keys
handle_ready_lem snaps ready =
    ground (
      arith,
      ready_loop_lem ready (sort (λ t. t) (keys snaps)) false [],
      any-sort ready (keys snaps),
    )
