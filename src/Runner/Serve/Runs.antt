-- ===== src/Runner/Serve/Runs.antt =====
-- A scheduler from its start to its return, and what the liveness probe sees of it (runner.go,
-- server.go).
use ducklake_metrics_daemon.Prelude.{
  suc, ap, subst, ◌≡◌, refl, sym, ◌∙◌, Bool, true, false, ◌↔◌, List, [], ◌∷◌, arith, length,
  if◌then◌else◌,
}
use ducklake_metrics_daemon.Prelude.Int.{◌≤ℤ◌, ℤ, pos, ◌+ℤ◌, ◌-ℤ◌, ◌*ℤ◌, ◌<ℤ◌, IsInt64}
use ducklake_metrics_daemon.Prelude.Text.{Text}
use ducklake_metrics_daemon.Queries.{Query}
use ducklake_metrics_daemon.Metrics.{self, scheduler_fires_total}
use ducklake_metrics_daemon.Extern.{Extern, Laws}
use ducklake_metrics_daemon.Publisher.Outcome.{done, panicked, inc, final}
use ducklake_metrics_daemon.Runner.Stagger.{stagger}
use ducklake_metrics_daemon.Runner.Liveness.{mark_fire, snapshot}
use ducklake_metrics_daemon.Runner.Schedule.{Started, Reading, Scheduler, fire, fires, shut_down}
use ducklake_metrics_daemon.Runner.Schedule.Fires.{
  IsSerial, AreCancelled, fired, fires_lem, length-cancel_prev,
}
use ducklake_metrics_daemon.Runner.Serve.{
  Wait, waited, Turn, stopped, ticked, serving, turns, unwound, run,
}
use ducklake_metrics_daemon.Server.{liveness_status}
use ducklake_metrics_daemon.Server.Healthy.{liveness_status-alive}

-- The ticks, and whether the context is cancelled after them.
abbrev pub ticks_then : List Reading → Bool → List Turn
ticks_then [] stops = if stops then stopped ∷ [] else []
ticks_then (r ∷ rs) stops = ticked r ∷ ticks_then rs stops

-- The time of the last fire.
abbrev pub last_mark : Reading → List Reading → ℤ
last_mark r [] = r.mark
last_mark r (q ∷ rs) = last_mark q rs

AreCancelled-IsSerial : (cs : List Started) → AreCancelled cs → IsSerial cs
AreCancelled-IsSerial [] h = tt
AreCancelled-IsSerial (c ∷ cs) (_, h) = h

module _ (x : Extern) (law : Laws x) (tenant : Text) (qs : List Query) where
  fire-done :
      (r : Reading) (s : Scheduler x)
      → x.accepts (self scheduler_fires_total) (tenant ∷ []) ≡ true
      → (s' : Scheduler x) × (fire x tenant qs r s ≡ done s')
        × (s'.liveness ≡ mark_fire r.mark s.liveness)
  unfolding fire inc
  fire-done r s ok = (final (fire x tenant qs r s), ground (arith, ok), ground (arith, ok))

  -- The ticks are fires, one after another.
  turns-fires :
      (rs : List Reading) (stops : Bool) (s : Scheduler x)
      → x.accepts (self scheduler_fires_total) (tenant ∷ []) ≡ true
      → (s' : Scheduler x) × (fires x tenant qs rs s ≡ done s')
        × (turns x tenant qs (ticks_then rs stops) s ≡ done (serving x stops s'))
  unfolding turns fires
  turns-fires [] true s ok = (s, refl, refl)
  turns-fires [] false s ok = (s, refl, refl)
  turns-fires (r ∷ rs) stops s ok =
      let (a, e, _) = fire-done r s ok in
      let (s', f, t) = turns-fires rs stops a ok in (s', rw e f, rw e t)

  fires-last :
      (r : Reading) (rs : List Reading) (s s' : Scheduler x)
      → x.accepts (self scheduler_fires_total) (tenant ∷ []) ≡ true
      → fires x tenant qs (r ∷ rs) s ≡ done s'
      → (s'.liveness.last_fire ≡ last_mark r rs) × (s'.liveness.interval ≡ s.liveness.interval)
  unfolding fires mark_fire
  fires-last r [] s s' ok h =
      let (a, e, l) = fire-done r s ok in
      let same : a ≡ s' = ground (arith, e, h) in
      (
        ap (λ z. z.liveness.last_fire) (sym same) ∙ ap (λ z. z.last_fire) l,
        ap (λ z. z.liveness.interval) (sym same) ∙ ap (λ z. z.interval) l,
      )
  fires-last r (q ∷ rs) s s' ok h =
      let (a, e, l) = fire-done r s ok in
      let (m, i) = fires-last q rs a s' ok (ground (arith, e, h)) in (m, i ∙ ap (λ z. z.interval) l)

  run-fires :
      (interval : ℤ) (first : Reading) (rs : List Reading) (stops : Bool) (s t : Scheduler x)
      → pos 0 <ℤ interval
      → x.accepts (self scheduler_fires_total) (tenant ∷ []) ≡ true
      → fires x tenant qs (first ∷ rs) s ≡ done t
      → run x tenant interval qs waited first (ticks_then rs stops) s
        ≡ unwound x (done (serving x stops t))
  unfolding run fires
  run-fires interval first rs stops s t hi ok h =
      let (a, e, _) = fire-done first s ok in
      let (s', f, g) = turns-fires rs stops a ok in
      let same : s' ≡ t = ground (arith, e, f, h) in ground (arith, e, g, same, hi)

  -- A scheduler with a positive interval whose stagger is waited for, and whose counter takes the tenant,
  -- from a start without cycles: one cycle is started at once and one on each tick, each is counted
  -- once, and the liveness record has the time of the last fire; while it runs, every cycle but the
  -- newest is cancelled; when the context is cancelled, it returns with all of them cancelled.
  pub run_lem :
      (interval : ℤ) (first : Reading) (rs : List Reading) (stops : Bool) (s : Scheduler x)
      → pos 0 <ℤ interval
      → x.accepts (self scheduler_fires_total) (tenant ∷ []) ≡ true
      → s.cycles ≡ []
      → (s' : Scheduler x) × (run x tenant interval qs waited first (ticks_then rs stops) s
          ≡ done (serving x stops s'))
        × (length s'.cycles ≡ suc (length rs))
        × (fired x law tenant qs s' ≡ fired x law tenant qs s +ℤ pos (suc (length rs)))
        × (s'.liveness.last_fire ≡ last_mark first rs)
        × IsSerial s'.cycles
        × (stops ≡ true → AreCancelled s'.cycles)
  unfolding shut_down
  run_lem interval first rs true s hi ok none_yet =
      let (t, e, serial, shut, l, f) =
        fires_lem x law tenant qs (first ∷ rs) s ok (rw none_yet tt) in
      (
        shut_down t,
        run-fires interval first rs true s t hi ok e,
        length-cancel_prev t.cycles ∙ ground (arith, l, ap length none_yet),
        f,
        (fires-last first rs s t ok e).0,
        AreCancelled-IsSerial (shut_down t).cycles shut,
        λ _. shut,
      )
  run_lem interval first rs false s hi ok none_yet =
      let (t, e, serial, shut, l, f) =
        fires_lem x law tenant qs (first ∷ rs) s ok (rw none_yet tt) in
      (
        t,
        run-fires interval first rs false s t hi ok e,
        ground (arith, l, ap length none_yet),
        f,
        (fires-last first rs s t ok e).0,
        serial,
        λ b. cc b,
      )

  -- A tenant's scheduler that is running is judged by its last fire alone: under the same conditions,
  -- when the marks are positive and the times fit int64, /-/healthy finds the tenant not alive exactly
  -- when more than two intervals have passed since the last tick.
  pub run_alive :
      (first : Reading) (rs : List Reading) (s : Scheduler x) (now : ℤ)
      → let interval = s.liveness.interval in
        pos 0 <ℤ interval
        → x.accepts (self scheduler_fires_total) (tenant ∷ []) ≡ true
        → s.cycles ≡ []
        → pos 0 <ℤ last_mark first rs
        → IsInt64 (now -ℤ last_mark first rs)
        → IsInt64 (pos 2 *ℤ interval)
        → (s' : Scheduler x) × (run x tenant interval qs waited first (ticks_then rs false) s
            ≡ done (serving x false s'))
          × (((liveness_status (snapshot s'.liveness) now).alive ≡ false)
              ↔ (pos 2 *ℤ interval <ℤ now -ℤ last_mark first rs))
  unfolding snapshot
  run_alive first rs s now hi ok none_yet positive fits two =
      let (t, e, _, _, _, _) = fires_lem x law tenant qs (first ∷ rs) s ok (rw none_yet tt) in
      let (last, same) = fires-last first rs s t ok e in
      (
        t,
        run-fires s.liveness.interval first rs false s t hi ok e,
        subst
            (λ i.
              ((liveness_status (snapshot t.liveness) now).alive ≡ false)
              ↔ (pos 2 *ℤ i <ℤ now -ℤ last_mark first rs))
            same
            (liveness_status-alive (snapshot t.liveness) (last_mark first rs) now
              (ground (arith, last, positive)) fits (rw same two)),
      )

  -- With an interval that is not positive, from a start without cycles and with a counter that takes the
  -- tenant: the first cycle is started and counted, and then `Run` panics, whatever would come next, and
  -- leaves that cycle cancelled.
  pub run_bad_interval :
      (interval : ℤ) (wait : Wait) (first : Reading) (ts : List Turn) (s : Scheduler x)
      → interval ≤ℤ pos 0
      → x.accepts (self scheduler_fires_total) (tenant ∷ []) ≡ true
      → s.cycles ≡ []
      → (s' : Scheduler x) × (run x tenant interval qs wait first ts s
          ≡ panicked (serving x false s'))
        × (length s'.cycles ≡ 1)
        × AreCancelled s'.cycles
        × (fired x law tenant qs s' ≡ fired x law tenant qs s +ℤ pos 1)
  unfolding run fires shut_down stagger
  run_bad_interval interval wait first ts s hi ok none_yet =
      let (t, e, serial, shut, l, f) =
        fires_lem x law tenant qs (first ∷ []) s ok (rw none_yet tt) in
      let (a, ea, _) = fire-done first s ok in
      let same : a ≡ t = ground (arith, e, ea) in
      (
        shut_down t,
        ground (arith, ea, same, hi),
        length-cancel_prev t.cycles ∙ ground (arith, l, ap length none_yet),
        shut,
        f,
      )
