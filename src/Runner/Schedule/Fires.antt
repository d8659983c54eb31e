-- ===== src/Runner/Schedule/Fires.antt =====
-- At most one cycle of a tenant has a live context (runner.go).
use ducklake_metrics_daemon.Prelude.{
  ℕ, suc, ◌+◌, ap, ◌≡◌, refl, ◌∙◌, true, List, [], ◌∷◌, arith, All, length,
}
use ducklake_metrics_daemon.Prelude.Int.{ℤ, pos, ◌+ℤ◌, int_laws}
use ducklake_metrics_daemon.Prelude.Text.{Text, texts_eq_iff}
use ducklake_metrics_daemon.Queries.{Query}
use ducklake_metrics_daemon.Metrics.{self, scheduler_fires_total, metric_eq_refl}
use ducklake_metrics_daemon.Extern.{Extern, Laws}
use ducklake_metrics_daemon.Publisher.Outcome.{done, inc, final}
use ducklake_metrics_daemon.Runner.Schedule.{
  Started, Reading, Scheduler, cancel_prev, fire, fires, shut_down,
}

abbrev pub AreCancelled : List Started → Type 0
AreCancelled = All (λ (c : Started). c.cancelled ≡ true)

-- Every cycle but the newest is cancelled.
abbrev pub IsSerial : List Started → Type 0
IsSerial [] = Unit
IsSerial (c ∷ cs) = AreCancelled cs

cancel_prev-AreCancelled : (cs : List Started) → IsSerial cs → AreCancelled (cancel_prev cs)
unfolding cancel_prev
cancel_prev-AreCancelled [] h = tt
cancel_prev-AreCancelled (c ∷ cs) h = (refl, h)

pub length-cancel_prev : (cs : List Started) → length (cancel_prev cs) ≡ length cs
unfolding cancel_prev
length-cancel_prev [] = refl
length-cancel_prev (c ∷ cs) = refl

add_one : (a : ℤ) (n : ℕ) → a +ℤ pos 1 +ℤ pos n ≡ a +ℤ pos (suc n)
add_one a n = omega int_laws

add_zero : (a : ℤ) → a ≡ a +ℤ pos 0
add_zero a = omega int_laws

module _ (x : Extern) (law : Laws x) (tenant : Text) (qs : List Query) where
  abbrev pub fired : Scheduler x → ℤ
  fired s = x.total s.store (self scheduler_fires_total) (tenant ∷ [])

  fire_lem :
      (r : Reading) (s : Scheduler x)
      → x.accepts (self scheduler_fires_total) (tenant ∷ []) ≡ true
      → IsSerial s.cycles
      → (s' : Scheduler x) × (fire x tenant qs r s ≡ done s')
        × IsSerial s'.cycles
        × (length s'.cycles ≡ suc (length s.cycles))
        × (fired s' ≡ fired s +ℤ pos 1)
  unfolding fire inc
  fire_lem r s ok h = (
    final (fire x tenant qs r s),
    ground (arith, ok),
    rw ok (cancel_prev-AreCancelled s.cycles h),
    rw ok (ap suc (length-cancel_prev s.cycles)),
    ground (
      arith,
      ok,
      law.total-add s.store (self scheduler_fires_total) (tenant ∷ []) (pos 1)
          (self scheduler_fires_total) (tenant ∷ []),
      metric_eq_refl (self scheduler_fires_total),
      texts_eq_iff (tenant ∷ []) (tenant ∷ []),
    ),
  )

  -- When the counter takes the tenant and every cycle but the newest is cancelled: each fire starts one
  -- cycle and is counted once, every cycle but the newest is cancelled again, and after the shutdown
  -- all are.
  pub fires_lem :
      (rs : List Reading) (s : Scheduler x)
      → x.accepts (self scheduler_fires_total) (tenant ∷ []) ≡ true
      → IsSerial s.cycles
      → (s' : Scheduler x) × (fires x tenant qs rs s ≡ done s')
        × IsSerial s'.cycles
        × AreCancelled (shut_down s').cycles
        × (length s'.cycles ≡ length rs + length s.cycles)
        × (fired s' ≡ fired s +ℤ pos (length rs))
  unfolding fires shut_down
  fires_lem [] s ok h =
      (s, refl, h, cancel_prev-AreCancelled s.cycles h, omega arith, add_zero (fired s))
  fires_lem (r ∷ rs) s ok h =
      let (s1, e1, h1, l1, f1) = fire_lem r s ok h in
      let (s', e, serial, shut, l, f) = fires_lem rs s1 ok h1 in
      (
        s',
        rw e1 e,
        serial,
        shut,
        ground (arith, l, l1),
        f ∙ ap (λ t. t +ℤ pos (length rs)) f1 ∙ add_one (fired s) (length rs),
      )
