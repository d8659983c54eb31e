-- ===== src/Daemon/Shutdown/Finish.antt =====
-- How the daemon comes to its end (main.go).
use mathlib.Core.Logic.{inl, inr}
use ducklake_metrics_daemon.Prelude.{
  ℕ, zero, suc, ◌+◌, ◌-◌, ◌≡◌, ◌≤◌, ◌<◌, ◌⊎◌, refl, ap, Bool, true, false, arith, Bool-cases,
  if◌then◌else◌,
}
use ducklake_metrics_daemon.Daemon.Shutdown.{
  Phase, serving, joining, draining, stopping, parting, exited, System, Step, signal, http_fails,
  fires, tenant_returns, tenant_panics, sends, cycle_ends, receives, publisher_stops,
  publisher_drained, publisher_panics, wakes, closes, sees_drained, times_out, shuts_down,
  http_returns, exits, start, Run, later,
}
use ducklake_metrics_daemon.Daemon.Shutdown.Invariant.{rank, Run-IsOrdered}

abbrev bit : Bool → ℕ
bit b = if b then 1 else 0

-- What is left of the shutdown: the statements of `main`, and what has not returned.
abbrev pub left : System → ℕ
left s = (5 - rank s.main) + s.tenants + bit s.publishing + bit s.listening

-- No goroutine takes the shutdown back.
Step-left :
    (s t : System) → s.cancelled ≡ true → Step s t → (t.cancelled ≡ true) × (left t ≤ left s)
Step-left s t c signal = (refl, omega arith)
Step-left s t c (http_fails e) = (refl, ground (arith, e))
Step-left s t c (fires e) = (c, omega arith)
Step-left s t c (tenant_returns e _) = (c, ground (arith, e))
Step-left s t c (tenant_panics e) = (c, ground (arith, e))
Step-left s t c (sends e _ room) = (c, omega arith)
Step-left s t c (cycle_ends e) = (c, omega arith)
Step-left s t c (receives e b) = (c, omega arith)
Step-left s t c (publisher_stops e _) = (c, ground (arith, e))
Step-left s t c (publisher_drained e _ b) = (c, ground (arith, e))
Step-left s t c (publisher_panics e) = (c, ground (arith, e))
Step-left s t c (wakes e _) = (c, ground (arith, ap rank e))
Step-left s t c (closes e z) = (c, ground (arith, ap rank e))
Step-left s t c (sees_drained e d) = (c, ground (arith, ap rank e))
Step-left s t c (times_out e) = (c, ground (arith, ap rank e))
Step-left s t c (shuts_down e) = (c, ground (arith, ap rank e))
Step-left s t c (http_returns e l) = (c, ground (arith, l))
Step-left s t c (exits e l) = (c, ground (arith, ap rank e))

-- The steps of the shutdown itself: no signal, no failure or panic, no work of a cycle, and not the
-- time-out of `main`.
abbrev pub is_orderly : {s t : System} → Step s t → Bool
is_orderly signal = false
is_orderly (http_fails e) = false
is_orderly (fires e) = false
is_orderly (tenant_returns e c) = true
is_orderly (tenant_panics e) = false
is_orderly (sends e c room) = false
is_orderly (cycle_ends e) = false
is_orderly (receives e b) = false
is_orderly (publisher_stops e c) = true
is_orderly (publisher_drained e c b) = true
is_orderly (publisher_panics e) = false
is_orderly (wakes e c) = true
is_orderly (closes e z) = true
is_orderly (sees_drained e d) = true
is_orderly (times_out e) = false
is_orderly (shuts_down e) = true
is_orderly (http_returns e l) = true
is_orderly (exits e l) = true

abbrev pub Advances : System → Type 0
Advances s = (t : System) × (step : Step s t) × (is_orderly step ≡ true) × (left t < left s)

abbrev pub HasExited : System → Type 0
HasExited s = (k : ℕ) × (s.main ≡ exited k) × (k ≡ (if s.http_failed then 1 else 0))

advances : (s t : System) (step : Step s t) → is_orderly step ≡ true → left t < left s → Advances s
advances s t step o l = (t, step, o, l)

joining-Advances :
    (n : ℕ) (s : System) → s.tenants ≡ n → s.cancelled ≡ true → s.main ≡ joining → Advances s
joining-Advances zero s z c e = advances s _ (closes e z) refl (ground (arith, ap rank e))
joining-Advances (suc n) s z c e = advances s _ (tenant_returns z c) refl (ground (arith, z))

draining-Advances : (s : System) → s.cancelled ≡ true → s.main ≡ draining → Advances s
draining-Advances s c e = elim (Bool-cases s.publishing) [
  | inl b ↦ advances s _ (publisher_stops b c) refl (ground (arith, b))
  | inr b ↦ advances s _ (sees_drained e b) refl (ground (arith, ap rank e))
]

parting-Advances : (s : System) → s.main ≡ parting → Advances s
parting-Advances s e = elim (Bool-cases s.listening) [
  | inl l ↦ advances s _ (http_returns e l) refl (ground (arith, l))
  | inr l ↦ advances s _ (exits e l) refl (ground (arith, ap rank e))
]

progress : (n : ℕ) (s : System) → Run (start n) s → s.cancelled ≡ true → Advances s ⊎ HasExited s
progress n s r c = go s.main refl
  where
    go : (p : Phase) → s.main ≡ p → Advances s ⊎ HasExited s
    go serving e = inl (advances s _ (wakes e c) refl (ground (arith, ap rank e)))
    go joining e = inl (joining-Advances s.tenants s refl c e)
    go draining e = inl (draining-Advances s c e)
    go stopping e = inl (advances s _ (shuts_down e) refl (ground (arith, ap rank e)))
    go parting e = inl (parting-Advances s e)
    go (exited k) e = inr (k, e, (Run-IsOrdered n s r).code k e)

-- At most so many orderly steps.
pub data Orderly : ℕ → System → System → Type 0 where
  over : {n : ℕ} {s : System} → Orderly n s s
  next :
      {n : ℕ} {s t u : System} (step : Step s t)
      → is_orderly step ≡ true
      → Orderly n t u
      → Orderly (suc n) s u

ends_in_time :
    (m n : ℕ) (s : System)
    → Run (start n) s
    → s.cancelled ≡ true
    → left s ≤ m
    → (t : System) × Orderly m s t × HasExited t
ends_in_time zero n s r c h = elim (progress n s r c) [
  | inr x ↦ (s, over, x)
  | inl (t, step, o, l) ↦ absurd (omega (arith, h, l))
]
ends_in_time (suc m) n s r c h = elim (progress n s r c) [
  | inr x ↦ (s, over, x)
  | inl (t, step, o, l) ↦
      let (u, q, x) =
        ends_in_time m n t (later r step) (Step-left s t c step).0 (omega (arith, h, l)) in
      (u, next step o q, x)
]

-- From every state that the goroutines can reach in which the context is cancelled or the server has
-- failed: each step of any goroutine keeps the context cancelled and what is left of the shutdown at most
-- what it was; as long as `main` has not exited, some orderly step, which is no signal, failure, panic
-- or time-out, makes it less; and at most as many orderly steps as are left lead to an exit of `main`.
-- Every exit code is 1 if the server failed and else 0.
pub shutdown_finishes :
    (n : ℕ) (s : System)
    → Run (start n) s
    → (s.cancelled ≡ true) ⊎ (s.http_failed ≡ true)
    → ((t : System) → Step s t → (t.cancelled ≡ true) × (left t ≤ left s))
      × (Advances s ⊎ HasExited s)
      × ((t : System) × Orderly (left s) s t × HasExited t)
shutdown_finishes n s r stop =
    let c : s.cancelled ≡ true = elim stop [
      | inl c ↦ c
      | inr f ↦ ((Run-IsOrdered n s r).failed f).0
    ] in
    (λ t step. Step-left s t c step, progress n s r c, ends_in_time (left s) n s r c (omega arith))
