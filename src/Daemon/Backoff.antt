-- ===== src/Daemon/Backoff.antt =====
-- The delays and the failure counts of `connectWithBackoff` (main.go).
use ducklake_metrics_daemon.Prelude.{
  ap, ℕ, zero, suc, ◌+◌, ◌^◌, ◌≡◌, refl, sym, ◌∙◌, arith, All, List, [], ◌∷◌, ◌++◌, append_assoc,
  append-nil, length, if◌then◌else◌, ltb, true,
}
use ducklake_metrics_daemon.Prelude.Int.{ℤ, pos, ◌+ℤ◌, int_laws}
use ducklake_metrics_daemon.Prelude.Text.{Text, text_eq, texts_eq, text_eq_refl}
use ducklake_metrics_daemon.Metrics.{self, connect_failures_total, metric_eq}
use ducklake_metrics_daemon.Extern.{Extern, Laws}
use ducklake_metrics_daemon.Publisher.Outcome.{done, inc}
use ducklake_metrics_daemon.Daemon.{
  ConnectError, classify_connect_error, next_delay, max_delay, Attempt, opened, failed, connected,
  Connecting, count_failure, connect_loop, connect_with_backoff,
}

-- The delay after `k` failures.
abbrev pub delay : ℕ → ℕ
delay k = if ltb max_delay (2 ^ k) then max_delay else 2 ^ k

next_delay-delay : (k : ℕ) → next_delay (delay k) ≡ delay (suc k)
unfolding next_delay
next_delay-delay k = ground arith

abbrev pub delays : ℕ → ℕ → List ℕ
delays k zero = []
delays k (suc n) = delay k ∷ delays (suc k) n

-- How many of the errors have the reason.
abbrev pub count_reason : Text → List ConnectError → ℕ
count_reason r [] = 0
count_reason r (e ∷ es) =
    (if text_eq (classify_connect_error e) r then 1 else 0) + count_reason r es

-- The attempts that fail with these errors, and then one that succeeds.
abbrev pub then_opens : List ConnectError → List Attempt
then_opens [] = opened ∷ []
then_opens (e ∷ es) = failed e ∷ then_opens es

add_zero : (a : ℤ) → a ≡ a +ℤ pos 0
add_zero a = omega int_laws

add_counts : (a : ℤ) (m n : ℕ) → a +ℤ pos m +ℤ pos n ≡ a +ℤ pos (m + n)
add_counts a m n = omega int_laws

module _ (x : Extern) (law : Laws x) (tenant : Text) where
  abbrev pub failures : Text → x.Store → ℤ
  failures r s = x.total s (self connect_failures_total) (tenant ∷ r ∷ [])

  -- The counter takes the tenant with the reason of the error.
  abbrev pub TakesReason : ConnectError → Type 0
  TakesReason e =
      x.accepts (self connect_failures_total) (tenant ∷ classify_connect_error e ∷ []) ≡ true

  -- The series after one more failure.
  abbrev failed_once : ConnectError → x.Store → x.Store
  failed_once e s =
      x.add s (self connect_failures_total) (tenant ∷ classify_connect_error e ∷ []) (pos 1)

  failures-failed_once :
      (r : Text) (e : ConnectError) (s : x.Store)
      → failures r (failed_once e s)
        ≡ failures r s +ℤ pos (if text_eq (classify_connect_error e) r then 1 else 0)
  unfolding texts_eq metric_eq
  failures-failed_once r e s = ground (
    arith,
    law.total-add s (self connect_failures_total) (tenant ∷ classify_connect_error e ∷ []) (pos 1)
        (self connect_failures_total) (tenant ∷ r ∷ []),
    text_eq_refl tenant,
    add_zero (failures r s),
  )

  connect_loop_lem :
      (es : List ConnectError) (k : ℕ) (c : Connecting x)
      → All TakesReason es
      → (c' : Connecting x) × (connect_loop x tenant (delay k) (then_opens es) c
          ≡ done (c', connected))
        × (c'.waits ≡ c.waits ++ delays k (length es))
        × ((r : Text) → failures r c'.store ≡ failures r c.store +ℤ pos (count_reason r es))
  unfolding connect_loop count_failure inc
  connect_loop_lem [] k c ok = (c, refl, sym (append-nil c.waits), λ r. omega int_laws)
  connect_loop_lem (e ∷ es) k c (ok, oks) =
      let s = failed_once e c.store in
      let d : Connecting x = record { store = s; waits = c.waits ++ delay k ∷ [] } in
      let (c', run, waited, counted) = connect_loop_lem es (suc k) d oks in
      (
        c',
        rw (ok, next_delay-delay k) run,
        waited ∙ append_assoc c.waits (delay k ∷ []) (delays (suc k) (length es)),
        λ r.
            counted r
            ∙ ap (λ t. t +ℤ pos (count_reason r es)) (failures-failed_once r e c.store)
            ∙ add_counts (failures r c.store) _ _,
      )

  -- When the counter takes the tenant with the reason of each error: after any failed attempts, one that succeeds connects; the
  -- delays waited for are min(2^k, 60) seconds for k = 0, 1, ..., one for each failure; and the counter
  -- of each reason grows by the number of failures of that reason.
  pub connect_with_backoff_lem :
      (es : List ConnectError) (store : x.Store)
      → All TakesReason es
      → (c : Connecting x) × (connect_with_backoff x tenant (then_opens es) store
          ≡ done (c, connected))
        × (c.waits ≡ delays 0 (length es))
        × ((r : Text) → failures r c.store ≡ failures r store +ℤ pos (count_reason r es))
  unfolding connect_with_backoff
  connect_with_backoff_lem es store ok =
      connect_loop_lem es 0 (record { store = store; waits = [] }) ok
