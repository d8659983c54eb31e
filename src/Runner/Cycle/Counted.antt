-- ===== src/Runner/Cycle/Counted.antt =====
-- The deferred counters of a cycle (runner.go).
use ducklake_metrics_daemon.Prelude.{
  ap, ◌≡◌, refl, ◌∙◌, Bool, true, false, not, ◌&&◌, List, [], ◌∷◌, arith,
}
use ducklake_metrics_daemon.Prelude.Int.{ℤ, pos, ◌+ℤ◌, int_laws}
use ducklake_metrics_daemon.Prelude.Text.{Text, codes}
use ducklake_metrics_daemon.Metrics.{
  Metric, self, query_panics_total, cycle_duration_seconds, cycle_completed_total,
  cycle_killed_total,
}
use ducklake_metrics_daemon.Extern.{Extern, Laws, same_series}
use ducklake_metrics_daemon.Publisher.Outcome.{done, set_gauge, inc}
use ducklake_metrics_daemon.Runner.Cycle.{
  End, completed, stopped, poisoned, Surroundings, Cycle, count_panic, count_end, deferred,
}

-- A count of one or none.
abbrev pub when : Bool → ℤ
when true = pos 1
when false = pos 0

abbrev pub is_completed : End → Bool
is_completed completed = true
is_completed stopped = false
is_completed poisoned = false

abbrev pub is_poisoned : End → Bool
is_poisoned completed = false
is_poisoned stopped = false
is_poisoned poisoned = true

add_zero : (a : ℤ) → a ≡ a +ℤ pos 0
add_zero a = omega int_laws

add_zero_zero : (a b : ℤ) → a ≡ b → a ≡ b +ℤ pos 0 +ℤ pos 0
add_zero_zero a b h = h ∙ add_zero b ∙ add_zero (b +ℤ pos 0)

add_zero_left : (a b c : ℤ) → a ≡ b +ℤ c → a ≡ b +ℤ pos 0 +ℤ c
add_zero_left a b c h = h ∙ ap (λ z. z +ℤ c) (add_zero b)

module _ (x : Extern) (law : Laws x) (tenant : Text) where
  -- The four vectors of the deferred function take the labels that it gives them.
  pub record TakesEnd : Type 0 where
    pub panics : x.accepts (self query_panics_total) (tenant ∷ codes "_cycle" ∷ []) ≡ true
    pub duration : x.accepts (self cycle_duration_seconds) (tenant ∷ []) ≡ true
    pub completions : x.accepts (self cycle_completed_total) (tenant ∷ []) ≡ true
    pub kills : x.accepts (self cycle_killed_total) (tenant ∷ []) ≡ true

  -- The store counts one more in the series, if `b`.
  abbrev Adds : Bool → Metric → List Text → x.Store → x.Store → Type 0
  Adds b m ls s s' =
      (n : Metric) (ks : List Text)
      → x.total s' n ks ≡ x.total s n ks +ℤ when (b && same_series m ls n ks)

  inc-Adds : (m : Metric) (ls : List Text) (s : x.Store) → Adds true m ls s (x.add s m ls (pos 1))
  inc-Adds m ls s n ks =
      ground (arith, law.total-add s m ls (pos 1) n ks, add_zero (x.total s n ks))

  abbrev panic_labels : List Text
  panic_labels = tenant ∷ codes "_cycle" ∷ []

  count_panic_lem :
      (end : End) (s : x.Store)
      → TakesEnd
      → (s' : x.Store) × (count_panic x tenant end s ≡ done s')
        × Adds (is_poisoned end) (self query_panics_total) panic_labels s s'
  unfolding inc
  count_panic_lem completed s ok = (s, refl, λ n ks. add_zero (x.total s n ks))
  count_panic_lem stopped s ok = (s, refl, λ n ks. add_zero (x.total s n ks))
  count_panic_lem poisoned s ok = (
    x.add s (self query_panics_total) panic_labels (pos 1),
    rw (ok.panics) refl,
    inc-Adds (self query_panics_total) panic_labels s,
  )

  -- What the end of a cycle adds: a completion, or a kill.
  abbrev AddsEnd : End → Bool → x.Store → x.Store → Type 0
  AddsEnd end killed s s' =
      (n : Metric) (ks : List Text)
      → x.total s' n ks
        ≡ x.total s n ks
          +ℤ when (is_completed end && same_series (self cycle_completed_total) (tenant ∷ []) n ks)
          +ℤ when (killed && same_series (self cycle_killed_total) (tenant ∷ []) n ks)

  count_killed_lem :
      (end : End) (b : Bool) (s : x.Store)
      → is_completed end ≡ false
      → TakesEnd
      → (s' : x.Store) × (count_end x tenant end b s ≡ done s') × AddsEnd end b s s'
  unfolding inc
  count_killed_lem completed b s h ok = cc
  count_killed_lem stopped false s h ok = (s, refl, λ n ks. add_zero_zero _ _ refl)
  count_killed_lem poisoned false s h ok = (s, refl, λ n ks. add_zero_zero _ _ refl)
  count_killed_lem stopped true s h ok = (
    x.add s (self cycle_killed_total) (tenant ∷ []) (pos 1),
    rw (ok.kills) refl,
    λ n ks. add_zero_left _ _ _ (inc-Adds (self cycle_killed_total) (tenant ∷ []) s n ks),
  )
  count_killed_lem poisoned true s h ok = (
    x.add s (self cycle_killed_total) (tenant ∷ []) (pos 1),
    rw (ok.kills) refl,
    λ n ks. add_zero_left _ _ _ (inc-Adds (self cycle_killed_total) (tenant ∷ []) s n ks),
  )

  count_end_lem :
      (end : End) (b : Bool) (s : x.Store)
      → TakesEnd
      → (s' : x.Store) × (count_end x tenant end b s ≡ done s')
        × AddsEnd end (not (is_completed end) && b) s s'
  unfolding inc
  count_end_lem stopped b s ok = count_killed_lem stopped b s refl ok
  count_end_lem poisoned b s ok = count_killed_lem poisoned b s refl ok
  count_end_lem completed b s ok = (
    x.add s (self cycle_completed_total) (tenant ∷ []) (pos 1),
    rw (ok.completions) refl,
    λ n ks. inc-Adds (self cycle_completed_total) (tenant ∷ []) s n ks ∙ add_zero _,
  )

  -- When the four vectors take the tenant's labels: the deferred function ends without a panic, and it adds to
  -- the counters one completion if the body completed, one kill if it did not and the context is
  -- cancelled, one panic if the body panicked, and nothing else.
  pub deferred_lem :
      (e : Surroundings x) (c : Cycle x) (end : End)
      → TakesEnd
      → (s : x.Store) × (deferred x tenant e (c, end) ≡ done s)
        × ((n : Metric) (ks : List Text)
            → x.total s n ks
              ≡ x.total c.store n ks
                +ℤ when (
                    is_poisoned end
                    && same_series (self query_panics_total) (tenant ∷ codes "_cycle" ∷ []) n ks)
                +ℤ when (
                    is_completed end && same_series (self cycle_completed_total) (tenant ∷ []) n ks)
                +ℤ when (
                    not (is_completed end)
                    && e.cancelled_at_end
                    && same_series (self cycle_killed_total) (tenant ∷ []) n ks))
  unfolding set_gauge
  deferred_lem e c end ok =
      let (s1, e1, t1) = count_panic_lem end c.store ok in
      let s2 = x.set s1 (self cycle_duration_seconds) (tenant ∷ []) e.duration in
      let (s3, e3, t3) = count_end_lem end e.cancelled_at_end s2 ok in
      (
        s3,
        rw (e1, ok.duration) e3,
        λ n ks. ground (
          arith,
          t3 n ks,
          t1 n ks,
          law.total-set s1 (self cycle_duration_seconds) (tenant ∷ []) e.duration n ks,
        ),
      )
