-- ===== src/Daemon/Startup/Warnings.antt =====
-- The warning of main.go on a query interval below the cycle interval, and why such a query runs on
-- every cycle (runner.go).
use ducklake_metrics_daemon.Prelude.{
  ℕ, ◌<◌, ◌≡◌, ◌/◌, refl, Bool, true, ◌&&◌, Option, none, some, List, [], ◌∷◌, arith, All,
  if◌then◌else◌, inl, inr,
}
use ducklake_metrics_daemon.Prelude.Int.{
  ℤ, pos, negsuc, ltb_ℤ, ◌*ℤ◌, ◌-ℤ◌, ◌+ℤ◌, ◌≤ℤ◌, ◌<ℤ◌, IsInt64,
}
use ducklake_metrics_daemon.Prelude.Text.{Text, text_eq_iff}
use ducklake_metrics_daemon.Prelude.Dict
use ducklake_metrics_daemon.Prelude.Dict.{Dict}
use ducklake_metrics_daemon.Prelude.Sort.{find, IsDistinct}
use ducklake_metrics_daemon.Queries.{Query}
use ducklake_metrics_daemon.Queries.Merge.{name_of}
use ducklake_metrics_daemon.Runner.Due.{has_interval, due_queries}
use ducklake_metrics_daemon.Runner.Due.Spacing.{
  dispatches, window, IsTime, IsSpaced, ticks, ticks-IsSpaced,
}

module _ (int_seconds : ℤ → ℤ) where
  -- `int(d.Seconds())` goes through float64. Below 2 ^ 22 seconds that tells any duration from the next
  -- full second, so that the conversion gives the full seconds of one that is not negative.
  abbrev pub TakesFullSeconds : Type 0
  TakesFullSeconds = (n : ℕ) → n < 4194304000000000 → int_seconds (pos n) ≡ pos (n / 1000000000)

  -- With `cycleSecs := int(cfg.CycleInterval.Seconds())`.
  unfoldable pub is_warned : ℤ → Query → Bool
  is_warned interval q =
      let cycle_secs = int_seconds interval in has_interval q && ltb_ℤ q.interval_seconds cycle_secs

  -- The queries that the loop warns of.
  unfoldable pub warned : ℤ → List Query → List Query
  unfolding is_warned
  warned interval [] = []
  warned interval (q ∷ qs) =
      let rest = warned interval qs in if is_warned interval q then q ∷ rest else rest

-- Ticks that are at least `gap` apart, the first one from the time `o`.
abbrev pub AreApart : ℤ → Option ℤ → List ℤ → Type 0
AreApart gap o [] = Unit
AreApart gap none (t ∷ ts) = AreApart gap (some t) ts
AreApart gap (some u) (t ∷ ts) = (u +ℤ gap ≤ℤ t) × AreApart gap (some t) ts

module _ (int_seconds : ℤ → ℤ) where
  below_cycle :
      (n : ℕ) (s : ℤ)
      → pos 0 <ℤ s
      → s <ℤ pos (n / 1000000000)
      → (s *ℤ pos 1000000000) +ℤ pos 1000000000 ≤ℤ pos n
  unfolding ◌*ℤ◌ ◌+ℤ◌
  below_cycle n (pos s) p l = ground (arith, p, l)
  below_cycle n (negsuc s) p l = ground (arith, p, l)

  is_warned-window :
      (n : ℕ) (q : Query)
      → TakesFullSeconds int_seconds
      → n < 4194304000000000
      → is_warned int_seconds (pos n) q ≡ true
      → window q +ℤ pos 1000000000 ≤ℤ pos n
  unfolding is_warned
  is_warned-window n q full short h =
      let e = full n short in
      below_cycle n q.interval_seconds (ground (arith, h)) (ground (arith, h, e))

  warned_absent :
      (interval : ℤ) (qs : List Query) (n : Text)
      → find name_of qs n ≡ none
      → find name_of (warned int_seconds interval qs) n ≡ none
  unfolding warned find
  warned_absent interval [] n h = refl
  warned_absent interval (r ∷ rs) n h = ground (arith, warned_absent interval rs n)

  -- A query in the warnings is a query of the list that `main` warns of.
  find-warned :
      (interval : ℤ) (qs : List Query) (n : Text) (q : Query)
      → IsDistinct name_of qs
      → find name_of (warned int_seconds interval qs) n ≡ some q
      → (is_warned int_seconds interval q ≡ true) × (find name_of qs n ≡ some q)
  unfolding warned find
  find-warned interval [] n q d h = cc
  find-warned interval (r ∷ rs) n q (new, d) h =
      ground
        (arith, text_eq_iff r.name n, warned_absent interval rs n, find-warned interval rs n q d)

module _ (qs : List Query) (q : Query) where
  IsSpaced-every :
      (gap : ℤ) (m : Dict ℤ) (ts : List ℤ) (o : Option ℤ)
      → window q ≤ℤ gap
      → AreApart gap o ts
      → IsSpaced q o (ticks qs m ts)
      → All (λ (e : ℤ × List Query). dispatches e.1 q.name ≡ true) (ticks qs m ts)
  unfolding ticks
  IsSpaced-every gap m [] o w a s = tt
  IsSpaced-every gap m (t ∷ ts) none w a (disp, s) =
      (disp, IsSpaced-every gap (due_queries qs m t).1 ts (some t) w a s)
  IsSpaced-every gap m (t ∷ ts) (some u) w (far, a) (inl (disp, _, s)) =
      (disp, IsSpaced-every gap (due_queries qs m t).1 ts (some t) w a s)
  IsSpaced-every gap m (t ∷ ts) (some u) w (far, a) (inr (_, early, s)) =
      absurd (unfold ◌+ℤ◌ in ground (arith, w, far, early))

  -- A query that `main` warns of, in a list without repeated names, and whose window fits int64, is
  -- due on every tick, even when ticks come up to a second early: when they are clock readings from
  -- the epoch on that fit int64 and are at least the cycle interval less one second apart. The cycle
  -- interval is not negative and below 2 ^ 22 seconds, where `int(d.Seconds())` takes the full seconds.
  pub warned_every_cycle :
      (int_seconds : ℤ → ℤ) (n : ℕ) (ts : List ℤ)
      → TakesFullSeconds int_seconds
      → n < 4194304000000000
      → IsDistinct name_of qs
      → find name_of (warned int_seconds (pos n) qs) q.name ≡ some q
      → IsInt64 (window q)
      → All IsTime ts
      → AreApart (pos n -ℤ pos 1000000000) none ts
      → All (λ (e : ℤ × List Query). dispatches e.1 q.name ≡ true) (ticks qs [] ts)
  warned_every_cycle int_seconds n ts full short d f w times apart =
      let (h, found) = find-warned int_seconds (pos n) qs q.name q d f in
      IsSpaced-every (pos n -ℤ pos 1000000000) [] ts none
        (unfold ◌-ℤ◌ ◌+ℤ◌ in ground (arith, is_warned-window int_seconds n q full short h)) apart
        (ticks-IsSpaced qs q [] ts none d found (unfold is_warned in ground (arith, h)) w
          (unfold Dict.get in refl) tt times)
