-- ===== src/Publisher/Counting.antt =====
-- The empty-acquire counter of `bumpEmptyAcquireCounter` (publisher.go) over all observations of a
-- tenant's pool.
use ducklake_metrics_daemon.Prelude.{
  ap, ◌≡◌, refl, ◌∙◌, Bool, true, false, List, [], ◌∷◌, arith, if◌then◌else◌,
}
use ducklake_metrics_daemon.Prelude.Int.{
  ℤ, pos, ltb_ℤ, ◌≤ℤ◌, ◌+ℤ◌, ◌-ℤ◌, int64, int64-of_IsInt64, int_laws,
}
use ducklake_metrics_daemon.Prelude.Text.{Text, text_eq_refl, texts_eq_iff}
use ducklake_metrics_daemon.Prelude.Dict.{get-put}
use ducklake_metrics_daemon.Metrics.{self, pool_empty_acquire_total, metric_eq_refl}
use ducklake_metrics_daemon.Extern.{Extern, Laws}
use ducklake_metrics_daemon.Publisher.Outcome.{final, Outcome, done, ◌>>=◌}
use ducklake_metrics_daemon.Publisher.State.{Publisher}
use ducklake_metrics_daemon.Publisher.Pool.{is_seen, baseline, bump_empty_acquire_counter}

-- A count that float64 has exactly.
pub record IsCount (c : ℤ) : Type 0 where
  pub nonneg : pos 0 ≤ℤ c
  pub exact : c ≤ℤ pos 9007199254740992

-- What an observation adds to the counter: nothing the first time or when the pool was made anew.
abbrev pub growth : Bool → ℤ → ℤ → ℤ
growth seen b c = if seen then (if ltb_ℤ b c then c -ℤ b else pos 0) else pos 0

delta_fits : (b c : ℤ) → IsCount b → IsCount c → int64 (c -ℤ b) ≡ c -ℤ b
delta_fits b c hb hc =
    int64-of_IsInt64 (c -ℤ b)
      (record { above = unfold ◌-ℤ◌ in ground arith; below = unfold ◌-ℤ◌ in ground arith })

sub_pos : (b c : ℤ) → ltb_ℤ (pos 0) (c -ℤ b) ≡ ltb_ℤ b c
sub_pos b c = unfold ◌-ℤ◌ in ground arith

not_above : (b c : ℤ) → ltb_ℤ b c ≡ false → ltb_ℤ c b ≡ false → b ≡ c
not_above b c h k = ground arith

add_zero : (a : ℤ) → a +ℤ pos 0 ≡ a
add_zero a = omega int_laws

module _ (x : Extern) (law : Laws x) (t : Text) where
  -- The counter of the tenant.
  abbrev pub counted : Publisher x → ℤ
  counted p = x.total p.store (self pool_empty_acquire_total) (t ∷ [])

  delta_exact :
      (b c : ℤ) → IsCount b → IsCount c → ltb_ℤ b c ≡ true → x.float_int (int64 (c -ℤ b)) ≡ c -ℤ b
  delta_exact b c hb hc h =
      ap x.float_int (delta_fits b c hb hc)
      ∙ law.float_int-small (c -ℤ b) (unfold ◌-ℤ◌ in ground (arith, h))
          (unfold ◌-ℤ◌ in ground (arith, hb.nonneg, hc.exact))

  -- One observation: the count becomes the baseline, and the counter grows by the increase since
  -- the baseline of an earlier observation, if there is one.
  pub bump_lem :
      (p : Publisher x) (c : ℤ)
      → x.accepts (self pool_empty_acquire_total) (t ∷ []) ≡ true
      → IsCount (baseline x p t)
      → IsCount c
      → (p' : Publisher x) × (bump_empty_acquire_counter x p t c ≡ done p')
        × (is_seen x p' t ≡ true)
        × (baseline x p' t ≡ c)
        × (counted p' ≡ counted p +ℤ growth (is_seen x p t) (baseline x p t) c)
  unfolding bump_empty_acquire_counter
  bump_lem p c ok hb hc =
      let b = baseline x p t in
      (
        final (bump_empty_acquire_counter x p t c),
        ground (arith),
        ground (arith, get-put p.empty_acquire_seen t true t, text_eq_refl t),
        ground (
          arith,
          get-put p.empty_acquire_baselines t c t,
          text_eq_refl t,
          delta_fits b c hb hc,
          sub_pos b c,
          not_above b c,
        ),
        ground (
          arith,
          law.total-add p.store (self pool_empty_acquire_total) (t ∷ [])
              (x.float_int (int64 (c -ℤ b))) (self pool_empty_acquire_total) (t ∷ []),
          delta_exact b c hb hc,
          delta_fits b c hb hc,
          sub_pos b c,
          add_zero (counted p),
          metric_eq_refl (self pool_empty_acquire_total),
          texts_eq_iff (t ∷ []) (t ∷ []),
        ),
      )

  -- The tenant's observations one after another.
  pub observe : Publisher x → List ℤ → Outcome (Publisher x)
  observe p [] = done p
  observe p (c ∷ cs) = bump_empty_acquire_counter x p t c >>= λ p'. observe p' cs

  -- Counts of one pool: none is below the one before it.
  abbrev pub IsRising : ℤ → List ℤ → Type 0
  IsRising b [] = Unit
  IsRising b (c ∷ cs) = (b ≤ℤ c) × IsCount c × IsRising c cs

  abbrev pub last_of : ℤ → List ℤ → ℤ
  last_of b [] = b
  last_of b (c ∷ cs) = last_of c cs

  observe_cons :
      (p p' : Publisher x) (c : ℤ) (cs : List ℤ)
      → bump_empty_acquire_counter x p t c ≡ done p'
      → observe p (c ∷ cs) ≡ observe p' cs
  observe_cons p p' c cs h = unfold observe in ground arith

  growth_rising : (b c : ℤ) → b ≤ℤ c → growth true b c ≡ c -ℤ b
  growth_rising b c h = unfold ◌-ℤ◌ in ground arith

  telescope : (n b c l : ℤ) → n +ℤ (c -ℤ b) +ℤ (l -ℤ c) ≡ n +ℤ (l -ℤ b)
  telescope n b c l = omega int_laws

  sub_self : (n b : ℤ) → n ≡ n +ℤ (b -ℤ b)
  sub_self n b = omega int_laws

  observe_seen :
      (p : Publisher x) (b : ℤ) (cs : List ℤ)
      → x.accepts (self pool_empty_acquire_total) (t ∷ []) ≡ true
      → is_seen x p t ≡ true
      → baseline x p t ≡ b
      → IsCount b
      → IsRising b cs
      → (p' : Publisher x) × (observe p cs ≡ done p')
        × (counted p' ≡ counted p +ℤ (last_of b cs -ℤ b))
  observe_seen p b [] ok seen base hb r = (p, unfold observe in refl, sub_self (counted p) b)
  observe_seen p b (c ∷ cs) ok seen base hb (le, hc, r) =
      let (q, run, seen', base', grown) = bump_lem p c ok (rw base hb) hc in
      let (p', rest, total) = observe_seen q c cs ok seen' base' hc r in
      (
        p',
        observe_cons p q c cs run ∙ rest,
        ground
            (arith, total, grown, growth_rising b c le, telescope (counted p) b c (last_of c cs)),
      )

  -- When the counter takes the tenant: from the first observation of a tenant on, as long as its
  -- pool's count is nonnegative, at most 2 ^ 53 and does not fall, the counter grows in all by exactly
  -- the increase since that first observation.
  pub observe_lem :
      (p : Publisher x) (c : ℤ) (cs : List ℤ)
      → x.accepts (self pool_empty_acquire_total) (t ∷ []) ≡ true
      → is_seen x p t ≡ false
      → IsCount (baseline x p t)
      → IsCount c
      → IsRising c cs
      → (p' : Publisher x) × (observe p (c ∷ cs) ≡ done p')
        × (counted p' ≡ counted p +ℤ (last_of c cs -ℤ c))
  observe_lem p c cs ok new hb hc r =
      let (q, run, seen', base', grown) = bump_lem p c ok hb hc in
      let (p', rest, total) = observe_seen q c cs ok seen' base' hc r in
      (
        p',
        observe_cons p q c cs run ∙ rest,
        ground (arith, total, grown, new, add_zero (counted p)),
      )
