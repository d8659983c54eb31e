-- ===== src/Publisher/Tenancy/Runs.antt =====
-- Isolation of tenants over one message and over a whole run of the publisher (publisher.go).
use mathlib.Core.Logic.{inl, inr}
use ducklake_metrics_daemon.Prelude.{
  ap, subst, ◌≡◌, refl, ◌∙◌, true, false, List, [], ◌∷◌, arith, All,
}
use ducklake_metrics_daemon.Prelude.Text.{Text, text_eq, text_eq_iff, text_eq_refl}
use ducklake_metrics_daemon.Metrics.{Metric}
use ducklake_metrics_daemon.Extern.{Extern, Laws}
use ducklake_metrics_daemon.Publisher.Outcome.{Outcome-cases, Outcome, done, panicked, final}
use ducklake_metrics_daemon.Publisher.State.{
  Result, Publisher, Kind, kind_query, kind_pool_stat, kind_other, stored,
}
use ducklake_metrics_daemon.Publisher.Pool.{apply_pool_stat, pooled, pool_gauges}
use ducklake_metrics_daemon.Publisher.Run.{
  apply, dispatch, safe_apply, recovered, Exit, on_panic, Event, canceled, closed, received, run,
}
use ducklake_metrics_daemon.Publisher.Isolation.{Sample, sample, belongs, Keeps-trans, inc-Keeps}
use ducklake_metrics_daemon.Publisher.Tenancy.{
  ℤ, IsOwned, Confined, Confined-store, stored-Confined, apply_query-Confined, pool_gauges-Keeps,
  bump-Confined,
}

module _ (x : Extern) (law : Laws x) where
  Confined-trans :
      (t : Text) (a b c : Publisher x)
      → Confined x law t a b
      → Confined x law t b c
      → Confined x law t a c
  Confined-trans t a b c h k = record {
    keeps = Keeps-trans x law t a.store b.store c.store h.keeps k.keeps;
    owned = λ o. k.owned (h.owned o);
  }

  pooled-Confined :
      (t : Text) (current : ℤ) (p : Publisher x) (o : Outcome (Publisher x))
      → Confined x law t p (final o)
      → Confined x law t p (final (pooled x t current o))
  unfolding pooled
  pooled-Confined t current p (panicked q) h = h
  pooled-Confined t current p (done q) h =
      Confined-trans t p q _ h (bump-Confined x law t current q)

  apply_pool_stat-Confined :
      (r : Result x) (p : Publisher x) → Confined x law r.tenant p (final (apply_pool_stat x r p))
  unfolding apply_pool_stat
  apply_pool_stat-Confined r p =
      pooled-Confined r.tenant r.stats.empty_acquire_count p
        (stored p (pool_gauges x r.tenant r.stats p.store))
        (stored-Confined x law r.tenant p (pool_gauges x r.tenant r.stats p.store)
          (pool_gauges-Keeps x law r.tenant r.stats p.store))

  apply-Confined :
      (r : Result x) (p : Publisher x) → IsOwned p → Confined x law r.tenant p (final (apply x r p))
  unfolding apply
  apply-Confined r p h = go r.kind
    where
      go : (k : Kind) → Confined x law r.tenant p (final (dispatch x k r p))
      go kind_query = apply_query-Confined x law r p h
      go kind_pool_stat = apply_pool_stat-Confined r p
      go (kind_other n) = Confined-store x law r.tenant p p.store (λ n ks f. refl)

  recovered-Confined :
      (r : Result x) (p : Publisher x) (o : Outcome (Publisher x))
      → Confined x law r.tenant p (final o)
      → Confined x law r.tenant p (final (recovered x r o))
  unfolding recovered
  recovered-Confined r p (done q) h = h
  recovered-Confined r p (panicked q) h = Confined-trans r.tenant p q _ h (
      stored-Confined x law r.tenant q _
        (inc-Keeps x law r.tenant _ _ q.store (text_eq_refl r.tenant)))

  -- One message of any kind, applied, failed or panicking half-way, changes no series of another
  -- tenant, in any metric, and keeps every tracked tuple under its own tenant, when they were so
  -- before.
  pub safe_apply-Confined :
      (r : Result x) (p : Publisher x)
      → IsOwned p
      → Confined x law r.tenant p (final (safe_apply x r p))
  unfolding safe_apply
  safe_apply-Confined r p h = recovered-Confined r p (apply x r p) (apply-Confined r p h)

  -- The message is not the tenant's.
  abbrev pub IsFromOther : Text → Event x → Type 0
  IsFromOther u canceled = Unit
  IsFromOther u closed = Unit
  IsFromOther u (received r) = text_eq u r.tenant ≡ false

  pub belongs_other :
      (u t : Text) (ks : List Text)
      → text_eq u t ≡ false
      → belongs u ks ≡ true
      → belongs t ks ≡ false
  belongs_other u t [] h b = refl
  belongs_other u t (k ∷ ks) h b = ground (arith, text_eq_iff k u, text_eq_iff k t, text_eq_iff u t)

  pub run-done :
      (r : Result x) (es : List (Event x)) (p q : Publisher x)
      → safe_apply x r p ≡ done q
      → run x (received r ∷ es) p ≡ run x es q
  run-done r es p q e = unfold run in ground arith

  run-panicked :
      (r : Result x) (es : List (Event x)) (p q : Publisher x)
      → safe_apply x r p ≡ panicked q
      → run x (received r ∷ es) p ≡ (on_panic, q, es)
  run-panicked r es p q e = unfold run in ground arith

  sample-run :
      (u : Text) (es : List (Event x)) (p : Publisher x)
      → IsOwned p
      → All (IsFromOther u) es
      → (n : Metric) (ks : List Text) → belongs u ks ≡ true
      → sample x law (run x es p).1.store n ks ≡ sample x law p.store n ks
  unfolding run
  sample-run u [] p h o n ks b = refl
  sample-run u (canceled ∷ es) p h o n ks b = refl
  sample-run u (closed ∷ es) p h o n ks b = refl
  sample-run u (received r ∷ es) p h (other, o) n ks b =
      let c = safe_apply-Confined r p h in
      let f = belongs_other u r.tenant ks other b in
      elim (Outcome-cases (safe_apply x r p)) [
        | inl (q, e) ↦
            let own : IsOwned q = subst IsOwned (ap final e) (c.owned h) in
            let step : sample x law q.store n ks ≡ sample x law p.store n ks =
              subst (λ (z : Publisher x). sample x law z.store n ks ≡ sample x law p.store n ks)
                (ap final e) (c.keeps n ks f) in
            ap (λ (w : Exit x × Publisher x × List (Event x)). sample x law w.1.store n ks)
              (run-done r es p q e)
            ∙ sample-run u es q own o n ks b
            ∙ step
        | inr (q, e) ↦
            ap (λ (w : Exit x × Publisher x × List (Event x)). sample x law w.1.store n ks)
              (run-panicked r es p q e)
            ∙ subst (λ (z : Publisher x). sample x law z.store n ks ≡ sample x law p.store n ks)
                (ap final e) (c.keeps n ks f)
      ]

  -- Whatever messages of other tenants the loop receives, and however it ends, it changes no gauge and
  -- no counter whose first label is tenant `u`, when every tracked tuple begins with the tenant that it
  -- is tracked under.
  pub run_isolated :
      (u : Text) (es : List (Event x)) (p : Publisher x)
      → IsOwned p
      → All (IsFromOther u) es
      → (n : Metric) (ks : List Text) → belongs u ks ≡ true
      → (x.read (run x es p).1.store n ks ≡ x.read p.store n ks)
        × (x.total (run x es p).1.store n ks ≡ x.total p.store n ks)
  run_isolated u es p h o n ks b =
      let same = sample-run u es p h o n ks b in
      (ap (λ (v : Sample x law). v.0) same, ap (λ (v : Sample x law). v.1) same)
