-- ===== src/Daemon/Tenant.antt =====
-- `runTenant` of main.go. What the scheduler does to the series until it returns or panics is an
-- argument: the lifecycle is the same around every such behaviour.
use ducklake_metrics_daemon.Prelude.{ap, ◌≡◌, refl, ◌∙◌, Bool, true, some, List, [], ◌∷◌, arith}
use ducklake_metrics_daemon.Prelude.Int.{pos}
use ducklake_metrics_daemon.Prelude.Text.{Text, texts_eq_iff, text_eq_refl}
use ducklake_metrics_daemon.Prelude.Dict
use ducklake_metrics_daemon.Prelude.Dict.{Dict, get-put}
use ducklake_metrics_daemon.Metrics.{self, up, metric_eq_refl}
use ducklake_metrics_daemon.Extern.{Extern, Laws}
use ducklake_metrics_daemon.Publisher.Outcome.{Outcome, done, panicked, final, set_gauge}
use ducklake_metrics_daemon.Daemon.{
  Attempt, Connection, connected, canceled, still_trying, Connecting, connect_with_backoff,
}

module _ (x : Extern) where
  pub record Lifecycle : Type 0 where
    pub store : x.Store
    pub ready : Dict Bool

  abbrev pub with_ready : Dict Bool → Outcome x.Store → Outcome Lifecycle
  with_ready ready (done s) = done (record { store = s; ready = ready })
  with_ready ready (panicked s) = panicked (record { store = s; ready = ready })

  -- The deferred `Up.Set(0)`, on a return and on a panic alike.
  abbrev pub taken_down : Text → Dict Bool → Outcome x.Store → Outcome Lifecycle
  taken_down tenant ready (done s) =
      with_ready ready (set_gauge x (self up) (tenant ∷ []) (x.of_int (pos 0)) s)
  taken_down tenant ready (panicked s) = panicked (record {
    store = final (set_gauge x (self up) (tenant ∷ []) (x.of_int (pos 0)) s);
    ready = ready;
  })

  -- From `Up.Set(1)` on.
  abbrev pub brought_up :
      Text → (x.Store → Outcome x.Store) → Dict Bool → Outcome x.Store → Outcome Lifecycle
  brought_up tenant schedule ready (panicked s) = panicked (record { store = s; ready = ready })
  brought_up tenant schedule ready (done s) =
      taken_down tenant (Dict.put ready tenant true) (schedule s)

  abbrev pub with_connection :
      Text
      → (x.Store → Outcome x.Store)
      → Dict Bool
      → Outcome (Connecting x × Connection)
      → Outcome Lifecycle
  with_connection tenant schedule ready (panicked (c, _)) =
      panicked (record { store = c.store; ready = ready })
  with_connection tenant schedule ready (done (c, canceled)) =
      done (record { store = c.store; ready = ready })
  with_connection tenant schedule ready (done (c, still_trying)) =
      done (record { store = c.store; ready = ready })
  with_connection tenant schedule ready (done (c, connected)) =
      brought_up tenant schedule ready
        (set_gauge x (self up) (tenant ∷ []) (x.of_int (pos 1)) c.store)

  unfoldable pub run_tenant :
      Text → List Attempt → (x.Store → Outcome x.Store) → Lifecycle → Outcome Lifecycle
  run_tenant tenant attempts schedule l =
      with_connection tenant schedule l.ready (connect_with_backoff x tenant attempts l.store)

module _ (x : Extern) (law : Laws x) where
  up_zero :
      (tenant : Text) (s : x.Store)
      → x.accepts (self up) (tenant ∷ []) ≡ true
      → x.read
          (final (set_gauge x (self up) (tenant ∷ []) (x.of_int (pos 0)) s))
          (self up)
          (tenant ∷ [])
        ≡ some (x.of_int (pos 0))
  unfolding set_gauge
  up_zero tenant s ok = ground (
    arith,
    ok,
    law.read-set s (self up) (tenant ∷ []) (x.of_int (pos 0)) (self up) (tenant ∷ []),
    metric_eq_refl (self up),
    texts_eq_iff (tenant ∷ []) (tenant ∷ []),
  )

  with_ready_lem :
      (ready : Dict Bool) (o : Outcome x.Store)
      → ((final (with_ready x ready o)).store ≡ final o)
        × ((final (with_ready x ready o)).ready ≡ ready)
  with_ready_lem ready (done s) = (refl, refl)
  with_ready_lem ready (panicked s) = (refl, refl)

  taken_down_lem :
      (tenant : Text) (ready : Dict Bool) (o : Outcome x.Store)
      → x.accepts (self up) (tenant ∷ []) ≡ true
      → (x.read (final (taken_down x tenant ready o)).store (self up) (tenant ∷ [])
          ≡ some (x.of_int (pos 0)))
        × ((final (taken_down x tenant ready o)).ready ≡ ready)
  taken_down_lem tenant ready (panicked s) ok = (up_zero tenant s ok, refl)
  taken_down_lem tenant ready (done s) ok =
      let (same, kept) =
        with_ready_lem ready (set_gauge x (self up) (tenant ∷ []) (x.of_int (pos 0)) s) in
      (rw same (up_zero tenant s ok), kept)

  -- When the gauge takes the tenant and the connection is made: however the scheduler ends, also in a
  -- panic, the tenant's `up` is 0 afterwards, and the tenant is ready and stays so.
  pub run_tenant_lem :
      (tenant : Text) (attempts : List Attempt) (schedule : x.Store → Outcome x.Store)
      (l : Lifecycle x) (c : Connecting x)
      → x.accepts (self up) (tenant ∷ []) ≡ true
      → connect_with_backoff x tenant attempts l.store ≡ done (c, connected)
      → let l' = final (run_tenant x tenant attempts schedule l) in
        (x.read l'.store (self up) (tenant ∷ []) ≡ some (x.of_int (pos 0)))
        × (Dict.get l'.ready tenant ≡ some true)
  unfolding run_tenant
  run_tenant_lem tenant attempts schedule l c ok h =
      let s = x.set c.store (self up) (tenant ∷ []) (x.of_int (pos 1)) in
      let shown : set_gauge x (self up) (tenant ∷ []) (x.of_int (pos 1)) c.store ≡ done s =
        unfold set_gauge in rw (ok) refl in
      let (down, kept) = taken_down_lem tenant (Dict.put l.ready tenant true) (schedule s) ok in
      rw (h, shown)
        (
          down,
          ap (λ m. Dict.get m tenant) kept
              ∙ ground (arith, get-put l.ready tenant true tenant, text_eq_refl tenant),
        )
