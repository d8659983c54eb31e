-- ===== src/Publisher/Tenancy.antt =====
-- The tracked tuples of a tenant are its own, and so its messages keep the other tenants' series:
-- `apply`, `safeApply` and `Run` of publisher.go.
pub mod Runs
use ducklake_metrics_daemon.Prelude.{
  ℕ, ◌≡◌, refl, sym, ◌∙◌, ap, Bool, true, false, Option, none, some, List, [], ◌∷◌, arith, All,
  if◌then◌else◌, Bool-cases, Option-cases, inl, inr, ◌⊎◌,
}
use ducklake_metrics_daemon.Prelude.Text.{Text, text_eq, text_eq_iff, text_eq_refl}
use ducklake_metrics_daemon.Prelude.Int.{ℤ, pos}
use ducklake_metrics_daemon.Prelude.Int
use ducklake_metrics_daemon.Prelude.Int.{◌-ℤ◌}
use ducklake_metrics_daemon.Queries.{Query}
use ducklake_metrics_daemon.Publisher.Columns.{index_label_columns, index_value_columns}
use ducklake_metrics_daemon.Prelude.Dict
use ducklake_metrics_daemon.Prelude.Dict.{Dict, or_empty, All-put, All-get, All-delete}
use ducklake_metrics_daemon.Metrics.{
  self, pool_acquired_conns, pool_idle_conns, pool_total_conns, pool_empty_acquire_total, Metric,
  metric_eq,
}
use ducklake_metrics_daemon.Extern.{Extern, Laws}
use ducklake_metrics_daemon.Catalog.{QueryError, Stats, Row}
use ducklake_metrics_daemon.Publisher.Outcome.{
  ◌>>=◌, Outcome, done, panicked, final, inc, set_gauge,
}
use ducklake_metrics_daemon.Publisher.State.{
  stored, Result, Publisher, Tuples, Kind, kind_query, kind_pool_stat, kind_other,
}
use ducklake_metrics_daemon.Publisher.Apply.{
  tracked, Scope, tuple, signature, set_rows, delete_dropped, new_tuples, publish, count_error,
  with_columns, with_spec, checked, apply_query,
}
use ducklake_metrics_daemon.Publisher.Pool.{
  baseline, apply_pool_stat, bump_empty_acquire_counter, pool_gauges,
}
use ducklake_metrics_daemon.Publisher.Run.{
  apply, dispatch, safe_apply, recovered, Event, canceled, closed, received, run,
}
use ducklake_metrics_daemon.Publisher.Isolation.{
  belongs, Keeps, Keeps-trans, Keeps-bind, set_gauge-Keeps, inc-Keeps, tuple-belongs,
  set_rows-Keeps, delete_dropped-Keeps, AreOwned, sample_eq, foreign_ne,
}

abbrev pub AreOwnedAll : Text → Dict Tuples → Type 0
AreOwnedAll t = All (λ (e : Text × Tuples). AreOwned t e.1)

abbrev pub IsOwnedMap : Dict (Dict Tuples) → Type 0
IsOwnedMap = All (λ (e : Text × Dict Tuples). AreOwnedAll e.0 e.1)

-- Every tracked tuple begins with the tenant that it is tracked under.
abbrev pub IsOwned : {x : Extern} → Publisher x → Type 0
IsOwned p = IsOwnedMap p.last_labels

AreOwned-last :
    (m : Dict (Dict Tuples)) (t : Text)
    → All (λ (e : Text × Dict Tuples). AreOwnedAll e.0 e.1) m
    → AreOwnedAll t (or_empty (Dict.get m t))
AreOwned-last m t h = elim (Option-cases (Dict.get m t)) [
  | inl e ↦ rw e tt
  | inr (v, e) ↦ rw e (All-get (λ (e : Text × Dict Tuples). AreOwnedAll e.0 e.1) m t v h e)
]

AreOwned-prev :
    (m : Dict Tuples) (t q : Text) → AreOwnedAll t m → AreOwned t (or_empty (Dict.get m q))
AreOwned-prev m t q h = elim (Option-cases (Dict.get m q)) [
  | inl e ↦ rw e tt
  | inr (v, e) ↦ rw e (All-get (λ (e : Text × Tuples). AreOwned t e.1) m q v h e)
]

module _ (x : Extern) where
  AreOwned-new_tuples :
      (c : Scope x) (rows : List (Row x)) (m : Tuples)
      → AreOwned c.tenant m
      → AreOwned c.tenant (new_tuples x c rows m)
  unfolding new_tuples
  AreOwned-new_tuples c [] m h = h
  AreOwned-new_tuples c (row ∷ rows) m h =
      AreOwned-new_tuples c rows (Dict.put m (signature (tuple x c row)) (tuple x c row)) (
        All-put (λ (e : Text × List Text). belongs c.tenant e.1 ≡ true) m _ (tuple x c row) h
          (unfold tuple in text_eq_refl c.tenant))

module _ (x : Extern) (law : Laws x) where
  -- One message: what it may change belongs to tenant `t`, and ownership stays.
  pub record Confined (t : Text) (p p' : Publisher x) : Type 0 where
    pub keeps : Keeps x law t p.store p'.store
    pub owned : IsOwned p → IsOwned p'

  pub Confined-store :
      (t : Text) (p : Publisher x) (s : x.Store)
      → Keeps x law t p.store s
      → Confined t p (record p { store = s })
  Confined-store t p s k = record { keeps = k; owned = λ h. h }

  pub stored-Confined :
      (t : Text) (p : Publisher x) (o : Outcome x.Store)
      → Keeps x law t p.store (final o)
      → Confined t p (final (stored p o))
  stored-Confined t p (done s) k = Confined-store t p s k
  stored-Confined t p (panicked s) k = Confined-store t p s k

  count_error-Confined :
      (r : Result x) (p : Publisher x) → Confined r.tenant p (final (count_error x r p))
  unfolding count_error
  count_error-Confined r p =
      stored-Confined r.tenant p _ (inc-Keeps x law r.tenant _ _ p.store (text_eq_refl r.tenant))

  tracked-Confined :
      (gs : Dict Metric) (new : Tuples) (c : Scope x) (p : Publisher x) (o : Outcome x.Store)
      → IsOwned p
      → AreOwned c.tenant new
      → Keeps x law c.tenant p.store (final o)
      → Confined c.tenant p (final (tracked x gs new c p o))
  unfolding tracked
  tracked-Confined gs new c p (panicked s) h n k = record {
    keeps = k;
    owned = λ _.
        All-put (λ (e : Text × Dict Tuples). AreOwnedAll e.0 e.1) p.last_labels c.tenant _ h
          (AreOwned-last p.last_labels c.tenant h);
  }
  tracked-Confined gs new c p (done s) h n k =
      let last = or_empty (Dict.get p.last_labels c.tenant) in
      let own : AreOwnedAll c.tenant last = AreOwned-last p.last_labels c.tenant h in
      record {
        keeps = Keeps-trans x law c.tenant p.store s _ k (
            delete_dropped-Keeps x law c.tenant gs new (or_empty (Dict.get last c.query)) s
              (AreOwned-prev last c.tenant c.query own));
        owned = λ _.
            All-put (λ (e : Text × Dict Tuples). AreOwnedAll e.0 e.1) p.last_labels c.tenant _ h
              (All-put (λ (e : Text × Tuples). AreOwned c.tenant e.1) last c.query new own n);
      }

  publish-Confined :
      (gs : Dict Metric) (c : Scope x) (vi : Dict ℕ) (rows : List (Row x)) (p : Publisher x)
      → IsOwned p
      → Confined c.tenant p (final (publish x gs c vi rows p))
  unfolding publish
  publish-Confined gs c vi rows p h =
      tracked-Confined gs (new_tuples x c rows []) c p (set_rows x c gs vi rows p.store) h
        (AreOwned-new_tuples x c rows [] tt) (set_rows-Keeps x law c gs vi rows p.store)

  pub apply_query-Confined :
      (r : Result x) (p : Publisher x) → IsOwned p → Confined r.tenant p (final (apply_query x r p))
  unfolding apply_query
  apply_query-Confined r p h = go r.error
    where
      unchanged : Confined r.tenant p p
      unchanged = Confined-store r.tenant p p.store (λ n ks f. refl)

      columns :
          (gs : Dict Metric) (li : Option (List ℕ)) (vi : Option (Dict ℕ))
          → Confined r.tenant p (final (with_columns x gs r li vi p))
      columns gs none vi = count_error-Confined r p
      columns gs (some li) none = count_error-Confined r p
      columns gs (some li) (some vi) =
          publish-Confined gs
            (record { tenant = r.tenant; query = r.query; cols = r.cols; label_idx = li }) vi r.rows
            p h

      spec :
          (q : Option Query) (gs : Option (Dict Metric))
          → Confined r.tenant p (final (with_spec x q gs r p))
      spec none gs = unchanged
      spec (some q) none = unchanged
      spec (some q) (some gs) =
          columns gs (index_label_columns r.cols q.labels) (index_value_columns r.cols q.values)

      go : (e : Option QueryError) → Confined r.tenant p (final (checked x e r p))
      go (some e) = count_error-Confined r p
      go none = spec (Dict.get p.query_spec r.query) (Dict.get p.gauges r.query)

  pub pool_gauges-Keeps :
      (t : Text) (st : Stats) (s : x.Store) → Keeps x law t s (final (pool_gauges x t st s))
  unfolding pool_gauges
  pool_gauges-Keeps t st s =
      let own : belongs t (t ∷ []) ≡ true = text_eq_refl t in
      let idle =
        λ (a : x.Store). set_gauge x (self pool_idle_conns) (t ∷ []) (x.of_int st.idle_conns) a in
      let all =
        λ (a : x.Store). set_gauge x (self pool_total_conns) (t ∷ []) (x.of_int st.total_conns) a in
      Keeps-bind x law t s
        (set_gauge x (self pool_acquired_conns) (t ∷ []) (x.of_int st.acquired_conns) s)
        (λ a. idle a >>= all)
        (set_gauge-Keeps x law t (self pool_acquired_conns) (t ∷ []) (x.of_int st.acquired_conns) s
          own)
        λ a.
          Keeps-bind x law t a (idle a) all
            (set_gauge-Keeps x law t (self pool_idle_conns) (t ∷ []) (x.of_int st.idle_conns) a own)
            λ b.
              set_gauge-Keeps x law t (self pool_total_conns) (t ∷ []) (x.of_int st.total_conns) b
                own

  pub bump-Confined :
      (t : Text) (current : ℤ) (p : Publisher x)
      → Confined t p (final (bump_empty_acquire_counter x p t current))
  unfolding bump_empty_acquire_counter
  bump-Confined t current p = record {
    keeps = λ n ks f.
        let delta = x.float_int (Int.int64 (current -ℤ baseline x p t)) in
        let m = self pool_empty_acquire_total in
        sample_eq x law _ p.store n ks (ground (arith, law.read-add p.store m (t ∷ []) delta n ks))
          (ground (
            arith,
            law.total-add p.store m (t ∷ []) delta n ks,
            foreign_ne t (t ∷ []) ks (text_eq_refl t) f,
          ));
    owned = λ h. ground arith;
  }
