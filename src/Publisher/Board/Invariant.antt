-- ===== src/Publisher/Board/Invariant.antt =====
-- The state of the publisher shows a board (publisher.go), and what a published result makes of it.
use ducklake_metrics_daemon.Prelude.{
  ◌≡◌, refl, sym, ◌∙◌, ap, subst, true, false, some, List, arith, Bool-cases, inl, inr,
}
use ducklake_metrics_daemon.Prelude.Text.{Text, text_eq, text_eq_iff}
use ducklake_metrics_daemon.Prelude.Dict
use ducklake_metrics_daemon.Prelude.Dict.{Dict, or_empty, HasDistinctKeys}
use ducklake_metrics_daemon.Prelude.Sort.{find}
use ducklake_metrics_daemon.Queries.{Query}
use ducklake_metrics_daemon.Queries.Merge.{name_of}
use ducklake_metrics_daemon.Metrics.{Metric, self, gauge, metric_eq}
use ducklake_metrics_daemon.Metrics.Register.{gauge_name, Registered}
use ducklake_metrics_daemon.Metrics.Register.Separate.{IsApart}
use ducklake_metrics_daemon.Extern.{Extern}
use ducklake_metrics_daemon.Publisher.State.{Publisher}
use ducklake_metrics_daemon.Publisher.Tenancy.{IsOwned, IsOwnedMap}
use ducklake_metrics_daemon.Publisher.Snapshot.{AreSeparate}
use ducklake_metrics_daemon.Publisher.Snapshot.Dropped.{has_metric}
use ducklake_metrics_daemon.Publisher.Snapshot.Exact.{tuples_of, IsTracked}
use ducklake_metrics_daemon.Publisher.Board.{Board, declares}
use ducklake_metrics_daemon.Publisher.Board.Frame.{has_metric-get}
use ducklake_metrics_daemon.Publisher.Board.Quiet.{Quiet}

-- The gauges of a query.
abbrev pub gauges_of : Registered → Text → Dict Metric
gauges_of r n = or_empty (Dict.get r.gauges n)

metric_eq_join :
    (a b c : Metric) → metric_eq a c ≡ true → metric_eq b c ≡ true → metric_eq a b ≡ true
unfolding metric_eq
metric_eq_join (self a) (self b) (self c) h k = ground arith
metric_eq_join (self a) (self b) (gauge c) h k = cc h
metric_eq_join (self a) (gauge b) (self c) h k = cc k
metric_eq_join (self a) (gauge b) (gauge c) h k = cc h
metric_eq_join (gauge a) (self b) (self c) h k = cc h
metric_eq_join (gauge a) (self b) (gauge c) h k = cc k
metric_eq_join (gauge a) (gauge b) (self c) h k = cc h
metric_eq_join (gauge a) (gauge b) (gauge c) h k =
    ground (arith, text_eq_iff a c, text_eq_iff b c, text_eq_iff a b)

module _ (reg : Registered) (ok : IsApart reg) where
  pub gauges_of-AreSeparate : (n : Text) → AreSeparate (gauges_of reg n)
  gauges_of-AreSeparate n a b g h ga hb e = (ok.apart n a n b g h ga hb e).1

  -- No metric belongs to two queries.
  pub gauges_of-disjoint :
      (p n : Text) (m : Metric)
      → text_eq p n ≡ false
      → has_metric m (gauges_of reg n) ≡ true
      → has_metric m (gauges_of reg p) ≡ false
  gauges_of-disjoint p n m ne h = elim (Bool-cases (has_metric m (gauges_of reg p))) [
    | inr b ↦ b
    | inl b ↦
        let (a, g, ga, ge) = has_metric-get (gauges_of reg p) m (ok.keyed p) b in
        let (c, k, kc, ke) = has_metric-get (gauges_of reg n) m (ok.keyed n) h in
        let (e, _) = ok.apart p a n c g k ga kc (metric_eq_join g k m ge ke) in
        absurd (ground (arith, ne, (text_eq_iff p n).1 e))
  ]

  -- A query's metrics are gauges.
  pub gauges_of-gauge :
      (n : Text) (m : Metric) → has_metric m (gauges_of reg n) ≡ true → (g : Text) × (m ≡ gauge g)
  unfolding metric_eq
  gauges_of-gauge n (gauge g) h = (g, refl)
  gauges_of-gauge n (self s) h =
      let (a, g, ga, ge) = has_metric-get (gauges_of reg n) (self s) (ok.keyed n) h in
      let (e, _) = ok.named n a g ga in
      absurd (ground (arith, ap (λ z. metric_eq z (self s)) e, ge))

module _ (x : Extern) (qs : List Query) (reg : Registered) where
  -- The gauges of the declared values show the board; what the publisher keeps of the messages before
  -- is true.
  pub record Holds (p : Publisher x) (b : Board x) : Type 0 where
    pub gauges : p.gauges ≡ reg.gauges
    pub specs : (n : Text) → Dict.get p.query_spec n ≡ find name_of qs n
    pub owned : IsOwned p
    pub tracked : (t n : Text) → IsTracked (gauges_of reg n) t n p
    pub shown :
        (n : Text) (q : Query)
        → find name_of qs n ≡ some q
        → (v : Text) → declares q v ≡ true
        → (ks : List Text) → x.read p.store (gauge (gauge_name n v)) ks ≡ b n v ks

  pub Holds-Quiet :
      (p p' : Publisher x) (b : Board x) → IsApart reg → Holds p b → Quiet p p' → Holds p' b
  Holds-Quiet p p' b ok h k = record {
    gauges = k.gauges ∙ h.gauges;
    specs = λ n. ap (λ m. Dict.get m n) k.specs ∙ h.specs n;
    owned = subst IsOwnedMap (sym k.tracking) h.owned;
    tracked = λ t n.
        let tr = h.tracked t n in
        let same : tuples_of p' t n ≡ tuples_of p t n =
          ap (λ m. or_empty (Dict.get (or_empty (Dict.get m t)) n)) k.tracking in
        record {
          keyed = rw same tr.keyed;
          covers = λ m ks hm own out.
              let (g, e) = gauges_of-gauge reg ok n m hm in
              rw e (
                k.reads g ks
                ∙ tr.covers (gauge g) ks (subst (λ z. has_metric z (gauges_of reg n) ≡ true) e hm)
                    own (rw (sym same) out));
        };
    shown = λ n q f v d ks. k.reads (gauge_name n v) ks ∙ h.shown n q f v d ks;
  }
