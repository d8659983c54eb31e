-- ===== src/Metrics/Register/Separate.antt =====
-- What a registration that does not panic guarantees (metrics.go): each declared value of each query
-- has a gauge of its own.
use ducklake_metrics_daemon.Prelude.{
  ◌⊎◌, ◌≡◌, refl, sym, ◌∙◌, ap, ap₂, subst, Bool, true, false, ◌&&◌, Option, none, some, List, [],
  ◌∷◌, arith, if◌then◌else◌, Bool-cases, inl, inr,
}
use ducklake_metrics_daemon.Prelude.Text.{Text, text_eq, text_eq_iff, text_eq_comm}
use ducklake_metrics_daemon.Prelude.Dict
use ducklake_metrics_daemon.Prelude.Dict.{
  Dict, or_empty, get-put, HasDistinctKeys, HasDistinctKeys-put,
}
use ducklake_metrics_daemon.Metrics.{Metric, self, gauge, metric_eq}
use ducklake_metrics_daemon.Metrics.Register.{
  is_registered, gauge_name, Registered, add_gauge, must_register,
}

-- `gauges[q][v]`
abbrev pub gauge_at : Dict (Dict Metric) → Text → Text → Option Metric
gauge_at gauges q v = Dict.get (or_empty (Dict.get gauges q)) v

pub gauge_at-add_gauge :
    (gauges : Dict (Dict Metric)) (q v : Text) (g : Metric) (p w : Text)
    → gauge_at (add_gauge gauges q v g) p w
      ≡ (if text_eq q p && text_eq v w then some g else gauge_at gauges p w)
gauge_at-add_gauge gauges q v g p w = ground (
  arith,
  get-put gauges q (Dict.put (or_empty (Dict.get gauges q)) v g) p,
  get-put (or_empty (Dict.get gauges q)) v g w,
  text_eq_iff q p,
)

pub gauge_at-put_empty :
    (gauges : Dict (Dict Metric)) (q p w : Text)
    → gauge_at (Dict.put gauges q []) p w ≡ (if text_eq q p then none else gauge_at gauges p w)
unfolding Dict.get
gauge_at-put_empty gauges q p w = ground (arith, get-put gauges q [] p)

metric_eq_comm : (m n : Metric) → metric_eq m n ≡ metric_eq n m
unfolding metric_eq
metric_eq_comm (self a) (self b) = ground arith
metric_eq_comm (self a) (gauge b) = refl
metric_eq_comm (gauge a) (self b) = refl
metric_eq_comm (gauge a) (gauge b) = text_eq_comm a b

-- The gauges have registered names, which tell them apart.
pub record IsApart (r : Registered) : Type 0 where
  pub named :
      (q v : Text) (g : Metric)
      → gauge_at r.gauges q v ≡ some g
      → (g ≡ gauge (gauge_name q v)) × (is_registered r.names (gauge_name q v) ≡ true)
  pub apart :
      (q v p w : Text) (g h : Metric)
      → gauge_at r.gauges q v ≡ some g
      → gauge_at r.gauges p w ≡ some h
      → metric_eq g h ≡ true
      → (q ≡ p) × (v ≡ w)
  pub keyed : (q : Text) → HasDistinctKeys (or_empty (Dict.get r.gauges q))

module _ (is_valid : Text → List Text → Bool) where
  pub must_register-some :
      (name : Text) (labels names names' : List Text)
      → must_register is_valid name labels names ≡ some names'
      → (names' ≡ name ∷ names) × (is_registered names name ≡ false)
  unfolding must_register
  must_register-some name labels names names' h = (ground arith, ground arith)

  gauge_at-add_cases :
      (gauges : Dict (Dict Metric)) (q v : Text) (m : Metric) (p w : Text) (g : Metric)
      → gauge_at (add_gauge gauges q v m) p w ≡ some g
      → ((q ≡ p) × (v ≡ w) × (m ≡ g)) ⊎ (gauge_at gauges p w ≡ some g)
  gauge_at-add_cases gauges q v m p w g h =
      let e = sym (gauge_at-add_gauge gauges q v m p w) ∙ h in
      elim (Bool-cases (text_eq q p && text_eq v w)) [
        | inl b ↦ inl (
          (text_eq_iff q p).0 (ground (arith, b)),
          (text_eq_iff v w).0 (ground (arith, b)),
          ground (arith, b, e),
        )
        | inr b ↦ inr (ground (arith, b, e))
      ]

  -- A new gauge is told apart from every registered one.
  not_same :
      (r : Registered) (q v p w : Text) (g : Metric)
      → IsApart r
      → is_registered r.names (gauge_name q v) ≡ false
      → gauge_at r.gauges p w ≡ some g
      → metric_eq (gauge (gauge_name q v)) g ≡ false
  unfolding metric_eq
  not_same r q v p w g a new h =
      let (e, old) = a.named p w g h in
      rw e (ground (arith, text_eq_iff (gauge_name q v) (gauge_name p w), new, old))

  pub IsApart-add :
      (r : Registered) (q v : Text) (names : List Text)
      → IsApart r
      → names ≡ gauge_name q v ∷ r.names
      → is_registered r.names (gauge_name q v) ≡ false
      → IsApart (record { names = names; gauges = add_gauge r.gauges q v (gauge (gauge_name q v)) })
  IsApart-add r q v names a e new = record {
    named = λ p w g h. elim (gauge_at-add_cases r.gauges q v (gauge (gauge_name q v)) p w g h) [
      | inl (ep, ew, eg) ↦
          let same : gauge_name q v ≡ gauge_name p w = ap₂ gauge_name ep ew in
          (
            sym eg ∙ ap gauge same,
            rw e (ground (arith, text_eq_iff (gauge_name q v) (gauge_name p w), same)),
          )
      | inr old ↦ let (eg, known) = a.named p w g old in (eg, rw e (ground (arith, known)))
    ];
    apart = λ p w p' w' g g' h h' same.
        elim (gauge_at-add_cases r.gauges q v (gauge (gauge_name q v)) p w g h) [
          | inl (ep, ew, eg) ↦
              elim (gauge_at-add_cases r.gauges q v (gauge (gauge_name q v)) p' w' g' h') [
                | inl (ep', ew', eg') ↦ (sym ep ∙ ep', sym ew ∙ ew')
                | inr old' ↦ absurd (ground (arith, eg, same, not_same r q v p' w' g' a new old'))
              ]
          | inr old ↦ elim (gauge_at-add_cases r.gauges q v (gauge (gauge_name q v)) p' w' g' h') [
            | inl (ep', ew', eg') ↦
                absurd
                  (ground (arith, eg', same, metric_eq_comm g g', not_same r q v p w g a new old))
            | inr old' ↦ a.apart p w p' w' g g' old old' same
          ]
        ];
    keyed = λ p. elim (Bool-cases (text_eq q p)) [
      | inl b ↦
          subst HasDistinctKeys
            (ground (
              arith,
              b,
              get-put r.gauges q
                  (Dict.put (or_empty (Dict.get r.gauges q)) v (gauge (gauge_name q v))) p,
            ))
            (HasDistinctKeys-put (or_empty (Dict.get r.gauges q)) v (gauge (gauge_name q v))
              (a.keyed q))
      | inr b ↦
          subst HasDistinctKeys
            (ground (
              arith,
              b,
              get-put r.gauges q
                  (Dict.put (or_empty (Dict.get r.gauges q)) v (gauge (gauge_name q v))) p,
            ))
            (a.keyed p)
    ];
  }

  pub IsApart-empty :
      (r : Registered) (q : Text)
      → IsApart r
      → IsApart (record { names = r.names; gauges = Dict.put r.gauges q [] })
  IsApart-empty r q a = record {
    named = λ p w g h. a.named p w g (ground (arith, h, gauge_at-put_empty r.gauges q p w));
    apart = λ p w p' w' g g' h h'.
        a.apart p w p' w' g g' (ground (arith, h, gauge_at-put_empty r.gauges q p w))
          (ground (arith, h', gauge_at-put_empty r.gauges q p' w'));
    keyed = λ p. elim (Bool-cases (text_eq q p)) [
      | inl b ↦
          let e : [] ≡ or_empty (Dict.get (Dict.put r.gauges q []) p) =
            ground (arith, b, get-put r.gauges q [] p) in
          subst HasDistinctKeys e tt
      | inr b ↦ subst HasDistinctKeys (ground (arith, b, get-put r.gauges q [] p)) (a.keyed p)
    ];
  }
