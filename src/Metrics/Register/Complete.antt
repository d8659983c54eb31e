-- ===== src/Metrics/Register/Complete.antt =====
-- Every declared value of every query gets its gauge (metrics.go).
use ducklake_metrics_daemon.Prelude.{
  ◌≡◌, refl, subst, Bool, true, false, ◌&&◌, Option, none, some, List, [], ◌∷◌, arith, any,
  if◌then◌else◌, Bool-cases, inl, inr,
}
use ducklake_metrics_daemon.Prelude.Text.{Text, text_eq, text_eq_iff, text_eq_refl}
use ducklake_metrics_daemon.Prelude.Dict
use ducklake_metrics_daemon.Prelude.Dict.{Dict, or_empty, get-put}
use ducklake_metrics_daemon.Prelude.Sort.{find, IsDistinct}
use ducklake_metrics_daemon.Queries.{Query}
use ducklake_metrics_daemon.Queries.Merge.{name_of}
use ducklake_metrics_daemon.Publisher.Signature.{is_some}
use ducklake_metrics_daemon.Metrics.{Metric, gauge}
use ducklake_metrics_daemon.Metrics.Vectors.{all_self}
use ducklake_metrics_daemon.Metrics.Register.{
  gauge_name, gauge_labels, Registered, add_gauge, and_then, must_register, register_self,
  register_values, register_queries, register,
}
use ducklake_metrics_daemon.Metrics.Register.Separate.{
  gauge_at, gauge_at-add_gauge, IsApart, must_register-some, IsApart-add, IsApart-empty,
}

and_then-some :
    {A B : Type 0} (o : Option A) (k : A → Option B) (b : B)
    → and_then o k ≡ some b
    → (a : A) × (o ≡ some a) × (k a ≡ some b)
and_then-some none k b h = cc
and_then-some (some a) k b h = (a, refl, h)

-- What the loop over the values `vs` of a query has done.
record Adds (q : Query) (vs : List Text) (r r' : Registered) : Type 0 where
  apart : IsApart r'
  at :
      (p w : Text)
      → gauge_at r'.gauges p w ≡ (
          if text_eq q.name p && any (λ v. text_eq v w) vs
          then some (gauge (gauge_name p w))
          else gauge_at r.gauges p w)
  others : (p : Text) → text_eq q.name p ≡ false → Dict.get r'.gauges p ≡ Dict.get r.gauges p
  there : is_some (Dict.get r.gauges q.name) ≡ true → is_some (Dict.get r'.gauges q.name) ≡ true

-- A query has its gauges.
abbrev pub HasGauges : Dict (Dict Metric) → Query → Type 0
HasGauges gauges q =
    (is_some (Dict.get gauges q.name) ≡ true)
    × ((v : Text)
        → any (λ w. text_eq w v) q.values ≡ true
        → gauge_at gauges q.name v ≡ some (gauge (gauge_name q.name v)))

module _ (is_valid : Text → List Text → Bool) where
  register_values_lem :
      (q : Query) (vs : List Text) (r r' : Registered)
      → register_values is_valid q vs r ≡ some r'
      → IsApart r
      → Adds q vs r r'
  unfolding register_values
  register_values_lem q [] r r' h a =
      let e : r ≡ r' = ground (arith, h) in
      subst (Adds q [] r) e
        (record { apart = a; at = λ p w. ground arith; others = λ p b. refl; there = λ b. b })
  register_values_lem q (v ∷ vs) r r' h a =
      let g = gauge (gauge_name q.name v) in
      let (names, e, k) =
        and_then-some (must_register is_valid (gauge_name q.name v) (gauge_labels q) r.names)
          (λ names.
            register_values is_valid q vs
              (record { names = names; gauges = add_gauge r.gauges q.name v g }))
          r' h in
      let (cons, new) =
        must_register-some is_valid (gauge_name q.name v) (gauge_labels q) r.names names e in
      let s : Registered = record { names = names; gauges = add_gauge r.gauges q.name v g } in
      let d = register_values_lem q vs s r' k (IsApart-add is_valid r q.name v names a cons new) in
      record {
        apart = d.apart;
        at = λ p w. ground (
          arith,
          d.at p w,
          gauge_at-add_gauge r.gauges q.name v g p w,
          text_eq_iff q.name p,
          text_eq_iff v w,
        );
        others = λ p b. ground (
          arith,
          b,
          d.others p b,
          get-put r.gauges q.name (Dict.put (or_empty (Dict.get r.gauges q.name)) v g) p,
        );
        there = λ b. d.there (
            ground (
              arith,
              get-put r.gauges q.name (Dict.put (or_empty (Dict.get r.gauges q.name)) v g) q.name,
              text_eq_refl q.name,
            ));
      }

  register_queries_lem :
      (qs : List Query) (r r' : Registered)
      → register_queries is_valid qs r ≡ some r'
      → IsApart r
      → IsApart r'
        × ((p : Text) → find name_of qs p ≡ none → Dict.get r'.gauges p ≡ Dict.get r.gauges p)
        × (IsDistinct name_of qs
            → (p : Text) (q : Query) → find name_of qs p ≡ some q
            → HasGauges r'.gauges q)
  unfolding register_queries find
  register_queries_lem [] r r' h a =
      let e : r ≡ r' = ground (arith, h) in (subst IsApart e a, λ p n. rw e refl, λ d p q f. cc f)
  register_queries_lem (q ∷ qs) r r' h a =
      let s : Registered = record { names = r.names; gauges = Dict.put r.gauges q.name [] } in
      let (t, e, k) =
        and_then-some (register_values is_valid q q.values s) (register_queries is_valid qs) r' h in
      let d = register_values_lem q q.values s t e (IsApart-empty is_valid r q.name a) in
      let (apart, others, found) = register_queries_lem qs t r' k d.apart in
      let here : IsDistinct name_of (q ∷ qs) → HasGauges r'.gauges q = λ (new, _).
        let same = others q.name new in
        (
          ground (
            arith,
            same,
            d.there (ground (arith, get-put r.gauges q.name [] q.name, text_eq_refl q.name)),
          ),
          λ v b. ground (arith, same, b, d.at q.name v, text_eq_refl q.name),
        ) in
      (
        apart,
        λ p n. ground (arith, n, others p, d.others p, get-put r.gauges q.name [] p),
        λ d p o f. elim (Bool-cases (text_eq q.name p)) [
          | inl b ↦ let e : q ≡ o = ground (arith, b, f) in subst (HasGauges r'.gauges) e (here d)
          | inr b ↦ found d.1 p o (ground (arith, b, f))
        ],
      )

  -- The gauges are empty before the queries, whatever the registry holds.
  IsApart-start : (names : List Text) → IsApart (record { names = names; gauges = [] })
  unfolding Dict.get
  IsApart-start names = record {
    named = λ q v g h. cc h;
    apart = λ q v p w g g' h. cc h;
    keyed = λ q. tt;
  }

  -- When the registration of queries with different names does not panic: each of them has a gauge for
  -- each of its values, named after the query and the value; and no two values of any queries share a
  -- gauge.
  pub register_lem :
      (qs : List Query) (r : Registered)
      → IsDistinct name_of qs
      → register is_valid qs ≡ some r
      → ((p : Text) (q : Query) → find name_of qs p ≡ some q → HasGauges r.gauges q) × IsApart r
  unfolding register
  register_lem qs r d h =
      let (names, e, k) =
        and_then-some (register_self is_valid all_self [])
          (λ names. register_queries is_valid qs (record { names = names; gauges = [] })) r h in
      let (apart, _, found) =
        register_queries_lem qs (record { names = names; gauges = [] }) r k (IsApart-start names) in
      (found d, apart)
