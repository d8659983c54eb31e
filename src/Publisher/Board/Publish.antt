-- ===== src/Publisher/Board/Publish.antt =====
-- What a published result makes of the board (publisher.go).
use ducklake_metrics_daemon.Prelude.{
  ℕ, ◌≡◌, sym, ◌∙◌, ap, subst, true, false, ◌&&◌, some, List, [], ◌∷◌, arith, Bool-cases, inl, inr,
}
use ducklake_metrics_daemon.Prelude.Text.{Text, text_eq, text_eq_iff}
use ducklake_metrics_daemon.Prelude.Dict
use ducklake_metrics_daemon.Prelude.Dict.{Dict, or_empty, HasDistinctKeys}
use ducklake_metrics_daemon.Prelude.Sort.{find}
use ducklake_metrics_daemon.Queries.{Query}
use ducklake_metrics_daemon.Queries.Merge.{name_of}
use ducklake_metrics_daemon.Metrics.{gauge}
use ducklake_metrics_daemon.Metrics.Register.{gauge_name, Registered}
use ducklake_metrics_daemon.Metrics.Register.Separate.{gauge_at, IsApart}
use ducklake_metrics_daemon.Metrics.Register.Complete.{HasGauges}
use ducklake_metrics_daemon.Extern.{Extern, Laws}
use ducklake_metrics_daemon.Publisher.State.{Publisher, Result}
use ducklake_metrics_daemon.Publisher.Outcome.{done}
use ducklake_metrics_daemon.Publisher.Isolation.{belongs, KeepsGauges, Keeps-gauges}
use ducklake_metrics_daemon.Publisher.Columns.{index_label_columns, index_value_columns}
use ducklake_metrics_daemon.Publisher.Columns.ByName.{index_value_columns-some}
use ducklake_metrics_daemon.Publisher.Apply.{publish}
use ducklake_metrics_daemon.Publisher.Tenancy.{Confined}
use ducklake_metrics_daemon.Publisher.Tenancy.Runs.{belongs_other}
use ducklake_metrics_daemon.Publisher.Snapshot.Exact.{IsTracked, read-publish, has_metric_of_get}
use ducklake_metrics_daemon.Publisher.Snapshot.Tracking.{publish-IsTracked}
use ducklake_metrics_daemon.Publisher.Board.{Board, declares, replaced}
use ducklake_metrics_daemon.Publisher.Board.Frame.{
  read-publish_frame, publish-tuples, publish-tables,
}
use ducklake_metrics_daemon.Publisher.Board.Message.{
  Fits, scope, has_row-shows, last_value-newest, AreClean-series_of,
}
use ducklake_metrics_daemon.Publisher.Board.Invariant.{
  gauges_of, gauges_of-AreSeparate, gauges_of-disjoint, Holds,
}

pub find-name : (qs : List Query) (n : Text) (q : Query) → find name_of qs n ≡ some q → q.name ≡ n
unfolding find
find-name [] n q h = cc h
find-name (p ∷ qs) n q h = elim (Bool-cases (text_eq p.name n)) [
  | inl b ↦ let e : p ≡ q = ground (arith, b, h) in sym (ap name_of e) ∙ (text_eq_iff p.name n).0 b
  | inr b ↦ find-name qs n q (ground (arith, b, h))
]

-- A result of query `q`, with the columns found.
module _ (x : Extern) (law : Laws x) (qs : List Query) (reg : Registered) (ok : IsApart reg)
    (r : Result x) (fits : Fits x qs r) (q : Query) (found : find name_of qs r.query ≡ some q)
    (all : (n : Text) (o : Query) → find name_of qs n ≡ some o → HasGauges reg.gauges o)
    (li : List ℕ) (vi : Dict ℕ) (labels : index_label_columns r.cols q.labels ≡ some li)
    (values : index_value_columns r.cols q.values ≡ some vi) (p p' : Publisher x)
    (published : publish x
        (gauges_of reg r.query)
        (scope x r.tenant r.query r.cols q li labels)
        vi
        r.rows
        p
      ≡ done p') where
  gauge_of :
      (n : Text) (o : Query) (v : Text)
      → find name_of qs n ≡ some o
      → declares o v ≡ true
      → Dict.get (gauges_of reg n) v ≡ some (gauge (gauge_name n v))
  gauge_of n o v f d =
      subst (λ a. gauge_at reg.gauges a v ≡ some (gauge (gauge_name a v))) (find-name qs n o f)
        ((all n o f).1 v d)

  -- The series of the tenant, in the query's own gauges.
  own_series :
      (b : Board x) (v : Text) (ks : List Text)
      → Holds x qs reg p b
      → declares q v ≡ true
      → belongs r.tenant ks ≡ true
      → x.read p'.store (gauge (gauge_name r.query v)) ks ≡ replaced x r q b r.query v ks
  own_series b v ks h d own =
      let (keys, at, _) = index_value_columns-some r.cols q.values vi values in
      let (j, ej, name) = at v d in
      let name_eq = find-name qs r.query q found in
      ground (
        arith,
        (text_eq_iff q.name r.query).1 name_eq,
        read-publish x law (gauges_of reg r.query) (scope x r.tenant r.query r.cols q li labels) vi
            r.rows p p' v j (gauge (gauge_name r.query v)) ks (gauges_of-AreSeparate reg ok r.query)
            keys
            (AreClean-series_of x r.tenant r.query r.cols q li labels r.rows (fits.clean q found))
            (h.tracked r.tenant r.query) (gauge_of r.query q v found d) ej own published,
        has_row-shows x r.tenant r.query r.cols q li labels ks r.rows,
        last_value-newest x r.tenant r.query r.cols q li labels v j ks r.rows name,
        h.shown r.query q found v d ks,
      )

  -- The tracking of a tenant and a query that the result is not for.
  other_tracking :
      (b : Board x) (t n : Text)
      → Holds x qs reg p b
      → KeepsGauges x law r.tenant p.store p'.store
      → text_eq r.tenant t && text_eq r.query n ≡ false
      → IsTracked (gauges_of reg n) t n p'
  other_tracking b t n h keeps other =
      let tr = h.tracked t n in
      let same =
        publish-tuples (gauges_of reg r.query) (scope x r.tenant r.query r.cols q li labels) vi
          r.rows p p' t n published other in
      record {
        keyed = rw same tr.keyed;
        covers = λ m ks hm own out.
            let before = tr.covers m ks hm own (rw (sym same) out) in
            elim (Bool-cases (text_eq r.query n)) [
              | inr ne ↦
                  read-publish_frame x law (gauges_of reg r.query)
                    (scope x r.tenant r.query r.cols q li labels) vi r.rows p p' m ks
                    (gauges_of-disjoint reg ok r.query n m ne hm) published
                  ∙ before
              | inl e ↦
                  keeps m ks (
                    belongs_other x law t r.tenant ks
                      (ground (arith, e, other, text_eq_iff r.tenant t, text_eq_iff t r.tenant))
                      own)
                  ∙ before
            ];
      }

  -- The gauges of any declared value.
  shown_after :
      (b : Board x) (n : Text) (o : Query) (v : Text) (ks : List Text)
      → Holds x qs reg p b
      → KeepsGauges x law r.tenant p.store p'.store
      → find name_of qs n ≡ some o
      → declares o v ≡ true
      → x.read p'.store (gauge (gauge_name n v)) ks ≡ replaced x r q b n v ks
  shown_after b n o v ks h keeps f d =
      let name_eq = find-name qs r.query q found in
      let g = gauge (gauge_name n v) in
      elim (Bool-cases (text_eq r.query n)) [
        | inr ne ↦ ground (
          arith,
          ne,
          ap (λ a. text_eq a n) name_eq,
          h.shown n o f v d ks,
          read-publish_frame x law (gauges_of reg r.query)
              (scope x r.tenant r.query r.cols q li labels) vi r.rows p p' g ks
              (gauges_of-disjoint reg ok r.query n g ne
                (has_metric_of_get (gauges_of reg n) v g (gauge_of n o v f d)))
              published,
        )
        | inl e ↦ elim (Bool-cases (belongs r.tenant ks)) [
          | inr far ↦ ground (arith, far, keeps g ks far, h.shown n o f v d ks)
          | inl own ↦
              let en : r.query ≡ n = (text_eq_iff r.query n).0 e in
              let eo : o ≡ q = cc (f, found, en) in
              subst (λ a. x.read p'.store (gauge (gauge_name a v)) ks ≡ replaced x r q b a v ks) en
                (own_series b v ks h (subst (λ z. declares z v ≡ true) eo d) own)
        ]
      ]

  pub Holds-publish :
      (b : Board x)
      → Holds x qs reg p b
      → Confined x law r.tenant p p'
      → Holds x qs reg p' (replaced x r q b)
  Holds-publish b h conf =
      let gs = gauges_of reg r.query in
      let c = scope x r.tenant r.query r.cols q li labels in
      let (tables, specs) = publish-tables gs c vi r.rows p p' published in
      let clean =
        AreClean-series_of x r.tenant r.query r.cols q li labels r.rows (fits.clean q found) in
      record {
        gauges = tables ∙ h.gauges;
        specs = λ n. ap (λ m. Dict.get m n) specs ∙ h.specs n;
        owned = conf.owned h.owned;
        tracked = λ t n. elim (Bool-cases (text_eq r.tenant t && text_eq r.query n)) [
          | inr other ↦ other_tracking b t n h (Keeps-gauges x law _ _ _ conf.keeps) other
          | inl same ↦
              let et : r.tenant ≡ t = (text_eq_iff r.tenant t).0 (ground (arith, same)) in
              let en : r.query ≡ n = (text_eq_iff r.query n).0 (ground (arith, same)) in
              subst (λ a. IsTracked (gauges_of reg n) a n p') et
                (subst (λ a. IsTracked (gauges_of reg a) r.tenant a p') en
                  (publish-IsTracked x law gs c vi r.rows p p' clean (h.tracked r.tenant r.query)
                    published).0)
        ];
        shown = λ n o f v d ks. shown_after b n o v ks h (Keeps-gauges x law _ _ _ conf.keeps) f d;
      }
