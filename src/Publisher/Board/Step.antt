-- ===== src/Publisher/Board/Step.antt =====
-- One message, applied or failed, makes of a shown board what the message tells (publisher.go).
use ducklake_metrics_daemon.Prelude.{
  ℕ, ◌≡◌, refl, ◌∙◌, ap, subst, true, false, Option, none, some, List, arith, Option-cases, inl,
  inr,
}
use ducklake_metrics_daemon.Prelude.Text.{Text}
use ducklake_metrics_daemon.Prelude.Dict
use ducklake_metrics_daemon.Prelude.Dict.{Dict, or_empty, get-put}
use ducklake_metrics_daemon.Prelude.Sort.{find}
use ducklake_metrics_daemon.Queries.{Query}
use ducklake_metrics_daemon.Queries.Merge.{name_of}
use ducklake_metrics_daemon.Metrics.{gauge}
use ducklake_metrics_daemon.Metrics.Register.{gauge_name, Registered}
use ducklake_metrics_daemon.Metrics.Register.Separate.{gauge_at, IsApart}
use ducklake_metrics_daemon.Metrics.Register.Complete.{HasGauges}
use ducklake_metrics_daemon.Extern.{Extern, Laws}
use ducklake_metrics_daemon.Catalog.{QueryError}
use ducklake_metrics_daemon.Publisher.State.{
  Publisher, Result, Kind, kind_query, kind_pool_stat, kind_other,
}
use ducklake_metrics_daemon.Publisher.Outcome.{Outcome, done, final}
use ducklake_metrics_daemon.Publisher.Columns.{index_label_columns, index_value_columns}
use ducklake_metrics_daemon.Publisher.Columns.ByName.{
  index_label_columns-is_some, index_value_columns-is_some,
}
use ducklake_metrics_daemon.Publisher.Signature.{is_some}
use ducklake_metrics_daemon.Publisher.Apply.{apply_query}
use ducklake_metrics_daemon.Publisher.Failures.{
  Fails, query_error, no_label_column, no_value_column, apply_query-Fails, apply_query_unknown,
}
use ducklake_metrics_daemon.Publisher.Run.{dispatch, apply, safe_apply, recovered}
use ducklake_metrics_daemon.Publisher.Tenancy.{apply_query-Confined, Confined}
use ducklake_metrics_daemon.Publisher.Board.{
  Board, has_columns, replaced, declares, published, accepted, told,
}
use ducklake_metrics_daemon.Publisher.Board.Total.{publish-total}
use ducklake_metrics_daemon.Publisher.Board.Message.{Fits, scope, every_gauge}
use ducklake_metrics_daemon.Publisher.Board.Quiet.{count_error-Quiet, apply_pool_stat-Quiet}
use ducklake_metrics_daemon.Publisher.Board.Invariant.{gauges_of, Holds, Holds-Quiet}
use ducklake_metrics_daemon.Publisher.Board.Publish.{find-name, Holds-publish}

module _ (x : Extern) (law : Laws x) (qs : List Query) (reg : Registered) (ok : IsApart reg)
    (all : (n : Text) (o : Query) → find name_of qs n ≡ some o → HasGauges reg.gauges o) where
  -- A query of the configuration has its gauges in the publisher.
  get-gauges :
      (p : Publisher x) (b : Board x) (n : Text) (q : Query)
      → Holds x qs reg p b
      → find name_of qs n ≡ some q
      → Dict.get p.gauges n ≡ some (gauges_of reg n)
  get-gauges p b n q h f =
      let there : is_some (Dict.get reg.gauges n) ≡ true =
        subst (λ a. is_some (Dict.get reg.gauges a) ≡ true) (find-name qs n q f) (all n q f).0 in
      elim (Option-cases (Dict.get reg.gauges n)) [
        | inl e ↦ absurd (ground (arith, e, there))
        | inr (gs, e) ↦ ground (arith, e, ap (λ m. Dict.get m n) h.gauges)
      ]

  -- The step that one message is, for the function that handles it.
  abbrev pub Steps : Publisher x → Board x → Outcome (Publisher x) → Type 0
  Steps p b o = (p' : Publisher x) × (o ≡ done p') × Holds x qs reg p' b

  -- A message that fails.
  failed :
      (r : Result x) (p : Publisher x) (b : Board x)
      → Fits x qs r
      → Holds x qs reg p b
      → Fails x r p
      → Steps p b (apply_query x r p)
  failed r p b fits h f =
      let (p', e, quiet) = count_error-Quiet x law r p fits.errors in
      (p', apply_query-Fails x r p f ∙ e, Holds-Quiet x qs reg p p' b ok h quiet)

  -- A result with all its columns.
  complete :
      (r : Result x) (p : Publisher x) (b : Board x) (q : Query) (li : List ℕ) (vi : Dict ℕ)
      → Fits x qs r
      → Holds x qs reg p b
      → r.error ≡ none
      → find name_of qs r.query ≡ some q
      → index_label_columns r.cols q.labels ≡ some li
      → index_value_columns r.cols q.values ≡ some vi
      → Steps p (replaced x r q b) (apply_query x r p)
  complete r p b q li vi fits h clear f el ev =
      let gs = gauges_of reg r.query in
      let c = scope x r.tenant r.query r.cols q li el in
      let at : (v : Text)
          → declares q v ≡ true
          → Dict.get gs v ≡ some (gauge (gauge_name r.query v)) =
        λ v d.
          subst (λ a. gauge_at reg.gauges a v ≡ some (gauge (gauge_name a v)))
            (find-name qs r.query q f) ((all r.query q f).1 v d) in
      let (p', e) =
        publish-total x c gs vi r.rows p fits.errors
          (every_gauge x r.tenant r.query r.cols q li el gs vi r.rows ev at (fits.takes q f)) in
      let spec = h.specs r.query ∙ f in
      let known = get-gauges p b r.query q h f in
      let step : apply_query x r p ≡ done p' =
        unfold apply_query in ground (arith, clear, spec, known, el, ev, e) in
      (
        p',
        step,
        Holds-publish x law qs reg ok r fits q f all li vi el ev p p' e b h (
            subst (Confined x law r.tenant p) (ap final step)
              (apply_query-Confined x law r p h.owned)),
      )

  known :
      (r : Result x) (p : Publisher x) (b : Board x) (q : Query)
      → Fits x qs r
      → Holds x qs reg p b
      → r.error ≡ none
      → find name_of qs r.query ≡ some q
      → Steps p (published x r (some q) b) (apply_query x r p)
  known r p b q fits h clear f =
      let spec = h.specs r.query ∙ f in
      let gs = get-gauges p b r.query q h f in
      let labels_known = index_label_columns-is_some r.cols q.labels in
      let values_known = index_value_columns-is_some r.cols q.values in
      let failure = failed r p b fits h in
      elim (Option-cases (index_label_columns r.cols q.labels)) [
        | inl e ↦
            let no : has_columns r.cols q.labels ≡ false = ground (arith, e, labels_known) in
            rw no (failure (no_label_column q (gauges_of reg r.query) clear spec gs e))
        | inr (li, e) ↦
            let yes : has_columns r.cols q.labels ≡ true = ground (arith, e, labels_known) in
            elim (Option-cases (index_value_columns r.cols q.values)) [
              | inl f' ↦
                  let no : has_columns r.cols q.values ≡ false = ground (arith, f', values_known) in
                  rw (yes, no)
                    (failure (no_value_column q (gauges_of reg r.query) clear spec gs f'))
              | inr (vi, f') ↦
                  let too : has_columns r.cols q.values ≡ true = ground (arith, f', values_known) in
                  rw (yes, too) (complete r p b q li vi fits h clear f e f')
            ]
      ]

  apply_query-Holds :
      (r : Result x) (p : Publisher x) (b : Board x)
      → Fits x qs r
      → Holds x qs reg p b
      → (o : Option QueryError) → r.error ≡ o
      → Steps p (accepted x qs r o b) (apply_query x r p)
  apply_query-Holds r p b fits h (some e) s = failed r p b fits h (query_error e s)
  apply_query-Holds r p b fits h none s = elim (Option-cases (find name_of qs r.query)) [
    | inl e ↦ (p, apply_query_unknown x r p s (inl (h.specs r.query ∙ e)), rw e h)
    | inr (q, e) ↦ rw e (known r p b q fits h s e)
  ]

  dispatch-Holds :
      (r : Result x) (p : Publisher x) (b : Board x) (k : Kind)
      → Fits x qs r
      → Holds x qs reg p b
      → Steps p (told x qs r k b) (dispatch x k r p)
  unfolding dispatch
  dispatch-Holds r p b kind_query fits h = apply_query-Holds r p b fits h r.error refl
  dispatch-Holds r p b (kind_other n) fits h = (p, refl, h)
  dispatch-Holds r p b kind_pool_stat fits h =
      let (p', e, quiet) =
        apply_pool_stat-Quiet x law r p fits.acquired fits.idle fits.total fits.empty in
      (p', e, Holds-Quiet x qs reg p p' b ok h quiet)

  pub safe_apply-Holds :
      (r : Result x) (p : Publisher x) (b : Board x)
      → Fits x qs r
      → Holds x qs reg p b
      → Steps p (told x qs r r.kind b) (safe_apply x r p)
  unfolding safe_apply recovered apply
  safe_apply-Holds r p b fits h =
      let (p', e, held) = dispatch-Holds r p b r.kind fits h in (p', ap (recovered x r) e, held)
