-- ===== src/Publisher/Board/Accepted.antt =====
-- Messages fit when their labels are texts that the Prometheus client takes: it documents that
-- `WithLabelValues` panics only on a wrong number of values and on values that are not valid UTF-8.
use ducklake_metrics_daemon.Prelude.{
  subst, suc, ◌≡◌, refl, sym, ap, true, some, List, [], ◌∷◌, All, length,
}
use ducklake_metrics_daemon.Prelude.Text.{Text}
use ducklake_metrics_daemon.Prelude.Sort.{find}
use ducklake_metrics_daemon.Queries.{Query}
use ducklake_metrics_daemon.Queries.Merge.{name_of}
use ducklake_metrics_daemon.Metrics.{
  Self, self, gauge, query_errors_total, pool_acquired_conns, pool_idle_conns, pool_total_conns,
  pool_empty_acquire_total,
}
use ducklake_metrics_daemon.Metrics.Vectors.{vector_of}
use ducklake_metrics_daemon.Metrics.Register.{gauge_name, gauge_labels}
use ducklake_metrics_daemon.Extern.{Extern}
use ducklake_metrics_daemon.Catalog.{Row}
use ducklake_metrics_daemon.Publisher.State.{Result}
use ducklake_metrics_daemon.Publisher.Run.{Event, canceled, closed, received}
use ducklake_metrics_daemon.Publisher.Signature.{IsNulFree, IsClean}
use ducklake_metrics_daemon.Publisher.Board.{declares, labels_of, series_of}
use ducklake_metrics_daemon.Publisher.Board.Message.{Fits}
use ducklake_metrics_daemon.Publisher.Board.Publish.{find-name}
use ducklake_metrics_daemon.Publisher.Board.Refines.{EventFits}

-- The client takes values for each label name, if all of them satisfy `P`, valid UTF-8.
pub record TakesTexts (x : Extern) (qs : List Query) (P : Text → Type 0) : Type 0 where
  pub of_self :
      (m : Self) (ls : List Text)
      → length ls ≡ length (vector_of m).labels
      → All P ls
      → x.accepts (self m) ls ≡ true
  pub of_query :
      (q : Query) (v : Text) (ls : List Text)
      → find name_of qs q.name ≡ some q
      → declares q v ≡ true
      → length ls ≡ length (gauge_labels q)
      → All P ls
      → x.accepts (gauge (gauge_name q.name v)) ls ≡ true

module _ (x : Extern) (qs : List Query) (P : Text → Type 0) where
  abbrev pub IsPlain : Text → Type 0
  IsPlain t = P t × IsNulFree t

  -- The tenant, the query and the labels of the rows are valid, and no series has a NUL byte.
  pub record HasPlainLabels (r : Result x) : Type 0 where
    pub tenant : IsPlain r.tenant
    pub query : P r.query
    pub rows :
        (q : Query)
        → find name_of qs r.query ≡ some q
        → All (λ row. All IsPlain (labels_of x q.labels row)) r.rows

  abbrev pub EventHasPlainLabels : Event x → Type 0
  EventHasPlainLabels canceled = Unit
  EventHasPlainLabels closed = Unit
  EventHasPlainLabels (received r) = HasPlainLabels r

  length-labels_of : (ls : List Text) (row : Row x) → length (labels_of x ls row) ≡ length ls
  length-labels_of [] row = refl
  length-labels_of (l ∷ ls) row = ap suc (length-labels_of ls row)

  plain_parts : (ls : List Text) → All IsPlain ls → All P ls × All IsNulFree ls
  plain_parts [] h = (tt, tt)
  plain_parts (l ∷ ls) ((p, f), h) = let (ps, fs) = plain_parts ls h in ((p, ps), (f, fs))

  series-IsClean :
      (t : Text) (q : Query) (rows : List (Row x))
      → IsPlain t
      → All (λ row. All IsPlain (labels_of x q.labels row)) rows
      → All (λ row. IsClean (series_of x t q row)) rows
  series-IsClean t q [] ht h = tt
  series-IsClean t q (row ∷ rows) ht (hr, h) = (
    record { some_label = λ e. cc e; free = (ht.1, (plain_parts (labels_of x q.labels row) hr).1) },
    series-IsClean t q rows ht h,
  )

  series_taken :
      (t : Text) (q : Query) (rows : List (Row x))
      → TakesTexts x qs P
      → find name_of qs q.name ≡ some q
      → IsPlain t
      → All (λ row. All IsPlain (labels_of x q.labels row)) rows
      → All
          (λ row.
            (v : Text)
            → declares q v ≡ true
            → x.accepts (gauge (gauge_name q.name v)) (series_of x t q row) ≡ true)
          rows
  series_taken t q [] k f ht h = tt
  series_taken t q (row ∷ rows) k f ht (hr, h) = (
    λ v d.
        k.of_query q v (series_of x t q row) f d (ap suc (length-labels_of q.labels row))
          (ht.0, (plain_parts (labels_of x q.labels row) hr).0),
    series_taken t q rows k f ht h,
  )

  HasPlainLabels-Fits : (r : Result x) → TakesTexts x qs P → HasPlainLabels r → Fits x qs r
  unfolding vector_of
  HasPlainLabels-Fits r k h = record {
    errors =
        k.of_self query_errors_total (r.tenant ∷ r.query ∷ []) refl (h.tenant.0, (h.query, tt));
    acquired = k.of_self pool_acquired_conns (r.tenant ∷ []) refl (h.tenant.0, tt);
    idle = k.of_self pool_idle_conns (r.tenant ∷ []) refl (h.tenant.0, tt);
    total = k.of_self pool_total_conns (r.tenant ∷ []) refl (h.tenant.0, tt);
    empty = k.of_self pool_empty_acquire_total (r.tenant ∷ []) refl (h.tenant.0, tt);
    clean = λ q f. series-IsClean r.tenant q r.rows h.tenant (h.rows q f);
    takes = λ q f.
        let e : q.name ≡ r.query = find-name qs r.query q f in
        subst
          (λ n.
            All
              (λ row.
                (v : Text)
                → declares q v ≡ true
                → x.accepts (gauge (gauge_name n v)) (series_of x r.tenant q row) ≡ true)
              r.rows)
          e
          (series_taken r.tenant q r.rows k (subst (λ n. find name_of qs n ≡ some q) (sym e) f)
            h.tenant (h.rows q f));
  }

  pub EventFits-of_plain :
      (es : List (Event x))
      → TakesTexts x qs P
      → All EventHasPlainLabels es
      → All (EventFits x qs) es
  EventFits-of_plain [] k h = tt
  EventFits-of_plain (canceled ∷ es) k (_, h) = (tt, EventFits-of_plain es k h)
  EventFits-of_plain (closed ∷ es) k (_, h) = (tt, EventFits-of_plain es k h)
  EventFits-of_plain (received r ∷ es) k (f, h) =
      (HasPlainLabels-Fits r k f, EventFits-of_plain es k h)
