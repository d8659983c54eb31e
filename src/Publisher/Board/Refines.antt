-- ===== src/Publisher/Board/Refines.antt =====
-- The publisher's loop refines the board (publisher.go, with the gauges that metrics.go registers).
use ducklake_metrics_daemon.Prelude.{
  ◌≡◌, ◌≢◌, refl, ◌∙◌, Bool, true, Option, none, some, List, [], ◌∷◌, arith, All,
}
use ducklake_metrics_daemon.Prelude.Text.{Text, text_eq_iff}
use ducklake_metrics_daemon.Prelude.Dict
use ducklake_metrics_daemon.Prelude.Dict.{Dict, or_empty, get-put}
use ducklake_metrics_daemon.Prelude.Sort.{find, IsDistinct}
use ducklake_metrics_daemon.Queries.{Query}
use ducklake_metrics_daemon.Queries.Merge.{name_of}
use ducklake_metrics_daemon.Metrics.{gauge}
use ducklake_metrics_daemon.Metrics.Register.{gauge_name, Registered, register}
use ducklake_metrics_daemon.Metrics.Register.Separate.{IsApart}
use ducklake_metrics_daemon.Metrics.Register.Complete.{HasGauges, register_lem}
use ducklake_metrics_daemon.Extern.{Extern, Laws}
use ducklake_metrics_daemon.Publisher.State.{Publisher, spec_of, new}
use ducklake_metrics_daemon.Publisher.Run.{Event, received, canceled, closed, on_panic, run}
use ducklake_metrics_daemon.Publisher.Board.{Board, empty_board, declares, told, replay}
use ducklake_metrics_daemon.Publisher.Board.Message.{Fits}
use ducklake_metrics_daemon.Publisher.Board.Invariant.{gauges_of-gauge, Holds}
use ducklake_metrics_daemon.Publisher.Board.Step.{safe_apply-Holds}
use ducklake_metrics_daemon.Publisher.Tenancy.Runs.{run-done}

get-spec_of :
    (m : Dict Query) (qs : List Query) (n : Text)
    → IsDistinct name_of qs
    → Dict.get (spec_of m qs) n ≡ elim (find name_of qs n) [ none ↦ Dict.get m n | some q ↦ some q ]
unfolding spec_of find
get-spec_of m [] n d = refl
get-spec_of m (q ∷ qs) n (fresh, d) = ground (
  arith,
  get-spec_of (Dict.put m q.name q) qs n d,
  get-put m q.name q n,
  fresh,
  text_eq_iff q.name n,
)

-- A message of the loop fits.
abbrev pub EventFits : (x : Extern) → List Query → Event x → Type 0
EventFits x qs canceled = Unit
EventFits x qs closed = Unit
EventFits x qs (received r) = Fits x qs r

-- The publisher of `New` shows nothing.
new-Holds :
    (x : Extern) (law : Laws x) (qs : List Query) (reg : Registered) (store : x.Store)
    → IsApart reg
    → IsDistinct name_of qs
    → ((g : Text) (ks : List Text) → x.read store (gauge g) ks ≡ none)
    → Holds x qs reg (new x reg.gauges qs store) (empty_board x)
unfolding new Dict.get
new-Holds x law qs reg store ok d clear = record {
  gauges = refl;
  specs = λ n. get-spec_of [] qs n d ∙ same (find name_of qs n);
  owned = tt;
  tracked = λ t n. record {
    keyed = tt;
    covers = λ m ks hm own out. let (g, e) = gauges_of-gauge reg ok n m hm in rw e (clear g ks);
  };
  shown = λ n q f v h ks. clear (gauge_name n v) ks;
}
  where
    same : (o : Option Query) → elim o [ none ↦ none | some q ↦ some q ] ≡ o
    same none = refl
    same (some q) = refl

module _ (x : Extern) (law : Laws x) (qs : List Query) (reg : Registered) (ok : IsApart reg)
    (all : (n : Text) (o : Query) → find name_of qs n ≡ some o → HasGauges reg.gauges o) where
  -- The loop, from any state that shows a board.
  run-Holds :
      (es : List (Event x)) (p : Publisher x) (b : Board x)
      → All (EventFits x qs) es
      → Holds x qs reg p b
      → ((run x es p).0 ≢ on_panic) × Holds x qs reg (run x es p).1 (replay x qs es b)
  unfolding run
  run-Holds [] p b fits h = (λ e. cc e, h)
  run-Holds (canceled ∷ es) p b fits h = (λ e. cc e, h)
  run-Holds (closed ∷ es) p b fits h = (λ e. cc e, h)
  run-Holds (received r ∷ es) p b (f, fits) h =
      let (p', e, held) = safe_apply-Holds x law qs reg ok all r p b f h in
      let (calm, end) = run-Holds es p' (told x qs r r.kind b) fits held in
      rw (run-done x law r es p p' e) (calm, end)

-- For queries with different names whose gauges were registered without a panic, from a fresh publisher
-- and a client that shows no series of a query's gauge, and messages whose series the client takes and
-- whose labels have no NUL byte: the loop does not end on a panic, and whichever messages it has read,
-- in any order, every gauge of a query shows for every label tuple what the board shows that these
-- messages tell.
pub run_shows :
    (x : Extern) (law : Laws x) (is_valid : Text → List Text → Bool) (qs : List Query)
    (reg : Registered) (store : x.Store) (es : List (Event x))
    → IsDistinct name_of qs
    → register is_valid qs ≡ some reg
    → ((g : Text) (ks : List Text) → x.read store (gauge g) ks ≡ none)
    → All (EventFits x qs) es
    → ((run x es (new x reg.gauges qs store)).0 ≢ on_panic)
      × ((n : Text) (q : Query)
          → find name_of qs n ≡ some q
          → (v : Text) → declares q v ≡ true
          → (ks : List Text)
          → x.read (run x es (new x reg.gauges qs store)).1.store (gauge (gauge_name n v)) ks
            ≡ replay x qs es (empty_board x) n v ks)
run_shows x law is_valid qs reg store es d e clear fits =
    let (all, ok) = register_lem is_valid qs reg d e in
    let (calm, h) =
      run-Holds x law qs reg ok all es (new x reg.gauges qs store) (empty_board x) fits
        (new-Holds x law qs reg store ok d clear) in
    (calm, h.shown)
