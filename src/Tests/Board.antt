-- ===== src/Tests/Board.antt =====
-- Examples for the gauges of a whole run: registration, messages, and a cycle (metrics.go,
-- publisher.go, runner.go).
use ducklake_metrics_daemon.Prelude.{
  ℕ, ◌≡◌, ◌≢◌, refl, subst, Bool, true, false, none, some, List, [], ◌∷◌, arith, All, ◌++◌,
  if◌then◌else◌,
}
use ducklake_metrics_daemon.Prelude.Int.{pos}
use ducklake_metrics_daemon.Prelude.Text.{Text, codes, text_eq}
use ducklake_metrics_daemon.Prelude.Dict
use ducklake_metrics_daemon.Prelude.Result
use ducklake_metrics_daemon.Prelude.Sort.{find, IsDistinct}
use ducklake_metrics_daemon.Queries.{Query}
use ducklake_metrics_daemon.Queries.Merge.{name_of}
use ducklake_metrics_daemon.Metrics.{gauge}
use ducklake_metrics_daemon.Metrics.Register.{gauge_name, Registered, register}
use ducklake_metrics_daemon.Metrics.Register.Separate.{IsApart}
use ducklake_metrics_daemon.Metrics.Register.Complete.{HasGauges, register_lem}
use ducklake_metrics_daemon.Publisher.Coerce.{to_label_string}
use ducklake_metrics_daemon.Publisher.Signature.{IsClean}
use ducklake_metrics_daemon.Publisher.Outcome.{set_gauge}
use ducklake_metrics_daemon.Publisher.State.{Result, kind_query, new}
use ducklake_metrics_daemon.Publisher.Run.{Event, received, canceled, on_panic, run}
use ducklake_metrics_daemon.Publisher.Board.{
  declares, replay, empty_board, series_of, labels_of, newest, shows,
}
use ducklake_metrics_daemon.Publisher.Snapshot.{or_else}
use ducklake_metrics_daemon.Publisher.Board.Message.{Fits}
use ducklake_metrics_daemon.Publisher.Board.Accepted.{
  TakesTexts, IsPlain, HasPlainLabels, EventHasPlainLabels,
}
use ducklake_metrics_daemon.Publisher.Board.Refines.{EventFits, run_shows}
use ducklake_metrics_daemon.Publisher.Board.Interleaving.{run_interleaved}
use ducklake_metrics_daemon.Runner.Cycle.{no_stats, stats_message, Surroundings, run_cycle}
use ducklake_metrics_daemon.Runner.Cycle.Published.{received_all, cycle_published}
use ducklake_metrics_daemon.Tests.Client.{client, client_laws, no_series}
use ducklake_metrics_daemon.Tests.Queries.{files, rows}
use ducklake_metrics_daemon.Tests.Snapshot.{acme, table}

abbrev pub anything : Text → List Text → Bool
anything name labels = true

abbrev pub both : List Query
both = files ∷ rows ∷ []

abbrev pub no_gauges : Registered
no_gauges = record { names = []; gauges = [] }

abbrev pub reg : Registered
reg = elim (register anything both) [ none ↦ no_gauges | some r ↦ r ]

pub reg-register : register anything both ≡ some reg
unfolding register text_eq ducklake_metrics_daemon.Metrics.Vectors.vector_of gauge_name
reg-register = refl

pub both-IsDistinct : IsDistinct name_of both
unfolding find text_eq
both-IsDistinct = (refl, (refl, tt))

register_lem_example :
    ((p : Text) (q : Query) → find name_of both p ≡ some q → HasGauges reg.gauges q) × IsApart reg
register_lem_example = register_lem anything both reg both-IsDistinct reg-register

-- The table of the query `files`, from a tenant.
abbrev result : Text → Result client
result t = record {
  kind = kind_query;
  tenant = t;
  query = codes "files";
  rows = table;
  cols = codes "l" ∷ codes "v" ∷ [];
  error = none;
  stats = no_stats;
}

pair_IsClean : (t l : ℕ) → t ≢ 0 → l ≢ 0 → IsClean ((t ∷ []) ∷ (l ∷ []) ∷ [])
pair_IsClean t l ht hl = record { some_label = λ e. cc e; free = ((ht, tt), ((hl, tt), tt)) }

result-Fits : (t : ℕ) → t ≢ 0 → Fits client both (result (t ∷ []))
unfolding find text_eq to_label_string Dict.get
result-Fits t ht = record {
  errors = refl;
  acquired = refl;
  idle = refl;
  total = refl;
  empty = refl;
  clean = λ q f.
      let e : files ≡ q = ground (arith, f) in
      subst (λ z. All (λ row. IsClean (series_of client (t ∷ []) z row)) table) e
        (pair_IsClean t b'a' ht (omega arith), (pair_IsClean t b'b' ht (omega arith), tt));
  takes = λ q f. (λ v d. refl, (λ v d. refl, tt));
}

-- Every text is valid to the client of the examples.
abbrev pub IsAny : Text → Type 0
IsAny t = Unit

pub client-takes : TakesTexts client both IsAny
client-takes = record { of_self = λ m ls e h. refl; of_query = λ q v ls f d e h. refl }

result-HasPlainLabels : (t : ℕ) → t ≢ 0 → HasPlainLabels client both IsAny (result (t ∷ []))
unfolding find text_eq to_label_string Dict.get
result-HasPlainLabels t ht = record {
  tenant = (tt, (ht, tt));
  query = tt;
  rows = λ q f.
      let e : files ≡ q = ground (arith, f) in
      subst
        (λ z. All (λ row. All (IsPlain client both IsAny) (labels_of client z.labels row)) table) e
        (((tt, (omega arith, tt)), tt), (((tt, (omega arith, tt)), tt), tt));
}

abbrev pub first_then_second : List (Event client)
first_then_second = received (result (codes "t")) ∷ received (result (codes "u")) ∷ canceled ∷ []

abbrev second_then_first : List (Event client)
second_then_first = received (result (codes "u")) ∷ received (result (codes "t")) ∷ canceled ∷ []

pub first_then_second-fits : All (EventFits client both) first_then_second
first_then_second-fits =
    (result-Fits b't' (omega arith), (result-Fits b'u' (omega arith), (tt, tt)))

pub first_then_second-plain : All (EventHasPlainLabels client both IsAny) first_then_second
first_then_second-plain =
    (result-HasPlainLabels b't' (omega arith), (result-HasPlainLabels b'u' (omega arith), (tt, tt)))

second_then_first-fits : All (EventFits client both) second_then_first
second_then_first-fits =
    (result-Fits b'u' (omega arith), (result-Fits b't' (omega arith), (tt, tt)))

run_shows_example :
    ((run client first_then_second (new client reg.gauges both no_series)).0 ≢ on_panic)
    × ((n : Text) (q : Query)
        → find name_of both n ≡ some q
        → (v : Text) → declares q v ≡ true
        → (ks : List Text)
        → (run client first_then_second (new client reg.gauges both no_series)).1.store.gauges
            (gauge (gauge_name n v))
            ks
          ≡ replay client both first_then_second (empty_board client) n v ks)
run_shows_example =
    run_shows client client_laws anything both reg no_series first_then_second both-IsDistinct
      reg-register (λ g ks. refl) first_then_second-fits

run_interleaved_example :
    (run client first_then_second (new client reg.gauges both no_series)).1.store.gauges
      (gauge (gauge_name (codes "files") (codes "v")))
      (acme ∷ codes "a" ∷ [])
    ≡ (run client second_then_first (new client reg.gauges both no_series)).1.store.gauges
        (gauge (gauge_name (codes "files") (codes "v")))
        (acme ∷ codes "a" ∷ [])
unfolding find text_eq
run_interleaved_example =
    run_interleaved client client_laws anything both reg no_series first_then_second
      second_then_first (codes "t") both-IsDistinct reg-register (λ g ks. refl)
      first_then_second-fits second_then_first-fits refl (codes "files") files (codes "v")
      (acme ∷ codes "a" ∷ []) refl refl refl

-- A cycle over `files` alone, whose answer is the table.
abbrev answers : Surroundings client
answers = record {
  step = λ i. record {
    cancelled = false;
    answer = some (Result.ok (table, codes "l" ∷ codes "v" ∷ []));
    duration = pos 1;
    now = pos 2;
    sends = true;
  };
  stats = no_stats;
  stats_sent = true;
  cancelled_at_end = false;
  duration = pos 3;
}

stats-Fits : Fits client both (stats_message client acme no_stats)
unfolding find text_eq
stats-Fits = record {
  errors = refl;
  acquired = refl;
  idle = refl;
  total = refl;
  empty = refl;
  clean = λ q f. tt;
  takes = λ q f. tt;
}

-- A message of another tenant and one of the same tenant come before it.
abbrev earlier : List (Result client)
earlier = result (codes "u") ∷ result (codes "t") ∷ []

abbrev cycle_events : List (Event client)
cycle_events =
    received_all client (earlier ++ (run_cycle client acme (files ∷ []) answers no_series).0)

cycle-fits : All (EventFits client both) cycle_events
unfolding run_cycle set_gauge
cycle-fits = (
  result-Fits b'u' (omega arith),
  (result-Fits b't' (omega arith), (result-Fits b't' (omega arith), (stats-Fits, tt))),
)

cycle_published_example :
    (run client cycle_events (new client reg.gauges both no_series)).1.store.gauges
      (gauge (gauge_name (codes "files") (codes "v")))
      (acme ∷ codes "b" ∷ [])
    ≡ (if shows client acme files table (acme ∷ codes "b" ∷ [])
        then or_else (newest client acme files (codes "v") (acme ∷ codes "b" ∷ []) table) (
            (run client
                (received_all client earlier)
                (new client reg.gauges both no_series)).1.store.gauges
              (gauge (gauge_name (codes "files") (codes "v")))
              (acme ∷ codes "b" ∷ []))
        else none)
unfolding find text_eq run_cycle set_gauge
cycle_published_example =
    cycle_published client client_laws anything both reg no_series no_series earlier acme
      (files ∷ []) answers (codes "files") files table (codes "l" ∷ codes "v" ∷ []) (codes "v")
      (acme ∷ codes "b" ∷ []) both-IsDistinct reg-register (λ g ks. refl) (refl, tt) (refl, tt) refl
      refl refl refl refl refl refl cycle-fits
