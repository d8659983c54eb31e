-- ===== src/Runner/Cycle/Published.antt =====
-- From the database to the gauges: the messages of a completed cycle (runner.go), read by the publisher
-- (publisher.go).
use ducklake_metrics_daemon.Prelude.{
  ℕ, suc, ◌≡◌, refl, sym, ◌∙◌, ap, subst, Bool, true, false, ◌&&◌, none, some, List, [], ◌∷◌, ◌++◌,
  append-nil, arith, All, if◌then◌else◌, Bool-cases, inl, inr,
}
use ducklake_metrics_daemon.Prelude.Text.{Text, text_eq, text_eq_iff}
use ducklake_metrics_daemon.Prelude.Sort.{find, IsDistinct}
use ducklake_metrics_daemon.Prelude.Result
use ducklake_metrics_daemon.Queries.{Query}
use ducklake_metrics_daemon.Queries.Merge.{name_of}
use ducklake_metrics_daemon.Metrics.{gauge}
use ducklake_metrics_daemon.Metrics.Register.{gauge_name, Registered, register}
use ducklake_metrics_daemon.Extern.{Extern, Laws}
use ducklake_metrics_daemon.Catalog.{Row}
use ducklake_metrics_daemon.Publisher.State.{Result, new}
use ducklake_metrics_daemon.Publisher.Run.{Event, received, run}
use ducklake_metrics_daemon.Publisher.Isolation.{belongs}
use ducklake_metrics_daemon.Publisher.Board.{
  told, Board, has_columns, replaced, empty_board, declares, newest, shows, published, replay,
}
use ducklake_metrics_daemon.Publisher.Snapshot.{or_else}
use ducklake_metrics_daemon.Publisher.Board.Publish.{find-name}
use ducklake_metrics_daemon.Publisher.Board.Refines.{EventFits, run_shows}
use ducklake_metrics_daemon.Runner.Cycle.{
  Answer, Surroundings, completed, message, cycle_loop, run_cycle,
}
use ducklake_metrics_daemon.Runner.Cycle.Sent.{messages_of, all_messages, run_cycle-sent}

module _ (x : Extern) where
  -- The messages as the publisher receives them.
  abbrev pub received_all : List (Result x) → List (Event x)
  received_all [] = []
  received_all (r ∷ rs) = received r ∷ received_all rs

  -- What the catalog answers to the query of this name.
  abbrev pub answer_to : Surroundings x → ℕ → List Query → Text → Answer x
  answer_to e i [] n = none
  answer_to e i (q ∷ qs) n =
      let rest = answer_to e (suc i) qs n in if text_eq q.name n then (e.step i).answer else rest

  -- The queries of a cycle are the daemon's.
  abbrev AreKnown : List Query → List Query → Type 0
  AreKnown qs = All (λ p. find name_of qs p.name ≡ some p)

  module _ (qs : List Query) (t : Text) (e : Surroundings x) (n v : Text) (ks : List Text) where
    -- A message of another query.
    told_elsewhere :
        (p : Query) (a : Answer x) (rest : List (Result x)) (b : Board x)
        → find name_of qs p.name ≡ some p
        → text_eq p.name n ≡ false
        → (c : Board x) × (replay x qs (received_all (messages_of x t p a ++ rest)) b
            ≡ replay x qs (received_all rest) c)
          × (c n v ks ≡ b n v ks)
    told_elsewhere p none rest b f ne = (b, refl, refl)
    told_elsewhere p (some (Result.err er)) rest b f ne = (b, refl, refl)
    told_elsewhere p (some (Result.ok (rows, cols))) rest b f ne =
        let r = message x t p (Result.ok (rows, cols)) in
        (published x r (find name_of qs p.name) b, refl, ground (arith, f, ne))

    cycle_absent :
        (due : List Query) (i : ℕ) (b : Board x)
        → AreKnown qs due
        → find name_of due n ≡ none
        → replay x qs (received_all (all_messages x t e i due)) b n v ks ≡ b n v ks
    unfolding find
    cycle_absent [] i b k f = refl
    cycle_absent (p ∷ due) i b (kp, k) f =
        let ne : text_eq p.name n ≡ false = ground (arith, f) in
        let (c, same, keeps) =
          told_elsewhere p (e.step i).answer (all_messages x t e (suc i) due) b kp ne in
        ap (λ (z : Board x). z n v ks) same
        ∙ cycle_absent due (suc i) c k (ground (arith, f))
        ∙ keeps

    -- The message of the query itself, and what follows it.
    told_here :
        (q : Query) (a : Answer x) (due : List Query) (i : ℕ) (b : Board x) (rows : List (Row x))
        (cols : List Text)
        → find name_of qs q.name ≡ some q
        → a ≡ some (Result.ok (rows, cols))
        → AreKnown qs due
        → find name_of due n ≡ none
        → has_columns cols q.labels && has_columns cols q.values ≡ true
        → replay x qs (received_all (messages_of x t q a ++ all_messages x t e i due)) b n v ks
          ≡ replaced x (message x t q (Result.ok (rows, cols))) q b n v ks
    told_here q a due i b rows cols f ea k none_left h =
        let r = message x t q (Result.ok (rows, cols)) in
        rw ea (
          cycle_absent due i (published x r (find name_of qs q.name) b) k none_left
          ∙ ground (arith, f, h))

    cycle_present :
        (due : List Query) (i : ℕ) (b : Board x) (q : Query) (rows : List (Row x))
        (cols : List Text)
        → AreKnown qs due
        → IsDistinct name_of due
        → find name_of due n ≡ some q
        → answer_to e i due n ≡ some (Result.ok (rows, cols))
        → has_columns cols q.labels && has_columns cols q.values ≡ true
        → replay x qs (received_all (all_messages x t e i due)) b n v ks
          ≡ replaced x (message x t q (Result.ok (rows, cols))) q b n v ks
    unfolding find
    cycle_present [] i b q rows cols k d f a h = cc f
    cycle_present (p ∷ due) i b q rows cols (kp, k) (fresh, d) f a h =
        elim (Bool-cases (text_eq p.name n)) [
          | inr ne ↦
              let (c, same, keeps) =
                told_elsewhere p (e.step i).answer (all_messages x t e (suc i) due) b kp ne in
              ap (λ (z : Board x). z n v ks) same
              ∙ cycle_present due (suc i) c q rows cols k d (ground (arith, ne, f))
                  (ground (arith, ne, a)) h
              ∙ ground (arith, keeps)
          | inl y ↦
              let same : p ≡ q = ground (arith, y, f) in
              let name : p.name ≡ n = (text_eq_iff p.name n).0 y in
              let answered : (e.step i).answer ≡ some (Result.ok (rows, cols)) =
                ground (arith, y, a) in
              let none_left : find name_of due n ≡ none =
                subst (λ z. find name_of due z ≡ none) name fresh in
              subst
                (λ z.
                  replay x qs
                    (received_all
                      (messages_of x t z (e.step i).answer ++ all_messages x t e (suc i) due))
                    b n v ks
                  ≡ replaced x (message x t q (Result.ok (rows, cols))) q b n v ks)
                (sym same)
                (told_here q (e.step i).answer due (suc i) b rows cols
                  (subst (λ z. find name_of qs z.name ≡ some z) same kp) answered k none_left h)
        ]

  replay-append :
      (qs : List Query) (as_ bs : List (Result x)) (b : Board x)
      → replay x qs (received_all (as_ ++ bs)) b
        ≡ replay x qs (received_all bs) (replay x qs (received_all as_) b)
  replay-append qs [] bs b = refl
  replay-append qs (r ∷ as_) bs b = replay-append qs as_ bs (told x qs r r.kind b)

  EventFits-prefix :
      (qs : List Query) (as_ bs : List (Result x))
      → All (EventFits x qs) (received_all (as_ ++ bs))
      → All (EventFits x qs) (received_all as_)
  EventFits-prefix qs [] bs h = tt
  EventFits-prefix qs (r ∷ as_) bs (f, h) = (f, EventFits-prefix qs as_ bs h)

  -- The messages of a cycle that completes are all that it has to send.
  run_cycle-completed :
      (t : Text) (due : List Query) (e : Surroundings x) (store : x.Store)
      → (cycle_loop x t e 0 due (record { store = store; sent = [] })).1 ≡ completed
      → (run_cycle x t due e store).0 ≡ all_messages x t e 0 due
  run_cycle-completed t due e store h =
      let (rest, all, full, _) = run_cycle-sent x t due e store in
      let nothing = full h in
      sym (append-nil _) ∙ ap (λ l. (run_cycle x t due e store).0 ++ l) (sym nothing) ∙ all

-- For queries with different names whose gauges were registered without a panic, from a fresh publisher
-- and a client that shows no series of a query's gauge: when the publisher has read any earlier messages
-- and then those of a completed cycle of tenant `t` over some of these queries, each at most once, where
-- the client takes all these messages and no label has a NUL byte, then the gauge of each value of a
-- query that returned all its columns shows for every series of `t` that a row has the numeric value of
-- the last such row, or what it showed before the cycle when none is numeric, and nothing for the others.
pub cycle_published :
    (x : Extern) (law : Laws x) (is_valid : Text → List Text → Bool) (qs : List Query)
    (reg : Registered) (store cycle_store : x.Store) (earlier : List (Result x)) (t : Text)
    (due : List Query) (e : Surroundings x) (n : Text) (q : Query) (rows : List (Row x))
    (cols : List Text) (v : Text) (ks : List Text)
    → IsDistinct name_of qs
    → register is_valid qs ≡ some reg
    → ((g : Text) (ls : List Text) → x.read store (gauge g) ls ≡ none)
    → All (λ p. find name_of qs p.name ≡ some p) due
    → IsDistinct name_of due
    → (cycle_loop x t e 0 due (record { store = cycle_store; sent = [] })).1 ≡ completed
    → find name_of due n ≡ some q
    → find name_of qs n ≡ some q
    → answer_to x e 0 due n ≡ some (Result.ok (rows, cols))
    → has_columns cols q.labels && has_columns cols q.values ≡ true
    → declares q v ≡ true
    → belongs t ks ≡ true
    → All (EventFits x qs) (received_all x (earlier ++ (run_cycle x t due e cycle_store).0))
    → let fresh = new x reg.gauges qs store in
      let before = (run x (received_all x earlier) fresh).1.store in
      let after =
        (run x (received_all x (earlier ++ (run_cycle x t due e cycle_store).0)) fresh).1.store in
      x.read after (gauge (gauge_name n v)) ks ≡ (
        if shows x t q rows ks
        then or_else (newest x t q v ks rows) (x.read before (gauge (gauge_name n v)) ks)
        else none)
cycle_published x law is_valid qs reg store cycle_store earlier t due e n q rows cols v ks d er
      clear known dd whole fd fq a h dv own fits =
    let sent = (run_cycle x t due e cycle_store).0 in
    let b = replay x qs (received_all x earlier) (empty_board x) in
    let (_, shown) =
      run_shows x law is_valid qs reg store (received_all x (earlier ++ sent)) d er clear fits in
    let (_, shown_before) =
      run_shows x law is_valid qs reg store (received_all x earlier) d er clear
        (EventFits-prefix x qs earlier sent fits) in
    let all = run_cycle-completed x t due e cycle_store whole in
    let name : q.name ≡ n = find-name qs n q fq in
    shown n q fq v dv ks
    ∙ ap (λ (z : Board x). z n v ks) (replay-append x qs earlier sent (empty_board x))
    ∙ ap (λ l. replay x qs (received_all x l) b n v ks) all
    ∙ cycle_present x qs t e n v ks due 0 b q rows cols known dd fd a h
    ∙ ground (arith, dv, own, (text_eq_iff q.name n).1 name, shown_before n q fq v dv ks)
