-- ===== src/Runner/Cycle/Sent.antt =====
-- The messages of a cycle (runner.go).
use ducklake_metrics_daemon.Prelude.{
  subst, ℕ, suc, ◌≡◌, ◌≢◌, refl, Bool, true, false, none, some, List, [], ◌∷◌, ◌++◌, append_assoc,
  append-nil, if◌then◌else◌,
}
use ducklake_metrics_daemon.Prelude.Text.{Text}
use ducklake_metrics_daemon.Queries.{Query}
use ducklake_metrics_daemon.Extern.{Extern}
use ducklake_metrics_daemon.Publisher.Outcome.{Outcome, done, panicked}
use ducklake_metrics_daemon.Publisher.State.{Result}
use ducklake_metrics_daemon.Runner.Cycle.{
  End, completed, stopped, poisoned, Step, Surroundings, Cycle, Answer, message, stats_message,
  sent_to, record_query, is_ok, answered, offered, cycle_loop, run_cycle,
}

module _ (x : Extern) where
  abbrev pub messages_of : Text → Query → Answer x → List (Result x)
  messages_of tenant q none = []
  messages_of tenant q (some r) = message x tenant q r ∷ []

  -- One message for each answered query from the index `i`, then the pool statistics.
  abbrev pub all_messages : Text → Surroundings x → ℕ → List Query → List (Result x)
  all_messages tenant e i [] = stats_message x tenant e.stats ∷ []
  all_messages tenant e i (q ∷ qs) =
      messages_of tenant q (e.step i).answer ++ all_messages tenant e (suc i) qs

  -- The messages are the first ones of `full`, and all of them exactly at the end `completed`.
  abbrev pub Sends : List (Result x) → Cycle x × End → Type 0
  Sends full r =
      (rest : List (Result x)) × (r.0.sent ++ rest ≡ full)
      × (r.1 ≡ completed → rest ≡ [])
      × (r.1 ≢ completed → rest ≢ [])

  append-nonempty : (ms ns : List (Result x)) → ns ≢ [] → ms ++ ns ≢ []
  append-nonempty [] ns h e = h e
  append-nonempty (m ∷ ms) ns h e = cc e

  all_messages-nonempty :
      (tenant : Text) (e : Surroundings x) (i : ℕ) (qs : List Query)
      → all_messages tenant e i qs ≢ []
  all_messages-nonempty tenant e i [] h = cc h
  all_messages-nonempty tenant e i (q ∷ qs) h =
      append-nonempty (messages_of tenant q (e.step i).answer) (all_messages tenant e (suc i) qs)
        (all_messages-nonempty tenant e (suc i) qs) h

  -- An end before all messages are sent.
  short :
      (c : Cycle x) (n : End) (rest : List (Result x))
      → n ≢ completed
      → rest ≢ []
      → Sends (c.sent ++ rest) (c, n)
  short c n rest h k = (rest, refl, λ e. elim (h e) [ ], λ _. k)

  either :
      (b : Bool) (r u : Cycle x × End) (full : List (Result x))
      → Sends full r
      → Sends full u
      → Sends full (if b then r else u)
  either true r u full h k = h
  either false r u full h k = k

  offered_lem :
      (c : Cycle x) (m : Result x) (sends : Bool) (next : Cycle x → Cycle x × End)
      (o : Outcome x.Store) (more : List (Result x))
      → ((d : Cycle x) → Sends (d.sent ++ more) (next d))
      → Sends (c.sent ++ m ∷ more) (offered x c m sends next o)
  offered_lem c m sends next (panicked s) more k =
      short (record c { store = s }) poisoned (m ∷ more) (λ e. cc e) (λ e. cc e)
  offered_lem c m sends next (done s) more k =
      either sends (next (sent_to x c s m)) (record c { store = s }, stopped) (c.sent ++ m ∷ more)
        (subst (λ l. Sends l (next (sent_to x c s m))) (append_assoc c.sent (m ∷ []) more)
          (k (sent_to x c s m)))
        (short (record c { store = s }) stopped (m ∷ more) (λ e. cc e) (λ e. cc e))

  answered_lem :
      (tenant : Text) (q : Query) (st : Step x) (a : Answer x) (c : Cycle x)
      (more : List (Result x)) (next : Cycle x → Cycle x × End)
      → more ≢ []
      → ((d : Cycle x) → Sends (d.sent ++ more) (next d))
      → Sends (c.sent ++ (messages_of tenant q a ++ more)) (answered x c a tenant q st next)
  answered_lem tenant q st none c more next h k = short c poisoned more (λ e. cc e) h
  answered_lem tenant q st (some r) c more next h k =
      offered_lem c (message x tenant q r) st.sends next
        (record_query x tenant q st (is_ok x r) c.store) more k

  pub cycle_loop_lem :
      (tenant : Text) (e : Surroundings x) (i : ℕ) (qs : List Query) (c : Cycle x)
      → Sends (c.sent ++ all_messages tenant e i qs) (cycle_loop x tenant e i qs c)
  unfolding cycle_loop
  cycle_loop_lem tenant e i [] c =
      let m = stats_message x tenant e.stats in
      either e.stats_sent (sent_to x c c.store m, completed) (c, stopped) (c.sent ++ m ∷ [])
        ([], append-nil (c.sent ++ m ∷ []), λ _. refl, λ h. elim (h refl) [ ])
        (short c stopped (m ∷ []) (λ e. cc e) (λ e. cc e))
  cycle_loop_lem tenant e i (q ∷ qs) c =
      let st = e.step i in
      let more = all_messages tenant e (suc i) qs in
      let next = cycle_loop x tenant e (suc i) qs in
      either st.cancelled (c, stopped) (answered x c st.answer tenant q st next)
        (c.sent ++ all_messages tenant e i (q ∷ qs))
        (short c stopped (all_messages tenant e i (q ∷ qs)) (λ e. cc e)
          (all_messages-nonempty tenant e i (q ∷ qs)))
        (answered_lem tenant q st st.answer c more next (all_messages-nonempty tenant e (suc i) qs)
          (cycle_loop_lem tenant e (suc i) qs))

  -- The messages of a cycle are, in order, the first ones of the results of its queries followed by
  -- the pool statistics; all of them reach the inbox exactly when the cycle ends as completed.
  pub run_cycle-sent :
      (tenant : Text) (qs : List Query) (e : Surroundings x) (store : x.Store)
      → let end = (cycle_loop x tenant e 0 qs (record { store = store; sent = [] })).1 in
        (rest : List (Result x)) × ((run_cycle x tenant qs e store).0 ++ rest
          ≡ all_messages tenant e 0 qs)
        × (end ≡ completed → rest ≡ [])
        × (end ≢ completed → rest ≢ [])
  unfolding run_cycle
  run_cycle-sent tenant qs e store =
      cycle_loop_lem tenant e 0 qs (record { store = store; sent = [] })
