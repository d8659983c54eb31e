-- ===== src/Runner/Cycle/Cancelled.antt =====
-- A cycle whose context is cancelled stops soon (runner.go).
use ducklake_metrics_daemon.Prelude.{
  ℕ, zero, suc, ◌+◌, ◌≡◌, ◌≢◌, ◌≤◌, ◌<◌, Bool, true, false, none, some, List, [], ◌∷◌, arith,
  length, length-append, if◌then◌else◌,
}
use ducklake_metrics_daemon.Prelude.Text.{Text}
use ducklake_metrics_daemon.Queries.{Query}
use ducklake_metrics_daemon.Extern.{Extern}
use ducklake_metrics_daemon.Publisher.Outcome.{Outcome, done, panicked}
use ducklake_metrics_daemon.Publisher.State.{Result}
use ducklake_metrics_daemon.Runner.Cycle.{
  End, completed, stopped, Step, Surroundings, Cycle, Answer, message, sent_to, record_query, is_ok,
  answered, offered, cycle_loop, run_cycle,
}

module _ (x : Extern) where
  -- At most `k` more messages, and no completion.
  abbrev Stops : ℕ → Cycle x → Cycle x × End → Type 0
  Stops k c r = (length r.0.sent ≤ length c.sent + k) × (r.1 ≢ completed)

  offered-Stops :
      (k : ℕ) (c : Cycle x) (m : Result x) (sends : Bool) (next : Cycle x → Cycle x × End)
      (o : Outcome x.Store)
      → ((d : Cycle x) → Stops k d (next d))
      → Stops (suc k) c (offered x c m sends next o)
  offered-Stops k c m sends next (panicked s) h = (omega arith, λ e. cc e)
  offered-Stops k c m false next (done s) h = (omega arith, λ e. cc e)
  offered-Stops k c m true next (done s) h =
      let (few, not_all) = h (sent_to x c s m) in
      (omega (arith, few, length-append c.sent (m ∷ [])), not_all)

  answered-Stops :
      (k : ℕ) (c : Cycle x) (a : Answer x) (tenant : Text) (q : Query) (st : Step x)
      (next : Cycle x → Cycle x × End)
      → ((d : Cycle x) → Stops k d (next d))
      → Stops (suc k) c (answered x c a tenant q st next)
  answered-Stops k c none tenant q st next h = (omega arith, λ e. cc e)
  answered-Stops k c (some r) tenant q st next h =
      offered-Stops k c (message x tenant q r) st.sends next
        (record_query x tenant q st (is_ok x r) c.store) h

  either-Stops :
      (k : ℕ) (c : Cycle x) (b : Bool) (r u : Cycle x × End)
      → Stops k c r
      → Stops k c u
      → Stops k c (if b then r else u)
  either-Stops k c true r u h j = h
  either-Stops k c false r u h j = j

  cycle_loop-Stops :
      (tenant : Text) (e : Surroundings x) (k i : ℕ) (qs : List Query) (c : Cycle x)
      → k < length qs
      → ((j : ℕ) → i + k ≤ j → (e.step j).cancelled ≡ true)
      → Stops k c (cycle_loop x tenant e i qs c)
  unfolding cycle_loop
  cycle_loop-Stops tenant e k i [] c lt h = absurd (omega (arith, lt))
  cycle_loop-Stops tenant e zero i (q ∷ qs) c lt h = rw (h i (omega arith)) (omega arith, λ b. cc b)
  cycle_loop-Stops tenant e (suc k) i (q ∷ qs) c lt h =
      let next = cycle_loop x tenant e (suc i) qs in
      either-Stops (suc k) c (e.step i).cancelled (c, stopped)
        (answered x c (e.step i).answer tenant q (e.step i) next) (omega arith, λ b. cc b)
        (answered-Stops k c (e.step i).answer tenant q (e.step i) next λ d.
          cycle_loop-Stops tenant e k (suc i) qs d (omega (arith, lt))
            λ j le. h j (omega (arith, le)))

  -- A cycle whose context is cancelled from its round `k` on, before its last query, sends at most `k`
  -- messages, whatever the catalog answers, and does not end as completed.
  pub run_cycle_cancelled :
      (tenant : Text) (e : Surroundings x) (k : ℕ) (qs : List Query) (store : x.Store)
      → k < length qs
      → ((j : ℕ) → k ≤ j → (e.step j).cancelled ≡ true)
      → (length (run_cycle x tenant qs e store).0 ≤ k)
        × ((cycle_loop x tenant e 0 qs (record { store = store; sent = [] })).1 ≢ completed)
  unfolding run_cycle
  run_cycle_cancelled tenant e k qs store lt h =
      let (few, unfinished) =
        cycle_loop-Stops tenant e k 0 qs (record { store = store; sent = [] }) lt
          λ j le. h j (omega (arith, le)) in
      (omega (arith, few), unfinished)
