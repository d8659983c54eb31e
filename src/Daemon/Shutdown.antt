-- ===== src/Daemon/Shutdown.antt =====
-- The goroutines of `main` (main.go), each step of one of them at a time: the HTTP server, the
-- publisher, the tenants, their cycles, and `main` itself, which waits for the cancellation and then
-- shuts down. Tenants and cycles are counted: nothing here depends on which of them moves. A `select`
-- with several ready cases takes any of them.
pub mod Invariant
pub mod Order
pub mod Finish
use ducklake_metrics_daemon.Prelude.{ℕ, zero, suc, ◌≡◌, ◌<◌, Bool, true, false, if◌then◌else◌}

-- Where `main` is: before `<-ctx.Done()`, in `wg.Wait()`, in the `select` on `publisherDone`, before
-- `srv.Shutdown`, before `<-httpDone`, or gone with its exit code.
pub data Phase : Type 0 where
  serving joining draining stopping parting : Phase
  exited : ℕ → Phase

abbrev pub inbox_capacity : ℕ
inbox_capacity = 1024

pub record System : Type 0 where
  pub main : Phase
  -- `ctx.Err() != nil`
  pub cancelled : Bool
  -- tenant goroutines and cycle goroutines that have not returned
  pub tenants : ℕ
  pub cycles : ℕ
  -- the messages in the inbox, and whether it is closed
  pub buffered : ℕ
  pub closed : Bool
  -- the publisher and the HTTP server have not returned
  pub publishing : Bool
  pub listening : Bool
  -- `httpErr != nil`
  pub http_failed : Bool

-- `os.Exit(1)` after an error of the server.
abbrev pub exit_code : Bool → ℕ
exit_code failed = if failed then 1 else 0

pub data Step (s : System) : System → Type 0 where
  -- SIGINT or SIGTERM
  signal : Step s (record s { cancelled = true })
  -- `ListenAndServe` fails: `httpErr = err; cancel()`
  http_fails :
      s.listening ≡ true
      → Step s (record s { listening = false; http_failed = true; cancelled = true })
  -- a scheduler starts a cycle
  fires : {n : ℕ} → s.tenants ≡ suc n → Step s (record s { cycles = suc s.cycles })
  -- `runTenant` returns, on `ctx.Done()` or in a panic that is recovered and counted
  tenant_returns :
      {n : ℕ} → s.tenants ≡ suc n → s.cancelled ≡ true → Step s (record s { tenants = n })
  tenant_panics : {n : ℕ} → s.tenants ≡ suc n → Step s (record s { tenants = n })
  -- a cycle sends a message: the buffer has room
  sends :
      {n : ℕ}
      → s.cycles ≡ suc n
      → s.closed ≡ false
      → s.buffered < inbox_capacity
      → Step s (record s { buffered = suc s.buffered })
  -- a cycle ends, also by the recovered panic of a send on the closed inbox
  cycle_ends : {n : ℕ} → s.cycles ≡ suc n → Step s (record s { cycles = n })
  -- the cases of the publisher's `select`, and a panic of it, which is recovered
  receives : {n : ℕ} → s.publishing ≡ true → s.buffered ≡ suc n → Step s (record s { buffered = n })
  publisher_stops :
      s.publishing ≡ true → s.cancelled ≡ true → Step s (record s { publishing = false })
  publisher_drained :
      s.publishing ≡ true
      → s.closed ≡ true
      → s.buffered ≡ 0
      → Step s (record s { publishing = false })
  publisher_panics : s.publishing ≡ true → Step s (record s { publishing = false })
  -- the statements of `main`
  wakes : s.main ≡ serving → s.cancelled ≡ true → Step s (record s { main = joining })
  closes : s.main ≡ joining → s.tenants ≡ 0 → Step s (record s { main = draining; closed = true })
  sees_drained : s.main ≡ draining → s.publishing ≡ false → Step s (record s { main = stopping })
  times_out : s.main ≡ draining → Step s (record s { main = stopping })
  shuts_down : s.main ≡ stopping → Step s (record s { main = parting })
  -- `ListenAndServe` returns nil once `Shutdown` was called
  http_returns : s.main ≡ parting → s.listening ≡ true → Step s (record s { listening = false })
  exits :
      s.main ≡ parting
      → s.listening ≡ false
      → Step s (record s { main = exited (exit_code s.http_failed) })

-- `main` when all goroutines of `n` tenants have started.
abbrev pub start : ℕ → System
start n = record {
  main = serving;
  cancelled = false;
  tenants = n;
  cycles = 0;
  buffered = 0;
  closed = false;
  publishing = true;
  listening = true;
  http_failed = false;
}

-- The states that steps lead to.
pub data Run (s : System) : System → Type 0 where
  here : Run s s
  later : {t u : System} → Run s t → Step t u → Run s u
