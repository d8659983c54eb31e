-- ===== src/Daemon/Shutdown/Order.antt =====
-- The order of the shutdown (main.go).
use ducklake_metrics_daemon.Prelude.{ℕ, ◌≡◌, ◌≤◌, refl, ap, true, false, arith}
use ducklake_metrics_daemon.Daemon.Shutdown.{
  exited, inbox_capacity, System, exit_code, Step, signal, http_fails, fires, tenant_returns,
  tenant_panics, sends, cycle_ends, receives, publisher_stops, publisher_drained, publisher_panics,
  wakes, closes, sees_drained, times_out, shuts_down, http_returns, exits, start, Run,
}
use ducklake_metrics_daemon.Daemon.Shutdown.Invariant.{rank, Run-IsOrdered}

-- A step from a closed inbox.
after_close :
    (s t : System) → s.closed ≡ true → Step s t → (t.buffered ≤ s.buffered) × (t.closed ≡ true)
after_close s t d signal = (omega arith, d)
after_close s t d (http_fails e) = (omega arith, d)
after_close s t d (fires e) = (omega arith, d)
after_close s t d (tenant_returns e c) = (omega arith, d)
after_close s t d (tenant_panics e) = (omega arith, d)
after_close s t d (sends e c room) = absurd (ground (arith, d, c))
after_close s t d (cycle_ends e) = (omega (arith), d)
after_close s t d (receives e b) = (omega (arith, b), d)
after_close s t d (publisher_stops e c) = (omega (arith), d)
after_close s t d (publisher_drained e c b) = (omega (arith), d)
after_close s t d (publisher_panics e) = (omega (arith), d)
after_close s t d (wakes e c) = (omega (arith), d)
after_close s t d (closes e z) = (omega arith, refl)
after_close s t d (sees_drained e c) = (omega arith, d)
after_close s t d (times_out e) = (omega arith, d)
after_close s t d (shuts_down e) = (omega arith, d)
after_close s t d (http_returns e l) = (omega arith, d)
after_close s t d (exits e l) = (omega arith, d)

-- In whatever order the goroutines run: the inbox never holds more than its capacity; it is closed only
-- when all tenants have returned and the context is cancelled, and nothing is sent after that; and when
-- `main` has exited, all tenants have returned, the inbox is closed, the HTTP server has returned, and the
-- exit code is 1 if the server had failed and else 0.
pub shutdown_ordered :
    (n : ℕ) (s : System)
    → Run (start n) s
    → (s.buffered ≤ inbox_capacity)
      × (s.closed ≡ true
          → (s.tenants ≡ 0)
            × (s.cancelled ≡ true)
            × ((t : System) → Step s t → (t.buffered ≤ s.buffered) × (t.closed ≡ true)))
      × ((k : ℕ)
          → s.main ≡ exited k
          → (s.tenants ≡ 0)
            × (s.closed ≡ true)
            × (s.listening ≡ false)
            × (k ≡ exit_code s.http_failed))
shutdown_ordered n s r =
    let h = Run-IsOrdered n s r in
    (
      h.fits,
      λ c.
          let late : 2 ≤ rank s.main = ground (arith, c, h.shut) in
          (h.joined late, h.woken (omega (arith, late)), λ t step. after_close s t c step),
      λ k e. (
        h.joined (ground (arith, ap rank e)),
        ground (arith, h.shut, ap rank e),
        h.gone (ground (arith, ap rank e)),
        h.code k e,
      ),
    )
