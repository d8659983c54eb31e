-- ===== src/Daemon/Shutdown/Invariant.antt =====
-- What stays true of the goroutines of `main` (main.go).
use ducklake_metrics_daemon.Prelude.{ℕ, ◌≡◌, ◌≤◌, refl, ap, true, false, arith, leb}
use ducklake_metrics_daemon.Daemon.Shutdown.{
  Phase, serving, joining, draining, stopping, parting, exited, inbox_capacity, System, exit_code,
  Step, signal, http_fails, fires, tenant_returns, tenant_panics, sends, cycle_ends, receives,
  publisher_stops, publisher_drained, publisher_panics, wakes, closes, sees_drained, times_out,
  shuts_down, http_returns, exits, start, Run, here, later,
}

-- How far `main` has come.
abbrev pub rank : Phase → ℕ
rank serving = 0
rank joining = 1
rank draining = 2
rank stopping = 3
rank parting = 4
rank (exited n) = 5

pub record IsOrdered (s : System) : Type 0 where
  pub fits : s.buffered ≤ inbox_capacity
  pub woken : 1 ≤ rank s.main → s.cancelled ≡ true
  pub joined : 2 ≤ rank s.main → s.tenants ≡ 0
  pub shut : s.closed ≡ leb 2 (rank s.main)
  pub gone : 5 ≤ rank s.main → s.listening ≡ false
  pub failed : s.http_failed ≡ true → (s.cancelled ≡ true) × (s.listening ≡ false)
  pub code : (n : ℕ) → s.main ≡ exited n → n ≡ exit_code s.http_failed

Step-IsOrdered : (s t : System) → IsOrdered s → Step s t → IsOrdered t
Step-IsOrdered s t h signal = record {
  fits = h.fits;
  woken = λ _. refl;
  joined = h.joined;
  shut = h.shut;
  gone = h.gone;
  failed = λ e. (refl, (h.failed e).1);
  code = h.code;
}
Step-IsOrdered s t h (http_fails e) = record {
  fits = h.fits;
  woken = λ _. refl;
  joined = h.joined;
  shut = h.shut;
  gone = λ _. refl;
  failed = λ _. (refl, refl);
  code = λ n b. absurd (ground (arith, e, h.gone (ground (arith, ap rank b))));
}
Step-IsOrdered s t h (fires e) = record {
  fits = h.fits;
  woken = h.woken;
  joined = h.joined;
  shut = h.shut;
  gone = h.gone;
  failed = h.failed;
  code = h.code;
}
Step-IsOrdered s t h (tenant_returns e c) = record {
  fits = h.fits;
  woken = h.woken;
  joined = λ b. absurd (ground (arith, e, h.joined b));
  shut = h.shut;
  gone = h.gone;
  failed = h.failed;
  code = h.code;
}
Step-IsOrdered s t h (tenant_panics e) = record {
  fits = h.fits;
  woken = h.woken;
  joined = λ b. absurd (ground (arith, e, h.joined b));
  shut = h.shut;
  gone = h.gone;
  failed = h.failed;
  code = h.code;
}
Step-IsOrdered s t h (sends e c room) = record {
  fits = omega (arith, room);
  woken = h.woken;
  joined = h.joined;
  shut = h.shut;
  gone = h.gone;
  failed = h.failed;
  code = h.code;
}
Step-IsOrdered s t h (cycle_ends e) = record {
  fits = h.fits;
  woken = h.woken;
  joined = h.joined;
  shut = h.shut;
  gone = h.gone;
  failed = h.failed;
  code = h.code;
}
Step-IsOrdered s t h (receives e b) = record {
  fits = omega (arith, b, h.fits);
  woken = h.woken;
  joined = h.joined;
  shut = h.shut;
  gone = h.gone;
  failed = h.failed;
  code = h.code;
}
Step-IsOrdered s t h (publisher_stops e c) = record {
  fits = h.fits;
  woken = h.woken;
  joined = h.joined;
  shut = h.shut;
  gone = h.gone;
  failed = h.failed;
  code = h.code;
}
Step-IsOrdered s t h (publisher_drained e c b) = record {
  fits = h.fits;
  woken = h.woken;
  joined = h.joined;
  shut = h.shut;
  gone = h.gone;
  failed = h.failed;
  code = h.code;
}
Step-IsOrdered s t h (publisher_panics e) = record {
  fits = h.fits;
  woken = h.woken;
  joined = h.joined;
  shut = h.shut;
  gone = h.gone;
  failed = h.failed;
  code = h.code;
}
Step-IsOrdered s t h (wakes e c) = record {
  fits = h.fits;
  woken = λ _. c;
  joined = λ b. absurd (omega (arith, b));
  shut = ground (arith, h.shut, ap rank e);
  gone = λ b. absurd (omega (arith, b));
  failed = h.failed;
  code = λ n b. cc b;
}
Step-IsOrdered s t h (closes e z) = record {
  fits = h.fits;
  woken = λ _. h.woken (ground (arith, ap rank e));
  joined = λ _. z;
  shut = refl;
  gone = λ b. absurd (omega (arith, b));
  failed = h.failed;
  code = λ n b. cc b;
}
Step-IsOrdered s t h (sees_drained e d) = record {
  fits = h.fits;
  woken = λ _. h.woken (ground (arith, ap rank e));
  joined = λ _. h.joined (ground (arith, ap rank e));
  shut = ground (arith, h.shut, ap rank e);
  gone = λ b. absurd (omega (arith, b));
  failed = h.failed;
  code = λ n b. cc b;
}
Step-IsOrdered s t h (times_out e) = record {
  fits = h.fits;
  woken = λ _. h.woken (ground (arith, ap rank e));
  joined = λ _. h.joined (ground (arith, ap rank e));
  shut = ground (arith, h.shut, ap rank e);
  gone = λ b. absurd (omega (arith, b));
  failed = h.failed;
  code = λ n b. cc b;
}
Step-IsOrdered s t h (shuts_down e) = record {
  fits = h.fits;
  woken = λ _. h.woken (ground (arith, ap rank e));
  joined = λ _. h.joined (ground (arith, ap rank e));
  shut = ground (arith, h.shut, ap rank e);
  gone = λ b. absurd (omega (arith, b));
  failed = h.failed;
  code = λ n b. cc b;
}
Step-IsOrdered s t h (http_returns e l) = record {
  fits = h.fits;
  woken = h.woken;
  joined = h.joined;
  shut = h.shut;
  gone = λ _. refl;
  failed = λ b. ((h.failed b).0, refl);
  code = h.code;
}
Step-IsOrdered s t h (exits e l) = record {
  fits = h.fits;
  woken = λ _. h.woken (ground (arith, ap rank e));
  joined = λ _. h.joined (ground (arith, ap rank e));
  shut = ground (arith, h.shut, ap rank e);
  gone = λ _. l;
  failed = h.failed;
  code = λ n b. ground (arith, b);
}

start-IsOrdered : (n : ℕ) → IsOrdered (start n)
start-IsOrdered n = record {
  fits = omega arith;
  woken = λ b. absurd (omega (arith, b));
  joined = λ b. absurd (omega (arith, b));
  shut = refl;
  gone = λ b. absurd (omega (arith, b));
  failed = λ e. cc e;
  code = λ n e. cc e;
}

-- Whatever the goroutines do.
pub Run-IsOrdered : (n : ℕ) (s : System) → Run (start n) s → IsOrdered s
Run-IsOrdered n s here = start-IsOrdered n
Run-IsOrdered n s (later {t} r step) = Step-IsOrdered t s (Run-IsOrdered n t r) step
