-- ===== src/Runner/Liveness.antt =====
-- `Liveness` of runner.go. Times are nanoseconds since the Unix epoch, as int64.
use ducklake_metrics_daemon.Prelude.{Option, none, some, if◌then◌else◌}
use ducklake_metrics_daemon.Prelude.Int.{ℤ, pos, ltb_ℤ}

pub record Liveness : Type 0 where
  pub interval : ℤ
  pub last_fire : ℤ  -- 0 = never fired

-- `none` is the zero time.Time.
pub record LivenessSnapshot : Type 0 where
  pub interval : ℤ
  pub last_fire : Option ℤ

unfoldable pub new_liveness : ℤ → Liveness
new_liveness interval = record { interval = interval; last_fire = pos 0 }

-- `now` is the clock reading of the call.
unfoldable pub mark_fire : ℤ → Liveness → Liveness
mark_fire now l = record l { last_fire = now }

unfoldable pub snapshot : Liveness → LivenessSnapshot
snapshot l = record {
  interval = l.interval;
  last_fire = if ltb_ℤ (pos 0) l.last_fire then some l.last_fire else none;
}
