-- ===== src/Prelude/Decimal.antt =====
-- `strconv.FormatInt(n, 10)` and `%d`: decimal print.
use ducklake_metrics_daemon.Prelude.Tests.{ltb, if◌then◌else◌}
use Prim.Native.Nat.{ℕ, zero, suc, ◌+◌, ◌/◌, ◌%◌}
use mathlib.Core.List.{[], ◌∷◌}
use ducklake_metrics_daemon.Prelude.Int.{ℤ, pos, negsuc}
use ducklake_metrics_daemon.Prelude.Text.{Text}

-- The digits of `n` in front of `out`; more fuel than digits is enough, and `n + 1` is.
unfoldable pub digits : ℕ → ℕ → Text → Text
digits zero n out = out
digits (suc f) n out =
    let more = digits f (n / 10) ((b'0' + n % 10) ∷ out) in
    if ltb n 10 then (b'0' + n) ∷ out else more

unfoldable pub format_nat : ℕ → Text
unfolding digits
format_nat n = digits (suc n) n []

unfoldable pub format_int : ℤ → Text
unfolding format_nat
format_int (pos n) = format_nat n
format_int (negsuc n) = b'-' ∷ format_nat (suc n)
