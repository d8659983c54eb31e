-- ===== src/Publisher/Coerce.antt =====
-- `toLabelString` and `toFloat` of publisher.go.
use ducklake_metrics_daemon.Prelude.{Bool, Option, none, some, [], if◌then◌else◌}
use ducklake_metrics_daemon.Prelude.Int.{pos}
use ducklake_metrics_daemon.Prelude.Text.{Text, codes}
use ducklake_metrics_daemon.Prelude.Decimal.{format_int}
use ducklake_metrics_daemon.Extern.{
  Extern, Value, nil, string, bytes, int64, int32, int16, int, float64, float32, bool, numeric,
  other,
}

module _ (x : Extern) where
  unfoldable pub to_label_string : Value x → Text
  to_label_string nil = []
  to_label_string (string t) = t
  to_label_string (bytes t) = t
  to_label_string (int64 n) = format_int n
  to_label_string (int32 n) = format_int n
  to_label_string (float64 f) = x.format_float f
  to_label_string (bool b) = if b then codes "true" else codes "false"
  to_label_string (int16 n) = x.sprint (int16 n)
  to_label_string (int n) = x.sprint (int n)
  to_label_string (float32 f) = x.sprint (float32 f)
  to_label_string (numeric n) = x.sprint (numeric n)
  to_label_string (other o) = x.sprint (other o)

  converted : Option (x.Float × Bool) → Option x.Float
  converted none = none
  converted (some (f, valid)) = if valid then some f else none

  -- `none` is the result `ok == false`.
  unfoldable pub to_float : Value x → Option x.Float
  unfolding converted
  to_float (int64 n) = some (x.of_int n)
  to_float (int32 n) = some (x.of_int n)
  to_float (int16 n) = some (x.of_int n)
  to_float (int n) = some (x.of_int n)
  to_float (float64 f) = if x.is_nan f then none else some f
  to_float (float32 f) = some (x.widen f)
  to_float (bool b) = if b then some (x.of_int (pos 1)) else some (x.of_int (pos 0))
  to_float (string t) = x.parse_float t
  to_float (numeric n) = if x.numeric_valid n then converted (x.float64_value n) else none
  to_float nil = x.parse_float (x.sprint nil)
  to_float (bytes t) = x.parse_float (x.sprint (bytes t))
  to_float (other o) = x.parse_float (x.sprint (other o))

  -- The value loop's tests: a nil or a non-numeric value gives nothing to write.
  unfoldable pub gauge_value : Value x → Option x.Float
  unfolding to_float
  gauge_value nil = none
  gauge_value v = to_float v
