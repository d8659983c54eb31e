-- ===== src/Config/Env/Seconds.antt =====
-- `strconv.Atoi` of a decimal print, and what `parseSeconds` makes of it (config.go).
use mathlib.Core.Logic.{inl, inr}
use Prim.Native.Nat.{◌/◌, ◌%◌}
use ducklake_metrics_daemon.Prelude.{
  sym, ap, subst, ℕ, zero, suc, ◌+◌, ◌*◌, ◌≡◌, ◌<◌, refl, ◌∙◌, Bool, true, false, ◌&&◌, some, [],
  ◌∷◌, arith, leb, ltb, if◌then◌else◌, Bool-cases,
}
use ducklake_metrics_daemon.Prelude.Int.{
  int64-of_IsInt64, IsInt64, ◌≤ℤ◌, ◌*ℤ◌, int64, ℤ, pos, negsuc,
}
use ducklake_metrics_daemon.Prelude.Text.{Text}
use ducklake_metrics_daemon.Prelude.Decimal.{digits, format_nat, format_int}
use ducklake_metrics_daemon.Runner.Due.{seconds}
use ducklake_metrics_daemon.Config.Env.{decimal, unsigned, in_range, atoi, parse_seconds}

decimal-digit :
    (m d : ℕ) (out : Text) → d < 10 → decimal m ((b'0' + d) ∷ out) ≡ decimal (10 * m + d) out
unfolding decimal
decimal-digit m d out h = ground (arith, h)

decimal-digits : (f n : ℕ) (out : Text) → n < f → decimal 0 (digits f n out) ≡ decimal n out
unfolding digits
decimal-digits zero n out h = absurd (omega (arith, h))
decimal-digits (suc f) n out h = elim (Bool-cases (ltb n 10)) [
  | inl b ↦ rw b (decimal-digit 0 n out (ground (arith, b)) ∙ ap (λ m. decimal m out) (omega arith))
  | inr b ↦ rw b (
      decimal-digits f (n / 10) ((b'0' + n % 10) ∷ out) (ground (arith, b, h))
      ∙ decimal-digit (n / 10) (n % 10) out (omega arith)
      ∙ ground arith)
]

-- A print starts with a digit.
abbrev StartsWithDigit : Text → Type 0
StartsWithDigit s = (c : ℕ) × (t : Text) × (s ≡ c ∷ t) × (leb b'0' c ≡ true)

digits-StartsWithDigit : (f n : ℕ) (out : Text) → n < f → StartsWithDigit (digits f n out)
unfolding digits
digits-StartsWithDigit zero n out h = absurd (omega (arith, h))
digits-StartsWithDigit (suc f) n out h = elim (Bool-cases (ltb n 10)) [
  | inl b ↦ rw b (b'0' + n, out, refl, ground arith)
  | inr b ↦ rw b (digits-StartsWithDigit f (n / 10) ((b'0' + n % 10) ∷ out) (ground (arith, b, h)))
]

format_nat-StartsWithDigit : (n : ℕ) → StartsWithDigit (format_nat n)
unfolding format_nat
format_nat-StartsWithDigit n = digits-StartsWithDigit (suc n) n [] (omega arith)

decimal-format_nat : (n : ℕ) → decimal 0 (format_nat n) ≡ some n
unfolding format_nat
decimal-format_nat n = decimal-digits (suc n) n [] (omega arith) ∙ unfold decimal in refl

unsigned-format_nat : (n : ℕ) → unsigned (format_nat n) ≡ some n
unfolding unsigned
unsigned-format_nat n =
    let (c, t, e, _) = format_nat-StartsWithDigit n in
    subst (λ (s : Text). unsigned s ≡ decimal 0 s) (sym e) refl ∙ decimal-format_nat n

atoi-format_nat : (n : ℕ) → atoi (format_nat n) ≡ in_range false (some n)
unfolding atoi
atoi-format_nat n =
    let (c, t, e, d) = format_nat-StartsWithDigit n in
    subst (λ (s : Text). atoi s ≡ in_range false (unsigned s)) (sym e) (ground (arith, d))
    ∙ ap (in_range false) (unsigned-format_nat n)

atoi-format_int : (n : ℕ) → atoi (format_int (negsuc n)) ≡ in_range true (some (suc n))
unfolding atoi format_int
atoi-format_int n = ap (in_range true) (unsigned-format_nat (suc n))

abbrev max_int : ℕ
max_int = 9223372036854775807

parse_seconds-nat :
    (env : Text → Text) (name : Text) (def : ℤ) (n : ℕ)
    → env name ≡ format_nat n
    → parse_seconds env name def ≡ (if ltb 0 n && leb n max_int then seconds (pos n) else def)
unfolding parse_seconds in_range
parse_seconds-nat env name def n h =
    let (c, t, e, d) = format_nat-StartsWithDigit n in ground (arith, h, e, atoi-format_nat n)

parse_seconds-negative :
    (env : Text → Text) (name : Text) (def : ℤ) (n : ℕ)
    → env name ≡ format_int (negsuc n)
    → parse_seconds env name def ≡ def
unfolding parse_seconds in_range
parse_seconds-negative env name def n h =
    let e : env name ≡ b'-' ∷ format_nat (suc n) = unfold format_int in h in
    ground (arith, h, e, atoi-format_int n)

abbrev is_positive_int : ℤ → Bool
is_positive_int (pos n) = ltb 0 n && leb n max_int
is_positive_int (negsuc n) = false

positive-fits : (z : ℤ) → pos 1 ≤ℤ z → IsInt64 (z *ℤ pos 1000000000) → is_positive_int z ≡ true
unfolding ◌*ℤ◌
positive-fits (pos n) low fits = ground (arith, low, fits)
positive-fits (negsuc n) low fits = absurd (omega (arith, low))

parse_seconds-fitting :
    (env : Text → Text) (name : Text) (def z : ℤ)
    → parse_seconds env name def ≡ (if is_positive_int z then int64 (z *ℤ pos 1000000000) else def)
    → (parse_seconds env name def
        ≡ (if is_positive_int z then int64 (z *ℤ pos 1000000000) else def))
      × (pos 1 ≤ℤ z
          → IsInt64 (z *ℤ pos 1000000000)
          → parse_seconds env name def ≡ z *ℤ pos 1000000000)
parse_seconds-fitting env name def z e = (
  e,
  λ low fits.
      e
      ∙ ap (λ b. if b then int64 (z *ℤ pos 1000000000) else def) (positive-fits z low fits)
      ∙ int64-of_IsInt64 (z *ℤ pos 1000000000) fits,
)

-- A variable that holds the decimal print of an integer gives that many seconds in nanoseconds, wrapped
-- around int64, when the integer is from 1 to 2 ^ 63 - 1, and else the default; so that a number from 1
-- on whose nanoseconds fit int64 gives exactly these.
pub parse_seconds_lem :
    (env : Text → Text) (name : Text) (def z : ℤ)
    → env name ≡ format_int z
    → (parse_seconds env name def
        ≡ (if is_positive_int z then int64 (z *ℤ pos 1000000000) else def))
      × (pos 1 ≤ℤ z
          → IsInt64 (z *ℤ pos 1000000000)
          → parse_seconds env name def ≡ z *ℤ pos 1000000000)
unfolding seconds
parse_seconds_lem env name def z h = parse_seconds-fitting env name def z (go z h)
  where
    go :
        (y : ℤ)
        → env name ≡ format_int y
        → parse_seconds env name def
          ≡ (if is_positive_int y then int64 (y *ℤ pos 1000000000) else def)
    go (pos n) e = parse_seconds-nat env name def n (unfold format_int in e)
    go (negsuc n) e = parse_seconds-negative env name def n e
