-- ===== src/Catalog/Dsn/RoundTrip.antt =====
-- A reader of libpq's keyword/value form gets back the fields of the connection string.
use mathlib.Core.Logic.{inl, inr}
use Prim.Native.Nat.{◌+◌, ◌/◌, ◌%◌}
use ducklake_metrics_daemon.Prelude.{
  Bool-cases, ℕ, suc, zero, ◌≡◌, refl, Bool, true, false, Option, none, some, List, [], ◌∷◌, ◌++◌,
  append_assoc, arith, ◌==◌, All, if◌then◌else◌, ltb, leb, ◌&&◌, ◌-◌,
}
use ducklake_metrics_daemon.Prelude.Int.{ℤ, pos, negsuc}
use ducklake_metrics_daemon.Prelude.Text.{Text, codes}
use ducklake_metrics_daemon.Prelude.Decimal.{digits, format_nat, format_int}
use ducklake_metrics_daemon.Catalog.Dsn.{Conn, is_special, rune_length, escape, quote_kv, dsn}

-- A value and the rest of the text.
abbrev Parsed : Type 0
Parsed = Option (Text × Text)

abbrev push : ℕ → Parsed → Parsed
push c none = none
push c (some (v, s)) = some (c ∷ v, s)

-- Inside quotes, after a backslash when `escaped`.
quoted : Bool → Text → Parsed
quoted e [] = none
quoted true (c ∷ s) = push c (quoted false s)
quoted false (c ∷ s) =
    let plain = push c (quoted false s) in
    let skip = quoted true s in
    if c == b'\'' then some ([], s) else if c == b'\\' then skip else plain

-- Without quotes, up to a space.
bare : Text → Parsed
bare [] = some ([], [])
bare (c ∷ s) = let rest = push c (bare s) in if c == b' ' then some ([], c ∷ s) else rest

abbrev value : Text → Parsed
value [] = some ([], [])
value (c ∷ s) = if c == b'\'' then quoted false s else bare (c ∷ s)

-- The text after a keyword.
abbrev strip : Text → Text → Option Text
strip [] s = some s
strip (k ∷ ks) [] = none
strip (k ∷ ks) (c ∷ s) = if k == c then strip ks s else none

abbrev and_then : Option Text → (Text → Parsed) → Parsed
and_then none f = none
and_then (some s) f = f s

abbrev collect : Parsed → (Text → Option (List Text)) → Option (List Text)
collect none f = none
collect (some (v, s)) f = elim (f s) [ none ↦ none | some vs ↦ some (v ∷ vs) ]

-- The values of the keywords, which must stand in this order.
unfoldable pub read_keys : List Text → Text → Option (List Text)
unfolding quoted bare
read_keys [] s = some []
read_keys (k ∷ ks) s = collect (and_then (strip k s) value) (read_keys ks)

unfoldable pub read_dsn : Text → Option (List Text)
unfolding read_keys
read_dsn = read_keys (
    codes "host="
    ∷ codes " port="
    ∷ codes " dbname="
    ∷ codes " user="
    ∷ codes " password="
    ∷ codes " sslmode="
    ∷ codes " connect_timeout="
    ∷ [])

-- UTF-8, after the first byte of a rune that has `k` more bytes, each from 128 on.
unfoldable pub is_utf8 : ℕ → Text → Bool
unfolding rune_length
is_utf8 zero [] = true
is_utf8 (suc k) [] = false
is_utf8 (suc k) (c ∷ v) = leb 128 c && is_utf8 k v
is_utf8 zero (r ∷ v) =
    let n = rune_length r v in let rest = is_utf8 (n - 1) v in if n == 0 then false else rest

-- One rune that is valid, escaped.
quoted-rune :
    (n r : ℕ) (rest v s : Text)
    → (n == 0) ≡ false
    → quoted false (rest ++ b'\'' ∷ s) ≡ some (v, s)
    → quoted false (
        (if n == 0
          then 239 ∷ 191 ∷ 189 ∷ rest
          else if is_special r
          then b'\\' ∷ r ∷ rest
          else r ∷ rest)
        ++ b'\'' ∷ s)
      ≡ some (r ∷ v, s)
unfolding quoted
quoted-rune n r rest v s h k = ground (arith, h, k)

is_utf8-rune :
    (n : ℕ) (b : Bool) → (if n == 0 then false else b) ≡ true → ((n == 0) ≡ false) × (b ≡ true)
is_utf8-rune n b h = (ground (arith, h), ground (arith, h))

quoted-high :
    (c : ℕ) (rest v s : Text) (b : Bool)
    → (leb 128 c && b) ≡ true
    → quoted false rest ≡ some (v, s)
    → quoted false (c ∷ rest) ≡ some (c ∷ v, s)
unfolding quoted
quoted-high c rest v s b h k = ground (arith, h, k)

and_right : (a b : Bool) → (a && b) ≡ true → b ≡ true
and_right a b h = ground (arith, h)

quoted-escape :
    (k : ℕ) (v s : Text) → is_utf8 k v ≡ true → quoted false (escape k v ++ b'\'' ∷ s) ≡ some (v, s)
unfolding escape is_utf8
quoted-escape zero [] s h = unfold quoted in refl
quoted-escape (suc k) [] s h = cc h
quoted-escape (suc k) (c ∷ v) s h =
    quoted-high c (escape k v ++ b'\'' ∷ s) v s (is_utf8 k v) h
      (quoted-escape k v s (and_right (leb 128 c) (is_utf8 k v) h))
quoted-escape zero (r ∷ v) s h =
    let n = rune_length r v in
    let (valid, u) = is_utf8-rune n (is_utf8 (n - 1) v) h in
    quoted-rune n r (escape (n - 1) v) v s valid (quoted-escape (n - 1) v s u)

value-quote_kv : (v s : Text) → is_utf8 0 v ≡ true → value (quote_kv v ++ s) ≡ some (v, s)
unfolding quote_kv
value-quote_kv v s h = rw (append_assoc (escape 0 v) (b'\'' ∷ []) s) (quoted-escape 0 v s h)

strip-append : (k s : Text) → strip k (k ++ s) ≡ some s
strip-append [] s = refl
strip-append (c ∷ k) s = ground (arith, strip-append k s)

-- Neither a space nor a quote is in the text.
abbrev IsPlain : Text → Type 0
IsPlain w = All (λ c. ((c == b' ') ≡ false) × ((c == b'\'') ≡ false)) w

bare-plain : (w s : Text) → IsPlain w → bare (w ++ b' ' ∷ s) ≡ some (w, b' ' ∷ s)
unfolding bare
bare-plain [] s h = refl
bare-plain (c ∷ w) s ((h, k), hs) = ground (arith, bare-plain w s hs)

value-plain : (w s : Text) → IsPlain w → value (w ++ b' ' ∷ s) ≡ some (w, b' ' ∷ s)
unfolding bare
value-plain [] s h = refl
value-plain (c ∷ w) s ((h, k), hs) = ground (arith, bare-plain w s hs)

digits-IsPlain : (f n : ℕ) (w : Text) → IsPlain w → IsPlain (digits f n w)
unfolding digits
digits-IsPlain zero n w h = h
digits-IsPlain (suc f) n w h = elim (Bool-cases (ltb n 10)) [
  | inl b ↦ rw b ((ground (arith, b), ground (arith, b)), h)
  | inr b ↦ rw b (digits-IsPlain f (n / 10) ((b'0' + n % 10) ∷ w) ((ground arith, ground arith), h))
]

format_int-IsPlain : (z : ℤ) → IsPlain (format_int z)
unfolding format_int format_nat
format_int-IsPlain (pos n) = digits-IsPlain (suc n) n [] tt
format_int-IsPlain (negsuc n) = ((refl, refl), digits-IsPlain (suc (suc n)) (suc n) [] tt)

read_quoted :
    (k v s : Text) (ks vs : List Text)
    → is_utf8 0 v ≡ true
    → read_keys ks s ≡ some vs
    → read_keys (k ∷ ks) (k ++ (quote_kv v ++ s)) ≡ some (v ∷ vs)
unfolding read_keys
read_quoted k v s ks vs u h = rw (strip-append k (quote_kv v ++ s), value-quote_kv v s u, h) refl

read_bare :
    (k w s : Text) (ks vs : List Text)
    → IsPlain w
    → read_keys ks (b' ' ∷ s) ≡ some vs
    → read_keys (k ∷ ks) (k ++ (w ++ b' ' ∷ s)) ≡ some (w ∷ vs)
unfolding read_keys
read_bare k w s ks vs p h = rw (strip-append k (w ++ b' ' ∷ s), value-plain w s p, h) refl

-- What follows a field: the keywords, and the text.
abbrev constant_keys : List Text
constant_keys = codes " sslmode=" ∷ codes " connect_timeout=" ∷ []

abbrev password_keys : List Text
password_keys = codes " password=" ∷ constant_keys

abbrev user_keys : List Text
user_keys = codes " user=" ∷ password_keys

abbrev dbname_keys : List Text
dbname_keys = codes " dbname=" ∷ user_keys

abbrev from_constants : Text
from_constants = codes " sslmode=require connect_timeout=10"

abbrev from_password : Conn → Text
from_password c = codes " password=" ++ (quote_kv c.password ++ from_constants)

abbrev from_user : Conn → Text
from_user c = codes " user=" ++ (quote_kv c.username ++ from_password c)

abbrev from_dbname : Conn → Text
from_dbname c = codes "dbname=" ++ (quote_kv c.database ++ from_user c)

abbrev from_port : Conn → Text
from_port c = codes " port=" ++ (format_int c.port ++ b' ' ∷ from_dbname c)

constants : read_keys constant_keys from_constants ≡ some (codes "require" ∷ codes "10" ∷ [])
unfolding read_keys bare
constants = refl

-- The four texts of the connection inputs are valid UTF-8.
pub record IsUtf8 (c : Conn) : Type 0 where
  pub host : is_utf8 0 c.host ≡ true
  pub database : is_utf8 0 c.database ≡ true
  pub username : is_utf8 0 c.username ≡ true
  pub password : is_utf8 0 c.password ≡ true

-- When the four texts are valid UTF-8: a reader of the keyword/value form, which takes a quoted value with its escapes and a bare one up
-- to the next space, gets from the connection string the five fields and the two constants.
pub read_dsn-dsn :
    (c : Conn)
    → IsUtf8 c
    → read_dsn (dsn c)
      ≡ some (
          c.host
          ∷ format_int c.port
          ∷ c.database
          ∷ c.username
          ∷ c.password
          ∷ codes "require"
          ∷ codes "10"
          ∷ [])
unfolding read_dsn dsn
read_dsn-dsn c u =
    read_quoted (codes "host=") c.host (from_port c) (codes " port=" ∷ dbname_keys) _ u.host (
      read_bare (codes " port=") (format_int c.port) (from_dbname c) dbname_keys _
        (format_int-IsPlain c.port)
        (read_quoted (codes " dbname=") c.database (from_user c) user_keys _ u.database (
          read_quoted (codes " user=") c.username (from_password c) password_keys _ u.username (
            read_quoted (codes " password=") c.password from_constants constant_keys _ u.password
              constants))))
