-- ===== src/Catalog/Dsn.antt =====
-- `Conn.DSN` and `quoteKV` (catalog.go).
use ducklake_metrics_daemon.Prelude.{
  ℕ, zero, suc, ◌-◌, Bool, false, ◌&&◌, ◌||◌, leb, List, [], ◌∷◌, ◌++◌, ◌==◌, if◌then◌else◌,
}
use ducklake_metrics_daemon.Prelude.Int.{ℤ}
use ducklake_metrics_daemon.Prelude.Text.{Text, codes}
use ducklake_metrics_daemon.Prelude.Decimal.{format_int}
pub mod RoundTrip

pub record Conn : Type 0 where
  pub host : Text
  pub port : ℤ
  pub database : Text
  pub username : Text
  pub password : Text

abbrev between : ℕ → ℕ → ℕ → Bool
between low high c = leb low c && leb c high

is_continuation : Text → Bool
is_continuation [] = false
is_continuation (c ∷ v) = between 128 191 c

is_continuation_twice : Text → Bool
unfolding is_continuation
is_continuation_twice [] = false
is_continuation_twice (c ∷ v) = between 128 191 c && is_continuation v

-- The bytes that a rune has after its first byte `r`, when they stand in `v`.
second_of_three : ℕ → ℕ → Bool
second_of_three r c =
    if r == 224
    then between 160 191 c
    else if r == 237
    then between 128 159 c
    else between 128 191 c

second_of_four : ℕ → ℕ → Bool
second_of_four r c =
    if r == 240
    then between 144 191 c
    else if r == 244
    then between 128 143 c
    else between 128 191 c

-- The length of the rune that a text starts with; 0 when its bytes are not UTF-8.
unfoldable pub rune_length : ℕ → Text → ℕ
unfolding is_continuation is_continuation_twice second_of_three second_of_four
rune_length r [] = if leb r 127 then 1 else 0
rune_length r (c ∷ v) =
    if leb r 127
    then 1
    else if between 194 223 r
    then if between 128 191 c then 2 else 0
    else if between 224 239 r
    then if second_of_three r c && is_continuation v then 3 else 0
    else if between 240 244 r
    then if second_of_four r c && is_continuation_twice v then 4 else 0
    else 0

abbrev pub is_special : ℕ → Bool
is_special r = (r == b'\'') || (r == b'\\')

-- The loop of `quoteKV` over the runes; `k` bytes of the last one are still to be written. A byte that
-- starts no rune counts as U+FFFD.
unfoldable pub escape : ℕ → Text → Text
unfolding rune_length
escape k [] = []
escape (suc k) (c ∷ v) = c ∷ escape k v
escape zero (r ∷ v) =
    let n = rune_length r v in
    let rest = escape (n - 1) v in
    if n == 0 then 239 ∷ 191 ∷ 189 ∷ rest else if is_special r then b'\\' ∷ r ∷ rest else r ∷ rest

unfoldable pub quote_kv : Text → Text
unfolding escape
quote_kv v = b'\'' ∷ (escape 0 v ++ b'\'' ∷ [])

unfoldable pub dsn : Conn → Text
dsn c =
    codes "host="
    ++ (quote_kv c.host
        ++ (codes " port="
            ++ (format_int c.port
                ++ (codes " dbname="
                    ++ (quote_kv c.database
                        ++ (codes " user="
                            ++ (quote_kv c.username
                                ++ (codes " password="
                                    ++ (quote_kv c.password
                                        ++ codes " sslmode=require connect_timeout=10")))))))))
