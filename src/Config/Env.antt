-- ===== src/Config/Env.antt =====
-- The readers of environment variables in config.go. White space is ASCII.
pub mod Seconds
use ducklake_metrics_daemon.Prelude.{
  ℕ, ◌+◌, ◌-◌, ◌*◌, Bool, true, false, ◌&&◌, ◌||◌, Option, none, some, List, [], ◌∷◌, ◌++◌, leb,
  ◌==◌, is_empty, if◌then◌else◌,
}
use ducklake_metrics_daemon.Prelude.Int.{ℤ, pos, sub_ℕ, ltb_ℤ}
use ducklake_metrics_daemon.Prelude.Text.{Text}
use ducklake_metrics_daemon.Prelude.Dict
use ducklake_metrics_daemon.Prelude.Dict.{Dict}
use ducklake_metrics_daemon.Runner.Due.{seconds}

-- Decimal digits after the value `n`; `none` at any other byte.
unfoldable pub decimal : ℕ → Text → Option ℕ
decimal n [] = some n
decimal n (c ∷ s) =
    let rest = decimal (10 * n + (c - b'0')) s in if leb b'0' c && leb c b'9' then rest else none

unfoldable pub unsigned : Text → Option ℕ
unfolding decimal
unsigned [] = none
unsigned (c ∷ s) = decimal 0 (c ∷ s)

-- In the range of int.
unfoldable pub in_range : Bool → Option ℕ → Option ℤ
in_range negative none = none
in_range true (some n) = if leb n 9223372036854775808 then some (sub_ℕ 0 n) else none
in_range false (some n) = if leb n 9223372036854775807 then some (pos n) else none

-- `strconv.Atoi`; `none` is an error.
unfoldable pub atoi : Text → Option ℤ
unfolding unsigned in_range
atoi [] = none
atoi (c ∷ s) =
    if c == b'-'
    then in_range true (unsigned s)
    else if c == b'+'
    then in_range false (unsigned s)
    else in_range false (unsigned (c ∷ s))

abbrev at_least_one : Option ℤ → ℤ → ℤ
at_least_one none def = def
at_least_one (some n) def = if ltb_ℤ n (pos 1) then def else seconds n

unfoldable pub parse_seconds : (Text → Text) → Text → ℤ → ℤ
parse_seconds env name def =
    let v = env name in if is_empty v then def else at_least_one (atoi v) def

abbrev or_default : Option ℤ → ℤ → ℤ
or_default none def = def
or_default (some n) def = n

unfoldable pub parse_int : (Text → Text) → Text → ℤ → ℤ
parse_int env name def = let v = env name in if is_empty v then def else or_default (atoi v) def

-- `strings.Split(s, ",")`, with the piece read so far.
split_comma : Text → Text → List Text
split_comma [] piece = piece ∷ []
split_comma (c ∷ s) piece =
    let rest = split_comma s (piece ++ c ∷ []) in
    let next = split_comma s [] in if c == b',' then piece ∷ next else rest

is_space : ℕ → Bool
is_space c = (leb 9 c && leb c 13) || c == b' '

trim_left : Text → Text
unfolding is_space
trim_left [] = []
trim_left (c ∷ s) = let rest = trim_left s in if is_space c then rest else c ∷ s

trim_right : Text → Text
unfolding is_space
trim_right [] = []
trim_right (c ∷ s) = let rest = trim_right s in if is_empty rest && is_space c then [] else c ∷ rest

-- `strings.TrimSpace`
unfoldable pub trim : Text → Text
unfolding trim_left trim_right
trim s = trim_right (trim_left s)

-- The pieces between commas.
unfoldable pub split : Text → List Text
unfolding split_comma
split s = split_comma s []

-- The loop of `parseCSVSet`.
unfoldable pub add_names : List Text → Dict Bool → Dict Bool
add_names [] out = out
add_names (p ∷ ps) out =
    let name = trim p in
    let skip = add_names ps out in
    let more = add_names ps (Dict.put out name true) in if is_empty name then skip else more

unfoldable pub parse_csv_set : Text → Dict Bool
unfolding add_names
parse_csv_set s = add_names (split s) []
