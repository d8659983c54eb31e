-- ===== src/Queries.antt =====
-- internal/queries/queries.go and util.go: the query type, its validation, and loading. The YAML
-- decoder and the file system are parameters.
pub mod Validation
pub mod Merge
use ducklake_metrics_daemon.Prelude.{
  ℕ, suc, Bool, true, false, ◌&&◌, ◌||◌, Option, none, some, List, [], ◌∷◌, leb, ltb, ◌==◌,
  if◌then◌else◌, is_empty,
}
use ducklake_metrics_daemon.Prelude.Int.{ℤ, pos, ltb_ℤ}
use ducklake_metrics_daemon.Prelude.Text.{Text, codes}
use ducklake_metrics_daemon.Prelude.Result.{Result, ok, err, ◌>>=◌}

pub record Query : Type 0 where
  pub name : Text
  pub help : Text
  pub labels : List Text
  pub values : List Text
  pub sql : Text
  pub interval_seconds : ℤ

-- Why `validate` refuses a query.
pub data QueryError : Type 0 where
  bad_name no_help no_values no_sql : QueryError
  negative_interval : ℤ → QueryError

-- Why a library is refused: the file, its YAML, or the query at an index.
pub data LoadError : Type 0 where
  unreadable : Text → LoadError
  unparsed : Text → LoadError
  invalid : Text → ℕ → Text → QueryError → LoadError

is_letter : ℕ → Bool
is_letter c = (leb b'a' c && leb c b'z') || (leb b'A' c && leb c b'Z') || c == b'_'

is_digit : ℕ → Bool
is_digit c = leb b'0' c && leb c b'9'

name_tail : Text → Bool
unfolding is_letter is_digit
name_tail [] = true
name_tail (c ∷ s) = (is_letter c || is_digit c) && name_tail s

-- nameRE, `^[a-zA-Z_][a-zA-Z0-9_]*$`
unfoldable pub name_re : Text → Bool
unfolding name_tail
name_re [] = false
name_re (c ∷ s) = is_letter c && name_tail s

-- `none` is the nil error.
unfoldable pub validate : Query → Option QueryError
unfolding name_re
validate q =
    if name_re q.name
    then if is_empty q.help
      then some no_help
      else if is_empty q.values
      then some no_values
      else if is_empty q.sql
      then some no_sql
      else if ltb_ℤ q.interval_seconds (pos 0)
      then some (negative_interval q.interval_seconds)
      else none
    else some bad_name

-- The loop of `load` from index `i`.
check_all : Text → ℕ → List Query → Option LoadError
check_all src i [] = none
check_all src i (q ∷ qs) =
    let rest = check_all src (suc i) qs in
    elim (validate q) [ none ↦ rest | some e ↦ some (invalid src i q.name e) ]

checked : Text → List Query → Option LoadError → Result LoadError (List Query)
checked src qs none = ok qs
checked src qs (some e) = err e

decoded : Text → Option (List Query) → Result LoadError (List Query)
unfolding checked
decoded src none = err (unparsed src)
decoded src (some qs) = checked src qs (check_all src 0 qs)

-- What yaml.Unmarshal makes of a document, `none` for its error; what os.ReadFile returns.
module _ (unmarshal : Text → Option (List Query)) where
  unfoldable pub load : Text → Text → Result LoadError (List Query)
  unfolding decoded check_all
  load data_ src = decoded src (unmarshal data_)

  unfoldable pub load_builtins : Text → Result LoadError (List Query)
  load_builtins builtin_yaml = load builtin_yaml (codes "builtin.yaml")

  read : Text → Option Text → Result LoadError (List Query)
  read path none = err (unreadable path)
  read path (some d) = load d path

  unfoldable pub load_file : (Text → Option Text) → Text → Result LoadError (List Query)
  unfolding read
  load_file read_file path = if is_empty path then ok [] else read path (read_file path)
