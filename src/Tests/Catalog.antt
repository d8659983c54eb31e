-- ===== src/Tests/Catalog.antt =====
-- Examples for catalog.go.
use ducklake_metrics_daemon.Prelude.{◌≡◌, refl, none, some, [], ◌∷◌, ◌++◌}
use ducklake_metrics_daemon.Prelude.Int.{ℤ, pos}
use ducklake_metrics_daemon.Prelude.Text.{codes}
use ducklake_metrics_daemon.Prelude.Dict
use ducklake_metrics_daemon.Prelude.Result.{ok, err}
use ducklake_metrics_daemon.Prelude.Decimal.{format_int}
use ducklake_metrics_daemon.Extern.{Any}
use ducklake_metrics_daemon.Catalog.{Row, row_cap_exceeded}
use ducklake_metrics_daemon.Catalog.Dsn.{Conn, dsn}
use ducklake_metrics_daemon.Catalog.Dsn.RoundTrip.{is_utf8, read_dsn, read_dsn-dsn}
use ducklake_metrics_daemon.Catalog.Fetch.{Cursor, fill, query}
use ducklake_metrics_daemon.Catalog.Fetch.Cap.{query_all}
use ducklake_metrics_daemon.Tests.Client.{client}

abbrev pub conn : Conn
conn = record {
  host = codes "db";
  port = pos 5432;
  database = codes "d";
  username = codes "u";
  password = codes "it's \\ " ++ 195 ∷ 188 ∷ [];
}

read_dsn-dsn_example :
    read_dsn (dsn conn)
    ≡ some (
        codes "db"
        ∷ format_int (pos 5432)
        ∷ codes "d"
        ∷ codes "u"
        ∷ conn.password
        ∷ codes "require"
        ∷ codes "10"
        ∷ [])
unfolding is_utf8
read_dsn-dsn_example =
    read_dsn-dsn conn (record { host = refl; database = refl; username = refl; password = refl })

abbrev row : ℤ → Row client
row n = (codes "v", Any.int64 n) ∷ []

abbrev cursor : Cursor client
cursor = record {
  columns = codes "v" ∷ [];
  fetched = ok (Any.int64 (pos 1) ∷ []) ∷ ok (Any.int64 (pos 2) ∷ []) ∷ [];
  failure = none;
}

query_all_example : query client (ok cursor) (pos 1) ≡ some (err (row_cap_exceeded (pos 1)))
unfolding fill Dict.put
query_all_example =
    query_all client cursor (pos 1) (row (pos 1) ∷ row (pos 2) ∷ []) refl (refl, (refl, tt))
