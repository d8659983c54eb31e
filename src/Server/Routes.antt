-- ===== src/Server/Routes.antt =====
-- `New`, `Mux` and `ListenAndServe` of server.go: which handler answers a path, and how the listener's
-- end is reported. The patterns have no trailing slash, so that the mux of net/http takes exactly their
-- paths; /metrics is the Prometheus handler.
use ducklake_metrics_daemon.Prelude.{Bool, Option, none, some, [], ◌∷◌}
use ducklake_metrics_daemon.Prelude.Int.{ℤ}
use ducklake_metrics_daemon.Prelude.Text.{Text, codes}
use ducklake_metrics_daemon.Prelude.Dict
use ducklake_metrics_daemon.Prelude.Dict.{Dict}
use ducklake_metrics_daemon.Extern.{Extern}
use ducklake_metrics_daemon.Publisher.Outcome.{Outcome, done, panicked}
use ducklake_metrics_daemon.Runner.Liveness.{LivenessSnapshot}
use ducklake_metrics_daemon.Server.{Response, Scan, handle_healthy, handle_ready}

pub data Endpoint : Type 0 where
  metrics healthy ready : Endpoint

unfoldable pub mux : Dict Endpoint
mux = (codes "/metrics", metrics) ∷ (codes "/-/healthy", healthy) ∷ (codes "/-/ready", ready) ∷ []

-- What a request gets: the probe's response, the scrape of the client, or 404.
pub data Reply : Type 0 where
  probed : Option Response → Reply
  scraped : Reply
  not_found : Reply

module _ (x : Extern) where
  -- The store after a request, and its reply; a panic of a handler gives none.
  pub record Served : Type 0 where
    pub store : x.Store
    pub reply : Reply

  abbrev pub probed_healthy : Outcome (Scan x × Option Response) → Served
  probed_healthy (done (s, r)) = record { store = s.store; reply = probed r }
  probed_healthy (panicked (s, r)) = record { store = s.store; reply = probed none }

  abbrev pub answered :
      Dict LivenessSnapshot → (Text → Bool) → ℤ → x.Store → Option Endpoint → Served
  answered snaps is_ready now s none = record { store = s; reply = not_found }
  answered snaps is_ready now s (some metrics) = record { store = s; reply = scraped }
  answered snaps is_ready now s (some healthy) = probed_healthy (handle_healthy x snaps now s)
  answered snaps is_ready now s (some ready) = record {
    store = s;
    reply = probed (some (handle_ready snaps is_ready));
  }

  unfoldable pub serve : Dict LivenessSnapshot → (Text → Bool) → ℤ → Text → x.Store → Served
  serve snaps is_ready now path s = answered snaps is_ready now s (Dict.get mux path)

-- How `http.Server.ListenAndServe` ends.
pub data ServeEnd : Type 0 where
  no_error server_closed : ServeEnd
  failed : Text → ServeEnd

-- `none` is the nil error.
unfoldable pub listen_and_serve : ServeEnd → Option Text
listen_and_serve no_error = none
listen_and_serve server_closed = none
listen_and_serve (failed e) = some e
