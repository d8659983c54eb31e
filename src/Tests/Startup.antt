-- ===== src/Tests/Startup.antt =====
-- Examples for the start of main.go.
use ducklake_metrics_daemon.Prelude.{
  ℕ, ◌≡◌, ◌≢◌, refl, Bool, true, false, Option, none, some, List, [], ◌∷◌, arith, All, any,
  if◌then◌else◌,
}
use ducklake_metrics_daemon.Prelude.Text.{Text, codes, text_eq}
use ducklake_metrics_daemon.Prelude.Int.{pos}
use ducklake_metrics_daemon.Prelude.Dict
use ducklake_metrics_daemon.Prelude.Sort.{find}
use ducklake_metrics_daemon.Prelude.Result.{ok}
use ducklake_metrics_daemon.Queries.{Query, load_builtins, load_file}
use ducklake_metrics_daemon.Queries.Merge.{name_of, merge}
use ducklake_metrics_daemon.Config.{config_of}
use ducklake_metrics_daemon.Config.Loading.{IsValid}
use ducklake_metrics_daemon.Metrics.{gauge}
use ducklake_metrics_daemon.Metrics.Register.{gauge_name}
use ducklake_metrics_daemon.Publisher.State.{new}
use ducklake_metrics_daemon.Publisher.Run.{on_panic, run}
use ducklake_metrics_daemon.Publisher.Board.{declares, replay, empty_board}
use ducklake_metrics_daemon.Server.{handle_ready}
use ducklake_metrics_daemon.Daemon.Startup.{
  Daemon, Start, started, start, is_ready, sorted_keys, livenesses_of,
}
use ducklake_metrics_daemon.Daemon.Startup.Shows.{daemon_shows}
use ducklake_metrics_daemon.Runner.Liveness.{Liveness, mark_fire}
use ducklake_metrics_daemon.Daemon.Startup.Probes.{later_snapshots, mark_all, ready_after_marks}
use ducklake_metrics_daemon.Tests.Client.{client, client_laws, no_series}
use ducklake_metrics_daemon.Tests.Config.{env, read, loaded, env-load}
use ducklake_metrics_daemon.Tests.Daemon.{unmarshal, read_file}
use ducklake_metrics_daemon.Tests.Board.{
  anything, both, reg, reg-register, first_then_second, IsAny, client-takes,
  first_then_second-plain,
}

abbrev attempt : Start client
attempt = start client anything unmarshal [] read_file no_series env read

abbrev daemon : Daemon client
daemon = record {
  config = config_of env read loaded;
  queries = both;
  tenant_ids = sorted_keys loaded;
  livenesses = livenesses_of (config_of env read loaded).cycle_interval loaded [];
  ready = [];
  publisher = new client reg.gauges both no_series;
}

builtins-load : load_builtins unmarshal [] ≡ ok both
unfolding load_builtins ducklake_metrics_daemon.Queries.load
    ducklake_metrics_daemon.Queries.validate
builtins-load = refl

user-load : load_file unmarshal read_file (config_of env read loaded).user_queries_path ≡ ok both
unfolding load_file config_of text_eq ducklake_metrics_daemon.Queries.load
    ducklake_metrics_daemon.Queries.validate
user-load = refl

both-merge : merge both both (config_of env read loaded).disabled_queries ≡ both
unfolding merge ducklake_metrics_daemon.Prelude.Sort.sort Dict.put text_eq Dict.get config_of
    ducklake_metrics_daemon.Config.Env.parse_csv_set ducklake_metrics_daemon.Config.Env.split
    ducklake_metrics_daemon.Config.Env.trim ducklake_metrics_daemon.Prelude.Text.Order.text_lt
both-merge = refl

daemon_started : attempt ≡ started daemon
unfolding start config_of
daemon_started = rw (env-load, builtins-load, user-load, both-merge, reg-register) refl

daemon_shows_example :
    IsValid daemon.config
    × ((run client first_then_second daemon.publisher).0 ≢ on_panic)
    × ((n : Text) (q : Query)
        → find name_of daemon.queries n ≡ some q
        → (v : Text) → declares q v ≡ true
        → (ks : List Text)
        → (run client first_then_second daemon.publisher).1.store.gauges (gauge (gauge_name n v)) ks
          ≡ replay client daemon.queries first_then_second (empty_board client) n v ks)
daemon_shows_example =
    daemon_shows client client_laws anything unmarshal [] read_file no_series env read daemon IsAny
      first_then_second daemon_started (λ g ks. refl) client-takes first_then_second-plain

-- Tenant `a` has fired.
abbrev fire : Text → Liveness → Liveness
fire t l = if text_eq t (codes "a") then mark_fire (pos 7) l else l

ready_after_marks_example :
    (handle_ready
      (later_snapshots fire (pos 300) loaded)
      (is_ready (mark_all (codes "a" ∷ []) []))).code
    ≡ 200
unfolding Dict.get text_eq
ready_after_marks_example = ready_after_marks fire (pos 300) loaded (codes "a" ∷ [])
