-- ===== src/Tests/Client.antt =====
-- A metric client for the examples: its series are functions, and its numbers are integers.
use ducklake_metrics_daemon.Prelude.{
  refl, true, false, ◌&&◌, Option, none, some, List, [], ◌∷◌, if◌then◌else◌,
}
use ducklake_metrics_daemon.Prelude.Int.{ℤ, ◌+ℤ◌, pos}
use ducklake_metrics_daemon.Prelude.Text.{Text, codes}
use ducklake_metrics_daemon.Prelude.Decimal.{format_int}
use ducklake_metrics_daemon.Metrics.{Metric, metric_eq}
use ducklake_metrics_daemon.Extern.{Extern, Laws, same_series, has_label}
use ducklake_metrics_daemon.Config.Env.{atoi}

pub record Series : Type 0 where
  pub gauges : Metric → List Text → Option ℤ
  pub totals : Metric → List Text → ℤ

abbrev pub no_series : Series
no_series = record { gauges = λ n ks. none; totals = λ n ks. pos 0 }

abbrev pub label_names : Metric → List Text
label_names m = codes "tenant" ∷ codes "l" ∷ []

abbrev pub client : Extern
client = record {
  Float = ℤ;
  Float32 = ℤ;
  is_nan = λ f. false;
  of_int = λ n. n;
  widen = λ f. f;
  float_int = λ n. n;
  parse_float = atoi;
  format_float = format_int;
  Numeric = ℤ;
  numeric_valid = λ n. true;
  float64_value = λ n. some (n, true);
  Other = Text;
  sprint = λ v. [];
  Store = Series;
  label_names = label_names;
  accepts = λ m ls. true;
  set = λ s m ls v. record s {
    gauges = λ n ks. if same_series m ls n ks then some v else s.gauges n ks;
  };
  add = λ s m ls d. record s {
    totals = λ n ks. if same_series m ls n ks then s.totals n ks +ℤ d else s.totals n ks;
  };
  delete = λ s m ls. record s {
    gauges = λ n ks. if same_series m ls n ks then none else s.gauges n ks;
    totals = λ n ks. if same_series m ls n ks then pos 0 else s.totals n ks;
  };
  delete_partial = λ s m l v. record s {
    gauges =
        λ n ks. if metric_eq m n && has_label (label_names n) l v ks then none else s.gauges n ks;
  };
  read = λ s n ks. s.gauges n ks;
  total = λ s n ks. s.totals n ks;
}

abbrev pub client_laws : Laws client
client_laws = record {
  read-set = λ s m ls v n ks. refl;
  read-delete = λ s m ls n ks. refl;
  read-delete_partial = λ s m l v n ks. refl;
  read-add = λ s m ls d n ks. refl;
  total-add = λ s m ls d n ks. refl;
  float_int-small = λ n low high. refl;
  total-delete = λ s m ls n ks. refl;
  total-set = λ s m ls v n ks. refl;
}
