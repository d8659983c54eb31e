-- ===== src/Publisher/Outcome.antt =====
-- Code that may panic: the state that it left behind, and whether it panicked.
use ducklake_metrics_daemon.Prelude.{◌⊎◌, inl, inr, refl, ◌≡◌, if◌then◌else◌}
use ducklake_metrics_daemon.Prelude.Int.{pos}
use ducklake_metrics_daemon.Prelude.{List}
use ducklake_metrics_daemon.Prelude.Text.{Text}
use ducklake_metrics_daemon.Metrics.{Metric}
use ducklake_metrics_daemon.Extern.{Extern}

pub data Outcome {ℓ} (S : Type ℓ) : Type ℓ where
  done : S → Outcome S
  panicked : S → Outcome S

infixl 5 ◌>>=◌
abbrev pub ◌>>=◌ {ℓ} : {S : Type ℓ} → Outcome S → (S → Outcome S) → Outcome S
done s >>= f = f s
panicked s >>= f = panicked s

abbrev pub final {ℓ} : {S : Type ℓ} → Outcome S → S
final (done s) = s
final (panicked s) = s

pub Outcome-cases {ℓ} :
    {S : Type ℓ} (o : Outcome S) → ((s : S) × (o ≡ done s)) ⊎ ((s : S) × (o ≡ panicked s))
Outcome-cases (done s) = inl (s, refl)
Outcome-cases (panicked s) = inr (s, refl)

module _ (x : Extern) where
  -- `vec.WithLabelValues(ls...).Set(v)`
  unfoldable pub set_gauge : Metric → List Text → x.Float → x.Store → Outcome x.Store
  set_gauge m ls v s = if x.accepts m ls then done (x.set s m ls v) else panicked s

  -- `vec.WithLabelValues(ls...).Inc()`
  unfoldable pub inc : Metric → List Text → x.Store → Outcome x.Store
  inc m ls s = if x.accepts m ls then done (x.add s m ls (pos 1)) else panicked s
