-- ===== src/Publisher/Isolation.antt =====
-- A tenant's messages touch no series of another tenant (publisher.go).
use mathlib.Core.Logic.{inl, inr}
use ducklake_metrics_daemon.Prelude.{
  ℕ, ◌≡◌, refl, ◌∙◌, ap, Bool, true, false, Option, none, some, List, [], ◌∷◌, arith, All,
  Bool-cases, Option-cases,
}
use ducklake_metrics_daemon.Prelude.Text.{Text, text_eq, text_eq_refl, texts_eq, texts_eq_iff}
use ducklake_metrics_daemon.Prelude.Int.{ℤ, pos}
use ducklake_metrics_daemon.Prelude.Dict
use ducklake_metrics_daemon.Prelude.Dict.{Dict, or_empty}
use ducklake_metrics_daemon.Metrics.{Metric}
use ducklake_metrics_daemon.Extern.{Extern, Laws}
use ducklake_metrics_daemon.Catalog.{Row}
use ducklake_metrics_daemon.Publisher.Coerce.{gauge_value}
use ducklake_metrics_daemon.Publisher.Columns.{cell}
use ducklake_metrics_daemon.Publisher.Outcome.{
  Outcome, done, panicked, ◌>>=◌, final, set_gauge, inc,
}
use ducklake_metrics_daemon.Publisher.State.{Tuples}
use ducklake_metrics_daemon.Publisher.Apply.{
  Scope, tuple, set_values, set_rows, written, delete_all, delete_dropped,
}

-- The first label of a series is its tenant.
abbrev pub belongs : Text → List Text → Bool
belongs t [] = false
belongs t (u ∷ _) = text_eq u t

-- Tuples that a tenant emitted.
abbrev pub AreOwned : Text → Tuples → Type 0
AreOwned t = All (λ (e : Text × List Text). belongs t e.1 ≡ true)

pub foreign_ne :
    (t : Text) (ls ks : List Text)
    → belongs t ls ≡ true
    → belongs t ks ≡ false
    → texts_eq ls ks ≡ false
foreign_ne t ls ks h k = elim (Bool-cases (texts_eq ls ks)) [
  | inl e ↦ let same : ls ≡ ks = (texts_eq_iff ls ks).0 e in cc (h, k, ap (belongs t) same)
  | inr e ↦ e
]

module _ (x : Extern) (law : Laws x) where
  -- A gauge's value and a counter's total.
  abbrev pub Sample : Type 0
  Sample = Option x.Float × ℤ

  abbrev pub sample : x.Store → Metric → List Text → Sample
  sample s n ks = (x.read s n ks, x.total s n ks)

  pub sample_eq :
      (a b : x.Store) (n : Metric) (ks : List Text)
      → x.read a n ks ≡ x.read b n ks
      → x.total a n ks ≡ x.total b n ks
      → sample a n ks ≡ sample b n ks
  sample_eq a b n ks h k = ap (λ v. (v, x.total a n ks)) h ∙ ap (λ (v : ℤ). (x.read b n ks, v)) k

  -- Two stores show the same of every series that is not the tenant's.
  abbrev pub Keeps : Text → x.Store → x.Store → Type 0
  Keeps t s s' =
      (n : Metric) (ks : List Text) → belongs t ks ≡ false → sample s' n ks ≡ sample s n ks

  abbrev pub KeepsGauges : Text → x.Store → x.Store → Type 0
  KeepsGauges t s s' =
      (n : Metric) (ks : List Text) → belongs t ks ≡ false → x.read s' n ks ≡ x.read s n ks

  pub Keeps-gauges : (t : Text) (s s' : x.Store) → Keeps t s s' → KeepsGauges t s s'
  Keeps-gauges t s s' h n ks f = ap (λ (v : Sample). v.0) (h n ks f)

  pub Keeps-trans : (t : Text) (a b c : x.Store) → Keeps t a b → Keeps t b c → Keeps t a c
  Keeps-trans t a b c h k n ks f = k n ks f ∙ h n ks f

  pub set_gauge-Keeps :
      (t : Text) (m : Metric) (ls : List Text) (v : x.Float) (s : x.Store)
      → belongs t ls ≡ true
      → Keeps t s (final (set_gauge x m ls v s))
  unfolding set_gauge
  set_gauge-Keeps t m ls v s own n ks f =
      sample_eq _ s n ks (ground (arith, law.read-set s m ls v n ks, foreign_ne t ls ks own f))
        (ground (arith, law.total-set s m ls v n ks))

  pub inc-Keeps :
      (t : Text) (m : Metric) (ls : List Text) (s : x.Store)
      → belongs t ls ≡ true
      → Keeps t s (final (inc x m ls s))
  unfolding inc
  inc-Keeps t m ls s own n ks f =
      sample_eq _ s n ks (ground (arith, law.read-add s m ls (pos 1) n ks))
        (ground (arith, law.total-add s m ls (pos 1) n ks, foreign_ne t ls ks own f))

  pub delete-Keeps :
      (t : Text) (m : Metric) (ls : List Text) (s : x.Store)
      → belongs t ls ≡ true
      → Keeps t s (x.delete s m ls)
  delete-Keeps t m ls s own n ks f =
      sample_eq _ s n ks (ground (arith, law.read-delete s m ls n ks, foreign_ne t ls ks own f))
        (ground (arith, law.total-delete s m ls n ks, foreign_ne t ls ks own f))

  pub tuple-belongs : (c : Scope x) (row : Row x) → belongs c.tenant (tuple x c row) ≡ true
  unfolding tuple
  tuple-belongs c row = text_eq_refl c.tenant

  pub written-Keeps :
      (c : Scope x) (gs : Dict Metric) (vname : Text) (vals : List Text) (o : Option x.Float)
      (s : x.Store)
      → belongs c.tenant vals ≡ true
      → Keeps c.tenant s (final (written x c gs vname vals o s))
  unfolding written
  written-Keeps c gs vname vals none s own = inc-Keeps c.tenant _ _ s (text_eq_refl c.tenant)
  written-Keeps c gs vname vals (some v) s own = λ n ks f. elim (Option-cases (Dict.get gs vname)) [
    | inl e ↦ sample_eq _ s n ks (ground (arith, e)) (ground (arith, e))
    | inr (m, e) ↦
        let same = set_gauge-Keeps c.tenant m vals v s own n ks f in
        sample_eq _ s n ks (ground (arith, e, ap (λ (w : Sample). w.0) same))
          (ground (arith, e, ap (λ (w : Sample). w.1) same))
  ]

  -- One step after another, up to the first panic.
  pub Keeps-bind :
      (t : Text) (s : x.Store) (o : Outcome x.Store) (f : x.Store → Outcome x.Store)
      → Keeps t s (final o)
      → ((a : x.Store) → Keeps t a (final (f a)))
      → Keeps t s (final (o >>= f))
  Keeps-bind t s (done a) f h k = Keeps-trans t s a (final (f a)) h (k a)
  Keeps-bind t s (panicked a) f h k = h

  pub set_values-Keeps :
      (c : Scope x) (gs : Dict Metric) (row : Row x) (vi : Dict ℕ) (s : x.Store)
      → Keeps c.tenant s (final (set_values x c gs row vi s))
  unfolding set_values
  set_values-Keeps c gs row [] s = λ n ks f. refl
  set_values-Keeps c gs row ((vname, idx) ∷ vi) s =
      Keeps-bind c.tenant s
        (written x c gs vname (tuple x c row) (gauge_value x (cell x row c.cols idx)) s)
        (set_values x c gs row vi)
        (written-Keeps c gs vname (tuple x c row) (gauge_value x (cell x row c.cols idx)) s
          (tuple-belongs c row))
        (set_values-Keeps c gs row vi)

  pub set_rows-Keeps :
      (c : Scope x) (gs : Dict Metric) (vi : Dict ℕ) (rows : List (Row x)) (s : x.Store)
      → Keeps c.tenant s (final (set_rows x c gs vi rows s))
  unfolding set_rows
  set_rows-Keeps c gs vi [] s = λ n ks f. refl
  set_rows-Keeps c gs vi (row ∷ rows) s =
      Keeps-bind c.tenant s (set_values x c gs row vi s) (set_rows x c gs vi rows)
        (set_values-Keeps c gs row vi s) (set_rows-Keeps c gs vi rows)

  pub delete_all-Keeps :
      (t : Text) (gs : Dict Metric) (ls : List Text) (s : x.Store)
      → belongs t ls ≡ true
      → Keeps t s (delete_all x gs ls s)
  unfolding delete_all
  delete_all-Keeps t [] ls s own = λ n ks f. refl
  delete_all-Keeps t ((_, g) ∷ gs) ls s own =
      Keeps-trans t s (x.delete s g ls) _ (delete-Keeps t g ls s own)
        (delete_all-Keeps t gs ls (x.delete s g ls) own)

  pub delete_dropped-Keeps :
      (t : Text) (gs : Dict Metric) (new prev : Tuples) (s : x.Store)
      → AreOwned t prev
      → Keeps t s (delete_dropped x gs new prev s)
  unfolding delete_dropped
  delete_dropped-Keeps t gs new [] s o n ks f = refl
  delete_dropped-Keeps t gs new ((sig, vals) ∷ prev) s (own, o) n ks f =
      elim (Option-cases (Dict.get new sig)) [
        | inl e ↦ rw e (
            delete_dropped-Keeps t gs new prev _ o n ks f ∙ delete_all-Keeps t gs vals s own n ks f)
        | inr (_, e) ↦ rw e (delete_dropped-Keeps t gs new prev s o n ks f)
      ]
