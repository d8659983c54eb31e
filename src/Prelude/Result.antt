-- ===== src/Prelude/Result.antt =====
-- A Go function that returns `(value, error)`.
use mathlib.Core.Path.{◌≡◌, refl}
use mathlib.Core.Logic.{◌⊎◌, inl, inr}

-- `err` carries the error that is not nil.
pub data Result {ℓ κ} (E : Type κ) (A : Type ℓ) : Type (ℓ ⊔ κ) where
  err : E → Result E A
  ok : A → Result E A

module _ {ℓ κ μ} {Error : Type κ} {S : Type ℓ} {T : Type μ} where
  infixl 5 ◌>>=◌
  abbrev pub ◌>>=◌ : Result Error S → (S → Result Error T) → Result Error T
  err e >>= next = err e
  ok s >>= next = next s

  -- What a chain that succeeds went through.
  pub >>=-eq-ok :
      (next : S → Result Error T) (r : Result Error S) {t : T}
      → (r >>= next) ≡ ok t
      → (s : S) × (next s ≡ ok t) × (r ≡ ok s)
  >>=-eq-ok next (err e) h = cc
  >>=-eq-ok next (ok s) h = (s, h, refl)

pub Result-cases {ℓ κ} :
    {Error : Type κ} {S : Type ℓ} (r : Result Error S)
    → ((e : Error) × (r ≡ err e)) ⊎ ((s : S) × (r ≡ ok s))
Result-cases (err e) = inl (e, refl)
Result-cases (ok s) = inr (s, refl)
