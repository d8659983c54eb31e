-- ===== src/Publisher/Signature.antt =====
-- The signature of a label tuple, its NUL-joined text, as a key (publisher.go).
use ducklake_metrics_daemon.Prelude.{
  subst, ◌≡◌, ◌≢◌, refl, sym, ap, ap₂, Bool, true, false, ◌||◌, Option, none, some, List, [], ◌∷◌,
  ◌++◌, arith, All, any, Bool-cases, Bool-eq_of_iff, inl, inr,
}
use ducklake_metrics_daemon.Prelude.Text.{Text, join, text_eq, text_eq_iff, texts_eq, texts_eq_iff}
use ducklake_metrics_daemon.Prelude.Dict
use ducklake_metrics_daemon.Prelude.Dict.{All-put, Dict, get-put}
use ducklake_metrics_daemon.Extern.{Extern}
use ducklake_metrics_daemon.Catalog.{Row}
use ducklake_metrics_daemon.Publisher.State.{Tuples}
use ducklake_metrics_daemon.Publisher.Apply.{signature, Scope, tuple, new_tuples}

-- A text without the separator.
abbrev pub IsNulFree : Text → Type 0
IsNulFree = All (λ b. b ≢ 0)

-- Label tuples that the separator cannot confuse.
pub record IsClean (ls : List Text) : Type 0 where
  pub some_label : ls ≢ []
  pub free : All IsNulFree ls

append_nul_inj :
    (s t r u : Text) → IsNulFree s → IsNulFree t → s ++ 0 ∷ r ≡ t ++ 0 ∷ u → (s ≡ t) × (r ≡ u)
append_nul_inj [] [] r u hs ht e = ground arith
append_nul_inj [] (b ∷ t) r u hs (hb, ht) e = ground arith
append_nul_inj (a ∷ s) [] r u (ha, hs) ht e = ground arith
append_nul_inj (a ∷ s) (b ∷ t) r u (ha, hs) (hb, ht) e = ground (arith, append_nul_inj s t r u)

not_append_nul : (s t r : Text) → IsNulFree s → s ≢ t ++ 0 ∷ r
not_append_nul [] [] r h e = cc
not_append_nul [] (b ∷ t) r h e = cc
not_append_nul (a ∷ s) [] r (ha, h) e = ground arith
not_append_nul (a ∷ s) (b ∷ t) r (ha, h) e = ground (arith, not_append_nul s t r h)

signature_inj_free :
    (a b : List Text)
    → a ≢ []
    → b ≢ []
    → All IsNulFree a
    → All IsNulFree b
    → signature a ≡ signature b
    → a ≡ b
unfolding signature join
signature_inj_free [] b na nb ha hb e = absurd (na refl)
signature_inj_free (s ∷ a) [] na nb ha hb e = absurd (nb refl)
signature_inj_free (s ∷ []) (t ∷ []) na nb ha hb e = ap (λ z. z ∷ []) e
signature_inj_free (s ∷ []) (t ∷ t' ∷ b) na nb (hs, _) hb e =
    absurd (not_append_nul s t (join (t' ∷ b) (0 ∷ [])) hs e)
signature_inj_free (s ∷ s' ∷ a) (t ∷ []) na nb ha (ht, _) e =
    absurd (not_append_nul t s (join (s' ∷ a) (0 ∷ [])) ht (sym e))
signature_inj_free (s ∷ s' ∷ a) (t ∷ t' ∷ b) na nb (hs, ha) (ht, hb) e =
    let (es, er) = append_nul_inj s t (join (s' ∷ a) (0 ∷ [])) (join (t' ∷ b) (0 ∷ [])) hs ht e in
    ap₂ ◌∷◌ es (signature_inj_free (s' ∷ a) (t' ∷ b) (λ p. cc) (λ p. cc) ha hb er)

-- Two label tuples that are not empty and have no NUL byte have one signature only if they are one
-- tuple.
pub signature_inj : (a b : List Text) → IsClean a → IsClean b → signature a ≡ signature b → a ≡ b
signature_inj a b ca cb = signature_inj_free a b ca.some_label cb.some_label ca.free cb.free

pub signature-texts_eq :
    (a b : List Text) → IsClean a → IsClean b → text_eq (signature a) (signature b) ≡ texts_eq a b
signature-texts_eq a b ca cb = Bool-eq_of_iff _ _ (
  λ h. (texts_eq_iff a b).1 (signature_inj a b ca cb ((text_eq_iff _ _).0 h)),
  λ h. (text_eq_iff _ _).1 (ap signature ((texts_eq_iff a b).0 h)),
)

-- A tracked map: each tuple under its signature, and without a NUL byte.
abbrev pub IsKeyed : Tuples → Type 0
IsKeyed = All (λ (e : Text × List Text). (e.0 ≡ signature e.1) × IsClean e.1)

abbrev pub is_some {ℓ} : {A : Type ℓ} → Option A → Bool
is_some none = false
is_some (some _) = true

-- One of the tracked tuples is `ks`.
abbrev pub in_tuples : List Text → Tuples → Bool
in_tuples ks [] = false
in_tuples ks ((_, vals) ∷ m) = texts_eq vals ks || in_tuples ks m

pub IsClean-in_tuples :
    (ks : List Text) (m : Tuples) → IsKeyed m → in_tuples ks m ≡ true → IsClean ks
IsClean-in_tuples ks [] k h = cc
IsClean-in_tuples ks ((sig, vals) ∷ m) ((_, c), k) h = elim (Bool-cases (texts_eq vals ks)) [
  | inl e ↦ subst IsClean ((texts_eq_iff vals ks).0 e) c
  | inr e ↦ IsClean-in_tuples ks m k (rw e at h)
]

in_tuples-put :
    (ks : List Text) (m : Tuples) (vals : List Text)
    → IsKeyed m
    → IsClean vals
    → in_tuples ks (Dict.put m (signature vals) vals) ≡ (texts_eq vals ks || in_tuples ks m)
unfolding Dict.put
in_tuples-put ks [] vals k c = refl
in_tuples-put ks ((sig, w) ∷ m) vals ((e, cw), k) c = ground (
  arith,
  in_tuples-put ks m vals k c,
  text_eq_iff sig (signature vals),
  signature_inj w vals cw c,
)

module _ (x : Extern) where
  abbrev pub AreClean : Scope x → List (Row x) → Type 0
  AreClean c = All (λ row. IsClean (tuple x c row))

  pub IsKeyed-new_tuples :
      (c : Scope x) (rows : List (Row x)) (m : Tuples)
      → AreClean c rows
      → IsKeyed m
      → IsKeyed (new_tuples x c rows m)
  unfolding new_tuples
  IsKeyed-new_tuples c [] m h k = k
  IsKeyed-new_tuples c (row ∷ rows) m (hr, h) k =
      IsKeyed-new_tuples c rows (Dict.put m (signature (tuple x c row)) (tuple x c row)) h (
        All-put (λ (e : Text × List Text). (e.0 ≡ signature e.1) × IsClean e.1) m
          (signature (tuple x c row)) (tuple x c row) k (refl, hr))

  -- The new tracking holds exactly the tuples of the rows.
  pub in_tuples-new_tuples :
      (c : Scope x) (rows : List (Row x)) (m : Tuples) (ks : List Text)
      → AreClean c rows
      → IsKeyed m
      → in_tuples ks (new_tuples x c rows m)
        ≡ (any (λ row. texts_eq (tuple x c row) ks) rows || in_tuples ks m)
  unfolding new_tuples
  in_tuples-new_tuples c [] m ks h k = refl
  in_tuples-new_tuples c (row ∷ rows) m ks (hr, h) k =
      let v = tuple x c row in
      let m' = Dict.put m (signature v) v in
      let k' : IsKeyed m' =
        All-put (λ (e : Text × List Text). (e.0 ≡ signature e.1) × IsClean e.1) m (signature v) v k
          (refl, hr) in
      ground (arith, in_tuples-new_tuples c rows m' ks h k', in_tuples-put ks m v k hr)

  -- A clean signature is found in the new tracking exactly if a row has its tuple.
  pub get-new_tuples :
      (c : Scope x) (rows : List (Row x)) (m : Tuples) (ks : List Text)
      → AreClean c rows
      → IsClean ks
      → is_some (Dict.get (new_tuples x c rows m) (signature ks))
        ≡ (any (λ row. texts_eq (tuple x c row) ks) rows || is_some (Dict.get m (signature ks)))
  unfolding new_tuples
  get-new_tuples c [] m ks h k = refl
  get-new_tuples c (row ∷ rows) m ks (hr, h) k =
      let v = tuple x c row in
      ground (
        arith,
        get-new_tuples c rows (Dict.put m (signature v) v) ks h k,
        get-put m (signature v) v (signature ks),
        signature-texts_eq v ks hr k,
      )
