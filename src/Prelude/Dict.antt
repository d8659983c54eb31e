-- ===== src/Prelude/Dict.antt =====
-- Go maps with string keys, as association lists. The order of the list stands for the order in
-- which a `range` visits the map, which Go leaves open.
use mathlib.Core.Path.{◌≡◌, refl, subst₂}
use mathlib.Core.List.{List, [], ◌∷◌}
use mathlib.Core.Option.{Option, none, some}
use native.Mathlib.Omega.{arith}
use mathlib.Core.Logic.{inl, inr}
use ducklake_metrics_daemon.Prelude.Lists.{All}
use ducklake_metrics_daemon.Prelude.Tests.{if◌then◌else◌, Bool-cases}
use ducklake_metrics_daemon.Prelude.Text.{Text, text_eq, text_eq_iff}

abbrev pub Dict {ℓ} : Type ℓ → Type ℓ
Dict V = List (Text × V)

module _ {ℓ} {V : Type ℓ} where
  unfoldable pub get : Dict V → Text → Option V
  get [] k = none
  get ((j, v) ∷ m) k = if text_eq j k then some v else get m k

  unfoldable pub put : Dict V → Text → V → Dict V
  put [] k v = (k, v) ∷ []
  put ((j, w) ∷ m) k v = if text_eq j k then (k, v) ∷ m else (j, w) ∷ put m k v

  unfoldable pub delete : Dict V → Text → Dict V
  delete [] k = []
  delete ((j, v) ∷ m) k = let rest = delete m k in if text_eq j k then rest else (j, v) ∷ rest

  abbrev pub keys : Dict V → List Text
  keys [] = []
  keys ((k, _) ∷ m) = k ∷ keys m

  pub get-put :
      (m : Dict V) (k : Text) (v : V) (j : Text)
      → get (put m k v) j ≡ (if text_eq k j then some v else get m j)
  unfolding get put
  get-put [] k v j = refl
  get-put ((i, w) ∷ m) k v j =
      ground (arith, text_eq_iff k j, text_eq_iff i k, text_eq_iff i j, get-put m k v j)

  pub get-delete :
      (m : Dict V) (k j : Text) → get (delete m k) j ≡ (if text_eq k j then none else get m j)
  unfolding get delete
  get-delete [] k j = ground arith
  get-delete ((i, w) ∷ m) k j =
      ground (arith, text_eq_iff k j, text_eq_iff i k, text_eq_iff i j, get-delete m k j)

-- A predicate on all entries of a map.
module _ {ℓ κ} {V : Type ℓ} (P : Text × V → Type κ) where
  pub All-put : (m : Dict V) (k : Text) (v : V) → All P m → P (k, v) → All P (put m k v)
  unfolding put
  All-put [] k v h p = (p, tt)
  All-put ((j, w) ∷ m) k v (pj, h) p = elim (Bool-cases (text_eq j k)) [
    | inl e ↦ rw e (p, h)
    | inr e ↦ rw e (pj, All-put m k v h p)
  ]

  pub All-delete : (m : Dict V) (k : Text) → All P m → All P (delete m k)
  unfolding delete
  All-delete [] k h = tt
  All-delete ((j, w) ∷ m) k (pj, h) = elim (Bool-cases (text_eq j k)) [
    | inl e ↦ rw e (All-delete m k h)
    | inr e ↦ rw e (pj, All-delete m k h)
  ]

  pub All-get : (m : Dict V) (k : Text) (v : V) → All P m → get m k ≡ some v → P (k, v)
  All-get [] k v h e = unfold get in cc e
  All-get ((j, w) ∷ m) k v (pj, h) e = elim (Bool-cases (text_eq j k)) [
    | inl same ↦
        let keys : j ≡ k = (text_eq_iff j k).0 same in
        let vals : w ≡ v = unfold get in ground arith in subst₂ (λ a b. P (a, b)) keys vals pj
    | inr other ↦ All-get m k v h (unfold get in ground arith)
  ]

module _ {ℓ} {V : Type ℓ} where
  -- No key stands twice, as in every map that `put` builds.
  abbrev pub HasDistinctKeys : Dict V → Type ℓ
  HasDistinctKeys [] = Unit
  HasDistinctKeys ((k, _) ∷ m) = (get m k ≡ none) × HasDistinctKeys m

  pub HasDistinctKeys-put :
      (m : Dict V) (k : Text) (v : V) → HasDistinctKeys m → HasDistinctKeys (put m k v)
  unfolding get put
  HasDistinctKeys-put [] k v h = (refl, tt)
  HasDistinctKeys-put ((j, w) ∷ m) k v (new, h) =
      ground (arith, text_eq_iff j k, text_eq_iff k j, get-put m k v j, HasDistinctKeys-put m k v h)

-- Reading a map of maps through a missing outer key gives Go's nil map.
abbrev pub or_empty {ℓ} : {V : Type ℓ} → Option (Dict V) → Dict V
or_empty none = []
or_empty (some m) = m
