-- ===== src/Prelude/Sort.antt =====
-- `sort.Strings` and `sort.Slice` by a string key, and what a sorted slice shows.
use mathlib.Core.Logic.{inl, inr}
use mathlib.Core.Path.{subst, ap₂, sym, ◌∙◌, ◌≡◌, refl}
use mathlib.Core.Bool.{true, false}
use mathlib.Core.List.{List, [], ◌∷◌}
use mathlib.Core.Option.{Option, none, some}
use native.Mathlib.Omega.{arith}
use ducklake_metrics_daemon.Prelude.Tests.{Bool-cases, if◌then◌else◌}
use ducklake_metrics_daemon.Prelude.Text.{text_eq_refl, Text, text_eq, text_eq_iff}
use ducklake_metrics_daemon.Prelude.Text.Order.{
  text_lt_trans, text_lt_connected, text_lt, text_lt_irrefl,
}

module _ {ℓ} {A : Type ℓ} (key : A → Text) where
  unfoldable pub insert : A → List A → List A
  insert x [] = x ∷ []
  insert x (y ∷ ys) =
      let rest = insert x ys in if text_lt (key y) (key x) then y ∷ rest else x ∷ y ∷ ys

  unfoldable pub sort : List A → List A
  unfolding insert
  sort [] = []
  sort (x ∷ xs) = insert x (sort xs)

  -- The first element with this key.
  unfoldable pub find : List A → Text → Option A
  find [] k = none
  find (x ∷ xs) k = if text_eq (key x) k then some x else find xs k

  -- Every element's key is below the next one's.
  abbrev pub IsAscending : List A → Type 0
  IsAscending [] = Unit
  IsAscending (x ∷ []) = Unit
  IsAscending (x ∷ y ∷ ys) = (text_lt (key x) (key y) ≡ true) × IsAscending (y ∷ ys)

  -- No key occurs twice.
  abbrev pub IsDistinct : List A → Type ℓ
  IsDistinct [] = Unit
  IsDistinct (x ∷ xs) = (find xs (key x) ≡ none) × IsDistinct xs

  lt_ne : (s t : Text) → text_lt s t ≡ true → text_eq s t ≡ false
  lt_ne s t h = ground (arith, text_eq_iff s t, text_lt_irrefl t)

  find-insert :
      (x : A) (l : List A) (k : Text)
      → find (insert x l) k ≡ (if text_eq (key x) k then some x else find l k)
  unfolding find insert
  find-insert x [] k = refl
  find-insert x (y ∷ ys) k = ground (
    arith,
    find-insert x ys k,
    lt_ne (key y) (key x),
    text_eq_iff (key y) k,
    text_eq_iff (key x) k,
  )

  pub find-sort : (l : List A) (k : Text) → find (sort l) k ≡ find l k
  unfolding find sort
  find-sort [] k = refl
  find-sort (x ∷ xs) k = rw (find-insert x (sort xs) k, find-sort xs k)

  connected : (s t : Text) → text_eq s t ≡ false → text_lt s t ≡ false → text_lt t s ≡ true
  connected s t e h =
      ground (arith, text_eq_iff s t, text_lt_connected s t, Bool-cases (text_lt t s))

  IsAscending-insert :
      (x : A) (l : List A) → find l (key x) ≡ none → IsAscending l → IsAscending (insert x l)
  unfolding find insert
  IsAscending-insert x [] h a = tt
  IsAscending-insert x (y ∷ []) h a = ground (arith, connected (key y) (key x))
  IsAscending-insert x (y ∷ z ∷ zs) h a =
      ground (arith, connected (key y) (key x), IsAscending-insert x (z ∷ zs))

  -- Sorting elements with distinct keys orders them strictly.
  pub IsAscending-sort : (l : List A) → IsDistinct l → IsAscending (sort l)
  unfolding sort
  IsAscending-sort [] d = tt
  IsAscending-sort (x ∷ xs) (new, d) =
      IsAscending-insert x (sort xs) (find-sort xs (key x) ∙ new) (IsAscending-sort xs d)

  find_below :
      (x : A) (l : List A) (k : Text)
      → IsAscending (x ∷ l)
      → text_lt k (key x) ≡ true
      → find (x ∷ l) k ≡ none
  unfolding find
  find_below x [] k a h = ground (arith, text_eq_iff (key x) k, text_lt_irrefl (key x))
  find_below x (y ∷ ys) k (lt, a) h = ground (
    arith,
    text_eq_iff (key x) k,
    text_lt_irrefl (key x),
    find_below y ys k a,
    text_lt_trans k (key x) (key y),
  )

  find_head : (x : A) (l : List A) → find (x ∷ l) (key x) ≡ some x
  unfolding find
  find_head x l = rw (text_eq_refl (key x))

  find_tail :
      (x : A) (l : List A) (k : Text)
      → IsAscending (x ∷ l)
      → find l k ≡ (if text_eq (key x) k then none else find (x ∷ l) k)
  unfolding find
  find_tail x [] k a = ground arith
  find_tail x (y ∷ ys) k (lt, a) = ground (arith, text_eq_iff (key x) k, find_below y ys k a)

  find_congr_tail :
      (x : A) (l r : List A) (k : Text)
      → IsAscending (x ∷ l)
      → IsAscending (x ∷ r)
      → find (x ∷ l) k ≡ find (x ∷ r) k
      → find l k ≡ find r k
  find_congr_tail x l r k a b e = rw (find_tail x l k a, find_tail x r k b, e)

  IsAscending-tail : (x : A) (l : List A) → IsAscending (x ∷ l) → IsAscending l
  IsAscending-tail x [] a = tt
  IsAscending-tail x (y ∷ ys) a = a.1

  heads :
      (x : A) (xs : List A) (y : A) (ys : List A)
      → IsAscending (x ∷ xs)
      → IsAscending (y ∷ ys)
      → find (x ∷ xs) (key x) ≡ find (y ∷ ys) (key x)
      → find (x ∷ xs) (key y) ≡ find (y ∷ ys) (key y)
      → text_lt (key x) (key y) ≡ false
  heads x xs y ys a b e e' = elim (Bool-cases (text_lt (key x) (key y))) [
    | inl lt ↦ cc (e, find_head x xs, find_below y ys (key x) b lt)
    | inr ge ↦ ge
  ]

  same_head :
      (x : A) (xs : List A) (y : A) (ys : List A)
      → IsAscending (x ∷ xs)
      → IsAscending (y ∷ ys)
      → ((k : Text) → find (x ∷ xs) k ≡ find (y ∷ ys) k)
      → x ≡ y
  same_head x xs y ys a b h =
      let keys : key x ≡ key y =
        text_lt_connected (key x) (key y) (heads x xs y ys a b (h (key x)) (h (key y)))
          (heads y ys x xs b a (sym (h (key y))) (sym (h (key x)))) in
      cc (h (key x), find_head x xs, find_head y ys, keys)

  -- An ascending list is determined by what `find` reads from it.
  pub IsAscending-eq_of_find :
      (xs ys : List A)
      → IsAscending xs
      → IsAscending ys
      → ((k : Text) → find xs k ≡ find ys k)
      → xs ≡ ys
  IsAscending-eq_of_find [] [] a b h = refl
  IsAscending-eq_of_find [] (y ∷ ys) a b h = unfold find in cc (h (key y), find_head y ys)
  IsAscending-eq_of_find (x ∷ xs) [] a b h = unfold find in cc (h (key x), find_head x xs)
  IsAscending-eq_of_find (x ∷ xs) (y ∷ ys) a b h =
      let e : x ≡ y = same_head x xs y ys a b h in
      let b' : IsAscending (x ∷ ys) = subst (λ z. IsAscending (z ∷ ys)) (sym e) b in
      let tails : (k : Text) → find xs k ≡ find ys k = λ k.
        find_congr_tail x xs ys k a b'
          (subst (λ z. find (x ∷ xs) k ≡ find (z ∷ ys) k) (sym e) (h k)) in
      ap₂ ◌∷◌ e
        (IsAscending-eq_of_find xs ys (IsAscending-tail x xs a) (IsAscending-tail y ys b) tails)

  -- An ascending list has no key twice.
  pub IsAscending-IsDistinct : (xs : List A) → IsAscending xs → IsDistinct xs
  IsAscending-IsDistinct [] a = tt
  IsAscending-IsDistinct (x ∷ xs) a = (
    find_tail x xs (key x) a ∙ rw (text_eq_refl (key x)) refl,
    IsAscending-IsDistinct xs (IsAscending-tail x xs a),
  )
