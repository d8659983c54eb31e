-- ===== src/Publisher/Columns/ByName.antt =====
-- The positions that `indexLabelColumns` and `indexValueColumns` (publisher.go) find lead back to the
-- columns of these names.
use ducklake_metrics_daemon.Prelude.{
  ℕ, zero, suc, ◌+◌, ◌≡◌, ◌⊎◌, inl, inr, refl, ap₂, subst, true, ◌||◌, some, List, [], ◌∷◌, arith,
  any, get_or, if◌then◌else◌, Bool-cases, Option-cases,
}
use ducklake_metrics_daemon.Prelude.Text.{Text, text_eq, text_eq_iff}
use ducklake_metrics_daemon.Prelude.Dict
use ducklake_metrics_daemon.Prelude.Dict.{Dict, get-put, HasDistinctKeys, HasDistinctKeys-put}
use ducklake_metrics_daemon.Extern.{Extern}
use ducklake_metrics_daemon.Catalog.{Row}
use ducklake_metrics_daemon.Publisher.Coerce.{to_label_string}
use ducklake_metrics_daemon.Publisher.Columns.{
  by_name, label_indices, index_label_columns, value_indices, index_value_columns,
}
use ducklake_metrics_daemon.Publisher.Apply.{label_values}
use ducklake_metrics_daemon.Publisher.Signature.{is_some}
use ducklake_metrics_daemon.Publisher.Board.{has_columns, field, labels_of}

-- An index of the map leads to the column of the name.
abbrev Leads : List Text → Dict ℕ → Type 0
Leads cols m = (n : Text) (j : ℕ) → Dict.get m n ≡ some j → get_or cols j [] ≡ n

abbrev Knows : List Text → Dict ℕ → Type 0
Knows cols m = (n : Text) → is_some (Dict.get m n) ≡ any (λ c. text_eq c n) cols

by_name_lem :
    (i : ℕ) (cols : List Text) (m : Dict ℕ) (n : Text) (j : ℕ)
    → Dict.get (by_name i cols m) n ≡ some j
    → (Dict.get m n ≡ some j) ⊎ ((k : ℕ) × (j ≡ i + k) × (get_or cols k [] ≡ n))
unfolding by_name
by_name_lem i [] m n j h = inl h
by_name_lem i (c ∷ cols) m n j h = elim (by_name_lem (suc i) cols (Dict.put m c i) n j h) [
  | inr (k, e, f) ↦ inr (suc k, omega (arith, e), f)
  | inl old ↦ elim (Bool-cases (text_eq c n)) [
    | inl b ↦ inr (zero, ground (arith, b, old, get-put m c i n), (text_eq_iff c n).0 b)
    | inr b ↦ inl (ground (arith, b, old, get-put m c i n))
  ]
]

by_name-Leads : (cols : List Text) → Leads cols (by_name 0 cols [])
unfolding Dict.get
by_name-Leads cols n j h = elim (by_name_lem 0 cols [] n j h) [
  | inl none_ ↦ cc none_
  | inr (k, e, f) ↦ let same : j ≡ k = omega (arith, e) in rw same f
]

by_name_knows :
    (i : ℕ) (cols : List Text) (m : Dict ℕ) (n : Text)
    → is_some (Dict.get (by_name i cols m) n)
      ≡ (any (λ c. text_eq c n) cols || is_some (Dict.get m n))
unfolding by_name
by_name_knows i [] m n = refl
by_name_knows i (c ∷ cols) m n =
    ground (arith, by_name_knows (suc i) cols (Dict.put m c i) n, get-put m c i n)

by_name-Knows : (cols : List Text) → Knows cols (by_name 0 cols [])
unfolding Dict.get
by_name-Knows cols n = ground (arith, by_name_knows 0 cols [] n)

label_indices-cons :
    (m : Dict ℕ) (n : Text) (want : List Text) (li : List ℕ)
    → label_indices m (n ∷ want) ≡ some li
    → (i : ℕ) × (js : List ℕ) × (Dict.get m n ≡ some i)
      × (label_indices m want ≡ some js)
      × (li ≡ i ∷ js)
unfolding label_indices
label_indices-cons m n want li h = elim (Option-cases (Dict.get m n)) [
  | inl e ↦ absurd (ground (arith, e, h))
  | inr (i, e) ↦ elim (Option-cases (label_indices m want)) [
    | inl f ↦ absurd (ground (arith, e, f, h))
    | inr (js, f) ↦ (i, js, e, f, ground (arith, e, f, h))
  ]
]

module _ (x : Extern) where
  label_indices-some :
      (cols : List Text) (m : Dict ℕ) (want : List Text) (li : List ℕ) (row : Row x)
      → Leads cols m
      → label_indices m want ≡ some li
      → label_values x cols li row ≡ labels_of x want row
  unfolding label_indices label_values
  label_indices-some cols m [] [] row l h = refl
  label_indices-some cols m [] (i ∷ li) row l h = ground (arith, h)
  label_indices-some cols m (n ∷ want) li row l h =
      let (i, js, e, f, same) = label_indices-cons m n want li h in
      rw same (
        ap₂ (λ a as_. to_label_string x (field x row a) ∷ as_) (l n i e)
          (label_indices-some cols m want js row l f))

label_indices-is_some :
    (cols : List Text) (m : Dict ℕ) (want : List Text)
    → Knows cols m
    → is_some (label_indices m want) ≡ has_columns cols want
unfolding label_indices
label_indices-is_some cols m [] k = refl
label_indices-is_some cols m (n ∷ want) k = ground (arith, k n, label_indices-is_some cols m want k)

value_indices-is_some :
    (cols : List Text) (m : Dict ℕ) (want : List Text) (out : Dict ℕ)
    → Knows cols m
    → is_some (value_indices m want out) ≡ has_columns cols want
unfolding value_indices
value_indices-is_some cols m [] out k = refl
value_indices-is_some cols m (n ∷ want) out k = elim (Option-cases (Dict.get m n)) [
  | inl e ↦ ground (arith, e, k n)
  | inr (i, e) ↦ ground (arith, e, k n, value_indices-is_some cols m want (Dict.put out n i) k)
]

value_indices-some :
    (m : Dict ℕ) (want : List Text) (out vi : Dict ℕ)
    → HasDistinctKeys out
    → value_indices m want out ≡ some vi
    → HasDistinctKeys vi
      × ((v : Text)
          → Dict.get vi v ≡ (if any (λ w. text_eq w v) want then Dict.get m v else Dict.get out v))
unfolding value_indices
value_indices-some m [] out vi d h =
    let e : out ≡ vi = ground (arith, h) in (subst HasDistinctKeys e d, λ v. rw e refl)
value_indices-some m (n ∷ want) out vi d h = elim (Option-cases (Dict.get m n)) [
  | inl e ↦ absurd (ground (arith, e, h))
  | inr (i, e) ↦
      let (d', f) =
        value_indices-some m want (Dict.put out n i) vi (HasDistinctKeys-put out n i d)
          (ground (arith, e, h)) in
      (d', λ v. ground (arith, e, f v, get-put out n i v, text_eq_iff n v))
]

-- The two functions on a result's columns.
pub index_label_columns-some :
    (x : Extern) (cols want : List Text) (li : List ℕ) (row : Row x)
    → index_label_columns cols want ≡ some li
    → label_values x cols li row ≡ labels_of x want row
unfolding index_label_columns
index_label_columns-some x cols want li row h =
    label_indices-some x cols (by_name 0 cols []) want li row (by_name-Leads cols) h

pub index_label_columns-is_some :
    (cols want : List Text) → is_some (index_label_columns cols want) ≡ has_columns cols want
unfolding index_label_columns
index_label_columns-is_some cols want =
    label_indices-is_some cols (by_name 0 cols []) want (by_name-Knows cols)

pub index_value_columns-is_some :
    (cols want : List Text) → is_some (index_value_columns cols want) ≡ has_columns cols want
unfolding index_value_columns
index_value_columns-is_some cols want =
    value_indices-is_some cols (by_name 0 cols []) want [] (by_name-Knows cols)

has_columns-any :
    (cols want : List Text) (v : Text)
    → has_columns cols want ≡ true
    → any (λ w. text_eq w v) want ≡ true
    → any (λ c. text_eq c v) cols ≡ true
has_columns-any cols [] v h b = cc b
has_columns-any cols (n ∷ want) v h b = elim (Bool-cases (text_eq n v)) [
  | inl e ↦
      subst (λ z. any (λ c. text_eq c z) cols ≡ true) ((text_eq_iff n v).0 e) (ground (arith, h))
  | inr e ↦ has_columns-any cols want v (ground (arith, h)) (ground (arith, b, e))
]

-- Each wanted name has a position of its column, and no other name has one.
pub index_value_columns-some :
    (cols want : List Text) (vi : Dict ℕ)
    → index_value_columns cols want ≡ some vi
    → HasDistinctKeys vi
      × ((v : Text)
          → any (λ w. text_eq w v) want ≡ true
          → (j : ℕ) × (Dict.get vi v ≡ some j) × (get_or cols j [] ≡ v))
      × ((v : Text) (j : ℕ) → Dict.get vi v ≡ some j → any (λ w. text_eq w v) want ≡ true)
unfolding Dict.get
index_value_columns-some cols want vi h =
    let (d, f) =
      value_indices-some (by_name 0 cols []) want [] vi tt (unfold index_value_columns in h) in
    let all : has_columns cols want ≡ true =
      ground (arith, h, index_value_columns-is_some cols want) in
    (
      d,
      λ v b. elim (Option-cases (Dict.get (by_name 0 cols []) v)) [
        | inl e ↦
            absurd (ground (arith, e, by_name-Knows cols v, has_columns-any cols want v all b))
        | inr (j, e) ↦ (j, ground (arith, f v, b, e), by_name-Leads cols v j e)
      ],
      λ v j e. elim (Bool-cases (any (λ w. text_eq w v) want)) [
        | inl b ↦ b
        | inr b ↦ absurd (ground (arith, b, e, f v))
      ],
    )
