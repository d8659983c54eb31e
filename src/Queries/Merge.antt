-- ===== src/Queries/Merge.antt =====
-- `Merge` of queries.go: built-in and user queries by name, the user's first, without the disabled.
use ducklake_metrics_daemon.Prelude.{
  sym, ◌≡◌, refl, ◌∙◌, Bool, false, Option, none, some, List, [], ◌∷◌, arith, if◌then◌else◌,
}
use ducklake_metrics_daemon.Prelude.Text.{Text, text_eq, text_eq_iff}
use ducklake_metrics_daemon.Prelude.Dict
use ducklake_metrics_daemon.Prelude.Dict.{Dict, get-put}
use ducklake_metrics_daemon.Prelude.Sort.{
  sort, find, find-sort, IsAscending, IsDistinct, IsAscending-sort, IsAscending-eq_of_find,
}
use ducklake_metrics_daemon.Queries.{Query}

abbrev pub name_of : Query → Text
name_of q = q.name

-- `disable[name]`: a missing key reads false.
abbrev pub is_disabled : Dict Bool → Text → Bool
is_disabled d n = elim (Dict.get d n) [ none ↦ false | some b ↦ b ]

-- The `for` that fills `byName`.
pub fill : Dict Query → List Query → Dict Query
fill m [] = m
fill m (q ∷ qs) = fill (Dict.put m q.name q) qs

-- The `for` over `byName`, in the order of the map.
pub enabled : Dict Bool → Dict Query → List Query
enabled d [] = []
enabled d ((n, q) ∷ m) = let rest = enabled d m in if is_disabled d q.name then rest else q ∷ rest

unfoldable pub sort_by_name : List Query → List Query
sort_by_name qs = sort name_of qs

unfoldable pub merge : List Query → List Query → Dict Bool → List Query
unfolding fill enabled sort_by_name
merge builtins user disable = sort_by_name (enabled disable (fill (fill [] builtins) user))

-- The last query of a list with this name.
abbrev pub last_named : List Query → Text → Option Query → Option Query
last_named [] n o = o
last_named (q ∷ qs) n o = last_named qs n (if text_eq q.name n then some q else o)

get-fill :
    (m : Dict Query) (qs : List Query) (n : Text)
    → Dict.get (fill m qs) n ≡ last_named qs n (Dict.get m n)
unfolding fill
get-fill m [] n = refl
get-fill m (q ∷ qs) n = get-fill (Dict.put m q.name q) qs n ∙ rw (get-put m q.name q n)

-- Every entry stands under its own name, and no name twice.
abbrev pub IsKeyed : Dict Query → Type 0
IsKeyed [] = Unit
IsKeyed ((n, q) ∷ m) = (n ≡ q.name) × (Dict.get m n ≡ none) × IsKeyed m

IsKeyed-put : (m : Dict Query) (q : Query) → IsKeyed m → IsKeyed (Dict.put m q.name q)
unfolding Dict.put Dict.get
IsKeyed-put [] q k = (refl, refl, tt)
IsKeyed-put ((n, r) ∷ m) q (e, new, k) =
    ground
      (arith, text_eq_iff n q.name, text_eq_iff q.name n, IsKeyed-put m q k, get-put m q.name q n)

IsKeyed-fill : (m : Dict Query) (qs : List Query) → IsKeyed m → IsKeyed (fill m qs)
unfolding fill
IsKeyed-fill m [] k = k
IsKeyed-fill m (q ∷ qs) k = IsKeyed-fill (Dict.put m q.name q) qs (IsKeyed-put m q k)

find-enabled :
    (d : Dict Bool) (m : Dict Query) (n : Text)
    → IsKeyed m
    → find name_of (enabled d m) n ≡ (if is_disabled d n then none else Dict.get m n)
unfolding find enabled Dict.get
find-enabled d [] n k = ground arith
find-enabled d ((j, q) ∷ m) n (e, new, k) =
    ground (arith, find-enabled d m n k, text_eq_iff j n, text_eq_iff q.name n)

IsDistinct-enabled : (d : Dict Bool) (m : Dict Query) → IsKeyed m → IsDistinct name_of (enabled d m)
unfolding find enabled Dict.get
IsDistinct-enabled d [] k = tt
IsDistinct-enabled d ((j, q) ∷ m) (e, new, k) =
    ground (arith, IsDistinct-enabled d m k, find-enabled d m q.name k)

IsKeyed-by_name : (builtins user : List Query) → IsKeyed (fill (fill [] builtins) user)
IsKeyed-by_name builtins user = IsKeyed-fill (fill [] builtins) user (IsKeyed-fill [] builtins tt)

get-by_name :
    (builtins user : List Query) (n : Text)
    → Dict.get (fill (fill [] builtins) user) n ≡ last_named user n (last_named builtins n none)
get-by_name builtins user n =
    get-fill (fill [] builtins) user n ∙ rw (get-fill [] builtins n) (unfold Dict.get in refl)

-- Under each name the merged list has the last user query of that name, else the last built-in one,
-- and nothing under a disabled name, whether built-in or user.
pub find-merge :
    (builtins user : List Query) (disable : Dict Bool) (n : Text)
    → find name_of (merge builtins user disable) n
      ≡ (if is_disabled disable n then none else last_named user n (last_named builtins n none))
unfolding merge
find-merge builtins user disable n =
    find-sort name_of (enabled disable (fill (fill [] builtins) user)) n
    ∙ find-enabled disable _ n (IsKeyed-by_name builtins user)
    ∙ rw (get-by_name builtins user n)

-- The merged list is strictly ascending by name.
pub merge-IsAscending :
    (builtins user : List Query) (disable : Dict Bool)
    → IsAscending name_of (merge builtins user disable)
unfolding merge
merge-IsAscending builtins user disable =
    IsAscending-sort name_of _ (IsDistinct-enabled disable _ (IsKeyed-by_name builtins user))

-- The map of `Merge` visited in any order gives the same list: so does every map without repeated
-- names that reads as `byName`.
pub merge_order_independent :
    (builtins user : List Query) (disable : Dict Bool) (m : Dict Query)
    → IsKeyed m
    → ((n : Text) → Dict.get m n ≡ last_named user n (last_named builtins n none))
    → sort_by_name (enabled disable m) ≡ merge builtins user disable
unfolding sort_by_name
merge_order_independent builtins user disable m k same =
    IsAscending-eq_of_find name_of _ _ (IsAscending-sort name_of _ (IsDistinct-enabled disable m k))
      (merge-IsAscending builtins user disable)
      λ n.
        find-sort name_of (enabled disable m) n
        ∙ find-enabled disable m n k
        ∙ rw (same n) (sym (find-merge builtins user disable n))
