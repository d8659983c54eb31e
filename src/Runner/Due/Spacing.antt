-- ===== src/Runner/Due/Spacing.antt =====
-- What is due on a tick, and how far apart the runs of one query are (runner.go).
use ducklake_metrics_daemon.Prelude.{
  ◌⊎◌, ◌≡◌, refl, ◌∙◌, Bool, true, false, not, Option, none, some, List, [], ◌∷◌, arith, any, All,
  if◌then◌else◌, Bool-cases, inl, inr,
}
use ducklake_metrics_daemon.Prelude.Int.{
  ℤ, pos, ltb_ℤ, ◌*ℤ◌, ◌-ℤ◌, ◌+ℤ◌, ◌≤ℤ◌, ◌<ℤ◌, IsInt64, int64-of_IsInt64,
}
use ducklake_metrics_daemon.Prelude.Text.{Text, text_eq, text_eq_iff}
use ducklake_metrics_daemon.Prelude.Dict
use ducklake_metrics_daemon.Prelude.Dict.{Dict, get-put}
use ducklake_metrics_daemon.Prelude.Sort.{find, IsDistinct}
use ducklake_metrics_daemon.Queries.{Query}
use ducklake_metrics_daemon.Queries.Merge.{name_of}
use ducklake_metrics_daemon.Runner.Due.{
  has_interval, is_early, is_waiting, due_loop, due_queries, time_sub, seconds,
}

abbrev pub is_some {ℓ} : {A : Type ℓ} → Option A → Bool
is_some none = false
is_some (some _) = true

-- The list has a query of this name.
abbrev pub dispatches : List Query → Text → Bool
dispatches due n = is_some (find name_of due n)

find-name : (qs : List Query) (n : Text) (q : Query) → find name_of qs n ≡ some q → q.name ≡ n
unfolding find
find-name [] n q h = cc
find-name (r ∷ rs) n q h = ground (arith, text_eq_iff r.name n, find-name rs n q)

due_loop_absent :
    (qs : List Query) (m : Dict ℤ) (now : ℤ) (n : Text)
    → find name_of qs n ≡ none
    → (find name_of (due_loop qs m now).0 n ≡ none)
      × (Dict.get (due_loop qs m now).1 n ≡ Dict.get m n)
unfolding due_loop find
due_loop_absent [] m now n h = (refl, refl)
due_loop_absent (r ∷ rs) m now n h = ground (
  arith,
  due_loop_absent rs m now n,
  due_loop_absent rs (Dict.put m r.name now) now n,
  get-put m r.name now n,
)

is_waiting-put :
    (m : Dict ℤ) (now : ℤ) (k : Text) (v : ℤ) (q : Query)
    → text_eq k q.name ≡ false
    → is_waiting (Dict.put m k v) now q ≡ is_waiting m now q
is_waiting-put m now k v q h = unfold is_waiting in rw (get-put m k v q.name, h)

due_loop-find :
    (qs : List Query) (m : Dict ℤ) (now : ℤ) (q : Query)
    → IsDistinct name_of qs
    → find name_of qs q.name ≡ some q
    → (dispatches (due_loop qs m now).0 q.name ≡ not (is_waiting m now q))
      × (Dict.get (due_loop qs m now).1 q.name
          ≡ (if is_waiting m now q then Dict.get m q.name else some now))
unfolding due_loop find
due_loop-find [] m now q d h = cc
due_loop-find (r ∷ rs) m now q (new, d) h = elim (Bool-cases (text_eq r.name q.name)) [
  | inl e ↦ ground (
    arith,
    due_loop_absent rs m now q.name,
    due_loop_absent rs (Dict.put m r.name now) now q.name,
    get-put m r.name now q.name,
    text_eq_iff r.name q.name,
  )
  | inr e ↦ ground (
    arith,
    due_loop-find rs m now q d,
    due_loop-find rs (Dict.put m r.name now) now q d,
    get-put m r.name now q.name,
    is_waiting-put m now r.name now q,
  )
]

any_interval :
    (qs : List Query) (q : Query)
    → find name_of qs q.name ≡ some q
    → has_interval q ≡ true
    → any has_interval qs ≡ true
unfolding find
any_interval [] q h i = cc
any_interval (r ∷ rs) q h i = ground (arith, any_interval rs q, text_eq_iff r.name q.name)

due_queries-find :
    (qs : List Query) (m : Dict ℤ) (now : ℤ) (q : Query)
    → IsDistinct name_of qs
    → find name_of qs q.name ≡ some q
    → has_interval q ≡ true
    → (dispatches (due_queries qs m now).0 q.name ≡ not (is_early (Dict.get m q.name) now q))
      × (Dict.get (due_queries qs m now).1 q.name
          ≡ (if is_early (Dict.get m q.name) now q then Dict.get m q.name else some now))
due_queries-find qs m now q d h i =
    let w : is_waiting m now q ≡ is_early (Dict.get m q.name) now q = unfold is_waiting in rw i in
    let l : due_queries qs m now ≡ due_loop qs m now =
      unfold due_queries in rw (any_interval qs q h i) in
    rw (l, ← w) (due_loop-find qs m now q d h)

-- The window of a query, in nanoseconds.
abbrev pub window : Query → ℤ
window q = q.interval_seconds *ℤ pos 1000000000

-- A clock reading after the epoch.
pub record IsTime (t : ℤ) : Type 0 where
  pub nonneg : pos 0 ≤ℤ t
  pub fits : IsInt64 t

sub_lt : (t u w : ℤ) → ltb_ℤ (t -ℤ u) w ≡ ltb_ℤ t (u +ℤ w)
unfolding ◌-ℤ◌ ◌+ℤ◌
sub_lt t u w = ground arith

time_sub-exact : (t u : ℤ) → IsTime t → IsTime u → time_sub t u ≡ t -ℤ u
unfolding time_sub ◌-ℤ◌
time_sub-exact t u ht hu = ground arith

is_early_iff :
    (u t : ℤ) (q : Query)
    → IsTime t
    → IsTime u
    → IsInt64 (window q)
    → is_early (some u) t q ≡ ltb_ℤ t (u +ℤ window q)
is_early_iff u t q ht hu hw =
    unfold is_early seconds in
    rw (time_sub-exact t u ht hu, int64-of_IsInt64 (window q) hw) (sub_lt t u (window q))

-- The due lists of the ticks at these times.
unfoldable pub ticks : List Query → Dict ℤ → List ℤ → List (ℤ × List Query)
ticks qs m [] = []
ticks qs m (t ∷ ts) = let (due, m') = due_queries qs m t in (t, due) ∷ ticks qs m' ts

-- With the last run at `o`: the query is due exactly on its first tick and on every tick at which
-- its window has passed since the run before.
abbrev pub IsSpaced : Query → Option ℤ → List (ℤ × List Query) → Type 0
IsSpaced q o [] = Unit
IsSpaced q none ((t, due) ∷ log) = (dispatches due q.name ≡ true) × IsSpaced q (some t) log
IsSpaced q (some u) ((t, due) ∷ log) =
    ((dispatches due q.name ≡ true) × (u +ℤ window q ≤ℤ t) × IsSpaced q (some t) log)
    ⊎ ((dispatches due q.name ≡ false) × (t <ℤ u +ℤ window q) × IsSpaced q (some u) log)

abbrev pub IsPast : Option ℤ → Type 0
IsPast none = Unit
IsPast (some u) = IsTime u

module _ (qs : List Query) (q : Query) where
  due_first :
      (m : Dict ℤ) (t : ℤ)
      → IsDistinct name_of qs
      → find name_of qs q.name ≡ some q
      → has_interval q ≡ true
      → Dict.get m q.name ≡ none
      → (dispatches (due_queries qs m t).0 q.name ≡ true)
        × (Dict.get (due_queries qs m t).1 q.name ≡ some t)
  due_first m t d h i e = unfold is_early in ground (arith, due_queries-find qs m t q d h i)

  due_again :
      (m : Dict ℤ) (t u : ℤ)
      → IsDistinct name_of qs
      → find name_of qs q.name ≡ some q
      → has_interval q ≡ true
      → Dict.get m q.name ≡ some u
      → (dispatches (due_queries qs m t).0 q.name ≡ not (is_early (some u) t q))
        × (Dict.get (due_queries qs m t).1 q.name
            ≡ (if is_early (some u) t q then some u else some t))
  due_again m t u d h i e = rw e at (due_queries-find qs m t q d h i)

  -- For a query with an interval whose window fits int64, in a list without repeated names, and
  -- clock readings from the epoch on that fit int64: the query is due on its first tick, and then
  -- on exactly the ticks at which its whole window has passed since its last run.
  pub ticks-IsSpaced :
      (m : Dict ℤ) (ts : List ℤ) (o : Option ℤ)
      → IsDistinct name_of qs
      → find name_of qs q.name ≡ some q
      → has_interval q ≡ true
      → IsInt64 (window q)
      → Dict.get m q.name ≡ o
      → IsPast o
      → All IsTime ts
      → IsSpaced q o (ticks qs m ts)
  unfolding ticks
  ticks-IsSpaced m [] o d h i w e p _ = tt
  ticks-IsSpaced m (t ∷ ts) none d h i w e p (ht, hs) =
      let (disp, next) = due_first m t d h i e in
      (disp, ticks-IsSpaced (due_queries qs m t).1 ts (some t) d h i w next ht hs)
  ticks-IsSpaced m (t ∷ ts) (some u) d h i w e p (ht, hs) =
      let (disp, next) = due_again m t u d h i e in
      elim (Bool-cases (is_early (some u) t q)) [
        | inl early ↦ inr (
          disp ∙ rw early,
          ground (arith, is_early_iff u t q ht p w),
          ticks-IsSpaced (due_queries qs m t).1 ts (some u) d h i w (next ∙ rw early) p hs,
        )
        | inr late ↦ inl (
          disp ∙ rw late,
          ground (arith, is_early_iff u t q ht p w),
          ticks-IsSpaced (due_queries qs m t).1 ts (some t) d h i w (next ∙ rw late) ht hs,
        )
      ]
