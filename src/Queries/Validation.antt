-- ===== src/Queries/Validation.antt =====
-- What `validate` accepts, and that a loaded library holds only valid queries (queries.go).
use ducklake_metrics_daemon.Prelude.{
  subst, sym, ◌∙◌, ap, is_empty_iff, ℕ, suc, ◌+◌, ◌≤◌, ◌≡◌, ◌≢◌, ◌↔◌, ◌⊎◌, refl, true, Option, none,
  some, List, [], ◌∷◌, ◌++◌, arith, All, length, Option-cases, inl, inr,
}
use ducklake_metrics_daemon.Prelude.Int.{pos, ◌≤ℤ◌}
use ducklake_metrics_daemon.Prelude.Text.{Text}
use ducklake_metrics_daemon.Prelude.Result.{ok, err}
use ducklake_metrics_daemon.Queries.{
  Query, QueryError, LoadError, invalid, name_re, name_tail, is_letter, is_digit, validate,
  check_all, checked, load,
}

abbrev pub IsLetter : ℕ → Type 0
IsLetter c = ((b'a' ≤ c) × (c ≤ b'z')) ⊎ ((b'A' ≤ c) × (c ≤ b'Z')) ⊎ (c ≡ b'_')

abbrev pub IsWord : ℕ → Type 0
IsWord c = IsLetter c ⊎ ((b'0' ≤ c) × (c ≤ b'9'))

-- A metric-safe identifier.
abbrev pub IsName : Text → Type 0
IsName [] = ⊥
IsName (c ∷ s) = IsLetter c × All IsWord s

pub record IsValid (q : Query) : Type 0 where
  pub name : IsName q.name
  pub help : q.help ≢ []
  pub values : q.values ≢ []
  pub sql : q.sql ≢ []
  pub interval : pos 0 ≤ℤ q.interval_seconds

IsLetter-iff : (c : ℕ) → (is_letter c ≡ true) ↔ IsLetter c
unfolding is_letter
IsLetter-iff c = ground arith

name_tail_iff : (s : Text) → (name_tail s ≡ true) ↔ All IsWord s
unfolding name_tail is_letter is_digit
name_tail_iff [] = ground arith
name_tail_iff (c ∷ s) = ground (arith, name_tail_iff s)

name_re_iff : (s : Text) → (name_re s ≡ true) ↔ IsName s
unfolding name_re
name_re_iff [] = ground arith
name_re_iff (c ∷ s) = ground (arith, IsLetter-iff c, name_tail_iff s)

-- `validate` returns no error exactly for the queries whose name is an identifier, whose help,
-- values and sql are not empty and whose interval is not negative.
pub validate_iff : (q : Query) → (validate q ≡ none) ↔ IsValid q
unfolding validate
validate_iff q = (
  λ h. record {
    name = ground (arith, name_re_iff q.name);
    help = ground (arith, is_empty_iff q.help);
    values = ground (arith, is_empty_iff q.values);
    sql = ground (arith, is_empty_iff q.sql);
    interval = ground arith;
  },
  λ v.
      ground
        (arith, name_re_iff q.name, is_empty_iff q.help, is_empty_iff q.values, is_empty_iff q.sql),
)

check_all-none :
    (src : Text) (i : ℕ) (qs : List Query)
    → (check_all src i qs ≡ none) ↔ All (λ q. validate q ≡ none) qs
unfolding check_all
check_all-none src i [] = ground arith
check_all-none src i (q ∷ qs) = ground (arith, check_all-none src (suc i) qs)

-- A split of a library at the query that `load` reports.
pub record FirstInvalid (qs : List Query) (i : ℕ) (n : Text) (e : QueryError) : Type 0 where
  pub before : List Query
  pub culprit : Query
  pub after : List Query
  pub split : qs ≡ before ++ culprit ∷ after
  pub index : length before ≡ i
  pub valid_before : All (λ q. validate q ≡ none) before
  pub reason : validate culprit ≡ some e
  pub named : culprit.name ≡ n

shift :
    (q : Query) {qs : List Query} {i : ℕ} {n : Text} {e : QueryError}
    → validate q ≡ none
    → FirstInvalid qs i n e
    → FirstInvalid (q ∷ qs) (suc i) n e
shift q v f = record {
  before = q ∷ f.before;
  culprit = f.culprit;
  after = f.after;
  split = ap (◌∷◌ q) f.split;
  index = ap suc f.index;
  valid_before = (v, f.valid_before);
  reason = f.reason;
  named = f.named;
}

module _ (src : Text) (i : ℕ) (q : Query) (qs : List Query) where
  check_all_valid : validate q ≡ none → check_all src i (q ∷ qs) ≡ check_all src (suc i) qs
  unfolding check_all
  check_all_valid v = ground arith

  check_all_invalid :
      {e : QueryError}
      → validate q ≡ some e
      → check_all src i (q ∷ qs) ≡ some (invalid src i q.name e)
  unfolding check_all
  check_all_invalid v = ground arith

check_all-some :
    (src : Text) (i k : ℕ) (s : Text) (n : Text) (e : QueryError) (qs : List Query)
    → check_all src i qs ≡ some (invalid s k n e)
    → (j : ℕ) × (k ≡ i + j) × (s ≡ src) × FirstInvalid qs j n e
check_all-some src i k s n e [] h = unfold check_all in cc h
check_all-some src i k s n e (q ∷ qs) h = elim (Option-cases (validate q)) [
  | inl v ↦
      let (j, ek, es, f) =
        check_all-some src (suc i) k s n e qs (sym (check_all_valid src i q qs v) ∙ h) in
      (suc j, omega arith, es, shift q v f)
  | inr (x, v) ↦
      let h' : some (invalid src i q.name x) ≡ some (invalid s k n e) =
        sym (check_all_invalid src i q qs v) ∙ h in
      (
        0,
        ground arith,
        ground arith,
        record {
          before = [];
          culprit = q;
          after = qs;
          split = refl;
          index = refl;
          valid_before = tt;
          reason = ground arith;
          named = ground arith;
        },
      )
]

checked-eq-ok :
    (src : Text) (rs qs : List Query) (o : Option LoadError)
    → checked src rs o ≡ ok qs
    → (o ≡ none) × (rs ≡ qs)
unfolding checked
checked-eq-ok src rs qs none h = (refl, ground arith)
checked-eq-ok src rs qs (some e) h = cc

checked-eq-err :
    (src : Text) (qs : List Query) (o : Option LoadError) (e : LoadError)
    → checked src qs o ≡ err e
    → o ≡ some e
unfolding checked
checked-eq-err src qs none e h = cc
checked-eq-err src qs (some x) e h = ground arith

module _ (unmarshal : Text → Option (List Query)) where
  load_decoded :
      (d src : Text) (qs : List Query)
      → unmarshal d ≡ some qs
      → load unmarshal d src ≡ checked src qs (check_all src 0 qs)
  unfolding load
  load_decoded d src qs e = ground arith

  load_sound :
      (d src : Text) (qs : List Query)
      → load unmarshal d src ≡ ok qs
      → (unmarshal d ≡ some qs) × All (λ q. validate q ≡ none) qs
  load_sound d src qs h = elim (Option-cases (unmarshal d)) [
    | inl e ↦ unfold load in ground arith
    | inr (rs, e) ↦
        let h' : checked src rs (check_all src 0 rs) ≡ ok qs = sym (load_decoded d src rs e) ∙ h in
        let (valid, same) = checked-eq-ok src rs qs (check_all src 0 rs) h' in
        (
          e ∙ ap some same,
          subst (λ l. All (λ q. validate q ≡ none) l) same ((check_all-none src 0 rs).0 valid),
        )
  ]

  -- A library is loaded exactly if its YAML decodes to the returned queries and each is valid.
  pub load_iff :
      (d src : Text) (qs : List Query)
      → (load unmarshal d src ≡ ok qs) ↔ ((unmarshal d ≡ some qs) × All (λ q. validate q ≡ none) qs)
  load_iff d src qs = (
    load_sound d src qs,
    λ (e, v). load_decoded d src qs e ∙ rw ((check_all-none src 0 qs).1 v) (unfold checked in refl),
  )

  -- When the YAML decodes, a reported invalid query is the first one: all before it are valid, and
  -- the error names the source, its index, its name and the reason.
  pub load_invalid :
      (d src : Text) (qs : List Query) (s : Text) (i : ℕ) (n : Text) (e : QueryError)
      → unmarshal d ≡ some qs
      → load unmarshal d src ≡ err (invalid s i n e)
      → (s ≡ src) × FirstInvalid qs i n e
  load_invalid d src qs s i n e dec h =
      let h' : checked src qs (check_all src 0 qs) ≡ err (invalid s i n e) =
        sym (load_decoded d src qs dec) ∙ h in
      let (j, ij, same, f) =
        check_all-some src 0 i s n e qs (checked-eq-err src qs (check_all src 0 qs) _ h') in
      let k : j ≡ i = omega arith in (same, subst (λ l. FirstInvalid qs l n e) k f)
