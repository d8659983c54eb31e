-- ===== src/Publisher/Board/Interleaving.antt =====
-- What a tenant's series show does not depend on the other tenants' messages, nor on how they fall
-- between its own (publisher.go: one loop reads the messages of all tenants).
use ducklake_metrics_daemon.Prelude.{
  ◌≡◌, refl, sym, ◌∙◌, ap, Bool, true, false, Option, none, some, List, [], ◌∷◌, arith, All,
  if◌then◌else◌, Bool-cases, inl, inr,
}
use ducklake_metrics_daemon.Prelude.Text.{Text, text_eq, text_eq_iff}
use ducklake_metrics_daemon.Prelude.Sort.{find, IsDistinct}
use ducklake_metrics_daemon.Queries.{Query}
use ducklake_metrics_daemon.Queries.Merge.{name_of}
use ducklake_metrics_daemon.Metrics.{gauge}
use ducklake_metrics_daemon.Metrics.Register.{gauge_name, Registered, register}
use ducklake_metrics_daemon.Extern.{Extern, Laws}
use ducklake_metrics_daemon.Catalog.{QueryError}
use ducklake_metrics_daemon.Publisher.State.{
  Result, Kind, kind_query, kind_pool_stat, kind_other, new,
}
use ducklake_metrics_daemon.Publisher.Run.{Event, received, canceled, closed, run}
use ducklake_metrics_daemon.Publisher.Isolation.{belongs}
use ducklake_metrics_daemon.Publisher.Board.{
  Board, replaced, empty_board, declares, published, accepted, told, replay,
}
use ducklake_metrics_daemon.Publisher.Board.Refines.{EventFits, run_shows}

module _ (x : Extern) where
  -- The tenant's messages, in their order, and what stops the loop.
  abbrev pub own_events : Text → List (Event x) → List (Event x)
  own_events t [] = []
  own_events t (canceled ∷ es) = canceled ∷ []
  own_events t (closed ∷ es) = closed ∷ []
  own_events t (received r ∷ es) =
      let rest = own_events t es in if text_eq r.tenant t then received r ∷ rest else rest

  -- Two boards show the same of a tenant.
  abbrev Agrees : Text → Board x → Board x → Type 0
  Agrees t b c = (n v : Text) (ks : List Text) → belongs t ks ≡ true → b n v ks ≡ c n v ks

  replaced-Agrees :
      (t : Text) (r : Result x) (q : Query) (b c : Board x)
      → Agrees t b c
      → Agrees t (replaced x r q b) (replaced x r q c)
  replaced-Agrees t r q b c h n v ks own = ground (arith, h n v ks own)

  published-Agrees :
      (t : Text) (r : Result x) (o : Option Query) (b c : Board x)
      → Agrees t b c
      → Agrees t (published x r o b) (published x r o c)
  published-Agrees t r none b c h n v ks own = h n v ks own
  published-Agrees t r (some q) b c h n v ks own =
      ground (arith, h n v ks own, replaced-Agrees t r q b c h n v ks own)

  told-Agrees :
      (qs : List Query) (t : Text) (r : Result x) (k : Kind) (b c : Board x)
      → Agrees t b c
      → Agrees t (told x qs r k b) (told x qs r k c)
  told-Agrees qs t r kind_pool_stat b c h = h
  told-Agrees qs t r (kind_other n) b c h = h
  told-Agrees qs t r kind_query b c h = go r.error
    where
      go : (o : Option QueryError) → Agrees t (accepted x qs r o b) (accepted x qs r o c)
      go (some e) = h
      go none = published-Agrees t r (find name_of qs r.query) b c h

  published_other :
      (t : Text) (r : Result x) (o : Option Query) (b : Board x)
      → text_eq r.tenant t ≡ false
      → Agrees t (published x r o b) b
  published_other t r none b ne n v ks own = refl
  published_other t r (some q) b ne n v ks own = ground (arith, apart ks own)
    where
      apart : (ks : List Text) → belongs t ks ≡ true → belongs r.tenant ks ≡ false
      apart [] own = refl
      apart (k ∷ ks) own =
          ground (arith, text_eq_iff k t, text_eq_iff k r.tenant, text_eq_iff r.tenant t)

  told_other :
      (qs : List Query) (t : Text) (r : Result x) (k : Kind) (b : Board x)
      → text_eq r.tenant t ≡ false
      → Agrees t (told x qs r k b) b
  told_other qs t r kind_pool_stat b ne n v ks own = refl
  told_other qs t r (kind_other m) b ne n v ks own = refl
  told_other qs t r kind_query b ne n v ks own = go r.error n v ks own
    where
      go : (o : Option QueryError) → Agrees t (accepted x qs r o b) b
      go (some e) n v ks own = refl
      go none n v ks own = published_other t r (find name_of qs r.query) b ne n v ks own

  replay-own_events :
      (qs : List Query) (t : Text) (es : List (Event x)) (b c : Board x)
      → Agrees t b c
      → Agrees t (replay x qs es b) (replay x qs (own_events t es) c)
  replay-own_events qs t [] b c h = h
  replay-own_events qs t (canceled ∷ es) b c h = h
  replay-own_events qs t (closed ∷ es) b c h = h
  replay-own_events qs t (received r ∷ es) b c h = elim (Bool-cases (text_eq r.tenant t)) [
    | inl e ↦ rw e (
        replay-own_events qs t es (told x qs r r.kind b) (told x qs r r.kind c)
          (told-Agrees qs t r r.kind b c h))
    | inr e ↦ rw e (
        replay-own_events qs t es (told x qs r r.kind b) c
          λ n v ks own. told_other qs t r r.kind b e n v ks own ∙ h n v ks own)
  ]

-- For queries with different names whose gauges were registered without a panic, from a fresh publisher
-- and a client that shows no series of a query's gauge: two sequences of messages that the client takes,
-- without a NUL byte in a label, and that have the same messages of tenant `t` in the same order before
-- they stop, leave the same in every gauge of a query for every series of `t`, whatever the messages of
-- other tenants are and however they fall between.
pub run_interleaved :
    (x : Extern) (law : Laws x) (is_valid : Text → List Text → Bool) (qs : List Query)
    (reg : Registered) (store : x.Store) (es fs : List (Event x)) (t : Text)
    → IsDistinct name_of qs
    → register is_valid qs ≡ some reg
    → ((g : Text) (ks : List Text) → x.read store (gauge g) ks ≡ none)
    → All (EventFits x qs) es
    → All (EventFits x qs) fs
    → own_events x t es ≡ own_events x t fs
    → (n : Text) (q : Query) (v : Text) (ks : List Text) → find name_of qs n ≡ some q
    → declares q v ≡ true
    → belongs t ks ≡ true
    → x.read (run x es (new x reg.gauges qs store)).1.store (gauge (gauge_name n v)) ks
      ≡ x.read (run x fs (new x reg.gauges qs store)).1.store (gauge (gauge_name n v)) ks
run_interleaved x law is_valid qs reg store es fs t d e clear he hf same n q v ks f dv own =
    let (_, a) = run_shows x law is_valid qs reg store es d e clear he in
    let (_, b) = run_shows x law is_valid qs reg store fs d e clear hf in
    let shown : (gs : List (Event x))
        → replay x qs gs (empty_board x) n v ks
          ≡ replay x qs (own_events x t gs) (empty_board x) n v ks =
      λ gs.
        replay-own_events x qs t gs (empty_board x) (empty_board x) (λ n v ks h. refl) n v ks own in
    a n q f v dv ks
    ∙ shown es
    ∙ ap (λ gs. replay x qs gs (empty_board x) n v ks) same
    ∙ sym (shown fs)
    ∙ sym (b n q f v dv ks)
