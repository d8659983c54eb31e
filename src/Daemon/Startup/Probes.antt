-- ===== src/Daemon/Startup/Probes.antt =====
-- The probes of a daemon that has just started (main.go, runner.go, server.go).
use ducklake_metrics_daemon.Prelude.{
  ◌≡◌, refl, sym, ◌∙◌, ap, Bool, true, ◌||◌, none, some, List, [], ◌∷◌, arith, All, any, length,
  if◌then◌else◌, Bool-cases, Bool-eq_of_iff, Option-cases, inl, inr,
}
use ducklake_metrics_daemon.Prelude.Int.{ℤ, pos}
use ducklake_metrics_daemon.Prelude.Text.{Text, text_eq, text_eq_iff, text_eq_refl}
use ducklake_metrics_daemon.Prelude.Dict
use ducklake_metrics_daemon.Prelude.Dict.{Dict, keys, get-put, All-put, All-get}
use ducklake_metrics_daemon.Publisher.Signature.{is_some}
use ducklake_metrics_daemon.Publisher.Outcome.{done}
use ducklake_metrics_daemon.Extern.{Extern}
use ducklake_metrics_daemon.Catalog.Dsn.{Conn}
use ducklake_metrics_daemon.Runner.Liveness.{Liveness, LivenessSnapshot, new_liveness, snapshot}
use ducklake_metrics_daemon.Server.{healthy, snapshot_of, sorted_keys, handle_healthy, handle_ready}
use ducklake_metrics_daemon.Server.Healthy.{handle_healthy_alive, liveness_status-starting}
use ducklake_metrics_daemon.Server.Ready.{handle_ready_lem}
use ducklake_metrics_daemon.Daemon.Startup.{livenesses_of, snapshots_of, is_ready, mark_ready}

-- The snapshots of the tenants at the start.
abbrev pub first_snapshots : ℤ → Dict Conn → Dict LivenessSnapshot
first_snapshots interval ts = snapshots_of (livenesses_of interval ts []) []

-- The trackers of the map, which `main` never changes, after anything that their tenants did to them.
abbrev pub evolved : (Text → Liveness → Liveness) → Dict Liveness → Dict Liveness
evolved f [] = []
evolved f ((t, l) ∷ ls) = (t, f t l) ∷ evolved f ls

-- The snapshots of the tenants at any later time.
abbrev pub later_snapshots : (Text → Liveness → Liveness) → ℤ → Dict Conn → Dict LivenessSnapshot
later_snapshots f interval ts = snapshots_of (evolved f (livenesses_of interval ts [])) []

-- The tenants that `markReady` was called with.
abbrev pub mark_all : List Text → Dict Bool → Dict Bool
mark_all [] ready = ready
mark_all (t ∷ ts) ready = mark_all ts (mark_ready ready t)

-- No tenant has fired.
abbrev AreFresh : Dict Liveness → Type 0
AreFresh = All (λ (e : Text × Liveness). e.1.last_fire ≡ pos 0)

abbrev HaveNotFired : Dict LivenessSnapshot → Type 0
HaveNotFired = All (λ (e : Text × LivenessSnapshot). e.1.last_fire ≡ none)

livenesses_of-AreFresh :
    (interval : ℤ) (ts : Dict Conn) (m : Dict Liveness)
    → AreFresh m
    → AreFresh (livenesses_of interval ts m)
unfolding livenesses_of new_liveness
livenesses_of-AreFresh interval [] m h = h
livenesses_of-AreFresh interval ((id, c) ∷ ts) m h =
    livenesses_of-AreFresh interval ts (Dict.put m id (new_liveness interval))
      (All-put (λ (e : Text × Liveness). e.1.last_fire ≡ pos 0) m id (new_liveness interval) h refl)

snapshots_of-HaveNotFired :
    (ls : Dict Liveness) (out : Dict LivenessSnapshot)
    → AreFresh ls
    → HaveNotFired out
    → HaveNotFired (snapshots_of ls out)
unfolding snapshots_of snapshot
snapshots_of-HaveNotFired [] out f h = h
snapshots_of-HaveNotFired ((t, l) ∷ ls) out (e, f) h =
    snapshots_of-HaveNotFired ls (Dict.put out t (snapshot l)) f (
      All-put (λ (e : Text × LivenessSnapshot). e.1.last_fire ≡ none) out t (snapshot l) h
        (ground (arith, e)))

livenesses_of-is_some :
    (interval : ℤ) (ts : Dict Conn) (m : Dict Liveness) (t : Text)
    → is_some (Dict.get (livenesses_of interval ts m) t)
      ≡ (is_some (Dict.get ts t) || is_some (Dict.get m t))
unfolding livenesses_of Dict.get
livenesses_of-is_some interval [] m t = refl
livenesses_of-is_some interval ((id, c) ∷ ts) m t = ground (
  arith,
  livenesses_of-is_some interval ts (Dict.put m id (new_liveness interval)) t,
  get-put m id (new_liveness interval) t,
)

snapshots_of-is_some :
    (ls : Dict Liveness) (out : Dict LivenessSnapshot) (t : Text)
    → is_some (Dict.get (snapshots_of ls out) t)
      ≡ (is_some (Dict.get ls t) || is_some (Dict.get out t))
unfolding snapshots_of Dict.get
snapshots_of-is_some [] out t = refl
snapshots_of-is_some ((u, l) ∷ ls) out t =
    ground
      (arith, snapshots_of-is_some ls (Dict.put out u (snapshot l)) t, get-put out u (snapshot l) t)

evolved-is_some :
    (f : Text → Liveness → Liveness) (ls : Dict Liveness) (t : Text)
    → is_some (Dict.get (evolved f ls) t) ≡ is_some (Dict.get ls t)
unfolding Dict.get
evolved-is_some f [] t = refl
evolved-is_some f ((u, l) ∷ ls) t = ground (arith, evolved-is_some f ls t)

-- The tenants of the snapshots are those of the configuration.
later_snapshots-is_some :
    (f : Text → Liveness → Liveness) (interval : ℤ) (ts : Dict Conn) (t : Text)
    → is_some (Dict.get (later_snapshots f interval ts) t) ≡ is_some (Dict.get ts t)
unfolding Dict.get
later_snapshots-is_some f interval ts t = ground (
  arith,
  snapshots_of-is_some (evolved f (livenesses_of interval ts [])) [] t,
  evolved-is_some f (livenesses_of interval ts []) t,
  livenesses_of-is_some interval ts [] t,
)

-- Whatever the time is, as long as no tenant has fired the probe answers 200 with the number of
-- tenants, and counts no failure.
pub healthy_at_start :
    (x : Extern) (interval : ℤ) (ts : Dict Conn) (now : ℤ) (store : x.Store)
    → let snaps = first_snapshots interval ts in
      handle_healthy x snaps now store
      ≡ done (
        record { failures = []; store = store },
        some (record { code = 200; body = healthy (length (sorted_keys snaps)) }),
      )
healthy_at_start x interval ts now store =
    let snaps = first_snapshots interval ts in
    let fresh : HaveNotFired snaps =
      snapshots_of-HaveNotFired (livenesses_of interval ts []) []
        (livenesses_of-AreFresh interval ts [] tt) tt in
    handle_healthy_alive x snaps now store λ t.
      liveness_status-starting (snapshot_of snaps t) now (elim (Option-cases (Dict.get snaps t)) [
        | inl e ↦ ground (arith, e)
        | inr (s, e) ↦
            let never =
              All-get (λ (e : Text × LivenessSnapshot). e.1.last_fire ≡ none) snaps t s fresh e in
            ground (arith, e, never)
      ])

is_ready-mark_all :
    (ts : List Text) (ready : Dict Bool) (t : Text)
    → is_ready (mark_all ts ready) t ≡ (any (λ u. text_eq u t) ts || is_ready ready t)
unfolding mark_ready
is_ready-mark_all [] ready t = refl
is_ready-mark_all (u ∷ ts) ready t =
    ground (arith, is_ready-mark_all ts (mark_ready ready u) t, get-put ready u true t)

any-keys :
    (m : Dict LivenessSnapshot) (p : Text → Bool) (t : Text)
    → is_some (Dict.get m t) ≡ true
    → p t ≡ true
    → any p (keys m) ≡ true
unfolding Dict.get
any-keys [] p t h k = cc h
any-keys ((u, s) ∷ m) p t h k = ground (arith, any-keys m p t, h, k, text_eq_iff u t)

any-keys_witness :
    (m : Dict LivenessSnapshot) (p : Text → Bool)
    → any p (keys m) ≡ true
    → (t : Text) × (is_some (Dict.get m t) ≡ true) × (p t ≡ true)
unfolding Dict.get
any-keys_witness [] p h = cc h
any-keys_witness ((u, s) ∷ m) p h = elim (Bool-cases (p u)) [
  | inl b ↦ (u, ground (arith, text_eq_refl u), b)
  | inr b ↦
      let (t, there, e) = any-keys_witness m p (ground (arith, b, h)) in
      (t, ground (arith, there), e)
]

any-any :
    (p : Text → Bool) (ts : List Text) (t : Text)
    → any (λ u. text_eq u t) ts ≡ true
    → p t ≡ true
    → any p ts ≡ true
any-any p [] t h k = cc h
any-any p (u ∷ ts) t h k = ground (arith, any-any p ts t, h, k, text_eq_iff u t)

any-any_witness :
    (p : Text → Bool) (ts : List Text)
    → any p ts ≡ true
    → (t : Text) × (any (λ u. text_eq u t) ts ≡ true) × (p t ≡ true)
any-any_witness p [] h = cc h
any-any_witness p (u ∷ ts) h = elim (Bool-cases (p u)) [
  | inl b ↦ (u, ground (arith, text_eq_refl u), b)
  | inr b ↦
      let (t, there, e) = any-any_witness p ts (ground (arith, b, h)) in
      (t, ground (arith, there), e)
]

-- After any calls of `markReady`, and whatever the tenants have done to their liveness trackers, fires
-- included, /-/ready answers 200 exactly when one of them was for a tenant of the
-- configuration, and else 503.
pub ready_after_marks :
    (f : Text → Liveness → Liveness) (interval : ℤ) (ts : Dict Conn) (marked : List Text)
    → (handle_ready (later_snapshots f interval ts) (is_ready (mark_all marked []))).code
      ≡ (if any (λ t. is_some (Dict.get ts t)) marked then 200 else 503)
ready_after_marks f interval ts marked =
    let snaps = later_snapshots f interval ts in
    let ready = is_ready (mark_all marked []) in
    let is_marked : (t : Text) → ready t ≡ any (λ u. text_eq u t) marked =
      λ t. unfold Dict.get in ground (arith, is_ready-mark_all marked [] t) in
    let same : any ready (keys snaps) ≡ any (λ t. is_some (Dict.get ts t)) marked =
      Bool-eq_of_iff _ _ (
        λ h.
            let (t, there, e) = any-keys_witness snaps ready h in
            any-any (λ t. is_some (Dict.get ts t)) marked t (sym (is_marked t) ∙ e)
              (sym (later_snapshots-is_some f interval ts t) ∙ there),
        λ h.
            let (t, there, e) = any-any_witness (λ t. is_some (Dict.get ts t)) marked h in
            any-keys snaps ready t (later_snapshots-is_some f interval ts t ∙ e)
              (is_marked t ∙ there),
      ) in
    ap (λ r. r.code) (handle_ready_lem snaps ready) ∙ ground (arith, same)
