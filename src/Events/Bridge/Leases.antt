-- ===== src/Events/Bridge/Leases.antt =====
-- The bridge and the releases that its clients owe it, step by step.
use any.Common.{
  ℕ, ◌+◌, ◌<◌, ◌≤◌, is_nil, Bool, true, false, not, ◌&&◌, List, [], ◌∷◌, ◌++◌, Option, none, some,
  Bytes, ◌==◌, if◌then◌else◌, if_cases, ◌≡◌, refl, arith, Bool-cases, inl, inr, subst,
}
use any.Strings.{eq_bytes}
use any.Strings.Laws.{eq_bytes→eq, eq_bytes_refl}
use any.Events.Bridge.{
  Scope, Wired, Bridge, Lease, new_bridge, set_scope, resync, or_retry, cancel_scope, release_scope,
  release_found, release_locked, acquired_scope, acquire_synced, acquire_scope, retry_found, retry,
  detach, release,
}
use any.Events.Bridge.Counts.{occurs}
use any.Events.Bridge.Resync.{occurs-cancel_all}
use any.Events.Bridge.Scopes.{
  IsCounted, IsCounted-of, IsEntry, IsEntry-cong, IsScope, acquired-IsScope, acquired_counts,
  or_retry-IsScope, release_scope-IsEntry,
}

-- The bridge and the leases that are not released.
pub record Clients : Type 0 where
  pub bridge : Bridge
  pub leases : List Lease

-- a lease for an acquisition that succeeded
abbrev pub with_lease : Option ℕ → Bytes → List Bytes → List Lease → List Lease
with_lease none key patterns leases = leases
with_lease (some gen) key patterns leases =
    record { key = key; gen = gen; patterns = patterns } ∷ leases

-- Leases are taken and released, retries fire and engines go away, in any order; `grants` and `again`
-- are the answers to the subscriptions, and `gen` may be a generation that is gone. A request without a
-- pattern does not come to the scopes (internal/server/events_bridge.go:124).
pub data Step : Clients → Clients → Type 0 where
  acquires :
      (s : Clients) (grants again : Bytes → Bool) (gen : ℕ) (key : Bytes) (patterns : List Bytes)
      → is_nil patterns ≡ false
      → Step s (
          let r = acquire_scope grants again gen key patterns s.bridge in
          record { bridge = r.1; leases = with_lease r.0 key patterns s.leases })
  releases :
      (b : Bridge) (before after : List Lease) (l : Lease) (grants : Bytes → Bool)
      → Step
          (record { bridge = b; leases = before ++ l ∷ after })
          (record { bridge = release grants l b; leases = before ++ after })
  retries :
      (s : Clients) (grants : Bytes → Bool) (key : Bytes)
      → Step s (record s { bridge = retry grants key s.bridge })
  detaches : (s : Clients) → Step s (record s { bridge = detach s.bridge })

pub data Reach : Clients → Type 0 where
  start : Reach (record { bridge = new_bridge; leases = [] })
  next_step : {s t : Clients} → Reach s → Step s t → Reach t

-- how often the leases of one generation ask for a pattern on a scope
abbrev pub owed : List Lease → ℕ → Bytes → Bytes → ℕ
owed [] gen key p = 0
owed (l ∷ leases) gen key p =
    (if eq_bytes l.key key && (l.gen == gen) then occurs p l.patterns else 0)
    + owed leases gen key p

pub record IsBridge (s : Clients) : Type 0 where
  pub entries :
      (key : Bytes)
      → IsEntry (owed s.leases s.bridge.gen key) (s.bridge.scopes key) (s.bridge.live key)
  pub no_later : (gen : ℕ) (key p : Bytes) → s.bridge.gen < gen → owed s.leases gen key p ≡ 0

-- every scope but one is as its leases want it
Elsewhere : Bridge → List Lease → Bytes → Type 0
Elsewhere b leases key =
    (k : Bytes) → eq_bytes key k ≡ false → IsEntry (owed leases b.gen k) (b.scopes k) (b.live k)

NoLater : Bridge → List Lease → Type 0
NoLater b leases = (gen : ℕ) (key p : Bytes) → b.gen < gen → owed leases gen key p ≡ 0

set_scope-IsBridge :
    (b : Bridge) (leases : List Lease) (key : Bytes) (entry : Option Scope × List Bytes)
    → Elsewhere b leases key
    → NoLater b leases
    → IsEntry (owed leases b.gen key) entry.0 entry.1
    → IsBridge (record { bridge = set_scope key entry b; leases = leases })
unfolding Elsewhere NoLater
set_scope-IsBridge b leases key (sc, live) others later here = record {
  entries = λ k. elim (Bool-cases (eq_bytes key k)) [
    | inl e ↦
        rw e (
          subst (λ (k' : Bytes). IsEntry (owed leases b.gen k') sc live) (eq_bytes→eq key k e) here)
    | inr e ↦ rw e (others k e)
  ];
  no_later = later;
}

release_found-IsBridge :
    (grants : Bytes → Bool) (b : Bridge) (leases : List Lease) (key : Bytes) (patterns : List Bytes)
    (o : Option Scope)
    → Elsewhere b leases key
    → NoLater b leases
    → b.scopes key ≡ o
    → IsCounted (owed leases b.gen key) patterns o (b.live key)
    → IsBridge (record { bridge = release_found grants key patterns b o; leases = leases })
unfolding release_found
release_found-IsBridge grants b leases key patterns none others later e counted = record {
  entries = λ k. elim (Bool-cases (eq_bytes key k)) [
    | inl l ↦
        subst (λ (k' : Bytes). IsEntry (owed leases b.gen k') (b.scopes k') (b.live k'))
          (eq_bytes→eq key k l) (rw e counted)
    | inr l ↦ unfold Elsewhere in others k l
  ];
  no_later = unfold NoLater in later;
}
release_found-IsBridge grants b leases key patterns (some sc) others later e counted =
    let w : Wired = record { scope = sc; live = b.live key } in
    set_scope-IsBridge b leases key (release_scope grants patterns w) others later
      (release_scope-IsEntry grants (owed leases b.gen key) patterns w counted)

one_of : (patterns : List Bytes) → is_nil patterns ≡ false → (p : Bytes) × (1 ≤ occurs p patterns)
one_of [] h = cc
one_of (p ∷ patterns) h = (p, ground (arith, eq_bytes_refl p))

acquire_synced-IsBridge :
    (again : Bytes → Bool) (b : Bridge) (leases : List Lease) (key : Bytes) (patterns : List Bytes)
    (r : Wired × Bool)
    → is_nil patterns ≡ false
    → IsBridge (record { bridge = b; leases = leases })
    → IsCounted (owed leases b.gen key) patterns (some r.0.scope) r.0.live
    → (r.1 ≡ true → IsScope (λ p. owed leases b.gen key p + occurs p patterns) r.0.scope r.0.live)
    → (let r' = acquire_synced again key patterns b r in
        IsBridge (record { bridge = r'.1; leases = with_lease r'.0 key patterns leases }))
unfolding acquire_synced
acquire_synced-IsBridge again b leases key patterns (w, true) some_ inv counted synced =
    let leases' = record { key = key; gen = b.gen; patterns = patterns } ∷ leases in
    let (p, asked) = one_of patterns some_ in
    set_scope-IsBridge b leases' key (some w.scope, w.live)
      (unfold Elsewhere in
        λ k e.
          IsEntry-cong (owed leases b.gen k) (owed leases' b.gen k) (b.scopes k) (b.live k)
            (λ p. ground (arith, e)) (inv.entries k))
      (unfold NoLater in λ gen k p h. ground (arith, inv.no_later gen k p h))
      (IsEntry-cong (λ p. owed leases b.gen key p + occurs p patterns) (owed leases' b.gen key)
        (some w.scope) w.live (λ p. ground (arith, eq_bytes_refl key))
        (synced refl, p, omega (arith, asked)))
acquire_synced-IsBridge again b leases key patterns (w, false) some_ inv counted synced =
    unfold release_locked in
    release_found-IsBridge again (set_scope key (some w.scope, w.live) b) leases key patterns _
      (unfold Elsewhere in λ k e. rw e (inv.entries k)) (unfold NoLater in inv.no_later) refl
      (rw (eq_bytes_refl key) counted)

acquire_scope-IsBridge :
    (s : Clients) (grants again : Bytes → Bool) (gen : ℕ) (key : Bytes) (patterns : List Bytes)
    → is_nil patterns ≡ false
    → IsBridge s
    → (let r = acquire_scope grants again gen key patterns s.bridge in
        IsBridge (record { bridge = r.1; leases = with_lease r.0 key patterns s.leases }))
unfolding acquire_scope
acquire_scope-IsBridge s grants again gen key patterns some_ inv =
    let here = inv.entries key in
    let wanted = owed s.leases s.bridge.gen key in
    let o = s.bridge.scopes key in
    let live = s.bridge.live key in
    if_cases
      (λ (r : Option ℕ × Bridge).
        IsBridge (record { bridge = r.1; leases = with_lease r.0 key patterns s.leases }))
      (not (s.bridge.gen == gen)) _ _ (λ e. inv)
      (λ e.
        acquire_synced-IsBridge again s.bridge s.leases key patterns
          (acquired_scope grants patterns o live) some_ inv
          (acquired_counts grants wanted patterns o live here)
          (acquired-IsScope grants wanted patterns o live here))

pub owed-append :
    (before after : List Lease) (l : Lease) (gen : ℕ) (key p : Bytes)
    → owed (before ++ l ∷ after) gen key p
      ≡ owed (before ++ after) gen key p
        + (if eq_bytes l.key key && (l.gen == gen) then occurs p l.patterns else 0)
owed-append [] after l gen key p = omega arith
owed-append (l' ∷ before) after l gen key p = omega (arith, owed-append before after l gen key p)

release-IsBridge :
    (b : Bridge) (before after : List Lease) (l : Lease) (grants : Bytes → Bool)
    → IsBridge (record { bridge = b; leases = before ++ l ∷ after })
    → IsBridge (record { bridge = release grants l b; leases = before ++ after })
unfolding release release_locked
release-IsBridge b before after l grants inv =
    let leases = before ++ after in
    if_cases (λ (b' : Bridge). IsBridge (record { bridge = b'; leases = leases })) (l.gen == b.gen)
      _ _
      (λ e.
        release_found-IsBridge grants b leases l.key l.patterns (b.scopes l.key)
          (unfold Elsewhere in
            λ k ne.
              IsEntry-cong (owed (before ++ l ∷ after) b.gen k) (owed leases b.gen k) (b.scopes k)
                (b.live k) (λ p. ground (arith, ne, owed-append before after l b.gen k p))
                (inv.entries k))
          (unfold NoLater in later) refl
          (IsCounted-of (owed (before ++ l ∷ after) b.gen l.key) (owed leases b.gen l.key)
            l.patterns (b.scopes l.key) (b.live l.key)
            (λ p. ground (arith, e, eq_bytes_refl l.key, owed-append before after l b.gen l.key p))
            (inv.entries l.key)))
      (λ ne. record {
        entries = λ k.
            IsEntry-cong (owed (before ++ l ∷ after) b.gen k) (owed leases b.gen k) (b.scopes k)
              (b.live k) (λ p. ground (arith, ne, owed-append before after l b.gen k p))
              (inv.entries k);
        no_later = later;
      })
  where
    later : (gen : ℕ) (key p : Bytes) → b.gen < gen → owed (before ++ after) gen key p ≡ 0
    later gen key p h =
        omega (arith, inv.no_later gen key p h, owed-append before after l gen key p)

retry_found-IsBridge :
    (s : Clients) (grants : Bytes → Bool) (key : Bytes) (o : Option Scope)
    → IsBridge s
    → s.bridge.scopes key ≡ o
    → IsBridge (record s { bridge = retry_found grants key s.bridge o })
unfolding retry_found
retry_found-IsBridge s grants key none inv e = inv
retry_found-IsBridge s grants key (some sc) inv e =
    let wanted = owed s.leases s.bridge.gen key in
    let live = s.bridge.live key in
    let (here, p, asked) : IsEntry wanted (some sc) live =
      subst (λ (o : Option Scope). IsEntry wanted o live) e (inv.entries key) in
    let w : Wired = record { scope = record sc { retry_scheduled = false }; live = live } in
    let w' = or_retry (resync grants w) in
    set_scope-IsBridge s.bridge s.leases key (some w'.scope, w'.live)
      (unfold Elsewhere in λ k ne. inv.entries k) (unfold NoLater in inv.no_later)
      (or_retry-IsScope grants wanted w here.counts here.counted here.subscribed, p, asked)

-- what a detach cancels is all there is
none_left :
    (wanted : Bytes → ℕ) (o : Option Scope) (live : List Bytes) (p : Bytes)
    → IsEntry wanted o live
    → occurs p (cancel_scope o live) ≡ 0
unfolding cancel_scope
none_left wanted none live p h = (h p).1
none_left wanted (some sc) live p (h, q, asked) =
    omega (arith, occurs-cancel_all sc.active live p, h.subscribed.held p)

detach-IsBridge : (s : Clients) → IsBridge s → IsBridge (record s { bridge = detach s.bridge })
unfolding detach
detach-IsBridge s inv = record {
  entries = λ key p. (
    inv.no_later (s.bridge.gen + 1) key p (omega arith),
    none_left (owed s.leases s.bridge.gen key) (s.bridge.scopes key) (s.bridge.live key) p
        (inv.entries key),
  );
  no_later = λ gen key p h. inv.no_later gen key p (omega arith);
}

Step-IsBridge : {s t : Clients} → Step s t → IsBridge s → IsBridge t
Step-IsBridge (acquires s grants again gen key patterns some_) inv =
    acquire_scope-IsBridge s grants again gen key patterns some_ inv
Step-IsBridge (releases b before after l grants) inv = release-IsBridge b before after l grants inv
Step-IsBridge (retries s grants key) inv =
    unfold retry in retry_found-IsBridge s grants key (s.bridge.scopes key) inv refl
Step-IsBridge (detaches s) inv = detach-IsBridge s inv

-- However leases are taken and released, subscriptions fail, retries fire and engines go away: a scope
-- is there just when a lease of the engine that is up, not yet released, asks for a pattern on it, and
-- counts each pattern as often as these leases ask for it. The SDK has one subscription for each pattern
-- that is active on the scope and no other, and none where there is no scope. The active patterns are
-- maximal ones of those asked for, and all of them unless a retry is scheduled.
pub Reach-IsBridge : {s : Clients} → Reach s → IsBridge s
Reach-IsBridge start = record { entries = λ key p. (refl, refl); no_later = λ gen key p h. refl }
Reach-IsBridge (next_step r st) = Step-IsBridge st (Reach-IsBridge r)
