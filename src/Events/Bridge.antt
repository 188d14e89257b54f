-- ===== src/Events/Bridge.antt =====
-- internal/server/events_bridge.go: which patterns a device subscribes to, for all its live streams. A
-- scope's key is its space id, or empty for the account. What the SDK's Subscribe answers at each
-- pattern is an argument. Every method but the resolution of a scope runs under the bridge's lock. The
-- proofs are in the modules below.
mod Tests
pub mod Counts
pub mod Resync
pub mod Scopes
pub mod Leases
use any.Common.{
  ℕ, zero, suc, ◌+◌, ◌-◌, Bool, true, false, not, ◌&&◌, ◌||◌, List, [], ◌∷◌, ◌++◌, Option, none,
  some, Bytes, is_nil, ◌==◌, leb, if◌then◌else◌, ◌≡◌,
}
use any.Strings.{eq_bytes, contains}
use any.Events.Topics.{maximal_patterns}

-- the struct bridgeScope: the reference counts, the keys of the map `active`, whose values are the
-- functions that cancel a subscription, and whether a retry is scheduled
pub record Scope : Type 0 where
  pub desired : List (Bytes × ℕ)
  pub active : List Bytes
  pub retry_scheduled : Bool

-- the struct eventsBridge, with what the SDK delivers for each scope: in `live` a pattern stands once for
-- each of its subscriptions that was not cancelled
pub record Bridge : Type 0 where
  pub scopes : Bytes → Option Scope
  pub live : Bytes → List Bytes
  pub gen : ℕ

-- A scope with its part of `live`.
pub record Wired : Type 0 where
  pub scope : Scope
  pub live : List Bytes

abbrev pub new_scope : Scope
new_scope = record { desired = []; active = []; retry_scheduled = false }

-- newEventsBridge
abbrev pub new_bridge : Bridge
new_bridge = record { scopes = λ key. none; live = λ key. []; gen = 0 }

-- b.scopes[key] = sc, and delete(b.scopes, key), with what is delivered for the scope now
abbrev pub set_scope : Bytes → Option Scope × List Bytes → Bridge → Bridge
set_scope key (sc, live) b = record b {
  scopes = λ k. if eq_bytes key k then sc else b.scopes k;
  live = λ k. if eq_bytes key k then live else b.live k;
}

-- desired[p]++
unfoldable pub incr : Bytes → List (Bytes × ℕ) → List (Bytes × ℕ)
incr p [] = (p, 1) ∷ []
incr p ((q, c) ∷ desired) = if eq_bytes q p then (q, c + 1) ∷ desired else (q, c) ∷ incr p desired

-- if desired[p]--; desired[p] <= 0 { delete(desired, p) }
unfoldable pub decr : Bytes → List (Bytes × ℕ) → List (Bytes × ℕ)
decr p [] = []
decr p ((q, c) ∷ desired) =
    let rest = decr p desired in
    if eq_bytes q p then (if leb c 1 then desired else (q, c - 1) ∷ desired) else (q, c) ∷ rest

unfoldable pub incr_all : List Bytes → List (Bytes × ℕ) → List (Bytes × ℕ)
incr_all [] desired = desired
incr_all (p ∷ ps) desired = incr_all ps (incr p desired)

unfoldable pub decr_all : List Bytes → List (Bytes × ℕ) → List (Bytes × ℕ)
decr_all [] desired = desired
decr_all (p ∷ ps) desired = decr_all ps (decr p desired)

unfoldable pub keys : List (Bytes × ℕ) → List Bytes
keys [] = []
keys ((p, c) ∷ desired) = p ∷ keys desired

-- cancel(), which ends one subscription to the pattern
unfoldable pub cancel : Bytes → List Bytes → List Bytes
cancel p [] = []
cancel p (q ∷ live) = let rest = cancel p live in if eq_bytes q p then live else q ∷ rest

-- active[p] = cancel
abbrev pub assign : Bytes → List Bytes → List Bytes
assign p active = if contains active p then active else active ++ p ∷ []

-- the loop that cancels what is not wanted
unfoldable pub keep_wanted : List Bytes → List Bytes → List Bytes → List Bytes × List Bytes
unfolding cancel
keep_wanted want [] live = ([], live)
keep_wanted want (p ∷ active) live =
    let (kept, rest) = keep_wanted want active live in
    if not (contains want p) then (kept, cancel p rest) else (p ∷ kept, rest)

-- The loop that subscribes to what is missing, and whether it came to the end; `grants` are the answers
-- of ps.Subscribe. Go walks the map of what is wanted in any order, which only an error lets be seen;
-- here it is that of maximalPatterns.
unfoldable pub subscribe_wanted :
    (Bytes → Bool) → List Bytes → List Bytes → List Bytes → List Bytes × List Bytes × Bool
subscribe_wanted grants [] active live = (active, live, true)
subscribe_wanted grants (p ∷ want) active live =
    let known = subscribe_wanted grants want active live in
    let granted = subscribe_wanted grants want (assign p active) (live ++ p ∷ []) in
    if contains active p then known else if not (grants p) then (active, live, false) else granted

-- resyncLocked, and whether there was no error
unfoldable pub resync : (Bytes → Bool) → Wired → Wired × Bool
resync grants w =
    let want = maximal_patterns (keys w.scope.desired) in
    let (kept, rest) = keep_wanted want w.scope.active w.live in
    let (active, live, done) = subscribe_wanted grants want kept rest in
    (record { scope = record w.scope { active = active }; live = live }, done)

-- a failed resync schedules a retry, unless one is scheduled
abbrev pub or_retry : Wired × Bool → Wired
or_retry (w, true) = w
or_retry (w, false) = record w { scope = record w.scope { retry_scheduled = true } }

-- the scope with other counts
abbrev pub recounted : List (Bytes × ℕ) → Wired → Wired
recounted desired w = record w { scope = record w.scope { desired = desired } }

-- releaseLocked behind its look-up; `none` is the scope that is deleted
unfoldable pub release_scope : (Bytes → Bool) → List Bytes → Wired → Option Scope × List Bytes
release_scope grants patterns w =
    let w' = or_retry (resync grants (recounted (decr_all patterns w.scope.desired) w)) in
    (if is_nil w'.scope.desired then none else some w'.scope, w'.live)

release_found : (Bytes → Bool) → Bytes → List Bytes → Bridge → Option Scope → Bridge
release_found grants key patterns b none = b
release_found grants key patterns b (some sc) =
    set_scope key (release_scope grants patterns (record { scope = sc; live = b.live key })) b

unfoldable pub release_locked : (Bytes → Bool) → Bytes → List Bytes → Bridge → Bridge
unfolding release_found
release_locked grants key patterns b = release_found grants key patterns b (b.scopes key)

abbrev pub or_new : Option Scope → Scope
or_new none = new_scope
or_new (some sc) = sc

-- the scope with the patterns counted, and synced; a scope that is not there is made
unfoldable pub acquired_scope :
    (Bytes → Bool) → List Bytes → Option Scope → List Bytes → Wired × Bool
acquired_scope grants patterns o live =
    let sc = or_new o in
    resync grants
      (record { scope = record sc { desired = incr_all patterns sc.desired }; live = live })

-- An error rolls back: the release there asks Subscribe anew, with the answers `again`.
acquire_synced : (Bytes → Bool) → Bytes → List Bytes → Bridge → Wired × Bool → Option ℕ × Bridge
acquire_synced again key patterns b (w, true) = (some b.gen, set_scope key (some w.scope, w.live) b)
acquire_synced again key patterns b (w, false) =
    (none, release_locked again key patterns (set_scope key (some w.scope, w.live) b))

-- acquireScope behind the resolution, before which the generation was `gen`; `none` is an error
unfoldable pub acquire_scope :
    (Bytes → Bool) → (Bytes → Bool) → ℕ → Bytes → List Bytes → Bridge → Option ℕ × Bridge
unfolding acquire_synced
acquire_scope grants again gen key patterns b =
    if not (b.gen == gen)
    then (none, b)
    else acquire_synced again key patterns b
        (acquired_scope grants patterns (b.scopes key) (b.live key))

-- the timer of scheduleResyncRetryLocked
retry_found : (Bytes → Bool) → Bytes → Bridge → Option Scope → Bridge
retry_found grants key b none = b
retry_found grants key b (some sc) =
    let w = or_retry (
      resync grants
        (record { scope = record sc { retry_scheduled = false }; live = b.live key })) in
    set_scope key (some w.scope, w.live) b

unfoldable pub retry : (Bytes → Bool) → Bytes → Bridge → Bridge
unfolding retry_found
retry grants key b = retry_found grants key b (b.scopes key)

-- the loop that cancels what is active
unfoldable pub cancel_all : List Bytes → List Bytes → List Bytes
unfolding cancel
cancel_all [] live = live
cancel_all (p ∷ active) live = cancel_all active (cancel p live)

unfoldable pub cancel_scope : Option Scope → List Bytes → List Bytes
cancel_scope none live = live
cancel_scope (some sc) live = cancel_all sc.active live

unfoldable pub detach : Bridge → Bridge
unfolding cancel_scope
detach b = record {
  scopes = λ key. none;
  live = λ key. cancel_scope (b.scopes key) (b.live key);
  gen = b.gen + 1;
}

-- What `acquire` holds for one scope until its release.
pub record Lease : Type 0 where
  pub key : Bytes
  pub gen : ℕ
  pub patterns : List Bytes

-- one of the deferred releases; those of an earlier generation do nothing
unfoldable pub release : (Bytes → Bool) → Lease → Bridge → Bridge
release grants l b = if l.gen == b.gen then release_locked grants l.key l.patterns b else b
