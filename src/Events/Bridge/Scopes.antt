-- ===== src/Events/Bridge/Scopes.antt =====
-- A scope and the patterns that are asked for on it.
use any.Common.{
  ℕ, ◌+◌, ◌≤◌, Bool, true, false, List, [], ◌∷◌, Option, none, some, is_nil, Bytes, if_cases, ◌≡◌,
  refl, sym, ap, ◌∙◌, arith, subst,
}
use any.Strings.{contains}
use any.Strings.Laws.{eq_bytes_refl}
use any.Events.Topics.{maximal_patterns}
use any.Events.Bridge.{
  Scope, Wired, incr_all, decr_all, keys, resync, or_retry, or_new, recounted, release_scope,
  acquired_scope,
}
use any.Events.Bridge.Counts.{
  count_of, occurs, IsCounts, incr_all-IsCounts, count_of-incr_all, decr_all-IsCounts,
  count_of-decr_all,
}
use any.Events.Bridge.Resync.{IsLive, occurs-contains, resync_only, resync_all, resync-IsLive}

-- A scope whose patterns are asked for as often as `wanted` says. The SDK has one subscription for each
-- active pattern and no other.
pub record IsScope (wanted : Bytes → ℕ) (sc : Scope) (live : List Bytes) : Type 0 where
  pub counts : IsCounts sc.desired
  pub counted : (p : Bytes) → count_of sc.desired p ≡ wanted p
  pub subscribed : IsLive sc.active live
  pub only_maximal :
      (p : Bytes)
      → contains sc.active p ≡ true
      → contains (maximal_patterns (keys sc.desired)) p ≡ true
  pub all_maximal :
      (p : Bytes)
      → sc.retry_scheduled ≡ false
      → contains (maximal_patterns (keys sc.desired)) p ≡ true
      → contains sc.active p ≡ true

-- Where there is a scope, a pattern is asked for on it; where there is none, nothing is asked for and
-- nothing is subscribed to.
abbrev pub IsEntry : (Bytes → ℕ) → Option Scope → List Bytes → Type 0
IsEntry wanted none live = (p : Bytes) → (wanted p ≡ 0) × (occurs p live ≡ 0)
IsEntry wanted (some sc) live = IsScope wanted sc live × (p : Bytes) × (1 ≤ wanted p)

-- a scope behind a resync, with what it still misses left to a retry
pub or_retry-IsScope :
    (grants : Bytes → Bool) (wanted : Bytes → ℕ) (w : Wired)
    → IsCounts w.scope.desired
    → ((p : Bytes) → count_of w.scope.desired p ≡ wanted p)
    → IsLive w.scope.active w.live
    → IsScope wanted (or_retry (resync grants w)).scope (or_retry (resync grants w)).live
or_retry-IsScope grants wanted w counts counted subscribed =
    of_result (resync grants w) (unfold resync in refl) (resync-IsLive grants w subscribed)
      (resync_only grants w) (resync_all grants w)
  where
    of_result :
        (r : Wired × Bool)
        → r.0.scope.desired ≡ w.scope.desired
        → IsLive r.0.scope.active r.0.live
        → ((p : Bytes)
            → contains r.0.scope.active p ≡ true
            → contains (maximal_patterns (keys w.scope.desired)) p ≡ true)
        → ((p : Bytes)
            → r.1 ≡ true
            → contains (maximal_patterns (keys w.scope.desired)) p ≡ true
            → contains r.0.scope.active p ≡ true)
        → IsScope wanted (or_retry r).scope (or_retry r).live
    of_result (w', true) e live only all = record {
      counts = subst IsCounts (sym e) counts;
      counted = λ p. ap (λ (d : List (Bytes × ℕ)). count_of d p) e ∙ counted p;
      subscribed = live;
      only_maximal = λ p h. rw e (only p h);
      all_maximal = λ p r h. all p refl (rw (sym e) h);
    }
    of_result (w', false) e live only all = record {
      counts = subst IsCounts (sym e) counts;
      counted = λ p. ap (λ (d : List (Bytes × ℕ)). count_of d p) e ∙ counted p;
      subscribed = live;
      only_maximal = λ p h. rw e (only p h);
      all_maximal = λ p r h. cc (r);
    }

pub IsEntry-cong :
    (wanted wanted' : Bytes → ℕ) (o : Option Scope) (live : List Bytes)
    → ((p : Bytes) → wanted p ≡ wanted' p)
    → IsEntry wanted o live
    → IsEntry wanted' o live
IsEntry-cong wanted wanted' none live e h = λ p. (sym (e p) ∙ (h p).0, (h p).1)
IsEntry-cong wanted wanted' (some sc) live e (h, p, asked) = (
  record {
    counts = h.counts;
    counted = λ q. h.counted q ∙ e q;
    subscribed = h.subscribed;
    only_maximal = h.only_maximal;
    all_maximal = h.all_maximal;
  },
  p,
  subst (λ (n : ℕ). 1 ≤ n) (e p) asked,
)

-- A scope's counts are those of its leases and of patterns to be released.
abbrev pub IsCounted : (Bytes → ℕ) → List Bytes → Option Scope → List Bytes → Type 0
IsCounted wanted patterns none live = (p : Bytes) → (wanted p ≡ 0) × (occurs p live ≡ 0)
IsCounted wanted patterns (some sc) live =
    IsCounts sc.desired
    × ((p : Bytes) → count_of sc.desired p ≡ wanted p + occurs p patterns)
    × IsLive sc.active live

all_none : (d : List (Bytes × ℕ)) (p : Bytes) → is_nil d ≡ true → count_of d p ≡ 0
all_none [] p h = refl
all_none ((q, c) ∷ d) p h = cc

one_counted :
    (d : List (Bytes × ℕ)) → IsCounts d → is_nil d ≡ false → (p : Bytes) × (1 ≤ count_of d p)
one_counted [] counts h = cc
one_counted ((q, c) ∷ d) counts h = (q, ground (arith, counts, eq_bytes_refl q))

-- What is not wanted is not active, so a scope without counts has no subscription.
none_subscribed :
    (wanted : Bytes → ℕ) (sc : Scope) (live : List Bytes) (p : Bytes)
    → IsScope wanted sc live
    → is_nil sc.desired ≡ true
    → occurs p live ≡ 0
unfolding contains maximal_patterns keys
none_subscribed wanted sc live p h e =
    ground (
      arith,
      h.subscribed.held p,
      occurs-contains sc.active p,
      h.only_maximal p,
      empty sc.desired e,
    )
  where
    empty :
        (d : List (Bytes × ℕ)) → is_nil d ≡ true → contains (maximal_patterns (keys d)) p ≡ false
    empty [] h = refl
    empty (entry ∷ d) h = cc

pub release_scope-IsEntry :
    (grants : Bytes → Bool) (wanted : Bytes → ℕ) (patterns : List Bytes) (w : Wired)
    → IsCounted wanted patterns (some w.scope) w.live
    → (let r = release_scope grants patterns w in IsEntry wanted r.0 r.1)
unfolding release_scope
release_scope-IsEntry grants wanted patterns w (counts, counted, live) =
    let w' = recounted (decr_all patterns w.scope.desired) w in
    let is_scope =
      or_retry-IsScope grants wanted w' (decr_all-IsCounts patterns w.scope.desired counts)
        (λ p. omega (arith, count_of-decr_all patterns w.scope.desired p counts, counted p)) live in
    let after = or_retry (resync grants w') in
    if_cases (λ (o : Option Scope). IsEntry wanted o after.live) (is_nil after.scope.desired) none
      (some after.scope)
      (λ e p. (
        sym (is_scope.counted p) ∙ all_none after.scope.desired p e,
        none_subscribed wanted after.scope after.live p is_scope e,
      ))
      (λ e.
        let (p, asked) = one_counted after.scope.desired is_scope.counts e in
        (is_scope, p, subst (λ (n : ℕ). 1 ≤ n) (is_scope.counted p) asked))

or_new-IsCounted :
    (wanted : Bytes → ℕ) (o : Option Scope) (live : List Bytes)
    → IsEntry wanted o live
    → IsCounted wanted [] (some (or_new o)) live
or_new-IsCounted wanted none live h =
    (tt, λ p. omega (arith, (h p).0), record { held = λ p. (h p).1; once = λ p. omega arith })
or_new-IsCounted wanted (some sc) live (h, p, asked) =
    (h.counts, λ p. omega (arith, h.counted p), h.subscribed)

-- a scope of which the patterns of a new acquisition are counted
IsCounted-anew :
    (wanted : Bytes → ℕ) (patterns : List Bytes) (o : Option Scope) (live : List Bytes)
    → IsEntry wanted o live
    → IsCounted wanted patterns
        (some (record (or_new o) { desired = incr_all patterns (or_new o).desired }))
        live
IsCounted-anew wanted patterns o live h =
    let (counts, counted, subscribed) = or_new-IsCounted wanted o live h in
    (
      incr_all-IsCounts patterns (or_new o).desired counts,
      λ p. omega (arith, count_of-incr_all patterns (or_new o).desired p, counted p),
      subscribed,
    )

-- the counts of a scope with the patterns of a new acquisition
pub acquired_counts :
    (grants : Bytes → Bool) (wanted : Bytes → ℕ) (patterns : List Bytes) (o : Option Scope)
    (live : List Bytes)
    → IsEntry wanted o live
    → (let w = (acquired_scope grants patterns o live).0 in
        IsCounted wanted patterns (some w.scope) w.live)
unfolding acquired_scope
acquired_counts grants wanted patterns o live h =
    let (counts, counted, subscribed) = IsCounted-anew wanted patterns o live h in
    let sc : Scope = record (or_new o) { desired = incr_all patterns (or_new o).desired } in
    let w : Wired = record { scope = sc; live = live } in
    (unfold resync in counts, unfold resync in counted, resync-IsLive grants w subscribed)

or_retry_done : (r : Wired × Bool) → r.1 ≡ true → or_retry r ≡ r.0
or_retry_done (w, true) h = refl
or_retry_done (w, false) h = cc

-- what a successful acquisition leaves
pub acquired-IsScope :
    (grants : Bytes → Bool) (wanted : Bytes → ℕ) (patterns : List Bytes) (o : Option Scope)
    (live : List Bytes)
    → IsEntry wanted o live
    → (acquired_scope grants patterns o live).1 ≡ true
    → (let w = (acquired_scope grants patterns o live).0 in
        IsScope (λ p. wanted p + occurs p patterns) w.scope w.live)
unfolding acquired_scope
acquired-IsScope grants wanted patterns o live h done =
    let (counts, counted, subscribed) = IsCounted-anew wanted patterns o live h in
    let sc : Scope = record (or_new o) { desired = incr_all patterns (or_new o).desired } in
    let w : Wired = record { scope = sc; live = live } in
    subst (λ (w : Wired). IsScope (λ p. wanted p + occurs p patterns) w.scope w.live)
      (or_retry_done (resync grants w) done)
      (or_retry-IsScope grants (λ p. wanted p + occurs p patterns) w counts counted subscribed)

pub IsCounted-of :
    (wanted wanted' : Bytes → ℕ) (patterns : List Bytes) (o : Option Scope) (live : List Bytes)
    → ((p : Bytes) → wanted p ≡ wanted' p + occurs p patterns)
    → IsEntry wanted o live
    → IsCounted wanted' patterns o live
IsCounted-of wanted wanted' patterns none live e h = λ p. (omega (arith, e p, (h p).0), (h p).1)
IsCounted-of wanted wanted' patterns (some sc) live e (h, p, asked) =
    (h.counts, λ q. h.counted q ∙ e q, h.subscribed)
