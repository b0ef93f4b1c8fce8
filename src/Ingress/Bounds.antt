-- ===== src/Ingress/Bounds.antt =====
-- The policy keeps its limits.
use tmuxatlas.Common.{
  ℕ, zero, suc, ◌+◌, ◌-◌, ◌≤◌, ◌<◌, ◌≡◌, ◌≢◌, refl, List, [], ◌∷◌, Option, none, some, arith, Text,
  text_key, ℕ_key, Dict, get, put, length, leb, ◌||◌, if◌then◌else◌, Option-cases, Bool-cases, inl,
  inr, get-put, length-put-le, length-put-le_of_get, holds, Text-discrete,
}
use tmuxatlas.Ingress.{
  Floats, RejectReason, CategoryLimits, Config, TokenBucket, CategoryState, Policy, without,
  new_categories, initial_policy, cleanup_sources, charge, admit, admit_as, settle, acquire,
  acquire_as, released, release, limits_or_zero, normalize_source, new_token_bucket, refill,
}

-- The open leases of a category.
unfoldable pub held : Text → Dict ℕ Text → ℕ
held category [] = 0
held category ((t, c) ∷ leases) =
    (if holds (Text-discrete c category) then 1 else 0) + held category leases

held-without :
    (category c : Text) (t : ℕ) (leases : Dict ℕ Text)
    → get t leases ≡ some c
    → held category leases
      ≡ (if holds (Text-discrete c category) then 1 else 0) + held category (without t leases)
unfolding held get without
held-without category c t [] h = absurd (ground arith)
held-without category c t ((s, d) ∷ leases) h = ground (arith, held-without category c t leases)

length-without :
    (c : Text) (t : ℕ) (leases : Dict ℕ Text)
    → get t leases ≡ some c
    → length leases ≡ suc (length (without t leases))
unfolding get without
length-without c t [] h = absurd (ground arith)
length-without c t ((s, d) ∷ leases) h = ground (arith, length-without c t leases)

pub data Event : Type 0 where
  acquires : Text → Text → ℕ → Event
  releases : ℕ → Event

module _ {F : Type 0} (floats : Floats F) where
  unfoldable pub handle : Config F → Event → Policy F → Policy F
  handle config (acquires category source now) policy =
      (acquire floats config category source now policy).1
  handle config (releases lease) policy = release floats lease policy

  unfoldable pub run : Config F → List Event → Policy F → Policy F
  unfolding handle
  run config [] policy = policy
  run config (e ∷ events) policy = run config events (handle config e policy)

  abbrev pub limit_of : Config F → Text → ℕ
  limit_of config category = (limits_or_zero floats (get category config.categories)).max_in_flight

  -- The counts of a category: its open leases, within its limit, and sources within the capacity.
  abbrev pub IsCounted : Config F → Text → ℕ → CategoryState F → Type 0
  IsCounted config category n state =
      (state.in_flight ≡ n)
      × (state.in_flight ≤ limit_of config category)
      × (length state.sources ≤ config.max_sources_per_category)

  -- The counts of requests in flight are those of the open leases and within the limits.
  abbrev pub IsBounded : Config F → Policy F → Type 0
  IsBounded config policy =
      (policy.global_in_flight ≡ length policy.leases)
      × (policy.global_in_flight ≤ config.global_max_in_flight)
      × ((category : Text) (state : CategoryState F)
          → get category policy.categories ≡ some state
          → IsCounted config category (held category policy.leases) state)

  length-cleanup_sources-le :
      (budget ttl now : ℕ) (sources : Dict Text (TokenBucket F))
      → length (cleanup_sources floats budget ttl now sources) ≤ length sources
  unfolding cleanup_sources
  length-cleanup_sources-le zero ttl now sources = omega arith
  length-cleanup_sources-le (suc budget) ttl now [] = omega arith
  length-cleanup_sources-le (suc budget) ttl now ((s, b) ∷ rest) =
      ground (arith, length-cleanup_sources-le budget ttl now rest)

  -- How many requests an admission adds.
  abbrev added : Option RejectReason → ℕ
  added none = 1
  added (some reason) = 0

  charge-counts :
      (limits : CategoryLimits F) (now : ℕ) (source : Text) (bucket : TokenBucket F)
      (state : CategoryState F) (bound : ℕ)
      → ((b : TokenBucket F) → length (put source b state.sources) ≤ bound)
      → let r = charge floats limits now source bucket state in
        (r.1.in_flight ≡ added r.0 + state.in_flight) × (length r.1.sources ≤ bound)
  unfolding charge
  charge-counts limits now source bucket state bound h =
      let all = refill floats state.global limits.global_rate limits.global_burst now in
      let own = refill floats bucket limits.source_rate limits.source_burst now in
      elim (Bool-cases (floats.below_one all.tokens || floats.below_one own.tokens)) [
        | inl e ↦ rw e (omega arith, h own)
        | inr e ↦ rw e (omega arith, h (record own { tokens = floats.minus_one own.tokens }))
      ]

  -- The state after the scan.
  abbrev cleaned : Config F → ℕ → CategoryState F → CategoryState F
  cleaned config now state = record state {
    sources = cleanup_sources floats config.cleanup_budget config.source_idle_ttl now state.sources;
  }

  admit_as-counts :
      (config : Config F) (limits : CategoryLimits F) (now : ℕ) (source : Text)
      (state : CategoryState F)
      → length state.sources ≤ config.max_sources_per_category
      → let r = admit_as floats (get source state.sources) config limits now source state in
        (r.1.in_flight ≡ added r.0 + state.in_flight)
        × (length r.1.sources ≤ config.max_sources_per_category)
  unfolding admit_as
  admit_as-counts config limits now source state h =
      elim (Option-cases (get source state.sources)) [
        | inr (bucket, e) ↦ rw e (
            charge-counts limits now source bucket state config.max_sources_per_category
              (λ b. omega (arith, length-put-le_of_get source b bucket state.sources e)))
        | inl e ↦ elim (Bool-cases (leb config.max_sources_per_category (length state.sources))) [
          | inl f ↦ rw (e, f) (omega arith, h)
          | inr f ↦
              rw (e, f)
                (charge-counts limits now source (new_token_bucket floats limits.source_burst now)
                  state config.max_sources_per_category
                  (λ b. let l = length-put-le source b state.sources in ground arith))
        ]
      ]

  admit-counts :
      (config : Config F) (limits : CategoryLimits F) (now : ℕ) (source : Text)
      (state : CategoryState F)
      → length state.sources ≤ config.max_sources_per_category
      → let r = admit floats config limits now source state in
        (r.1.in_flight ≡ added r.0 + state.in_flight)
        × (length r.1.sources ≤ config.max_sources_per_category)
  unfolding admit
  admit-counts config limits now source state h =
      let l =
        length-cleanup_sources-le config.cleanup_budget config.source_idle_ttl now state.sources in
      admit_as-counts config limits now (normalize_source source) (cleaned config now state)
        (omega arith)

  -- A category with a new state, counted in the new leases, which leave the other categories alone.
  put-IsCounted :
      (config : Config F) (category : Text) (next : CategoryState F)
      (categories : Dict Text (CategoryState F)) (leases later : Dict ℕ Text)
      → IsCounted config category (held category later) next
      → ((c : Text) → category ≢ c → held c later ≡ held c leases)
      → ((c : Text) (q : CategoryState F)
          → get c categories ≡ some q
          → IsCounted config c (held c leases) q)
      → (c : Text) (q : CategoryState F) → get c (put category next categories) ≡ some q
      → IsCounted config c (held c later) q
  put-IsCounted config category next categories leases later n others b c q h =
      elim (text_key.eq? category c) [
        | yes p ↦
            let same : next ≡ q = ground (arith, get-put c category next categories) in
            (cc (n.0, same, p), ground (arith, n.1, same, p), ground (arith, n.2, same, p))
        | no d ↦ rw (others c d) (b c q (ground (arith, get-put c category next categories)))
      ]

  settle-IsBounded :
      (config : Config F) (category : Text) (reason : Option RejectReason)
      (state next : CategoryState F) (policy : Policy F)
      → IsBounded config policy
      → get category policy.categories ≡ some state
      → policy.global_in_flight < config.global_max_in_flight
      → state.in_flight < limit_of config category
      → next.in_flight ≡ added reason + state.in_flight
      → length next.sources ≤ config.max_sources_per_category
      → IsBounded config (settle floats category (reason, next) policy).1
  settle-IsBounded config category none state next policy b e l m i s =
      let n = b.2 category state e in
      (
        omega (arith, b.0),
        omega arith,
        put-IsCounted config category next policy.categories policy.leases
            ((policy.next_lease, category) ∷ policy.leases)
            (unfold held in ground (arith, n.0), omega (arith, n.0), s)
            (λ c d. unfold held in ground arith) b.2,
      )
  settle-IsBounded config category (some reason) state next policy b e l m i s =
      let n = b.2 category state e in
      (
        b.0,
        b.1,
        put-IsCounted config category next policy.categories policy.leases policy.leases
            (omega (arith, n.0), omega arith, s) (λ c d. refl) b.2,
      )

  acquire-IsBounded :
      (config : Config F) (category source : Text) (now : ℕ) (policy : Policy F)
      → IsBounded config policy
      → IsBounded config (acquire floats config category source now policy).1
  unfolding acquire acquire_as
  acquire-IsBounded config category source now policy b =
      elim (Option-cases (get category policy.categories)) [
        | inl e ↦ rw e b
        | inr (state, e) ↦
            elim (Bool-cases (
              leb config.global_max_in_flight policy.global_in_flight
              || leb (limit_of config category) state.in_flight)) [
                | inl f ↦ rw (e, f) b
                | inr f ↦
                    let limits = limits_or_zero floats (get category config.categories) in
                    let n = admit-counts config limits now source state (b.2 category state e).2 in
                    rw (e, f)
                      (settle-IsBounded config category
                        (admit floats config limits now source state).0 state
                        (admit floats config limits now source state).1 policy b e (ground arith)
                        (ground arith) n.0 n.1)
              ]
      ]

  released-IsCounted :
      (config : Config F) (lease : ℕ) (category : Text) (policy : Policy F)
      → ((c : Text) (q : CategoryState F)
          → get c policy.categories ≡ some q
          → IsCounted config c (held c policy.leases) q)
      → get lease policy.leases ≡ some category
      → (c : Text) (q : CategoryState F)
      → get c (released floats (get category policy.categories) category policy.categories) ≡ some q
      → IsCounted config c (held c (without lease policy.leases)) q
  released-IsCounted config lease category policy b e c q h =
      elim (Option-cases (get category policy.categories)) [
        | inl f ↦
            let found : get c policy.categories ≡ some q = rw f at h in
            let other : category ≢ c = (λ p. ground arith) in
            let same = held-without c category lease policy.leases e in
            let n = b c q found in (ground arith, n.1, n.2)
        | inr (state, f) ↦
            let found : get c (
                  put category (record state { in_flight = state.in_flight - 1 }) policy.categories)
                ≡ some q =
              rw f at h in
            let n = b category state f in
            put-IsCounted config category (record state { in_flight = state.in_flight - 1 })
              policy.categories policy.leases (without lease policy.leases)
              (
                let same = held-without category category lease policy.leases e in ground arith,
                omega (arith, n.1),
                n.2,
              )
              (λ d p. let same = held-without d category lease policy.leases e in ground arith) b c
              q found
      ]

  release-IsBounded :
      (config : Config F) (lease : ℕ) (policy : Policy F)
      → IsBounded config policy
      → IsBounded config (release floats lease policy)
  unfolding release
  release-IsBounded config lease policy b = elim (Option-cases (get lease policy.leases)) [
    | inl e ↦ rw e b
    | inr (category, e) ↦
        let shorter = length-without category lease policy.leases e in
        rw e (
          omega (arith, b.0),
          omega (arith, b.0),
          released-IsCounted config lease category policy b.2 e,
        )
  ]

  run-IsBounded :
      (config : Config F) (events : List Event) (policy : Policy F)
      → IsBounded config policy
      → IsBounded config (run config events policy)
  unfolding run handle
  run-IsBounded config [] policy b = b
  run-IsBounded config (acquires category source now ∷ events) policy b =
      run-IsBounded config events (acquire floats config category source now policy).1
        (acquire-IsBounded config category source now policy b)
  run-IsBounded config (releases lease ∷ events) policy b =
      run-IsBounded config events (release floats lease policy)
        (release-IsBounded config lease policy b)

  new_categories-IsCounted :
      (config : Config F) (now : ℕ) (limits : Dict Text (CategoryLimits F)) (c : Text)
      (q : CategoryState F)
      → get c (new_categories floats now limits) ≡ some q
      → IsCounted config c 0 q
  unfolding new_categories get
  new_categories-IsCounted config now [] c q h = absurd (ground arith)
  new_categories-IsCounted config now ((k, l) ∷ limits) c q h = elim (text_key.eq? k c) [
    | yes p ↦ (ground arith, ground arith, ground arith)
    | no n ↦ new_categories-IsCounted config now limits c q (ground arith)
  ]

  -- After any calls of Acquire and of the leases' Release, in any order and each lease's Release any number
  -- of times: the requests in flight, of all and of each category, are those of the leases that are not
  -- released, within the global limit and the category's, and no category has more sources than the
  -- capacity.
  pub limits_hold :
      (config : Config F) (now : ℕ) (events : List Event)
      → IsBounded config (run config events (initial_policy floats config now))
  limits_hold config now events = run-IsBounded config events (initial_policy floats config now) (
    unfold initial_policy in refl,
    unfold initial_policy in omega arith,
    unfold initial_policy held in
        (λ c q h. new_categories-IsCounted config now config.categories c q h),
  )
