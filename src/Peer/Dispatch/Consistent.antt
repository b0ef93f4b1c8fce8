-- ===== src/Peer/Dispatch/Consistent.antt =====
-- The calls of the Agent's dispatcher, and the cache that they share: which entries are in progress.
use tmuxatlas.Common.{
  ℕ, suc, ◌≤◌, ◌<◌, ◌≡◌, refl, false, not, leb, List, [], ◌∷◌, Option, none, some, arith, Text,
  Text-discrete, text_key, ℕ_key, Dict, get, put, remove, length, holds, Option-cases, Bool-cases,
  inl, inr, get-put, get-put_ne, get-remove, get-keep-some, length-keep-le, length-put-le,
  Option-discrete,
}
use tmuxatlas.Peer.Protocol.{RuntimeRequest}
use tmuxatlas.Peer.Requests.{RequestOutcome}
use tmuxatlas.Peer.Dispatch.{
  OutcomeCacheConfig, CachedOutcome, OutcomeCache, empty_cache, Begun, answers, waits, executes,
  expired, sweep, begin, begin_as, finish, digest_of,
}

-- The Agent: its cache and the calls of Do that execute.
pub record Agent : Type 0 where
  pub cache : OutcomeCache
  pub running : Dict ℕ RuntimeRequest

abbrev pub new_agent : Agent
new_agent = record { cache = empty_cache; running = [] }

-- One call of Do enters at a time, or the executing call of an object ends.
pub data Event : Type 0 where
  begins : RuntimeRequest → Option Text → ℕ → Event
  finishes : ℕ → ℕ → RequestOutcome → ℕ → Event

abbrev pub starts : RuntimeRequest → Begun × OutcomeCache → Dict ℕ RuntimeRequest → Agent
starts request (executes t, cache) running = record {
  cache = cache;
  running = put t request running;
}
starts request (waits t, cache) running = record { cache = cache; running = running }
starts request (answers o, cache) running = record { cache = cache; running = running }

abbrev pub ends :
    Option RuntimeRequest → OutcomeCacheConfig → ℕ → ℕ → RequestOutcome → ℕ → Agent → Agent
ends none config t size outcome now agent = agent
ends (some request) config t size outcome now agent = record {
  cache = finish config request t size outcome now agent.cache;
  running = remove t agent.running;
}

unfoldable pub handle : OutcomeCacheConfig → Event → Agent → Agent
handle config (begins request digest now) agent =
    starts request (begin config request digest now agent.cache) agent.running
handle config (finishes t size outcome now) agent =
    ends (get t agent.running) config t size outcome now agent

unfoldable pub run : OutcomeCacheConfig → List Event → Agent → Agent
unfolding handle
run config [] agent = agent
run config (e ∷ events) agent = run config events (handle config e agent)

abbrev pub unfinished : Text → CachedOutcome
unfinished d = record { digest = d; outcome = none }

-- An object without an outcome, which the map has for the id.
abbrev InProgress : OutcomeCache → Text → ℕ → Type 0
InProgress cache k t =
    (get k cache.entries ≡ some t)
    × (t < cache.next_object)
    × (d : Text) × (get t cache.objects ≡ some (record { digest = d; outcome = none }))

-- Each executing call has the map's entry for its request id, whose object has no outcome yet, and
-- the map keeps within its bound; objects are the ones that were made.
abbrev pub IsConsistent : OutcomeCacheConfig → Agent → Type 0
IsConsistent config agent =
    ((t : ℕ) (request : RuntimeRequest)
      → get t agent.running ≡ some request
      → InProgress agent.cache request.request_id t)
    × (length agent.cache.entries ≤ config.max_entries)
    × ((t : ℕ) (o : CachedOutcome)
        → get t agent.cache.objects ≡ some o
        → t < agent.cache.next_object)

pub sweep-keeps :
    (now : ℕ) (k : Text) (t : ℕ) (cache : OutcomeCache)
    → get k cache.entries ≡ some t
    → expired now (get t cache.objects) ≡ false
    → get k (sweep now cache).entries ≡ some t
unfolding sweep
sweep-keeps now k t cache h e = get-keep-some _ k t cache.entries h (rw e refl)

sweep-InProgress :
    (now : ℕ) (k : Text) (t : ℕ) (cache : OutcomeCache)
    → InProgress cache k t
    → InProgress (sweep now cache) k t
unfolding sweep
sweep-InProgress now k t cache (h, l, d, e) =
    (get-keep-some _ k t cache.entries h (rw e refl), l, d, e)

-- A new entry leaves the others in progress.
fresh-InProgress :
    (request r : RuntimeRequest) (digest : Text) (t : ℕ) (agent : Agent)
    → ((s : ℕ) (q : RuntimeRequest)
        → get s agent.running ≡ some q
        → InProgress agent.cache q.request_id s)
    → get request.request_id agent.cache.entries ≡ none
    → get t (put agent.cache.next_object request agent.running) ≡ some r
    → InProgress
        (record agent.cache {
          entries = put request.request_id agent.cache.next_object agent.cache.entries;
          objects =
              put agent.cache.next_object
                (record { digest = digest; outcome = none })
                agent.cache.objects;
          next_object = suc agent.cache.next_object;
        })
        r.request_id
        t
fresh-InProgress request r digest t agent c e h = elim (ℕ_key.eq? agent.cache.next_object t) [
  | yes p ↦ (
    ground (
      arith,
      get-put t agent.cache.next_object request agent.running,
      get-put r.request_id request.request_id agent.cache.next_object agent.cache.entries,
    ),
    omega arith,
    digest,
    ground (arith, get-put t agent.cache.next_object (unfinished digest) agent.cache.objects),
  )
  | no n ↦
      let (g, l, d, f) =
        c t r (ground (arith, get-put t agent.cache.next_object request agent.running)) in
      (
        ground (
          arith,
          get-put r.request_id request.request_id agent.cache.next_object agent.cache.entries,
        ),
        omega arith,
        d,
        ground (arith, get-put t agent.cache.next_object (unfinished digest) agent.cache.objects),
      )
]

put-bounded :
    (n bound t s : ℕ) (v o : CachedOutcome) (m : Dict ℕ CachedOutcome)
    → ((r : ℕ) (q : CachedOutcome) → get r m ≡ some q → r < n)
    → t < bound
    → n ≤ bound
    → get s (put t v m) ≡ some o
    → s < bound
put-bounded n bound t s v o m b l k h = elim (ℕ_key.eq? t s) [
  | yes p ↦ omega arith
  | no q ↦ let x = b s o (ground (arith, get-put s t v m)) in omega arith
]

pub begin-IsConsistent :
    (config : OutcomeCacheConfig) (request : RuntimeRequest) (digest : Text) (agent : Agent)
    → IsConsistent config agent
    → IsConsistent config (
        starts request
          (begin_as (get request.request_id agent.cache.entries) config request digest agent.cache)
          agent.running)
unfolding begin_as
begin-IsConsistent config request digest agent c =
    elim (Option-cases (get request.request_id agent.cache.entries)) [
      | inr (t, e) ↦
          elim (Bool-cases (
            holds (
              Option-discrete Text-discrete (digest_of (get t agent.cache.objects))
                (some digest)))) [ inl f ↦ rw (e, f) c | inr f ↦ rw (e, f) c ]
      | inl e ↦ elim (Bool-cases (leb config.max_entries (length agent.cache.entries))) [
        | inl f ↦ rw (e, f) c
        | inr f ↦
            rw (e, f)
              (
                λ t r h. fresh-InProgress request r digest t agent c.0 e h,
                ground (
                  arith,
                  length-put-le request.request_id agent.cache.next_object agent.cache.entries,
                ),
                λ t o h.
                    put-bounded agent.cache.next_object (suc agent.cache.next_object)
                      agent.cache.next_object t (unfinished digest) o agent.cache.objects c.2
                      (omega arith) (omega arith) h,
              )
      ]
    ]

finish-IsConsistent :
    (config : OutcomeCacheConfig) (t size : ℕ) (outcome : RequestOutcome) (now : ℕ) (agent : Agent)
    → IsConsistent config agent
    → IsConsistent config (handle config (finishes t size outcome now) agent)
unfolding handle finish
finish-IsConsistent config t size outcome now agent c = elim (Option-cases (get t agent.running)) [
  | inl e ↦ rw e c
  | inr (request, e) ↦
      let (_, _, d, f) = c.0 t request e in
      rw (e, f)
        (
          λ s r h. elim (ℕ_key.eq? t s) [
            | yes p ↦ absurd (ground (arith, get-remove s t agent.running))
            | no n ↦
                let (g, l, b, o) = c.0 s r (ground (arith, get-remove s t agent.running)) in
                (g, l, b, rw (get-put_ne s t _ agent.cache.objects n) o)
          ],
          c.1,
          λ s o h.
              put-bounded agent.cache.next_object agent.cache.next_object t s _ o
                agent.cache.objects c.2 (c.2 t _ f) (omega arith) h,
        )
]

pub sweep-IsConsistent :
    (config : OutcomeCacheConfig) (now : ℕ) (agent : Agent)
    → IsConsistent config agent
    → IsConsistent config (record { cache = sweep now agent.cache; running = agent.running })
unfolding sweep
sweep-IsConsistent config now agent c = (
  λ t r h. sweep-InProgress now r.request_id t agent.cache (c.0 t r h),
  omega (
    arith,
    c.1,
    length-keep-le (λ _ t. not (expired now (get t agent.cache.objects))) agent.cache.entries,
  ),
  c.2,
)

pub handle-IsConsistent :
    (config : OutcomeCacheConfig) (event : Event) (agent : Agent)
    → IsConsistent config agent
    → IsConsistent config (handle config event agent)
unfolding handle begin
handle-IsConsistent config (begins request none now) agent c = c
handle-IsConsistent config (begins request (some digest) now) agent c =
    begin-IsConsistent config request digest
      (record { cache = sweep now agent.cache; running = agent.running })
      (sweep-IsConsistent config now agent c)
handle-IsConsistent config (finishes t size outcome now) agent c =
    finish-IsConsistent config t size outcome now agent c

pub run-IsConsistent :
    (config : OutcomeCacheConfig) (events : List Event) (agent : Agent)
    → IsConsistent config agent
    → IsConsistent config (run config events agent)
unfolding run
run-IsConsistent config [] agent c = c
run-IsConsistent config (e ∷ events) agent c =
    run-IsConsistent config events (handle config e agent) (handle-IsConsistent config e agent c)

pub new_agent-IsConsistent : (config : OutcomeCacheConfig) → IsConsistent config new_agent
unfolding get
new_agent-IsConsistent config =
    (λ t r h. absurd (ground arith), omega arith, λ t o h. absurd (ground arith))
