-- ===== src/Peer/Dispatch/Replay.antt =====
-- A cached outcome is given again, and its request is not executed again.
use tmuxatlas.Common.{
  ℕ, ◌<◌, ◌≡◌, leb, List, [], ◌∷◌, none, some, arith, Text, Text-discrete, text_key, ℕ_key, get,
  if◌then◌else◌, length, holds, Option-cases, Bool-cases, inl, inr, get-put, get-put_ne, All,
  Option-discrete,
}
use tmuxatlas.Peer.Protocol.{RuntimeRequest, ErrorCode}
use tmuxatlas.Peer.Requests.{RequestOutcome}
use tmuxatlas.Peer.Dispatch.{
  OutcomeCacheConfig, CachedOutcome, OutcomeCache, answers, waits, sweep, error_outcome, begin,
  begin_as, finish, digest_of,
}
use tmuxatlas.Peer.Dispatch.Consistent.{
  Agent, new_agent, Event, begins, finishes, starts, handle, run, IsConsistent, unfinished,
  sweep-keeps, sweep-IsConsistent, handle-IsConsistent, run-IsConsistent, new_agent-IsConsistent,
}

-- A cached outcome of a request id: the map's entry for the id is an object with that outcome.
abbrev pub IsCached : OutcomeCache → Text → ℕ → CachedOutcome → Type 0
IsCached cache k t o = (get k cache.entries ≡ some t) × (get t cache.objects ≡ some o)

-- No call of Do enters at the time `expires` or later.
abbrev pub Before : ℕ → Event → Type 0
Before expires (begins request digest now) = now < expires
Before expires (finishes t size outcome now) = Unit

begin-IsCached :
    (config : OutcomeCacheConfig) (request : RuntimeRequest) (d : Text) (k : Text) (t : ℕ)
    (o : CachedOutcome) (agent : Agent)
    → IsConsistent config agent
    → IsCached agent.cache k t o
    → IsCached
        (starts request
          (begin_as (get request.request_id agent.cache.entries) config request d agent.cache)
          agent.running).cache
        k
        t
        o
unfolding begin_as
begin-IsCached config request d k t o agent c h =
    elim (Option-cases (get request.request_id agent.cache.entries)) [
      | inr (s, e) ↦
          elim (Bool-cases (
            holds
              (Option-discrete Text-discrete (digest_of (get s agent.cache.objects)) (some d)))) [
                | inl f ↦ rw (e, f) h
                | inr f ↦ rw (e, f) h
              ]
      | inl e ↦ elim (Bool-cases (leb config.max_entries (length agent.cache.entries))) [
        | inl f ↦ rw (e, f) h
        | inr f ↦
            let l = c.2 t o h.1 in
            rw (e, f)
              (
                ground (
                  arith,
                  get-put k request.request_id agent.cache.next_object agent.cache.entries,
                ),
                ground
                    (arith, get-put t agent.cache.next_object (unfinished d) agent.cache.objects),
              )
      ]
    ]

finish-IsCached :
    (config : OutcomeCacheConfig) (s size : ℕ) (outcome : RequestOutcome) (now : ℕ) (k : Text)
    (t expires : ℕ) (d : Text) (q : RequestOutcome) (agent : Agent)
    → IsConsistent config agent
    → IsCached agent.cache k t (record { digest = d; outcome = some (q, expires) })
    → IsCached
        (handle config (finishes s size outcome now) agent).cache
        k
        t
        (record { digest = d; outcome = some (q, expires) })
unfolding handle finish
finish-IsCached config s size outcome now k t expires d q agent c h =
    elim (Option-cases (get s agent.running)) [
      | inl e ↦ rw e h
      | inr (request, e) ↦
          let (_, _, b, f) = c.0 s request e in
          rw (e, f)
            (
              h.0,
              elim (ℕ_key.eq? s t) [
                | yes p ↦ absurd (ground arith)
                | no n ↦ rw (get-put_ne t s _ agent.cache.objects n) h.1
              ],
            )
    ]

handle-IsCached :
    (config : OutcomeCacheConfig) (event : Event) (k : Text) (t expires : ℕ) (d : Text)
    (q : RequestOutcome) (agent : Agent)
    → IsConsistent config agent
    → Before expires event
    → IsCached agent.cache k t (record { digest = d; outcome = some (q, expires) })
    → IsCached
        (handle config event agent).cache
        k
        t
        (record { digest = d; outcome = some (q, expires) })
unfolding handle begin
handle-IsCached config (begins request none now) k t expires d q agent c b h = h
handle-IsCached config (begins request (some e) now) k t expires d q agent c b h =
    begin-IsCached config request e k t (record { digest = d; outcome = some (q, expires) })
      (record { cache = sweep now agent.cache; running = agent.running })
      (sweep-IsConsistent config now agent c)
      (sweep-keeps now k t agent.cache h.0 (rw h.1 (ground arith)), unfold sweep in h.1)
handle-IsCached config (finishes s size outcome now) k t expires d q agent c b h =
    finish-IsCached config s size outcome now k t expires d q agent c h

run-IsCached :
    (config : OutcomeCacheConfig) (events : List Event) (k : Text) (t expires : ℕ) (d : Text)
    (q : RequestOutcome) (agent : Agent)
    → IsConsistent config agent
    → All (Before expires) events
    → IsCached agent.cache k t (record { digest = d; outcome = some (q, expires) })
    → IsCached
        (run config events agent).cache
        k
        t
        (record { digest = d; outcome = some (q, expires) })
unfolding run
run-IsCached config [] k t expires d q agent c b h = h
run-IsCached config (e ∷ events) k t expires d q agent c b h =
    run-IsCached config events k t expires d q (handle config e agent)
      (handle-IsConsistent config e agent c) b.1
      (handle-IsCached config e k t expires d q agent c b.0 h)

begin-replays :
    (config : OutcomeCacheConfig) (request : RuntimeRequest) (e : Text) (now t expires : ℕ)
    (d : Text) (q : RequestOutcome) (cache : OutcomeCache)
    → IsCached cache request.request_id t (record { digest = d; outcome = some (q, expires) })
    → now < expires
    → (begin config request (some e) now cache).0 ≡ (
        if holds (Text-discrete e d)
        then waits t
        else answers (error_outcome request ErrorCode.request_conflict []))
unfolding begin begin_as
begin-replays config request e now t expires d q cache h l =
    let found = sweep-keeps now request.request_id t cache h.0 (rw h.1 (ground arith)) in
    rw (found, h.1) (ground arith)

-- Where the cache of an Agent has the outcome of a request id until a time, then after any further
-- calls of Do, the ones that enter all before that time, a request with that id before that time is not
-- executed: with the same digest it waits for the object that still holds the same outcome, with
-- another digest it is answered with a conflict.
pub outcome_replays :
    (config : OutcomeCacheConfig) (events later : List Event) (request : RuntimeRequest) (e : Text)
    (now t expires : ℕ) (d : Text) (q : RequestOutcome)
    → IsCached
        (run config events new_agent).cache
        request.request_id
        t
        (record { digest = d; outcome = some (q, expires) })
    → All (Before expires) later
    → now < expires
    → let cache = (run config later (run config events new_agent)).cache in
      ((begin config request (some e) now cache).0 ≡ (
        if holds (Text-discrete e d)
        then waits t
        else answers (error_outcome request ErrorCode.request_conflict [])))
      × (get t cache.objects ≡ some (record { digest = d; outcome = some (q, expires) }))
outcome_replays config events later request e now t expires d q h b l =
    let agent = run config events new_agent in
    let after =
      run-IsCached config later request.request_id t expires d q agent
        (run-IsConsistent config events new_agent (new_agent-IsConsistent config)) b h in
    (
      begin-replays config request e now t expires d q (run config later agent).cache after l,
      after.1,
    )
