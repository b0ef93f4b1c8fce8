-- ===== src/Peer/Dispatch.antt =====
-- pkg/peer/dispatcher.go: the Agent's dispatcher and its cache of outcomes. `objects` are the
-- *cachedOutcome values, `entries` the map of them by request id; `outcome` is set where `done` is closed.
pub mod Consistent
pub mod Once
pub mod Replay
mod Tests
use tmuxatlas.Common.{
  ℕ, suc, ◌+◌, Bool, true, false, not, ◌||◌, ◌==◌, ltb, leb, List, [], ◌∷◌, Option, none, some,
  Text, Text-discrete, text_key, ℕ_key, Dict, get, put, keep, if◌then◌else◌, passes, bytes, length,
  holds, is_empty, Result, ok, err, Option-discrete,
}
use tmuxatlas.Peer.Protocol.{
  Library, RuntimeRequest, RuntimeAck, RuntimeResult, RuntimeError, ErrorCode, validate_request,
  contains, capability_session_actions,
}
use tmuxatlas.Peer.Requests.{RequestOutcome}

pub record OutcomeCacheConfig : Type 0 where
  pub ttl : ℕ
  pub max_entries : ℕ
  pub max_result_size : ℕ

pub record CachedOutcome : Type 0 where
  pub digest : Text
  pub outcome : Option (RequestOutcome × ℕ)

pub record OutcomeCache : Type 0 where
  pub entries : Dict Text ℕ
  pub objects : Dict ℕ CachedOutcome
  pub next_object : ℕ

abbrev pub empty_cache : OutcomeCache
empty_cache = record { entries = []; objects = []; next_object = 0 }

unfoldable pub new_outcome_cache : OutcomeCacheConfig → Option OutcomeCache
new_outcome_cache config =
    if config.ttl == 0 || config.max_entries == 0 || config.max_result_size == 0
    then none
    else some empty_cache

abbrev pub error_outcome : RuntimeRequest → ErrorCode → Text → RequestOutcome
error_outcome request code message = RequestOutcome.error (record {
  request_id = request.request_id;
  generation = request.generation;
  code = code;
  message = message;
})

-- The first locked section of Do answers at once, waits for an entry, or adds one and executes.
pub data Begun : Type 0 where
  answers : RequestOutcome → Begun
  waits : ℕ → Begun
  executes : ℕ → Begun

-- entry.complete && !now.Before(entry.expires)
abbrev pub ended : ℕ → Option (RequestOutcome × ℕ) → Bool
ended now none = false
ended now (some (outcome, expires)) = leb expires now

abbrev pub expired : ℕ → Option CachedOutcome → Bool
expired now none = false
expired now (some o) = ended now o.outcome

unfoldable pub sweep : ℕ → OutcomeCache → OutcomeCache
sweep now cache = record cache {
  entries = keep (λ _ t. not (expired now (get t cache.objects))) cache.entries;
}

abbrev pub digest_of : Option CachedOutcome → Option Text
digest_of none = none
digest_of (some o) = some o.digest

-- Do after the sweep, by the entry of the request's id.
unfoldable pub begin_as :
    Option ℕ → OutcomeCacheConfig → RuntimeRequest → Text → OutcomeCache → Begun × OutcomeCache
begin_as (some t) config request digest cache =
    if holds (Option-discrete Text-discrete (digest_of (get t cache.objects)) (some digest))
    then (waits t, cache)
    else (answers (error_outcome request ErrorCode.request_conflict []), cache)
begin_as none config request digest cache =
    if leb config.max_entries (length cache.entries)
    then (answers (error_outcome request ErrorCode.resource_exhausted []), cache)
    else (
      executes cache.next_object,
      record cache {
        entries = put request.request_id cache.next_object cache.entries;
        objects = put cache.next_object (record { digest = digest; outcome = none }) cache.objects;
        next_object = suc cache.next_object;
      },
    )

unfoldable pub begin :
    OutcomeCacheConfig → RuntimeRequest → Option Text → ℕ → OutcomeCache → Begun × OutcomeCache
unfolding begin_as sweep
begin config request none now cache = (
  answers (error_outcome request ErrorCode.execution_failed (bytes "invalid request payload")),
  cache,
)
begin config request (some digest) now cache =
    let swept = sweep now cache in
    begin_as (get request.request_id swept.entries) config request digest swept

-- The terminal outcome, where `size` is the length of its JSON.
abbrev pub bounded_outcome :
    OutcomeCacheConfig → RuntimeRequest → ℕ → RequestOutcome → RequestOutcome
bounded_outcome config request size outcome =
    if ltb config.max_result_size size
    then error_outcome request ErrorCode.resource_exhausted
        (bytes "terminal outcome exceeds configured bound")
    else outcome

-- The second locked section writes to the object.
abbrev pub written :
    Option CachedOutcome → RequestOutcome → ℕ → ℕ → Dict ℕ CachedOutcome → Dict ℕ CachedOutcome
written none outcome expires t objects = objects
written (some o) outcome expires t objects =
    put t (record { digest = o.digest; outcome = some (outcome, expires) }) objects

unfoldable pub finish :
    OutcomeCacheConfig → RuntimeRequest → ℕ → ℕ → RequestOutcome → ℕ → OutcomeCache → OutcomeCache
finish config request t size outcome now cache = record cache {
  objects =
      written (get t cache.objects) (bounded_outcome config request size outcome) (now + config.ttl)
        t cache.objects;
}

-- The closure that Dispatch hands to Do, after the executor's result.
abbrev pub executed : RuntimeRequest → Option Text → RequestOutcome
executed request none =
    error_outcome request ErrorCode.execution_failed (bytes "target operation failed")
executed request (some r) = RequestOutcome.result (record {
  request_id = request.request_id;
  generation = request.generation;
  result = if is_empty r then bytes "{\"ok\":true}" else r;
})

pub record RequestDispatcher : Type 0 where
  pub generation : ℕ
  pub host_id : Text
  pub capabilities : List Text
  pub available : Bool

-- The guards of Dispatch; `detail` is the text of a validation error.
unfoldable pub dispatch_check :
    Library → RequestDispatcher → ℕ → Text → RuntimeRequest → Option RequestOutcome
dispatch_check lib dispatcher now detail request =
    if not (passes (validate_request lib now request))
    then some (error_outcome request ErrorCode.invalid_target detail)
    else if not (request.generation == dispatcher.generation)
    then some (error_outcome request ErrorCode.stale_generation [])
    else if not (holds (Text-discrete request.target.host_id dispatcher.host_id))
    then some (
        error_outcome request ErrorCode.invalid_target
          (bytes "target host does not match this Agent"))
    else if not (contains capability_session_actions dispatcher.capabilities)
    then some (error_outcome request ErrorCode.capability_unsupported [])
    else if not dispatcher.available
    then some
        (error_outcome request ErrorCode.execution_failed (bytes "runtime executor unavailable"))
    else none

-- Dispatch up to the end of Do's first section, with the acknowledgement it returns.
unfoldable pub dispatch_as :
    Option RequestOutcome
    → OutcomeCacheConfig
    → RuntimeRequest
    → Option Text
    → ℕ
    → OutcomeCache
    → RuntimeAck × (Begun × OutcomeCache)
unfolding begin
dispatch_as (some o) config request digest now cache =
    (record { request_id = []; generation = 0; accepted = false }, (answers o, cache))
dispatch_as none config request digest now cache = (
  record { request_id = request.request_id; generation = request.generation; accepted = true },
  begin config request digest now cache,
)
