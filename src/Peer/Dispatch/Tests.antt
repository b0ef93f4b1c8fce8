-- ===== src/Peer/Dispatch/Tests.antt =====
-- Runs of the cache of outcomes, and the theorems at concrete inputs.
use tmuxatlas.Common.{
  ℕ, true, not, ◌||◌, ◌==◌, ◌≡◌, ◌≤◌, refl, List, [], ◌∷◌, arith, some, bytes, Text-discrete,
  ℕ_discrete, get, put, keep, text_key, ℕ_key, if◌then◌else◌, holds, remove, length,
}
use tmuxatlas.Peer.Protocol.{RuntimeRequest, ErrorCode}
use tmuxatlas.Peer.Requests.{RequestOutcome}
use tmuxatlas.Peer.Dispatch.{
  OutcomeCacheConfig, error_outcome, waits, answers, begin, begin_as, finish, sweep,
}
use tmuxatlas.Peer.Dispatch.Consistent.{new_agent, Event, begins, finishes, handle, run}
use tmuxatlas.Peer.Dispatch.Once.{share_id, executes_alone}
use tmuxatlas.Peer.Dispatch.Replay.{outcome_replays}

abbrev config : OutcomeCacheConfig
config = record { ttl = 300; max_entries = 2; max_result_size = 100 }

abbrev rename_session : RuntimeRequest
rename_session = record {
  request_id = bytes "r";
  generation = 4;
  deadline = 100;
  operation = bytes "session.rename";
  target = record { host_id = bytes "h"; session = bytes "main" };
  payload = bytes "{}";
}

abbrev renamed : RequestOutcome
renamed =
    RequestOutcome.result (record { request_id = bytes "r"; generation = 4; result = bytes "[]" })

abbrev entered : List Event
entered = begins rename_session (some (bytes "d")) 10 ∷ []

abbrev done : List Event
done = begins rename_session (some (bytes "d")) 10 ∷ finishes 0 20 renamed 12 ∷ []

executes_alone_example :
    let agent = run config entered new_agent in
    (length agent.cache.entries ≤ 2)
    × ((t s : ℕ) → (not (share_id (get t agent.running) (get s agent.running)) || t == s) ≡ true)
executes_alone_example = executes_alone config entered

outcome_replays_example :
    let cache = (run config entered (run config done new_agent)).cache in
    ((begin config rename_session (some (bytes "e")) 50 cache).0 ≡ (
      if holds (Text-discrete (bytes "e") (bytes "d"))
      then waits 0
      else answers (error_outcome rename_session ErrorCode.request_conflict [])))
    × (get 0 cache.objects ≡ some (record { digest = bytes "d"; outcome = some (renamed, 312) }))
outcome_replays_example =
    outcome_replays config done entered rename_session (bytes "e") 50 0 312 (bytes "d") renamed
      (
        unfold run handle begin begin_as sweep finish get put keep remove Text-discrete
              ℕ_discrete in
            refl,
        unfold run handle begin begin_as sweep finish get put keep remove Text-discrete
              ℕ_discrete in
            refl,
      )
      (omega arith) (omega arith)
