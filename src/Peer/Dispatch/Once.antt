-- ===== src/Peer/Dispatch/Once.antt =====
-- A request is executed once while its outcome is cached.
use tmuxatlas.Common.{
  ℕ, ◌≤◌, ◌≡◌, refl, Bool, true, false, not, ◌||◌, ◌==◌, same_text, List, Option, none, some, arith,
  text_key, ℕ_key, get, length, Option-cases, Bool-cases, inl, inr,
}
use tmuxatlas.Peer.Protocol.{RuntimeRequest}
use tmuxatlas.Peer.Dispatch.{OutcomeCacheConfig}
use tmuxatlas.Peer.Dispatch.Consistent.{
  Agent, new_agent, Event, run, IsConsistent, run-IsConsistent, new_agent-IsConsistent,
}

-- Both of two calls execute, for requests with the same id.
abbrev pub share_id : Option RuntimeRequest → Option RuntimeRequest → Bool
share_id (some q) (some r) = same_text q.request_id r.request_id
share_id (some q) none = false
share_id none r = false

shared_object :
    (config : OutcomeCacheConfig) (agent : Agent) (t s : ℕ)
    → IsConsistent config agent
    → share_id (get t agent.running) (get s agent.running) ≡ true
    → t ≡ s
shared_object config agent t s c h = elim (Option-cases (get t agent.running)) [
  | inl e ↦ absurd (ground arith)
  | inr (q, e) ↦ elim (Option-cases (get s agent.running)) [
    | inl f ↦ absurd (ground arith)
    | inr (r, f) ↦
        let same : q.request_id ≡ r.request_id = ground arith in
        let (g, _, _, _) = c.0 t q e in let (k, _, _, _) = c.0 s r f in cc (same, g, k)
  ]
]

-- After any calls of Do that enter and end, in any order: the cache has no more entries than its
-- configuration allows, and two calls that execute for requests with the same id are one and the same.
pub executes_alone :
    (config : OutcomeCacheConfig) (events : List Event)
    → let agent = run config events new_agent in
      (length agent.cache.entries ≤ config.max_entries)
      × ((t s : ℕ) → (not (share_id (get t agent.running) (get s agent.running)) || t == s) ≡ true)
executes_alone config events =
    let agent = run config events new_agent in
    let c = run-IsConsistent config events new_agent (new_agent-IsConsistent config) in
    (
      c.1,
      λ t s. elim (Bool-cases (share_id (get t agent.running) (get s agent.running))) [
        | inr e ↦ rw e refl
        | inl e ↦ let same = shared_object config agent t s c e in ground arith
      ],
    )
