-- ===== src/Peer/Requests.antt =====
-- pkg/peer/request_tracker.go: the requests that wait for an answer. A `ticket` is the identity of
-- a *pendingRequest, `outcomes` what its channel was sent, and `taken` the calls that have left the
-- locked section of complete or FailAll and have not yet run the object's sync.Once.
pub mod Accounts
pub mod Once
use tmuxatlas.Common.{
  ℕ, suc, Bool, true, false, not, ◌==◌, List, [], ◌∷◌, Option, none, some, Text, text_key, ℕ_key,
  Dict, get, put, remove, keep, has, Key, if◌then◌else◌, passes, bytes, ◌++◌,
}
use tmuxatlas.Peer.Protocol.{
  Library, RuntimeRequest, RuntimeAck, RuntimeResult, RuntimeError, ErrorCode, validate_ack,
  validate_result, validate_correlated,
}

pub data RequestOutcome : Type 0 where
  result : RuntimeResult → RequestOutcome
  error : RuntimeError → RequestOutcome

pub record PendingRequest : Type 0 where
  pub generation : ℕ
  pub ticket : ℕ

pub record RequestTracker : Type 0 where
  pub pending : Dict Text PendingRequest
  pub taken : Dict ℕ RequestOutcome
  pub outcomes : Dict ℕ RequestOutcome
  pub next_ticket : ℕ

abbrev pub new_request_tracker : RequestTracker
new_request_tracker = record { pending = []; taken = []; outcomes = []; next_ticket = 0 }

-- Register: the ticket whose channel the caller waits on, or none for a conflict.
unfoldable pub register : RuntimeRequest → RequestTracker → Option ℕ × RequestTracker
register request tracker = if has request.request_id tracker.pending then (none, tracker) else (
  some tracker.next_ticket,
  record tracker {
    pending =
        put request.request_id
          (record { generation = request.generation; ticket = tracker.next_ticket })
          tracker.pending;
    next_ticket = suc tracker.next_ticket;
  },
)

abbrev pub of_generation : ℕ → Option PendingRequest → Bool
of_generation generation none = false
of_generation generation (some p) = p.generation == generation

-- Accept changes nothing.
unfoldable pub accept : Library → RuntimeAck → RequestTracker → Bool
accept lib ack tracker =
    if passes (validate_ack lib ack)
    then of_generation ack.generation (get ack.request_id tracker.pending)
    else false

-- The locked section of complete, by what the table holds at the id.
unfoldable pub complete_as :
    Option PendingRequest → Text → ℕ → RequestOutcome → RequestTracker → Bool × RequestTracker
complete_as none request_id generation outcome tracker = (false, tracker)
complete_as (some p) request_id generation outcome tracker =
    if p.generation == generation
    then (
      true,
      record tracker {
        pending = remove request_id tracker.pending;
        taken = (p.ticket, outcome) ∷ tracker.taken;
      },
    )
    else (false, tracker)

unfoldable pub complete : Text → ℕ → RequestOutcome → RequestTracker → Bool × RequestTracker
unfolding complete_as
complete request_id generation outcome tracker =
    complete_as (get request_id tracker.pending) request_id generation outcome tracker

unfoldable pub complete_result : Library → RuntimeResult → RequestTracker → Bool × RequestTracker
complete_result lib r tracker =
    if passes (validate_result lib r)
    then complete r.request_id r.generation (result r) tracker
    else (false, tracker)

unfoldable pub complete_error : Library → RuntimeError → RequestTracker → Bool × RequestTracker
complete_error lib e tracker =
    if passes (validate_correlated lib e)
    then complete e.request_id e.generation (error e) tracker
    else (false, tracker)

-- What FailAll sends, for the entries of a generation.
unfoldable pub failures : ℕ → ErrorCode → Dict Text PendingRequest → Dict ℕ RequestOutcome
failures generation code [] = []
failures generation code ((request_id, p) ∷ rest) =
    let others = failures generation code rest in
    if p.generation == generation
    then (
      p.ticket,
      error
          (record { request_id = request_id; generation = generation; code = code; message = [] }),
    )
      ∷ others
    else others

unfoldable pub fail_all : ℕ → ErrorCode → RequestTracker → RequestTracker
unfolding failures
fail_all generation code tracker = record tracker {
  pending = keep (λ _ p. not (p.generation == generation)) tracker.pending;
  taken = failures generation code tracker.pending ++ tracker.taken;
}

-- One call of those in flight runs pending.once.Do: the channel is sent the outcome if none was sent.
unfoldable pub drop_first : ℕ → Dict ℕ RequestOutcome → Dict ℕ RequestOutcome
drop_first t [] = []
drop_first t ((s, o) ∷ rest) =
    let others = drop_first t rest in if s == t then rest else (s, o) ∷ others

unfoldable pub settle_as : Option RequestOutcome → ℕ → RequestTracker → Bool × RequestTracker
unfolding drop_first
settle_as none t tracker = (false, tracker)
settle_as (some o) t tracker =
    let sent = has t tracker.outcomes in
    (
      not sent,
      record tracker {
        taken = drop_first t tracker.taken;
        outcomes = if sent then tracker.outcomes else put t o tracker.outcomes;
      },
    )

unfoldable pub settle : ℕ → RequestTracker → Bool × RequestTracker
unfolding settle_as
settle t tracker = settle_as (get t tracker.taken) t tracker

-- The calls of concurrent goroutines, each locked section and each once.Do a step of its own.
pub data Event : Type 0 where
  registers : RuntimeRequest → Event
  accepts : RuntimeAck → Event
  completes_result : RuntimeResult → Event
  completes_error : RuntimeError → Event
  fails : ℕ → ErrorCode → Event
  settles : ℕ → Event

unfoldable pub handle : Library → Event → RequestTracker → RequestTracker
handle lib (registers request) tracker = (register request tracker).1
handle lib (accepts ack) tracker = tracker
handle lib (completes_result r) tracker = (complete_result lib r tracker).1
handle lib (completes_error e) tracker = (complete_error lib e tracker).1
handle lib (fails generation code) tracker = fail_all generation code tracker
handle lib (settles t) tracker = (settle t tracker).1

unfoldable pub run : Library → List Event → RequestTracker → RequestTracker
unfolding handle
run lib [] tracker = tracker
run lib (e ∷ events) tracker = run lib events (handle lib e tracker)
