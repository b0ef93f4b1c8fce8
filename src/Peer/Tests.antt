-- ===== src/Peer/Tests.antt =====
-- Runs of the protocol, and the theorems at concrete inputs.
use tmuxatlas.Common.{
  Bool, ◌≡◌, ◌≤◌, ◌<◌, refl, List, [], ◌∷◌, arith, true, false, none, some, Text, bytes, ◌⊎◌,
  Text-discrete, ℕ_discrete, get, put, text_key, ℕ_key, ◌++◌, ok, err, ◌&&◌, if◌then◌else◌, remove,
}
use tmuxatlas.Peer.Frame.{encode, decode, deliver, expected, PtyDataFrame}
use tmuxatlas.Peer.Frame.RoundTrip.{decode-encode, encode-decode}
use tmuxatlas.Peer.Frame.Order.{deliver-IsConsecutive, deliver_complete, IsConsecutive, Resent}
use tmuxatlas.Peer.Protocol.{
  Library, HelloPayload, HelloAckPayload, runtime_capabilities, contains, negotiate_hello,
  validate_hello, validate_hello_ack, validate_bounded_text, validate_bounded_optional_text,
  validate_runtime_id, validate_capabilities, validate_distinct, incompatible, RuntimeRequest,
  RuntimeAck, RuntimeResult, RuntimeError, ErrorCode, SessionTarget, validate_result,
}
use tmuxatlas.Peer.Protocol.Negotiate.{negotiate_hello_agrees}
use tmuxatlas.Peer.Requests.{
  RequestOutcome, PendingRequest, new_request_tracker, Event, registers, completes_result, fails,
  settles, run, handle, register, complete_result, complete, complete_as, settle, fail_all,
  of_generation,
}
use tmuxatlas.Peer.Requests.Accounts.{IsAccounted}
use tmuxatlas.Peer.Requests.Once.{
  tickets_in_one_place, settle_once, fail_all_ends_generation, failure,
}

abbrev library : Library
library = record {
  has_space_or_control = λ s. false;
  json_valid = λ s. true;
  decodes_one_object = λ s. true;
}

abbrev one_frame : PtyDataFrame
one_frame = record { direction = 1; sequence = 1; payload = bytes "ls" }

abbrev encoded : Text
encoded =
    bytes "TAP1" ++ (1 ∷ 1 ∷ 0 ∷ 0 ∷ 0 ∷ 0 ∷ 0 ∷ 0 ∷ 0 ∷ 0 ∷ 0 ∷ 1 ∷ 0 ∷ 0 ∷ 0 ∷ 2 ∷ bytes "ls")

decode-encode_example : decode encoded ≡ ok one_frame
decode-encode_example = decode-encode 1 1 (bytes "ls") encoded (omega arith) (unfold encode in refl)

encode-decode_example : encode 1 1 (bytes "ls") ≡ ok encoded
encode-decode_example =
    encode-decode encoded one_frame (omega arith) (unfold decode Text-discrete ℕ_discrete in refl)

abbrev two_messages : List (Text × Bool)
two_messages = (encoded, true) ∷ (encoded, true) ∷ []

encoded_lem : decode encoded ≡ ok one_frame
encoded_lem = decode-encode 1 1 (bytes "ls") encoded (omega arith) (unfold encode in refl)

deliver-IsConsecutive_example :
    IsConsecutive (expected 0) (deliver 0 ((bytes "TAP", true) ∷ two_messages)).written
deliver-IsConsecutive_example =
    deliver-IsConsecutive 0 ((bytes "TAP", true) ∷ two_messages) (unfold expected in omega arith)

deliver_complete_example :
    deliver 0 two_messages ≡ record { written = one_frame ∷ []; finished = false }
deliver_complete_example =
    deliver_complete 0 two_messages (one_frame ∷ []) (unfold expected in omega arith) (
      unfold expected in
      Resent.next encoded one_frame encoded_lem refl refl
        (Resent.again {n = 2} encoded true one_frame encoded_lem refl (omega arith) Resent.over))

abbrev hello : HelloPayload
hello = record {
  min_version = 1;
  max_version = 3;
  capabilities = bytes "pty-control" ∷ bytes "other" ∷ [];
  build_version = bytes "dev";
  agent_instance_id = bytes "a";
}

negotiate_hello_agrees_example :
    ((ack : HelloAckPayload) × (negotiate_hello library hello 4 (bytes "hub") ≡ ok ack)
      × (validate_hello_ack library ack ≡ ok tt)
      × (1 ≤ ack.version)
      × (ack.version ≤ 3)
      × (ack.generation ≡ 4)
      × ((c : Text)
          → contains c ack.capabilities
            ≡ (contains c hello.capabilities && contains c runtime_capabilities)))
    ⊎ ((negotiate_hello library hello 4 (bytes "hub") ≡ err incompatible) × ((1 < 1) ⊎ (3 < 1)))
negotiate_hello_agrees_example =
    negotiate_hello_agrees library hello 4 (bytes "hub")
      (unfold validate_hello validate_bounded_text validate_bounded_optional_text
          validate_runtime_id validate_capabilities validate_distinct contains Text-discrete
          ℕ_discrete in
        refl)
      (omega arith) (unfold validate_bounded_text validate_bounded_optional_text in refl)

abbrev target : SessionTarget
target = record { host_id = bytes "h"; session = bytes "main" }

abbrev request : RuntimeRequest
request = record {
  request_id = bytes "r";
  generation = 4;
  deadline = 100;
  operation = bytes "session.list";
  target = target;
  payload = bytes "{}";
}

abbrev answer : RuntimeResult
answer = record { request_id = bytes "r"; generation = 4; result = bytes "[]" }

abbrev late_error : RuntimeError
late_error = record {
  request_id = bytes "r";
  generation = 3;
  code = ErrorCode.timeout;
  message = [];
}

abbrev acknowledged : RuntimeAck
acknowledged = record { request_id = bytes "r"; generation = 4; accepted = true }

abbrev asked : List Event
asked = registers request ∷ []

abbrev answered : List Event
answered = registers request ∷ completes_result answer ∷ []

tickets_in_one_place_example : IsAccounted (run library answered new_request_tracker)
tickets_in_one_place_example = tickets_in_one_place library answered

settle_once_example :
    ((settle 0 (run library answered new_request_tracker)).0 ≡ true)
    × (get 0
          (run library
            (fails 4 ErrorCode.timeout ∷ settles 0 ∷ [])
            (settle 0 (run library answered new_request_tracker)).1).outcomes
        ≡ some (RequestOutcome.result answer))
settle_once_example =
    settle_once library answered (fails 4 ErrorCode.timeout ∷ settles 0 ∷ []) 0
      (RequestOutcome.result answer)
      (unfold run handle register complete_result complete complete_as get put remove
          validate_result validate_runtime_id validate_bounded_text validate_bounded_optional_text
          Text-discrete ℕ_discrete in
        refl)

fail_all_ends_generation_example :
    let tracker = run library asked new_request_tracker in
    (get (bytes "r") (fail_all 4 ErrorCode.peer_offline tracker).pending ≡ (
      if of_generation 4 (get (bytes "r") tracker.pending)
      then none
      else get (bytes "r") tracker.pending))
    × ((p : PendingRequest)
        → get (bytes "r") tracker.pending ≡ some p
        → p.generation ≡ 4
        → get p.ticket (fail_all 4 ErrorCode.peer_offline tracker).taken
          ≡ some (failure (bytes "r") 4 ErrorCode.peer_offline))
fail_all_ends_generation_example =
    fail_all_ends_generation library asked 4 ErrorCode.peer_offline (bytes "r")
