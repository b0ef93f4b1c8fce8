-- ===== src/Peer/Protocol.antt =====
-- pkg/peer/runtime_protocol.go: the messages of the runtime protocol, their checks and the handshake.
-- What the code asks of the standard library is a parameter.
pub mod Negotiate
use Prim.Native.Nat.{max, min}
use tmuxatlas.Common.{
  ℕ, Bool, true, false, not, ◌&&◌, ◌||◌, List, [], ◌∷◌, Text, bytes, Text-discrete, holds, length,
  any, ltb, leb, ◌==◌, if◌then◌else◌, is_empty, Result, ok, err, ◌>>=◌, ◌>>◌, require,
}

-- unicode.IsSpace or unicode.IsControl of a rune of a text, json.Valid, and whether a JSON decoder
-- reads one object and then the end of the text.
pub record Library : Type 0 where
  pub has_space_or_control : Text → Bool
  pub json_valid : Text → Bool
  pub decodes_one_object : Text → Bool

abbrev pub runtime_protocol_min : ℕ
runtime_protocol_min = 1

abbrev pub runtime_protocol_max : ℕ
runtime_protocol_max = 1

abbrev pub capability_session_actions : Text
capability_session_actions = bytes "session-actions"

abbrev pub runtime_capabilities : List Text
runtime_capabilities =
    bytes "state-sync"
    ∷ capability_session_actions
    ∷ bytes "request-results"
    ∷ bytes "pty-control"
    ∷ []

abbrev pub max_runtime_id_length : ℕ
max_runtime_id_length = 128

abbrev pub max_operation_length : ℕ
max_operation_length = 64

abbrev pub max_build_length : ℕ
max_build_length = 128

abbrev pub max_payload_size : ℕ
max_payload_size = 65536

pub data ProtocolError : Type 0 where
  required too_long_or_nul space_or_control : ProtocolError
  bad_version_range unsupported_version missing_generation : ProtocolError
  too_many_capabilities duplicate_capability incompatible : ProtocolError
  expired_deadline bad_payload bad_result not_accepted unknown_code : ProtocolError

abbrev pub Check : Type 0
Check = Result ProtocolError (Unit {0})

pub record SessionTarget : Type 0 where
  pub host_id : Text
  pub session : Text

pub record HelloPayload : Type 0 where
  pub min_version : ℕ
  pub max_version : ℕ
  pub capabilities : List Text
  pub build_version : Text
  pub agent_instance_id : Text

pub record HelloAckPayload : Type 0 where
  pub version : ℕ
  pub capabilities : List Text
  pub build_version : Text
  pub generation : ℕ
  pub agent_instance_id : Text

pub record RuntimeRequest : Type 0 where
  pub request_id : Text
  pub generation : ℕ
  pub deadline : ℕ
  pub operation : Text
  pub target : SessionTarget
  pub payload : Text

pub record RuntimeAck : Type 0 where
  pub request_id : Text
  pub generation : ℕ
  pub accepted : Bool

pub record RuntimeResult : Type 0 where
  pub request_id : Text
  pub generation : ℕ
  pub result : Text

-- The code is any string in the source: `other_code` is one that has no constant.
pub data ErrorCode : Type 0 where
  invalid_target not_found peer_offline peer_revoked protocol_incompatible : ErrorCode
  capability_unsupported queue_full timeout execution_failed execution_unknown : ErrorCode
  request_conflict resource_exhausted stale_generation : ErrorCode
  other_code : Text → ErrorCode

pub record RuntimeError : Type 0 where
  pub request_id : Text
  pub generation : ℕ
  pub code : ErrorCode
  pub message : Text

has_nul : Text → Bool
has_nul s = any (λ c. c == 0) s

unfoldable pub validate_bounded_optional_text : Text → ℕ → Check
unfolding has_nul
validate_bounded_optional_text value limit =
    require (not (ltb limit (length value) || has_nul value)) too_long_or_nul

unfoldable pub validate_bounded_text : Text → ℕ → Check
validate_bounded_text value limit = do
  require (not (is_empty value)) required
  validate_bounded_optional_text value limit

abbrev known_code : ErrorCode → Bool
known_code (other_code code) = false
known_code _ = true

-- RuntimeError.validateCode
unfoldable pub validate_code : RuntimeError → Check
validate_code e = do
  require (known_code e.code) unknown_code
  validate_bounded_optional_text e.message 256

unfoldable pub contains : Text → List Text → Bool
contains value [] = false
contains value (c ∷ rest) = holds (Text-discrete c value) || contains value rest

-- The loop of validateCapabilities; `seen` are the earlier ones.
unfoldable pub validate_distinct : List Text → List Text → Check
validate_distinct seen [] = ok tt
validate_distinct seen (c ∷ rest) = do
  validate_bounded_text c 64
  require (not (contains c seen)) duplicate_capability
  validate_distinct (c ∷ seen) rest

unfoldable pub validate_capabilities : List Text → Check
validate_capabilities capabilities = do
  require (not (ltb 32 (length capabilities))) too_many_capabilities
  validate_distinct [] capabilities

unfoldable pub intersect_capabilities : List Text → List Text → List Text
intersect_capabilities [] right = []
intersect_capabilities (c ∷ left) right =
    let rest = intersect_capabilities left right in if contains c right then c ∷ rest else rest

module _ (lib : Library) where
  open lib use {has_space_or_control, json_valid, decodes_one_object}

  unfoldable pub validate_runtime_id : Text → Check
  validate_runtime_id value = do
    validate_bounded_text value max_runtime_id_length
    require (not (has_space_or_control value)) space_or_control

  unfoldable pub validate_target : SessionTarget → Check
  validate_target target = do validate_runtime_id target.host_id; validate_runtime_id target.session

  unfoldable pub validate_hello : HelloPayload → Check
  validate_hello hello = do
    require (not (hello.min_version == 0 || ltb hello.max_version hello.min_version))
        bad_version_range
    validate_capabilities hello.capabilities
    validate_bounded_text hello.build_version max_build_length
    validate_runtime_id hello.agent_instance_id

  unfoldable pub validate_hello_ack : HelloAckPayload → Check
  validate_hello_ack ack = do
    require (not (ltb ack.version runtime_protocol_min || ltb runtime_protocol_max ack.version))
        unsupported_version
    require (not (ack.generation == 0)) missing_generation
    validate_capabilities ack.capabilities
    validate_bounded_text ack.build_version max_build_length
    validate_runtime_id ack.agent_instance_id

  unfoldable pub negotiate_hello : HelloPayload → ℕ → Text → Result ProtocolError HelloAckPayload
  negotiate_hello hello generation hub_build = do
    validate_hello hello
    require
        (leb (max hello.min_version runtime_protocol_min)
          (min hello.max_version runtime_protocol_max))
        incompatible
    ok (record {
      version = min hello.max_version runtime_protocol_max;
      capabilities = intersect_capabilities hello.capabilities runtime_capabilities;
      build_version = hub_build;
      generation = generation;
      agent_instance_id = hello.agent_instance_id;
    })

  -- singleJSONObject
  abbrev single_json_object : Text → Bool
  single_json_object value =
      not (is_empty value || ltb max_payload_size (length value)) && decodes_one_object value

  -- RuntimeRequest.Validate; a zero deadline is a missing one.
  unfoldable pub validate_request : ℕ → RuntimeRequest → Check
  validate_request now request = do
    validate_runtime_id request.request_id
    require (not (request.generation == 0)) missing_generation
    require (not (request.deadline == 0) && ltb now request.deadline) expired_deadline
    validate_bounded_text request.operation max_operation_length
    validate_target request.target
    require (single_json_object request.payload) bad_payload

  unfoldable pub validate_ack : RuntimeAck → Check
  validate_ack ack = do
    validate_runtime_id ack.request_id
    require (not (ack.generation == 0) && ack.accepted) not_accepted

  unfoldable pub validate_result : RuntimeResult → Check
  validate_result r = do
    validate_runtime_id r.request_id
    require (not (r.generation == 0)) missing_generation
    require
        (not (is_empty r.result || ltb max_payload_size (length r.result)) && json_valid r.result)
        bad_result

  unfoldable pub validate_correlated : RuntimeError → Check
  validate_correlated e = do
    validate_runtime_id e.request_id
    require (not (e.generation == 0)) missing_generation
    validate_code e
