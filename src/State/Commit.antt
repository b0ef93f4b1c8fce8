-- ===== src/State/Commit.antt =====
-- applyCommit of pkg/state/coordinator.go, and the envelopes of pkg/state/projection.go.
pub mod Replay
pub mod Effects
use tmuxatlas.Common.{
  ℕ, suc, ◌+◌, ◌%◌, ◌^◌, Bool, true, false, not, ◌&&◌, Option, none, some, List, [], ◌∷◌, map, Text,
  bytes, same_text, is_blank, leb, ◌==◌, if◌then◌else◌, Result, ok, err, ◌>>=◌, ◌>>◌, require,
  passes, dict_equal, text_key, Text-discrete,
}
use tmuxatlas.State.Projection.{
  Projection, Operation, Host-discrete, Session-discrete, Window-discrete, Pane-discrete,
  ToolEvent-discrete, Activity-discrete, Health-discrete,
}
use tmuxatlas.State.Projection.Validate.{Error, at_operation, validate}
use tmuxatlas.State.Projection.Clone.{clone_projection, clone_operation}
use tmuxatlas.State.Projection.Apply.{apply_operation}

abbrev pub schema_version : ℕ
schema_version = 1

abbrev pub envelope_delta : Text
envelope_delta = bytes "delta"

abbrev pub envelope_snapshot : Text
envelope_snapshot = bytes "snapshot"

abbrev pub envelope_resync_required : Text
envelope_resync_required = bytes "resync-required"

abbrev pub u64 : ℕ → ℕ
u64 n = n % 2 ^ 64

pub record SnapshotEnvelope : Type 0 where
  pub kind : Text
  pub schema_version : ℕ
  pub instance_id : Text
  pub revision : ℕ
  pub state : Projection

pub record DeltaEnvelope : Type 0 where
  pub kind : Text
  pub schema_version : ℕ
  pub instance_id : Text
  pub base_revision : ℕ
  pub revision : ℕ
  pub operations : List Operation

pub record OutcomeEnvelope : Type 0 where
  pub kind : Text
  pub schema_version : ℕ
  pub instance_id : Text
  pub revision : ℕ
  pub reason : Text

pub record CommitResult : Type 0 where
  pub changed : Bool
  pub revision : ℕ
  pub delta : Option DeltaEnvelope

-- reflect.DeepEqual of two projections: their eight maps.
unfoldable pub deep_equal : Projection → Projection → Bool
deep_equal p q =
    dict_equal Host-discrete p.hosts q.hosts
    && dict_equal Session-discrete p.sessions q.sessions
    && dict_equal Window-discrete p.windows q.windows
    && dict_equal Pane-discrete p.panes q.panes
    && dict_equal ToolEvent-discrete p.tool_events q.tool_events
    && dict_equal Activity-discrete p.activity q.activity
    && dict_equal Health-discrete p.health q.health
    && dict_equal Text-discrete p.metadata q.metadata

abbrev wrap_error {ℓ} : {A : Type ℓ} → ℕ → Result Error A → Result Error A
wrap_error index (ok a) = ok a
wrap_error index (err e) = err (at_operation index e)

abbrev pub delta_of : Text → ℕ → List Operation → DeltaEnvelope
delta_of instance_id revision operations = record {
  kind = envelope_delta;
  schema_version = schema_version;
  instance_id = instance_id;
  base_revision = revision;
  revision = u64 (revision + 1);
  operations = map clone_operation operations;
}

module _ (json_valid : Text → Bool) where
  -- The loop over the operations, from one index on.
  unfoldable pub apply_all : ℕ → List Operation → Projection → Result Error Projection
  apply_all index [] next = ok next
  apply_all index (op ∷ ops) next =
      wrap_error index (validate json_valid op >> apply_operation op next)
      >>= apply_all (suc index) ops

  -- The new state of the coordinator and what the caller is told.
  unfoldable pub conclude :
      Text → Projection → ℕ → List Operation → Projection → CommitResult × Projection
  conclude instance_id current revision operations next =
      if deep_equal current next
      then (record { changed = false; revision = revision; delta = none }, current)
      else (
        record {
          changed = true;
          revision = u64 (revision + 1);
          delta = some (delta_of instance_id revision operations);
        },
        next,
      )

  -- On an error the source returns `current` beside it: here the error alone.
  unfoldable pub apply_commit :
      Text → Projection → ℕ → List Operation → Result Error (CommitResult × Projection)
  unfolding conclude
  apply_commit instance_id current revision [] =
      ok (record { changed = false; revision = revision; delta = none }, current)
  apply_commit instance_id current revision (op ∷ ops) = do
    next ← apply_all 0 (op ∷ ops) (clone_projection current)
    ok (conclude instance_id current revision (op ∷ ops) next)

  -- DeltaEnvelope.Validate, with validateEnvelopeIdentity.
  unfoldable pub validate_operations : List Operation → Bool
  validate_operations [] = true
  validate_operations (op ∷ ops) = passes (validate json_valid op) && validate_operations ops

  abbrev has_operations : List Operation → Bool
  has_operations [] = false
  has_operations (op ∷ ops) = true

  abbrev validate_envelope_identity : ℕ → Text → Bool
  validate_envelope_identity version instance_id =
      version == schema_version && not (is_blank instance_id)

  unfoldable pub validate_delta : DeltaEnvelope → Bool
  unfolding validate_operations
  validate_delta e =
      same_text e.kind envelope_delta
      && validate_envelope_identity e.schema_version e.instance_id
      && not (leb e.revision e.base_revision)
      && has_operations e.operations
      && validate_operations e.operations
