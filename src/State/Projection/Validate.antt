-- ===== src/State/Projection/Validate.antt =====
-- Operation.Validate. `json_valid` stands for `json.Valid`.
use tmuxatlas.Common.{
  ℕ, Bool, not, ◌||◌, Text, is_some, is_empty, is_blank, Result, err, require, ◌>>◌,
}
use tmuxatlas.State.Projection.{
  Operation, OperationKind, upsert_host, remove_host, upsert_session, remove_session, upsert_window,
  remove_window, upsert_pane, remove_pane, upsert_tool_event, remove_tool_event, upsert_activity,
  remove_activity, upsert_health, remove_health, set_metadata, remove_metadata, unknown,
}

-- `nil_dereference` is the panic of a `*operation.Host` and the like.
pub data Error : Type 0 where
  missing_value unexpected_key missing_key missing_metadata invalid_metadata : Error
  unknown_operation unsupported_operation nil_dereference : Error
  at_operation : ℕ → Error → Error

validate_upsert : Bool → Text → Result Error (Unit {0})
validate_upsert given key = do require given missing_value; require (is_empty key) unexpected_key

validate_remove : Text → Result Error (Unit {0})
validate_remove key = require (not (is_blank key)) missing_key

module _ (json_valid : Text → Bool) where
  validate_metadata : Text → Text → Result Error (Unit {0})
  validate_metadata key metadata = do
    require (not (is_blank key || is_empty metadata)) missing_metadata
    require (json_valid metadata) invalid_metadata

  unfoldable pub validate_as : OperationKind → Operation → Result Error (Unit {0})
  unfolding validate_upsert validate_remove validate_metadata
  validate_as upsert_host op = validate_upsert (is_some op.host) op.key
  validate_as upsert_session op = validate_upsert (is_some op.session) op.key
  validate_as upsert_window op = validate_upsert (is_some op.window) op.key
  validate_as upsert_pane op = validate_upsert (is_some op.pane) op.key
  validate_as upsert_tool_event op = validate_upsert (is_some op.tool_event) op.key
  validate_as upsert_activity op = validate_upsert (is_some op.activity) op.key
  validate_as upsert_health op = validate_upsert (is_some op.health) op.key
  validate_as remove_host op = validate_remove op.key
  validate_as remove_session op = validate_remove op.key
  validate_as remove_window op = validate_remove op.key
  validate_as remove_pane op = validate_remove op.key
  validate_as remove_tool_event op = validate_remove op.key
  validate_as remove_activity op = validate_remove op.key
  validate_as remove_health op = validate_remove op.key
  validate_as remove_metadata op = validate_remove op.key
  validate_as set_metadata op = validate_metadata op.key op.metadata
  validate_as (unknown kind) op = err unknown_operation

  unfoldable pub validate : Operation → Result Error (Unit {0})
  unfolding validate_as
  validate op = validate_as op.kind op
