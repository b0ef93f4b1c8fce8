-- ===== src/State/Projection/Apply.antt =====
-- applyOperation of pkg/state/coordinator.go.
use tmuxatlas.Common.{
  text_key, ◌≡◌, refl, Option, none, some, Text, arith, Result, ok, err, ◌>>=◌, put, remove,
  map_values-put, map_values-remove, Option-cases, Bool, true, false, inl, inr,
}
use tmuxatlas.State.Projection.{
  Projection, Health, Operation, OperationKind, upsert_host, remove_host, upsert_session,
  remove_session, upsert_window, remove_window, upsert_pane, remove_pane, upsert_tool_event,
  remove_tool_event, upsert_activity, remove_activity, upsert_health, remove_health, set_metadata,
  remove_metadata, unknown,
}
use tmuxatlas.State.Projection.Validate.{
  Error, nil_dereference, unsupported_operation, validate_as, validate,
}
use tmuxatlas.State.Projection.Clone.{
  clone_activity, clone_health, clone_projection, clone_operation, clone_health_idem,
}

-- *pointer
deref {ℓ} : {A : Type ℓ} → Option A → Result Error A
deref none = err nil_dereference
deref (some a) = ok a

apply_as : OperationKind → Operation → Projection → Result Error Projection
unfolding deref
apply_as upsert_host op p = do
  host ← deref op.host
  ok (record p { hosts = put host.key host p.hosts })
apply_as remove_host op p = ok (record p { hosts = remove op.key p.hosts })
apply_as upsert_session op p = do
  session ← deref op.session
  ok (record p { sessions = put session.key session p.sessions })
apply_as remove_session op p = ok (record p { sessions = remove op.key p.sessions })
apply_as upsert_window op p = do
  window ← deref op.window
  ok (record p { windows = put window.key window p.windows })
apply_as remove_window op p = ok (record p { windows = remove op.key p.windows })
apply_as upsert_pane op p = do
  pane ← deref op.pane
  ok (record p { panes = put pane.key pane p.panes })
apply_as remove_pane op p = ok (record p { panes = remove op.key p.panes })
apply_as upsert_tool_event op p = do
  event ← deref op.tool_event
  ok (record p { tool_events = put event.key event p.tool_events })
apply_as remove_tool_event op p = ok (record p { tool_events = remove op.key p.tool_events })
apply_as upsert_activity op p = do
  activity ← deref op.activity
  ok (record p { activity = put activity.key activity p.activity })
apply_as remove_activity op p = ok (record p { activity = remove op.key p.activity })
apply_as upsert_health op p = do
  health ← deref op.health
  ok (record p { health = put health.host_key (clone_health health) p.health })
apply_as remove_health op p = ok (record p { health = remove op.key p.health })
apply_as set_metadata op p = ok (record p { metadata = put op.key op.metadata p.metadata })
apply_as remove_metadata op p = ok (record p { metadata = remove op.key p.metadata })
apply_as (unknown kind) op p = err unsupported_operation

unfoldable pub apply_operation : Operation → Projection → Result Error Projection
unfolding apply_as
apply_operation op p = apply_as op.kind op p

-- The copy of a result is the result of the copies.
abbrev pub copied : Result Error Projection → Result Error Projection
copied (ok p) = ok (clone_projection p)
copied (err e) = err e

clone_health_key : (h : Health) → (clone_health h).host_key ≡ h.host_key
unfolding clone_health
clone_health_key h = refl

apply_as-clone :
    (kind : OperationKind) (op : Operation) (p : Projection)
    → apply_as kind (clone_operation op) (clone_projection p) ≡ copied (apply_as kind op p)
unfolding apply_as clone_operation clone_projection clone_activity
apply_as-clone upsert_activity op p = elim (Option-cases op.activity) [
  | inl e ↦ ground arith
  | inr (a, e) ↦ ground (arith, map_values-put clone_activity a.key a p.activity)
]
apply_as-clone remove_activity op p =
    ground (arith, map_values-remove clone_activity op.key p.activity)
apply_as-clone upsert_health op p = elim (Option-cases op.health) [
  | inl e ↦ ground arith
  | inr (h, e) ↦ ground (
    arith,
    clone_health_idem h,
    clone_health_key h,
    map_values-put clone_health h.host_key (clone_health h) p.health,
  )
]
apply_as-clone remove_health op p = ground (arith, map_values-remove clone_health op.key p.health)
apply_as-clone _ op p = ground arith

pub apply-clone :
    (op : Operation) (p : Projection)
    → apply_operation (clone_operation op) (clone_projection p) ≡ copied (apply_operation op p)
unfolding apply_operation clone_operation
apply-clone op p = apply_as-clone op.kind op p

is_ok : Result Error Projection → Bool
is_ok (ok p) = true
is_ok (err e) = false

is_ok-value : (r : Result Error Projection) → is_ok r ≡ true → (q : Projection) × (r ≡ ok q)
unfolding is_ok
is_ok-value (ok q) h = (q, refl)
is_ok-value (err e) h = cc

module _ (json_valid : Text → Bool) (op : Operation) (p : Projection) where
  apply_as-validate :
      (kind : OperationKind)
      → validate_as json_valid kind op ≡ ok tt
      → is_ok (apply_as kind op p) ≡ true
  unfolding validate_as apply_as is_ok
  apply_as-validate upsert_host h = ground arith
  apply_as-validate _ h = ground arith

  -- An operation that passed validation can be applied: no nil pointer is followed.
  pub apply-validate :
      validate json_valid op ≡ ok tt → (q : Projection) × (apply_operation op p ≡ ok q)
  unfolding validate apply_operation
  apply-validate h = is_ok-value (apply_as op.kind op p) (apply_as-validate op.kind h)
