-- ===== src/State/Commit/Effects.antt =====
-- What a commit announces: a delta that validates, or nothing if every entry is as it was.
use tmuxatlas.Common.{
  ℕ, suc, ◌+◌, ◌^◌, ◌<◌, ◌≡◌, refl, List, [], ◌∷◌, map, Text, arith, Bool, true, false, Result, ok,
  err, none, some, is_blank, inl, inr, Bool-cases, >>=-ok, ◌⊎◌, get, text_key, dict_equal_sound,
  Text-discrete, ℕ_discrete,
}
use tmuxatlas.State.Projection.{
  Projection, Operation, Host-discrete, Session-discrete, Window-discrete, Pane-discrete,
  ToolEvent-discrete, Activity-discrete, Health-discrete,
}
use tmuxatlas.State.Projection.Validate.{Error, validate}
use tmuxatlas.State.Projection.Clone.{clone_projection, clone_operation}
use tmuxatlas.State.Projection.Apply.{apply_operation}
use tmuxatlas.State.Commit.{
  CommitResult, DeltaEnvelope, deep_equal, apply_all, conclude, apply_commit, validate_operations,
  validate_delta, wrap_error, delta_of, u64,
}
use tmuxatlas.State.Commit.Replay.{validate-clone}

-- Two projections with the same entries.
pub record SameEntries (p q : Projection) : Type 0 where
  pub hosts : (k : Text) → get k p.hosts ≡ get k q.hosts
  pub sessions : (k : Text) → get k p.sessions ≡ get k q.sessions
  pub windows : (k : Text) → get k p.windows ≡ get k q.windows
  pub panes : (k : Text) → get k p.panes ≡ get k q.panes
  pub tool_events : (k : Text) → get k p.tool_events ≡ get k q.tool_events
  pub activity : (k : Text) → get k p.activity ≡ get k q.activity
  pub health : (k : Text) → get k p.health ≡ get k q.health
  pub metadata : (k : Text) → get k p.metadata ≡ get k q.metadata

pub deep_equal_sound : (p q : Projection) → deep_equal p q ≡ true → SameEntries p q
unfolding deep_equal
deep_equal_sound p q h = record {
  hosts = dict_equal_sound Host-discrete p.hosts q.hosts (ground arith);
  sessions = dict_equal_sound Session-discrete p.sessions q.sessions (ground arith);
  windows = dict_equal_sound Window-discrete p.windows q.windows (ground arith);
  panes = dict_equal_sound Pane-discrete p.panes q.panes (ground arith);
  tool_events = dict_equal_sound ToolEvent-discrete p.tool_events q.tool_events (ground arith);
  activity = dict_equal_sound Activity-discrete p.activity q.activity (ground arith);
  health = dict_equal_sound Health-discrete p.health q.health (ground arith);
  metadata = dict_equal_sound Text-discrete p.metadata q.metadata (ground arith);
}

wrap_error-ok :
    (index : ℕ) (r : Result Error Projection) (q : Projection)
    → wrap_error index r ≡ ok q
    → r ≡ ok q
wrap_error-ok index (ok p) q h = h
wrap_error-ok index (err e) q h = cc

-- The envelope that a commit hands out.
abbrev pub IsDeltaOf : DeltaEnvelope → Text → ℕ → Type 0
IsDeltaOf d instance_id revision =
    (d.instance_id ≡ instance_id) × (d.base_revision ≡ revision) × (d.revision ≡ revision + 1)

module _ (json_valid : Text → Bool) where
  -- The rounds of a loop that succeeds.
  pub apply_all-cons :
      (index : ℕ) (op : Operation) (ops : List Operation) (p q : Projection)
      → apply_all json_valid index (op ∷ ops) p ≡ ok q
      → (r : Projection) × (validate json_valid op ≡ ok tt)
        × (apply_operation op p ≡ ok r)
        × (apply_all json_valid (suc index) ops r ≡ ok q)
  unfolding apply_all
  apply_all-cons index op ops p q h =
      let (r, e, rest) = >>=-ok (wrap_error index _) (apply_all json_valid (suc index) ops) q h in
      let (done, checked, applied) =
        >>=-ok (validate json_valid op) (λ _. apply_operation op p) r (wrap_error-ok index _ r e) in
      (r, checked, applied, rest)

  -- Operations that were applied have passed validation, and so do their copies.
  validate_operations-apply_all :
      (index : ℕ) (ops : List Operation) (p q : Projection)
      → apply_all json_valid index ops p ≡ ok q
      → validate_operations json_valid (map clone_operation ops) ≡ true
  unfolding validate_operations
  validate_operations-apply_all index [] p q h = refl
  validate_operations-apply_all index (op ∷ ops) p q h =
      let (r, checked, applied, rest) = apply_all-cons index op ops p q h in
      rw (validate-clone json_valid op, checked)
        (validate_operations-apply_all (suc index) ops r q rest)

  pub conclude_cases :
      (instance_id : Text) (p next : Projection) (revision : ℕ) (ops : List Operation)
      → ((conclude json_valid instance_id p revision ops next
            ≡ (record { changed = false; revision = revision; delta = none }, p))
          × SameEntries p next)
        ⊎ (conclude json_valid instance_id p revision ops next ≡ (
          record {
            changed = true;
            revision = u64 (revision + 1);
            delta = some (delta_of instance_id revision ops);
          },
          next,
        ))
  unfolding conclude
  conclude_cases instance_id p next revision ops = elim (Bool-cases (deep_equal p next)) [
    | inl e ↦ inl (rw e, deep_equal_sound p next e)
    | inr e ↦ inr (rw e)
  ]

  delta_of-valid :
      (instance_id : Text) (revision : ℕ) (op : Operation) (ops : List Operation) (p q : Projection)
      → is_blank instance_id ≡ false
      → revision + 1 < 2 ^ 64
      → apply_all json_valid 0 (op ∷ ops) p ≡ ok q
      → validate_delta json_valid (delta_of instance_id revision (op ∷ ops)) ≡ true
  unfolding validate_delta Text-discrete ℕ_discrete
  delta_of-valid instance_id revision op ops p q b bound h =
      ground (arith, validate_operations-apply_all 0 (op ∷ ops) p q h)

  -- A commit that announces a delta: the delta validates, its base is the revision before it and its
  -- revision the next one. Any other commit leaves the state and the revision alone.
  pub apply_commit-delta :
      (instance_id : Text) (p q : Projection) (revision : ℕ) (ops : List Operation)
      (result : CommitResult)
      → is_blank instance_id ≡ false
      → revision + 1 < 2 ^ 64
      → apply_commit json_valid instance_id p revision ops ≡ ok (result, q)
      → ((d : DeltaEnvelope) × (result.delta ≡ some d)
          × (validate_delta json_valid d ≡ true)
          × IsDeltaOf d instance_id revision
          × (result.revision ≡ revision + 1))
        ⊎ ((result.delta ≡ none) × (q ≡ p) × (result.revision ≡ revision))
  unfolding apply_commit
  apply_commit-delta instance_id p q revision [] result b bound h =
      inr (ground arith, ground arith, ground arith)
  apply_commit-delta instance_id p q revision (op ∷ ops) result b bound h =
      let (next, applied, e) =
        >>=-ok (apply_all json_valid 0 (op ∷ ops) (clone_projection p))
          (λ next. ok (conclude json_valid instance_id p revision (op ∷ ops) next)) (result, q) h in
      elim (conclude_cases instance_id p next revision (op ∷ ops)) [
        | inl (c, same) ↦ inr (ground arith, ground arith, ground arith)
        | inr c ↦ inl (
          delta_of instance_id revision (op ∷ ops),
          ground arith,
          delta_of-valid instance_id revision op ops _ next b bound applied,
          (refl, refl, omega arith),
          ground arith,
        )
      ]
