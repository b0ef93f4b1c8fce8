-- ===== src/State/Commit/Replay.antt =====
-- A delta carries copies of the operations that made it: on a copy of the state they do the same.
use tmuxatlas.Common.{
  ℕ, suc, ◌≡◌, refl, sym, ap, ◌∙◌, List, [], ◌∷◌, map, Text, arith, Bool, Result, ok, err, ◌>>=◌,
  ◌>>◌, Option, none, some, is_some,
}
use mathlib.Core.Option
use mathlib.Core.Path.{◌≡⟨◌⟩◌, ◌∎}
use tmuxatlas.State.Projection.{Projection, Operation, OperationKind, upsert_host}
use tmuxatlas.State.Projection.Validate.{Error, validate_as, validate}
use tmuxatlas.State.Projection.Clone.{
  clone_activity, clone_health, clone_projection, clone_operation, clone_projection_idem,
}
use tmuxatlas.State.Projection.Apply.{apply_operation, copied, apply-clone}
use tmuxatlas.State.Commit.{wrap_error, apply_all}

is_some-map {ℓ} : {A : Type ℓ} (f : A → A) (o : Option A) → is_some (Option.map f o) ≡ is_some o
is_some-map f none = refl
is_some-map f (some a) = refl

module _ (json_valid : Text → Bool) where
  validate_as-clone :
      (kind : OperationKind) (op : Operation)
      → validate_as json_valid kind (clone_operation op) ≡ validate_as json_valid kind op
  unfolding validate_as clone_operation
  validate_as-clone upsert_host op = refl
  validate_as-clone _ op =
      ground (arith, is_some-map clone_activity op.activity, is_some-map clone_health op.health)

  pub validate-clone :
      (op : Operation) → validate json_valid (clone_operation op) ≡ validate json_valid op
  unfolding validate clone_operation
  validate-clone op = validate_as-clone op.kind op

  -- One round of the loop, when the rest of it is a copy too.
  round-clone :
      (index : ℕ) (checked : Result Error (Unit {0})) (applied : Result Error Projection)
      (rest rest' : Projection → Result Error Projection)
      → ((q : Projection) → rest' (clone_projection q) ≡ copied (rest q))
      → (wrap_error index (checked >> copied applied) >>= rest')
        ≡ copied (wrap_error index (checked >> applied) >>= rest)
  round-clone index (err e) applied rest rest' h = refl
  round-clone index (ok done) (err e) rest rest' h = refl
  round-clone index (ok done) (ok q) rest rest' h = h q

  pub apply_all-clone :
      (index : ℕ) (ops : List Operation) (p : Projection)
      → apply_all json_valid index (map clone_operation ops) (clone_projection p)
        ≡ copied (apply_all json_valid index ops p)
  unfolding apply_all
  apply_all-clone index [] p = refl
  apply_all-clone index (op ∷ ops) p =
      rw (validate-clone op, apply-clone op p)
        (round-clone index (validate json_valid op) (apply_operation op p)
          (apply_all json_valid (suc index) ops)
          (apply_all json_valid (suc index) (map clone_operation ops))
          (apply_all-clone (suc index) ops))

  -- A delta that a subscriber gets holds copies of copies. On a copy of the state before the commit
  -- they give a copy of the state after it.
  pub replay_lem :
      (ops : List Operation) (p q : Projection)
      → apply_all json_valid 0 ops (clone_projection p) ≡ ok q
      → apply_all json_valid 0 (map clone_operation (map clone_operation ops)) (clone_projection p)
        ≡ ok (clone_projection q)
  replay_lem ops p q h =
      apply_all json_valid 0 (map clone_operation (map clone_operation ops)) (clone_projection p)
      ≡⟨ ap (λ r. apply_all json_valid 0 (map clone_operation (map clone_operation ops)) r)
          (sym (clone_projection_idem p)) ⟩
        apply_all json_valid 0 (map clone_operation (map clone_operation ops))
          (clone_projection (clone_projection p))
      ≡⟨ apply_all-clone 0 (map clone_operation ops) (clone_projection p) ⟩
        copied (apply_all json_valid 0 (map clone_operation ops) (clone_projection p))
      ≡⟨ ap copied (once ∙ ap copied h) ⟩ copied (copied (ok q))
      ≡⟨ ap ok (clone_projection_idem q) ⟩ ok (clone_projection q) ∎
    where
      once :
          apply_all json_valid 0 (map clone_operation ops) (clone_projection p)
          ≡ copied (apply_all json_valid 0 ops (clone_projection p))
      once =
          ap (λ r. apply_all json_valid 0 (map clone_operation ops) r)
            (sym (clone_projection_idem p))
          ∙ apply_all-clone 0 ops (clone_projection p)
