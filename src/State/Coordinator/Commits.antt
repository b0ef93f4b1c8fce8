-- ===== src/State/Coordinator/Commits.antt =====
-- What a commit does to the coordinator, on every branch.
use tmuxatlas.Common.{
  ◌+◌, ◌≡◌, refl, ap, List, ◌∷◌, Bool, true, false, Option, none, some, Text, ok, err, Result, inl,
  inr, ◌⊎◌, ◌>>=◌, if◌then◌else◌,
}
use tmuxatlas.State.Projection.{Projection, Operation}
use tmuxatlas.State.Projection.Validate.{Error}
use tmuxatlas.State.Projection.Clone.{clone_projection}
use tmuxatlas.State.Commit.{u64, apply_all, apply_commit, conclude, delta_of}
use tmuxatlas.State.Commit.Effects.{SameEntries, conclude_cases}
use tmuxatlas.State.Coordinator.{
  Coordinator, Command, closed, commit, publish, adopt, handle, step, Response, committed, failed,
}

module _ (json_valid : Text → Bool) where
  -- The three ends of a commit of at least one operation. `p` is a copy of the state before it.
  abbrev pub CommitEnd : Coordinator → List Operation → Projection → Coordinator × Response → Type 0
  CommitEnd c ops p after =
      ((e : Error) × (apply_all json_valid 0 ops p ≡ err e) × (after ≡ (c, failed e)))
      ⊎ ((next : Projection) × (apply_all json_valid 0 ops p ≡ ok next)
          × SameEntries c.projection next
          × (after
              ≡ (c, committed (record { changed = false; revision = c.revision; delta = none }))))
      ⊎ ((next : Projection) × (apply_all json_valid 0 ops p ≡ ok next)
          × (after.0.projection ≡ next)
          × (after.0.revision ≡ u64 (c.revision + 1))
          × (after.1
              ≡ committed (record {
                changed = true;
                revision = u64 (c.revision + 1);
                delta = some (delta_of c.instance_id c.revision ops);
              })))

  publish-keeps :
      (o : Option _) (c : Coordinator)
      → ((publish o c).projection ≡ c.projection) × ((publish o c).revision ≡ c.revision)
  unfolding publish
  publish-keeps none c = (refl, refl)
  publish-keeps (some d) c = (refl, refl)

  adopted-CommitEnd :
      (c : Coordinator) (op : Operation) (ops : List Operation) (r : Result Error Projection)
      → apply_all json_valid 0 (op ∷ ops) (clone_projection c.projection) ≡ r
      → CommitEnd c (op ∷ ops) (clone_projection c.projection) (
          adopt json_valid c (
            r >>= λ next.
            ok (conclude json_valid c.instance_id c.projection c.revision (op ∷ ops) next)))
  adopted-CommitEnd c op ops (err e) h = inl (e, h, refl)
  adopted-CommitEnd c op ops (ok next) h =
      elim (conclude_cases json_valid c.instance_id c.projection next c.revision (op ∷ ops)) [
        | inl (e, same) ↦ rw e (inr (inl (next, h, same, refl)))
        | inr e ↦
            let (p, q) =
              publish-keeps (some (delta_of c.instance_id c.revision (op ∷ ops)))
                (record c { projection = next; revision = u64 (c.revision + 1) }) in
            rw e (inr (inr (next, h, p, q, refl)))
      ]

  pub step-running :
      (c : Coordinator) (cmd : Command)
      → c.stopped ≡ false
      → step json_valid cmd c ≡ handle json_valid cmd c
  unfolding step
  step-running c cmd h = ap (λ b. if b then (c, closed) else handle json_valid cmd c) h

  -- A commit to a running coordinator ends in one of three ways. An operation is invalid, and nothing
  -- has changed: not the state, the revision, nor any subscriber. Or all of them apply to a copy of the
  -- state and leave every entry as it was, and again nothing has changed. Or the result is the new
  -- state, the revision goes up by one, and the caller has the delta.
  pub commit_outcome :
      (c : Coordinator) (op : Operation) (ops : List Operation)
      → c.stopped ≡ false
      → CommitEnd c
          (op ∷ ops)
          (clone_projection c.projection)
          (step json_valid (commit (op ∷ ops)) c)
  commit_outcome c op ops h = rw (step-running c (commit (op ∷ ops)) h) (
      unfold handle apply_commit in
      adopted-CommitEnd c op ops (apply_all json_valid 0 (op ∷ ops) (clone_projection c.projection))
        refl)
