-- ===== src/Update/Safe.antt =====
-- Disks from which pkg/commands/update can go on, and the rollback that keeps them so.
use tmuxatlas.Common.{
  ◌≡◌, sym, ◌∙◌, Bool, true, false, Option, none, some, Text, is_empty, ◌⊎◌, inl, inr,
}
use tmuxatlas.Update.Ensures.{
  Ensures, Ensures-if_err, Ensures-then, Ensures-attempt, Ends-act_if, Ensures-return,
}
use tmuxatlas.Update.Files.{
  ◌>>◌, return, Phase, staged, replaced, restarted, healthy, rolling_back, rolled_back, committed,
  Transaction, Disk, save, copy_to_restaging, remove_restaging, publish_restaging,
}
use tmuxatlas.Update.{
  stage_backup, give_up, rollback_executable, service_call, restore_previous, give_back,
}

-- The phases from which recovery restores the backup.
abbrev pub needs_backup : Phase → Bool
needs_backup staged = false
needs_backup replaced = true
needs_backup restarted = true
needs_backup healthy = false
needs_backup rolling_back = true
needs_backup rolled_back = false
needs_backup committed = false

-- The journal tells recovery to restore the backup.
abbrev pub is_pending : Option Transaction → Bool
is_pending none = false
is_pending (some tx) = needs_backup tx.phase

abbrev pub IsBacked : Text → Option Transaction → Option Text → Type 0
IsBacked old none backup = Unit
IsBacked old (some tx) backup =
    (needs_backup tx.phase ≡ false) ⊎ ((backup ≡ some old) × (is_empty tx.backup_path ≡ false))

-- The executable is the old one or the new one, whole.
abbrev pub IsWhole : Text → Text → Disk → Type 0
IsWhole old new d = (d.executable ≡ some old) ⊎ (d.executable ≡ some new)

abbrev pub IsSafe : Text → Text → Disk → Type 0
IsSafe old new d = IsWhole old new d × IsBacked old d.journal d.backup

module _ (old new : Text) where
  -- The backup is the old executable.
  abbrev pub Kept : Disk → Type 0
  Kept d = IsWhole old new d × (d.backup ≡ some old) × IsBacked old d.journal d.backup

  pub save-Kept :
      (tx : Transaction)
      → is_empty tx.backup_path ≡ false
      → Ensures (IsSafe old new) Kept (save tx) (λ _. Kept)
  unfolding save
  save-Kept tx b =
      Ensures-attempt (IsSafe old new) Kept (λ _. Kept) _ _ (λ d k. (k.0, k.1, inr (k.1, b)))
        (λ t d k. k) (λ t d k. (k.0, k.2))

  pub give_up-Kept :
      (tx : Transaction)
      → is_empty tx.backup_path ≡ false
      → Ensures (IsSafe old new) Kept (give_up tx) (λ _. Kept)
  give_up-Kept tx b =
      Ensures-then (IsSafe old new) Kept Kept (λ _. Kept) (save tx) _ (save-Kept tx b)
        (Ensures-return (IsSafe old new) Kept false)

  pub service_call-Kept : Ensures (IsSafe old new) Kept service_call (λ _. Kept)
  unfolding service_call
  service_call-Kept =
      Ensures-attempt (IsSafe old new) Kept (λ _. Kept) _ _ (λ d k. k) (λ t d k. k)
        (λ t d k. (k.0, k.2))

  remove_restaging-Kept : Ensures (IsSafe old new) Kept remove_restaging (λ _. Kept)
  unfolding remove_restaging
  remove_restaging-Kept =
      Ensures-attempt (IsSafe old new) Kept (λ _. Kept) _ _ (λ d k. k) (λ t d k. k)
        (λ t d k. (k.0, k.2))

  -- What a step with the result `b` leaves: `Kept`, and more if it worked.
  abbrev Staged : Bool → Disk → Type 0
  Staged true d = Kept d × (d.restaging ≡ some old)
  Staged false d = Kept d

  copy_to_restaging-Staged : Ensures (IsSafe old new) Kept copy_to_restaging Staged
  unfolding copy_to_restaging
  copy_to_restaging-Staged faults d k =
      Ends-act_if (IsSafe old new) Staged d.backup _ _ faults d (λ c e. (k, sym e ∙ k.1)) k (λ t. k)
        (λ t. (k.0, k.2))

  stage_backup-Staged : Ensures (IsSafe old new) Kept stage_backup Staged
  unfolding stage_backup
  stage_backup-Staged =
      Ensures-if_err (IsSafe old new) Kept Staged Staged copy_to_restaging
        (remove_restaging >> return false) (return true) copy_to_restaging-Staged
        (Ensures-then (IsSafe old new) Kept Kept Staged remove_restaging (return false)
          remove_restaging-Kept (λ faults d k. k))
        (λ faults d k. k)

  -- After a successful rename the executable is the old one.
  abbrev Restored : Bool → Disk → Type 0
  Restored true d = Kept d × (d.executable ≡ some old)
  Restored false d = Kept d

  publish_restaging-Restored : Ensures (IsSafe old new) (Staged true) publish_restaging Restored
  unfolding publish_restaging
  publish_restaging-Restored faults d s =
      Ends-act_if (IsSafe old new) Restored d.restaging _ _ faults d
        (λ c e. let same : some c ≡ some old = sym e ∙ s.1 in ((inl same, s.0.1, s.0.2), same)) s.0
        (λ t. s.0) (λ t. (s.0.0, s.0.2))

  pub rollback_executable-Kept :
      (tx : Transaction)
      → is_empty tx.backup_path ≡ false
      → Ensures (IsSafe old new) Kept (rollback_executable tx) (λ _. Kept)
  unfolding rollback_executable
  rollback_executable-Kept tx b = rw b (
      Ensures-if_err (IsSafe old new) Kept (λ _. Kept) (λ _. Kept)
        (save (record tx { phase = rolling_back })) (return false) _
        (save-Kept (record tx { phase = rolling_back }) b)
        (Ensures-return (IsSafe old new) Kept false)
        (Ensures-if_err (IsSafe old new) Kept Staged (λ _. Kept) stage_backup
          (give_up (record tx { phase = rolling_back; has_error = true })) _ stage_backup-Staged
          (give_up-Kept (record tx { phase = rolling_back; has_error = true }) b)
          (Ensures-if_err (IsSafe old new) (Staged true) Restored (λ _. Kept) publish_restaging
            (give_up (record tx { phase = rolling_back; has_error = true })) _
            publish_restaging-Restored
            (give_up-Kept (record tx { phase = rolling_back; has_error = true }) b)
            (λ faults d r.
              save-Kept (record tx { phase = rolled_back; has_error = false }) b faults d r.0))))

  restore_previous-Kept :
      (tx : Transaction)
      → is_empty tx.backup_path ≡ false
      → Ensures (IsSafe old new) Kept (restore_previous tx) (λ _. Kept)
  unfolding restore_previous
  restore_previous-Kept tx b =
      Ensures-if_err (IsSafe old new) Kept (λ _. Kept) (λ _. Kept) (rollback_executable tx)
        (return false) _ (rollback_executable-Kept tx b)
        (Ensures-return (IsSafe old new) Kept false)
        (Ensures-if_err (IsSafe old new) Kept (λ _. Kept) (λ _. Kept) service_call (return false)
          service_call service_call-Kept (Ensures-return (IsSafe old new) Kept false)
          service_call-Kept)

  pub give_back-Kept :
      (tx : Transaction)
      → is_empty tx.backup_path ≡ false
      → Ensures (IsSafe old new) Kept (give_back tx) (λ _. Kept)
  unfolding give_back
  give_back-Kept tx b =
      Ensures-then (IsSafe old new) Kept Kept (λ _. Kept)
        (restore_previous (record tx { has_error = true })) _
        (restore_previous-Kept (record tx { has_error = true }) b)
        (Ensures-return (IsSafe old new) Kept false)
