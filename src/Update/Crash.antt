-- ===== src/Update/Crash.antt =====
-- Whatever call fails, and wherever the process ends, the installation leaves a disk that is safe.
use tmuxatlas.Common.{
  ◌≡◌, refl, sym, ◌∙◌, Bool, true, false, Option, arith, none, some, List, [], Text, is_empty, inl,
  inr,
}
use tmuxatlas.Update.Ensures.{
  Ensures, Ensures-if_err, Ensures-then, Ensures-attempt, Ends-act_if, Ensures-return,
  Ensures-weaken, Ends-disk_of, disk_of,
}
use tmuxatlas.Update.Files.{
  ◌>>◌, return, staged, replaced, restarted, healthy, committed, Transaction, Disk, Fault, save,
  if_absent, copy_to_staging, copy_to_backup_temp, remove_staging, remove_backup_temp,
  publish_backup, publish_staging,
}
use tmuxatlas.Update.Safe.{
  needs_backup, is_pending, IsBacked, IsSafe, Kept, save-Kept, service_call-Kept, give_back-Kept,
}
use tmuxatlas.Update.{
  stage_binary, publish_both, replace_with_backup, give_up, Service, not_restarted, running,
  service_call, give_back, await_health, finish_install, replace_and_finish, install,
}

-- A disk on which no earlier update waits for its recovery.
abbrev pub IsIdle : Text → Disk → Type 0
IsIdle old d = (d.executable ≡ some old) × (is_pending d.journal ≡ false)

not_pending-IsBacked :
    (old : Text) (journal : Option Transaction) (backup : Option Text)
    → is_pending journal ≡ false
    → IsBacked old journal backup
not_pending-IsBacked old none backup e = tt
not_pending-IsBacked old (some tx) backup e = inl e

module _ (old new : Text) where
  abbrev Safe : Disk → Type 0
  Safe = IsSafe old new

  abbrev Calm : Disk → Type 0
  Calm = Kept old new

  IsIdle-IsSafe : (d : Disk) → IsIdle old d → Safe d
  IsIdle-IsSafe d i = (inl i.0, not_pending-IsBacked old d.journal d.backup i.1)

  -- The new executable is staged.
  abbrev Ready : Disk → Type 0
  Ready d = IsIdle old d × (d.staging ≡ some new)

  -- What the steps of the installation leave, if they worked and if not.
  abbrev Copied : Bool → Disk → Type 0
  Copied true d = Ready d
  Copied false d = IsIdle old d

  abbrev Saved : Bool → Disk → Type 0
  Saved true d = Ready d × (d.backup_temp ≡ some old)
  Saved false d = Ready d

  abbrev Published : Bool → Disk → Type 0
  Published true d = Ready d × (d.backup ≡ some old)
  Published false d = Ready d

  abbrev Done : Bool → Disk → Type 0
  Done true d = Calm d
  Done false d = IsIdle old d

  remove_staging-IsIdle : Ensures Safe (IsIdle old) remove_staging (λ _. IsIdle old)
  unfolding remove_staging
  remove_staging-IsIdle =
      Ensures-attempt Safe (IsIdle old) (λ _. IsIdle old) _ _ (λ d i. i) (λ t d i. i)
        (λ t d i. IsIdle-IsSafe d i)

  copy_to_staging-Copied : Ensures Safe (IsIdle old) (copy_to_staging (some new)) Copied
  unfolding copy_to_staging
  copy_to_staging-Copied faults d i =
      Ends-act_if Safe Copied (some new) (λ c e. record e { staging = some c })
        (λ t e. record e { staging = some t }) faults d (λ c e. (i, sym e)) i (λ t. i)
        (λ t. IsIdle-IsSafe d i)

  stage_binary-Copied : Ensures Safe (IsIdle old) (stage_binary new) Copied
  unfolding stage_binary
  stage_binary-Copied =
      Ensures-if_err Safe (IsIdle old) Copied Copied (copy_to_staging (some new))
        (remove_staging >> return false) (return true) copy_to_staging-Copied
        (Ensures-then Safe (IsIdle old) (IsIdle old) Copied remove_staging (return false)
          remove_staging-IsIdle (λ faults d i. i))
        (λ faults d r. r)

  save-Ready :
      (tx : Transaction) → needs_backup tx.phase ≡ false → Ensures Safe Ready (save tx) (λ _. Ready)
  unfolding save
  save-Ready tx e =
      Ensures-attempt Safe Ready (λ _. Ready) _ _ (λ d r. ((r.0.0, e), r.1)) (λ t d r. r)
        (λ t d r. IsIdle-IsSafe d r.0)

  save-IsIdle :
      (tx : Transaction)
      → needs_backup tx.phase ≡ false
      → Ensures Safe (IsIdle old) (save tx) (λ _. IsIdle old)
  unfolding save
  save-IsIdle tx e =
      Ensures-attempt Safe (IsIdle old) (λ _. IsIdle old) _ _ (λ d i. (i.0, e)) (λ t d i. i)
        (λ t d i. IsIdle-IsSafe d i)

  remove_backup_temp-Ready : Ensures Safe Ready remove_backup_temp (λ _. Ready)
  unfolding remove_backup_temp
  remove_backup_temp-Ready =
      Ensures-attempt Safe Ready (λ _. Ready) _ _ (λ d r. r) (λ t d r. r)
        (λ t d r. IsIdle-IsSafe d r.0)

  if_absent-some :
      (there source : Option Text) (c : Text) → if_absent there source ≡ some c → source ≡ some c
  if_absent-some none source c e = e
  if_absent-some (some x) source c e = ground arith

  copy_to_backup_temp-Saved : Ensures Safe Ready copy_to_backup_temp Saved
  unfolding copy_to_backup_temp
  copy_to_backup_temp-Saved faults d r =
      Ends-act_if Safe Saved (if_absent d.backup_temp d.executable) _ _ faults d
        (λ c e. (r, sym (if_absent-some d.backup_temp d.executable c e) ∙ r.0.0)) r (λ t. r)
        (λ t. IsIdle-IsSafe d r.0)

  publish_backup-Published : Ensures Safe (Saved true) publish_backup Published
  unfolding publish_backup
  publish_backup-Published faults d r =
      Ends-act_if Safe Published d.backup_temp _ _ faults d (λ c e. (r.0, sym e ∙ r.1)) r.0
        (λ t. r.0) (λ t. IsIdle-IsSafe d r.0.0)

  publish_staging-Done : Ensures Safe (Published true) publish_staging Done
  unfolding publish_staging
  publish_staging-Done faults d r =
      Ends-act_if Safe Done d.staging _ _ faults d
        (λ c e. (inr (sym e ∙ r.0.1), r.1, not_pending-IsBacked old d.journal d.backup r.0.0.1))
        r.0.0 (λ t. r.0.0) (λ t. IsIdle-IsSafe d r.0.0)

  publish_both-Done : Ensures Safe (Saved true) publish_both Done
  unfolding publish_both
  publish_both-Done =
      Ensures-if_err Safe (Saved true) Published Done publish_backup
        (remove_backup_temp >> return false) publish_staging publish_backup-Published
        (Ensures-then Safe Ready Ready Done remove_backup_temp (return false)
          remove_backup_temp-Ready (λ faults d r. r.0))
        publish_staging-Done

  replace_with_backup-Done : Ensures Safe Ready replace_with_backup Done
  unfolding replace_with_backup
  replace_with_backup-Done =
      Ensures-then Safe Ready Ready Done remove_backup_temp _ remove_backup_temp-Ready (
        Ensures-if_err Safe Ready Saved Done copy_to_backup_temp (return false) publish_both
          copy_to_backup_temp-Saved (λ faults d r. r.0) publish_both-Done)

  finish_install-Kept :
      (service : Service) (tx : Transaction)
      → is_empty tx.backup_path ≡ false
      → Ensures Safe Calm (finish_install service tx) (λ _. Calm)
  unfolding finish_install await_health
  finish_install-Kept not_restarted tx b =
      save-Kept old new (record tx { phase = committed; has_error = false }) b
  finish_install-Kept running tx b =
      Ensures-if_err Safe Calm (λ _. Calm) (λ _. Calm) service_call (give_back tx) _
        (service_call-Kept old new) (give_back-Kept old new tx b)
        (Ensures-if_err Safe Calm (λ _. Calm) (λ _. Calm) (save (record tx { phase = restarted }))
          (return false) _ (save-Kept old new (record tx { phase = restarted }) b)
          (Ensures-return Safe Calm false)
          (Ensures-if_err Safe Calm (λ _. Calm) (λ _. Calm) service_call
            (give_back (record tx { phase = restarted })) _ (service_call-Kept old new)
            (give_back-Kept old new (record tx { phase = restarted }) b)
            (Ensures-if_err Safe Calm (λ _. Calm) (λ _. Calm) (save (record tx { phase = healthy }))
              (return false) _ (save-Kept old new (record tx { phase = healthy }) b)
              (Ensures-return Safe Calm false)
              (save-Kept old new (record tx { phase = committed; has_error = false }) b))))

  Calm-Safe : (b : Bool) (d : Disk) → Calm d → Safe d
  Calm-Safe b d k = (k.0, k.2)

  replace_and_finish-IsSafe :
      (tx : Transaction) (service : Service)
      → is_empty tx.backup_path ≡ false
      → Ensures Safe Ready (replace_and_finish tx service) (λ _. Safe)
  unfolding replace_and_finish give_up
  replace_and_finish-IsSafe tx service b =
      Ensures-if_err Safe Ready Done (λ _. Safe) replace_with_backup
        (give_up (record tx { phase = staged; has_error = true })) _ replace_with_backup-Done
        (Ensures-then Safe (IsIdle old) (IsIdle old) (λ _. Safe)
          (save (record tx { phase = staged; has_error = true })) _
          (save-IsIdle (record tx { phase = staged; has_error = true }) refl)
          (λ faults d i. IsIdle-IsSafe d i))
        (Ensures-weaken Safe Calm (λ _. Calm) (λ _. Safe) _ Calm-Safe
          (Ensures-if_err Safe Calm (λ _. Calm) (λ _. Calm)
            (save (record tx { phase = replaced; staged_path = [] })) (return false) _
            (save-Kept old new (record tx { phase = replaced; staged_path = [] }) b)
            (Ensures-return Safe Calm false)
            (finish_install-Kept service (record tx { phase = replaced; staged_path = [] }) b)))

  install-IsSafe :
      (tx : Transaction) (service : Service)
      → is_empty tx.backup_path ≡ false
      → Ensures Safe (IsIdle old) (install new tx service) (λ _. Safe)
  unfolding install
  install-IsSafe tx service b =
      Ensures-if_err Safe (IsIdle old) Copied (λ _. Safe) (stage_binary new) (return false) _
        stage_binary-Copied (λ faults d i. IsIdle-IsSafe d i)
        (Ensures-if_err Safe Ready (λ _. Ready) (λ _. Safe) (save (record tx { phase = staged }))
          (remove_staging >> return false) _ (save-Ready (record tx { phase = staged }) refl)
          (λ faults d r.
            Ensures-then Safe (IsIdle old) (IsIdle old) (λ _. Safe) remove_staging (return false)
              remove_staging-IsIdle (λ faults d i. IsIdle-IsSafe d i) faults d r.0)
          (replace_and_finish-IsSafe tx service b))

-- Let the executable be `old`, let no journal ask for a rollback, and let the transaction name a backup.
-- Whatever calls fail during the installation of `new`, and wherever the process ends, the executable is
-- then one of the two, whole, and a journal whose phase makes recovery restore the backup has `old` there.
pub install_survives_crash :
    (old new : Text) (tx : Transaction) (service : Service) (faults : List Fault) (d : Disk)
    → d.executable ≡ some old
    → is_pending d.journal ≡ false
    → is_empty tx.backup_path ≡ false
    → IsSafe old new (disk_of (install new tx service faults d))
install_survives_crash old new tx service faults d e p b =
    Ends-disk_of (IsSafe old new) (install new tx service faults d)
      (install-IsSafe old new tx service b faults d (e, p))
