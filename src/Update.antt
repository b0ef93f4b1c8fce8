-- ===== src/Update.antt =====
-- pkg/commands/update: the transaction that replaces the executable, its journal, and its recovery
-- (transaction.go, and the part of execute in update.go that follows the download).
pub mod Files
pub mod Recovery
pub mod Ensures
pub mod Safe
pub mod Crash
mod Tests
use tmuxatlas.Common.{Bool, true, false, Option, none, some, [], Text, is_empty, if◌then◌else◌}
use tmuxatlas.Update.Files.{
  M, ◌>>=◌, ◌>>◌, return, if_err, Phase, staged, replaced, restarted, healthy, rolling_back,
  rolled_back, committed, Transaction, Disk, save, copy_to_staging, copy_to_restaging,
  copy_to_backup_temp, remove_staging, remove_restaging, remove_backup_temp, publish_backup,
  publish_staging, publish_restaging, attempt,
}

-- stageExecutable of the downloaded binary, and of the backup.
unfoldable pub stage_binary : Text → M Bool
unfolding copy_to_staging remove_staging
stage_binary binary =
    if_err (copy_to_staging (some binary)) (remove_staging >> return false) (return true)

unfoldable pub stage_backup : M Bool
unfolding copy_to_restaging remove_restaging
stage_backup = if_err copy_to_restaging (remove_restaging >> return false) (return true)

unfoldable pub publish_both : M Bool
unfolding remove_backup_temp publish_backup publish_staging
publish_both = if_err publish_backup (remove_backup_temp >> return false) publish_staging

unfoldable pub replace_with_backup : M Bool
unfolding remove_backup_temp copy_to_backup_temp publish_both
replace_with_backup = remove_backup_temp >> if_err copy_to_backup_temp (return false) publish_both

-- A save whose error is not looked at, before a return with an error.
abbrev pub give_up : Transaction → M Bool
give_up tx = save tx >> return false

unfoldable pub rollback_executable : Transaction → M Bool
unfolding save stage_backup publish_restaging
rollback_executable tx =
    if is_empty tx.backup_path
    then return false
    else if_err (save (record tx { phase = rolling_back })) (return false) (
        if_err stage_backup (give_up (record tx { phase = rolling_back; has_error = true })) (
          if_err publish_restaging (give_up (record tx { phase = rolling_back; has_error = true }))
            (save (record tx { phase = rolled_back; has_error = false }))))

-- transactionStore.load: a call that may fail.
unfoldable pub load : M Bool
unfolding attempt
load = attempt (λ d. d) (λ t d. d)

unfoldable pub recover_phase : Phase → Transaction → M Bool
unfolding rollback_executable remove_staging save
recover_phase staged tx =
    if is_empty tx.staged_path
    then save (record tx { phase = rolled_back })
    else (remove_staging >> save (record tx { phase = rolled_back }))
recover_phase replaced tx = rollback_executable tx
recover_phase restarted tx = rollback_executable tx
recover_phase rolling_back tx = rollback_executable tx
recover_phase healthy tx = save (record tx { phase = committed })
recover_phase rolled_back tx = return true
recover_phase committed tx = return true

unfoldable pub recover_journal : Option Transaction → M Bool
unfolding recover_phase
recover_journal none = return true
recover_journal (some tx) = recover_phase tx.phase tx

-- recoverInterrupted
unfoldable pub recover_interrupted : M Bool
unfolding load recover_journal
recover_interrupted = if_err load (return false) (λ faults d. recover_journal d.journal faults d)

-- What discoverService and the options say: there is nothing to restart, or a running service.
pub data Service : Type 0 where
  not_restarted running : Service

-- service.restart and waitForServiceHealth: calls that leave the files alone.
unfoldable pub service_call : M Bool
unfolding attempt
service_call = attempt (λ d. d) (λ t d. d)

unfoldable pub restore_previous : Transaction → M Bool
unfolding rollback_executable service_call
restore_previous tx =
    if_err (rollback_executable tx) (return false) (if_err service_call (return false) service_call)

-- restorePrevious after the error that execute returns.
unfoldable pub give_back : Transaction → M Bool
unfolding restore_previous
give_back tx = restore_previous (record tx { has_error = true }) >> return false

unfoldable pub await_health : Transaction → M Bool
unfolding save service_call give_back
await_health tx = if_err service_call (give_back (record tx { phase = restarted })) (
    if_err (save (record tx { phase = healthy })) (return false)
      (save (record tx { phase = committed; has_error = false })))

-- The end of execute, after the journal has the replaced phase.
unfoldable pub finish_install : Service → Transaction → M Bool
unfolding save service_call give_back await_health
finish_install not_restarted tx = save (record tx { phase = committed; has_error = false })
finish_install running tx =
    if_err service_call (give_back tx)
      (if_err (save (record tx { phase = restarted })) (return false) (await_health tx))

-- The middle of execute, from the journal of the staged binary on.
unfoldable pub replace_and_finish : Transaction → Service → M Bool
unfolding save replace_with_backup finish_install
replace_and_finish tx service =
    if_err replace_with_backup (give_up (record tx { phase = staged; has_error = true })) (
      if_err (save (record tx { phase = replaced; staged_path = [] })) (return false)
        (finish_install service (record tx { phase = replaced; staged_path = [] })))

-- execute from stageExecutable on.
unfoldable pub install : Text → Transaction → Service → M Bool
unfolding stage_binary save remove_staging replace_and_finish
install binary tx service = if_err (stage_binary binary) (return false) (
    if_err (save (record tx { phase = staged })) (remove_staging >> return false)
      (replace_and_finish tx service))
