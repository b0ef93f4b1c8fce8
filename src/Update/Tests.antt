-- ===== src/Update/Tests.antt =====
-- The theorems about the update's transaction at concrete inputs.
use tmuxatlas.Common.{◌≡◌, refl, false, List, [], ◌∷◌, none, some, bytes}
use tmuxatlas.Update.{running, install, recover_interrupted}
use tmuxatlas.Update.Crash.{install_survives_crash}
use tmuxatlas.Update.Ensures.{disk_of}
use tmuxatlas.Update.Files.{Transaction, Disk, Fault, goes, fails, ends, staged, rolled_back}
use tmuxatlas.Update.Recovery.{
  recoveries, Settles, recovery_reaches_rest, until_journal, phase_of, unjournaled_replacement,
}
use tmuxatlas.Update.Safe.{IsSafe}

abbrev installed : Disk
installed = record {
  executable = some (bytes "old");
  backup = none;
  backup_temp = none;
  staging = none;
  restaging = none;
  journal = none;
}

abbrev update : Transaction
update = record {
  phase = staged;
  staged_path = bytes "/bin/.tmuxatlas-staged-1";
  backup_path = bytes "/bin/tmuxatlas.previous";
  previous_version = bytes "v1.0.0";
  target_version = bytes "v1.1.0";
  has_error = false;
}

-- The restart fails, and the rollback ends in the copy of the backup.
abbrev lost_restart : List Fault
lost_restart =
    goes ∷ goes ∷ goes ∷ goes ∷ goes ∷ goes ∷ goes ∷ fails [] ∷ goes ∷ ends (bytes "ol") ∷ []

install_survives_crash_example :
    IsSafe
      (bytes "old")
      (bytes "new")
      (disk_of (install (bytes "new") update running lost_restart installed))
install_survives_crash_example =
    install_survives_crash (bytes "old") (bytes "new") update running lost_restart installed refl
      refl refl

recovery_reaches_rest_example :
    Settles
      (bytes "old")
      (bytes "new")
      (recoveries
        ((goes ∷ fails [] ∷ []) ∷ (goes ∷ goes ∷ ends [] ∷ []) ∷ [])
        (disk_of (install (bytes "new") update running lost_restart installed)))
      (disk_of (
        recover_interrupted [] (
          recoveries
            ((goes ∷ fails [] ∷ []) ∷ (goes ∷ goes ∷ ends [] ∷ []) ∷ [])
            (disk_of (install (bytes "new") update running lost_restart installed)))))
recovery_reaches_rest_example =
    recovery_reaches_rest (bytes "old") (bytes "new") update running lost_restart
      ((goes ∷ fails [] ∷ []) ∷ (goes ∷ goes ∷ ends [] ∷ []) ∷ []) installed refl refl refl

unjournaled_replacement_example :
    ((disk_of (
        recover_interrupted []
          (disk_of (install (bytes "new") update running until_journal installed)))).executable
      ≡ some (bytes "new"))
    × (phase_of
          (disk_of (
            recover_interrupted []
              (disk_of (install (bytes "new") update running until_journal installed)))).journal
        ≡ some rolled_back)
unjournaled_replacement_example =
    unjournaled_replacement (bytes "old") (bytes "new") update running installed refl
