-- ===== src/Update/Recovery.antt =====
-- Recovery after an installation that was interrupted (recoverInterrupted of
-- pkg/commands/update/transaction.go).
use tmuxatlas.Common.{
  ◌≡◌, refl, subst, true, false, Option, none, some, List, [], ◌∷◌, Text, is_empty, ◌⊎◌, inl, inr,
  arith, Bool-cases,
}
use tmuxatlas.Update.Ensures.{
  Ends, Ensures, Ensures-if_err, Ensures-then, Ensures-attempt, Ensures-weaken, Ends-disk_of,
  disk_of,
}
use tmuxatlas.Update.Crash.{install_survives_crash}
use tmuxatlas.Update.Files.{
  return, Phase, staged, replaced, restarted, healthy, rolling_back, rolled_back, committed,
  Transaction, Disk, goes, ends, went, save, remove_staging, copy_to_restaging, publish_restaging,
  attempt, act_if, Fault, copy_to_staging, copy_to_backup_temp, remove_backup_temp, publish_backup,
  publish_staging,
}
use tmuxatlas.Update.Safe.{
  needs_backup, IsBacked, IsWhole, IsSafe, is_pending, Kept, rollback_executable-Kept,
}
use tmuxatlas.Update.{
  stage_backup, rollback_executable, load, recover_phase, recover_journal, recover_interrupted,
  Service, install, stage_binary, replace_and_finish, replace_with_backup, publish_both,
}

-- Calls that all work.
recovered : Text → Transaction → Disk → Disk
recovered old tx d = record d {
  executable = some old;
  restaging = none;
  journal = some (record tx { phase = rolled_back; has_error = false });
}

rollback-recovered :
    (old : Text) (tx : Transaction) (d : Disk)
    → d.backup ≡ some old
    → is_empty tx.backup_path ≡ false
    → rollback_executable tx [] d ≡ went true [] (recovered old tx d)
unfolding rollback_executable recovered save stage_backup copy_to_restaging publish_restaging
    attempt act_if
rollback-recovered old tx d e b = rw (b, e) refl

IsBacked-inr :
    (old : Text) (tx : Transaction) (backup : Option Text)
    → IsBacked old (some tx) backup
    → needs_backup tx.phase ≡ true
    → (backup ≡ some old) × (is_empty tx.backup_path ≡ false)
IsBacked-inr old tx backup (inl e) h = absurd (ground arith)
IsBacked-inr old tx backup (inr b) h = b

module _ (old new : Text) where
  abbrev Safe : Disk → Type 0
  Safe = IsSafe old new

  abbrev Waits : Transaction → Disk → Type 0
  Waits tx d = Safe d × (d.journal ≡ some tx)

  IsBacked-of : (tx : Transaction) (d : Disk) → Waits tx d → IsBacked old (some tx) d.backup
  IsBacked-of tx d w = subst (λ j. IsBacked old j d.backup) w.1 w.0.1

  save-IsSafe :
      (tx : Transaction) → needs_backup tx.phase ≡ false → Ensures Safe Safe (save tx) (λ _. Safe)
  unfolding save
  save-IsSafe tx e =
      Ensures-attempt Safe Safe (λ _. Safe) _ _ (λ d s. (s.0, inl e)) (λ t d s. s) (λ t d s. s)

  remove_staging-IsSafe : Ensures Safe Safe remove_staging (λ _. Safe)
  unfolding remove_staging
  remove_staging-IsSafe =
      Ensures-attempt Safe Safe (λ _. Safe) _ _ (λ d s. s) (λ t d s. s) (λ t d s. s)

  rollback_executable-IsSafe :
      (tx : Transaction)
      → needs_backup tx.phase ≡ true
      → Ensures Safe (Waits tx) (rollback_executable tx) (λ _. Safe)
  rollback_executable-IsSafe tx h faults d w =
      let b : (d.backup ≡ some old) × (is_empty tx.backup_path ≡ false) =
        IsBacked-inr old tx d.backup (IsBacked-of tx d w) h in
      Ensures-weaken Safe (Kept old new) (λ _. Kept old new) (λ _. Safe) (rollback_executable tx)
        (λ _ d k. (k.0, k.2)) (rollback_executable-Kept old new tx b.1) faults d (w.0.0, b.0, w.0.1)

  recover_phase-IsSafe :
      (phase : Phase) (tx : Transaction)
      → tx.phase ≡ phase
      → Ensures Safe (Waits tx) (recover_phase phase tx) (λ _. Safe)
  unfolding recover_phase
  recover_phase-IsSafe staged tx e faults d w = elim (Bool-cases (is_empty tx.staged_path)) [
    | inl h ↦ rw h (save-IsSafe (record tx { phase = rolled_back }) refl faults d w.0)
    | inr h ↦ rw h (
        Ensures-then Safe Safe Safe (λ _. Safe) remove_staging _ remove_staging-IsSafe
          (save-IsSafe (record tx { phase = rolled_back }) refl) faults d w.0)
  ]
  recover_phase-IsSafe replaced tx e faults d w =
      rollback_executable-IsSafe tx (rw e refl) faults d w
  recover_phase-IsSafe restarted tx e faults d w =
      rollback_executable-IsSafe tx (rw e refl) faults d w
  recover_phase-IsSafe rolling_back tx e faults d w =
      rollback_executable-IsSafe tx (rw e refl) faults d w
  recover_phase-IsSafe healthy tx e faults d w =
      save-IsSafe (record tx { phase = committed }) refl faults d w.0
  recover_phase-IsSafe rolled_back tx e faults d w = w.0
  recover_phase-IsSafe committed tx e faults d w = w.0

  recover_journal-IsSafe :
      (journal : Option Transaction) (faults : List Fault) (d : Disk)
      → Safe d
      → d.journal ≡ journal
      → Ends Safe (λ _. Safe) (recover_journal journal faults d)
  unfolding recover_journal
  recover_journal-IsSafe none faults d s e = s
  recover_journal-IsSafe (some tx) faults d s e =
      recover_phase-IsSafe tx.phase tx refl faults d (s, e)

  recover_interrupted-IsSafe : Ensures Safe Safe recover_interrupted (λ _. Safe)
  unfolding recover_interrupted load
  recover_interrupted-IsSafe =
      Ensures-if_err Safe Safe (λ _. Safe) (λ _. Safe) load (return false) _
        (Ensures-attempt Safe Safe (λ _. Safe) _ _ (λ d s. s) (λ t d s. s) (λ t d s. s))
        (λ faults d s. s) (λ faults d s. recover_journal-IsSafe d.journal faults d s refl)

-- Recoveries, one after another, each of which may fail or end at any of its calls.
pub recoveries : List (List Fault) → Disk → Disk
recoveries [] d = d
recoveries (faults ∷ more) d = recoveries more (disk_of (recover_interrupted faults d))

recoveries-IsSafe :
    (old new : Text) (runs : List (List Fault)) (d : Disk)
    → IsSafe old new d
    → IsSafe old new (recoveries runs d)
unfolding recoveries
recoveries-IsSafe old new [] d s = s
recoveries-IsSafe old new (faults ∷ more) d s =
    recoveries-IsSafe old new more (disk_of (recover_interrupted faults d)) (
      Ends-disk_of (IsSafe old new) (recover_interrupted faults d)
        (recover_interrupted-IsSafe old new faults d s))

-- What a recovery whose calls work makes of the journal and the executable.
abbrev pub Settles : Text → Text → Disk → Disk → Type 0
Settles old new d e =
    IsWhole old new e
    × (is_pending e.journal ≡ false)
    × ((is_pending d.journal ≡ false) ⊎ (e.executable ≡ some old))

is_pending-phase :
    (phase : Phase) (tx : Transaction) (journal : Option Transaction)
    → journal ≡ some tx
    → tx.phase ≡ phase
    → is_pending journal ≡ needs_backup phase
is_pending-phase phase tx journal j e = rw (j, e) refl

rollback-Settles :
    (old new : Text) (tx : Transaction) (d : Disk)
    → needs_backup tx.phase ≡ true
    → IsSafe old new d
    → d.journal ≡ some tx
    → Settles old new d (disk_of (rollback_executable tx [] d))
unfolding recovered
rollback-Settles old new tx d h s j =
    let b : (d.backup ≡ some old) × (is_empty tx.backup_path ≡ false) =
      IsBacked-inr old tx d.backup (IsBacked-of old new tx d (s, j)) h in
    rw (rollback-recovered old tx d b.0 b.1) (inl refl, refl, inr refl)

recover_phase-Settles :
    (old new : Text) (phase : Phase) (tx : Transaction) (d : Disk)
    → tx.phase ≡ phase
    → IsSafe old new d
    → d.journal ≡ some tx
    → Settles old new d (disk_of (recover_phase phase tx [] d))
unfolding recover_phase save remove_staging attempt recovered
recover_phase-Settles old new staged tx d e s j = elim (Bool-cases (is_empty tx.staged_path)) [
  | inl h ↦ rw h (s.0, refl, inl (is_pending-phase staged tx d.journal j e))
  | inr h ↦ rw h (s.0, refl, inl (is_pending-phase staged tx d.journal j e))
]
recover_phase-Settles old new replaced tx d e s j = rollback-Settles old new tx d (rw e refl) s j
recover_phase-Settles old new restarted tx d e s j = rollback-Settles old new tx d (rw e refl) s j
recover_phase-Settles old new rolling_back tx d e s j =
    rollback-Settles old new tx d (rw e refl) s j
recover_phase-Settles old new healthy tx d e s j =
    (s.0, refl, inl (is_pending-phase healthy tx d.journal j e))
recover_phase-Settles old new rolled_back tx d e s j =
    let calm : is_pending d.journal ≡ false = is_pending-phase rolled_back tx d.journal j e in
    (s.0, calm, inl calm)
recover_phase-Settles old new committed tx d e s j =
    let calm : is_pending d.journal ≡ false = is_pending-phase committed tx d.journal j e in
    (s.0, calm, inl calm)

recover_journal-Settles :
    (old new : Text) (journal : Option Transaction) (d : Disk)
    → IsSafe old new d
    → d.journal ≡ journal
    → Settles old new d (disk_of (recover_journal journal [] d))
unfolding recover_journal
recover_journal-Settles old new none d s j =
    let calm : is_pending d.journal ≡ false = rw j refl in (s.0, calm, inl calm)
recover_journal-Settles old new (some tx) d s j =
    recover_phase-Settles old new tx.phase tx d refl s j

recover_interrupted-Settles :
    (old new : Text) (d : Disk)
    → IsSafe old new d
    → Settles old new d (disk_of (recover_interrupted [] d))
unfolding recover_interrupted load attempt
recover_interrupted-Settles old new d s = recover_journal-Settles old new d.journal d s refl

-- When all calls work, a recovery from a safe disk ends, leaves a whole executable and a journal that asks
-- for no further rollback, and has put `old` back if the journal asked for it.
pub recovery_reaches_rest :
    (old new : Text) (tx : Transaction) (service : Service) (faults : List Fault)
    (runs : List (List Fault)) (d : Disk)
    → d.executable ≡ some old
    → is_pending d.journal ≡ false
    → is_empty tx.backup_path ≡ false
    → Settles old new (recoveries runs (disk_of (install new tx service faults d))) (
        disk_of
          (recover_interrupted [] (recoveries runs (disk_of (install new tx service faults d)))))
recovery_reaches_rest old new tx service faults runs d e p b =
    recover_interrupted-Settles old new
      (recoveries runs (disk_of (install new tx service faults d)))
      (recoveries-IsSafe old new runs (disk_of (install new tx service faults d))
        (install_survives_crash old new tx service faults d e p b))

-- The phase that the journal has.
abbrev pub phase_of : Option Transaction → Option Phase
phase_of none = none
phase_of (some tx) = some tx.phase

-- The seventh call of the installation is the save of the replaced phase.
pub until_journal : List Fault
until_journal = goes ∷ goes ∷ goes ∷ goes ∷ goes ∷ goes ∷ ends [] ∷ []

-- Let the executable be `old`. If the process ends after the executable was replaced by `new` and before the
-- journal says so, then a recovery whose calls all work records that the update was rolled back, although
-- the executable stays `new`.
pub unjournaled_replacement :
    (old new : Text) (tx : Transaction) (service : Service) (d : Disk)
    → d.executable ≡ some old
    → ((disk_of
          (recover_interrupted [] (disk_of (install new tx service until_journal d)))).executable
        ≡ some new)
      × (phase_of
            (disk_of
              (recover_interrupted [] (disk_of (install new tx service until_journal d)))).journal
          ≡ some rolled_back)
unfolding recover_interrupted install until_journal load attempt recover_journal recover_phase
    remove_staging save stage_binary copy_to_staging replace_and_finish replace_with_backup
    publish_both remove_backup_temp copy_to_backup_temp publish_backup publish_staging act_if
unjournaled_replacement old new tx service d e = rw e (elim (Bool-cases (is_empty tx.staged_path)) [
  | inl h ↦ rw h (refl, refl)
  | inr h ↦ rw h (refl, refl)
])
