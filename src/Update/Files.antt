-- ===== src/Update/Files.antt =====
-- The files that pkg/commands/update/transaction.go works on, and what may happen to each call of the
-- operating system: it works, it fails, or the process ends in it. The paths of the code differ, so
-- each is a field: the executable, its backup and the backup's temporary file, the staged executable, and
-- the one that a rollback stages under a name of its own.
use tmuxatlas.Common.{Bool, true, false, List, [], ◌∷◌, Option, none, some, Text}

pub data Phase : Type 0 where
  staged replaced restarted healthy rolling_back rolled_back committed : Phase

pub record Transaction : Type 0 where
  pub phase : Phase
  pub staged_path : Text
  pub backup_path : Text
  pub previous_version : Text
  pub target_version : Text
  pub has_error : Bool

pub record Disk : Type 0 where
  pub executable : Option Text
  pub backup : Option Text
  pub backup_temp : Option Text
  pub staging : Option Text
  pub restaging : Option Text
  pub journal : Option Transaction

-- The text is what a copy that did not end has written.
pub data Fault : Type 0 where
  goes : Fault
  fails ends : Text → Fault

pub data Ran (A : Type 0) : Type 0 where
  went : A → List Fault → Disk → Ran A
  crashed : Disk → Ran A

-- A computation takes the fate of its calls, one after another; calls without one work.
abbrev pub M : Type 0 → Type 0
M A = List Fault → Disk → Ran A

abbrev pub after : {A B : Type 0} → Ran A → (A → M B) → Ran B
after (went a faults d) f = f a faults d
after (crashed d) f = crashed d

infixl 5 ◌>>=◌ ◌>>◌
abbrev pub ◌>>=◌ : {A B : Type 0} → M A → (A → M B) → M B
◌>>=◌ m f faults d = after (m faults d) f

abbrev pub ◌>>◌ : {A B : Type 0} → M A → M B → M B
m >> k = m >>= λ _. k

abbrev pub return : {A : Type 0} → A → M A
return a faults d = went a faults d

-- `if err := m(); err != nil { failed }; work`, for a call that says whether it worked.
abbrev pub on_result : M Bool → M Bool → Bool → M Bool
on_result failed work true = work
on_result failed work false = failed

abbrev pub if_err : M Bool → M Bool → M Bool → M Bool
if_err m failed work = m >>= on_result failed work

-- One call: what it does, and what is left where it does not end. The result says whether it worked.
unfoldable pub attempt : (Disk → Disk) → (Text → Disk → Disk) → M Bool
attempt act torn [] d = went true [] (act d)
attempt act torn (goes ∷ faults) d = went true faults (act d)
attempt act torn (fails t ∷ faults) d = went false faults (torn t d)
attempt act torn (ends t ∷ faults) d = crashed (torn t d)

abbrev unchanged : Text → Disk → Disk
unchanged t d = d

-- transactionStore.save: the journal is replaced by a rename.
unfoldable pub save : Transaction → M Bool
unfolding attempt
save tx = attempt (λ d. record d { journal = some tx }) unchanged

unfoldable pub act_if : Option Text → (Text → Disk → Disk) → (Text → Disk → Disk) → M Bool
unfolding attempt
act_if none act torn faults d = went false faults d
act_if (some content) act torn faults d = attempt (act content) torn faults d

-- copyExecutable(backup, path) and copyExecutable(source, path) to the fresh names of stageExecutable.
unfoldable pub copy_to_staging : Option Text → M Bool
unfolding act_if
copy_to_staging source faults d =
    act_if source (λ c e. record e { staging = some c }) (λ t e. record e { staging = some t })
      faults d

unfoldable pub copy_to_restaging : M Bool
unfolding act_if
copy_to_restaging faults d =
    act_if d.backup (λ c e. record e { restaging = some c })
      (λ t e. record e { restaging = some t }) faults d

-- The destination must not exist.
abbrev pub if_absent : Option Text → Option Text → Option Text
if_absent none source = source
if_absent (some content) source = none

unfoldable pub copy_to_backup_temp : M Bool
unfolding act_if
copy_to_backup_temp faults d =
    act_if (if_absent d.backup_temp d.executable) (λ c e. record e { backup_temp = some c })
      (λ t e. record e { backup_temp = some t }) faults d

unfoldable pub remove_staging : M Bool
unfolding attempt
remove_staging = attempt (λ d. record d { staging = none }) unchanged

unfoldable pub remove_restaging : M Bool
unfolding attempt
remove_restaging = attempt (λ d. record d { restaging = none }) unchanged

unfoldable pub remove_backup_temp : M Bool
unfolding attempt
remove_backup_temp = attempt (λ d. record d { backup_temp = none }) unchanged

-- os.Rename, of each pair of names that the code renames.
unfoldable pub publish_backup : M Bool
unfolding act_if
publish_backup faults d =
    act_if d.backup_temp (λ c e. record e { backup = some c; backup_temp = none }) unchanged faults
      d

unfoldable pub publish_staging : M Bool
unfolding act_if
publish_staging faults d =
    act_if d.staging (λ c e. record e { executable = some c; staging = none }) unchanged faults d

unfoldable pub publish_restaging : M Bool
unfolding act_if
publish_restaging faults d =
    act_if d.restaging (λ c e. record e { executable = some c; restaging = none }) unchanged faults
      d
