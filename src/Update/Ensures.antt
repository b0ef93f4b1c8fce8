-- ===== src/Update/Ensures.antt =====
-- Rules for the computations of pkg/commands/update that may fail or end at any call.
use tmuxatlas.Common.{◌≡◌, refl, Bool, true, false, List, [], ◌∷◌, Option, none, some, Text}
use tmuxatlas.Update.Files.{
  M, ◌>>=◌, ◌>>◌, after, if_err, on_result, return, Disk, Fault, goes, fails, ends, Ran, went,
  crashed, attempt, act_if,
}

-- A result that satisfies `Q`, or a crash that left a disk with `C`.
abbrev pub Ends : {A : Type 0} → (Disk → Type 0) → (A → Disk → Type 0) → Ran A → Type 0
Ends C Q (went a faults d) = Q a d
Ends C Q (crashed d) = C d

-- From each disk with `P`, with any faults.
abbrev pub Ensures :
    {A : Type 0} → (Disk → Type 0) → (Disk → Type 0) → M A → (A → Disk → Type 0) → Type 0
Ensures C P m Q = (faults : List Fault) (d : Disk) → P d → Ends C Q (m faults d)

Ends-after :
    {A B : Type 0} (C : Disk → Type 0) (Q : A → Disk → Type 0) (R : B → Disk → Type 0) (r : Ran A)
    (f : A → M B)
    → Ends C Q r
    → ((a : A) → Ensures C (Q a) (f a) R)
    → Ends C R (after r f)
Ends-after C Q R (went a faults d) f h g = g a faults d h
Ends-after C Q R (crashed d) f h g = h

pub Ensures-bind :
    {A B : Type 0} (C P : Disk → Type 0) (Q : A → Disk → Type 0) (R : B → Disk → Type 0) (m : M A)
    (f : A → M B)
    → Ensures C P m Q
    → ((a : A) → Ensures C (Q a) (f a) R)
    → Ensures C P (m >>= f) R
Ensures-bind C P Q R m f h g faults d p = Ends-after C Q R (m faults d) f (h faults d p) g

Ensures-on_result :
    (C : Disk → Type 0) (Q R : Bool → Disk → Type 0) (failed work : M Bool)
    → Ensures C (Q false) failed R
    → Ensures C (Q true) work R
    → (b : Bool) → Ensures C (Q b) (on_result failed work b) R
Ensures-on_result C Q R failed work f g true = g
Ensures-on_result C Q R failed work f g false = f

pub Ensures-if_err :
    (C P : Disk → Type 0) (Q R : Bool → Disk → Type 0) (m failed work : M Bool)
    → Ensures C P m Q
    → Ensures C (Q false) failed R
    → Ensures C (Q true) work R
    → Ensures C P (if_err m failed work) R
Ensures-if_err C P Q R m failed work h f g =
    Ensures-bind C P Q R m (on_result failed work) h (Ensures-on_result C Q R failed work f g)

-- A step whose result is not looked at.
pub Ensures-then :
    (C P Q : Disk → Type 0) (R : Bool → Disk → Type 0) (m k : M Bool)
    → Ensures C P m (λ _. Q)
    → Ensures C Q k R
    → Ensures C P (m >> k) R
Ensures-then C P Q R m k h f = Ensures-bind C P (λ _. Q) R m (λ _. k) h (λ _. f)

-- A call: what it does keeps `Q true`, and what a failed one leaves `Q false` and `C`.
pub Ensures-attempt :
    (C P : Disk → Type 0) (Q : Bool → Disk → Type 0) (act : Disk → Disk) (torn : Text → Disk → Disk)
    → ((d : Disk) → P d → Q true (act d))
    → ((t : Text) (d : Disk) → P d → Q false (torn t d))
    → ((t : Text) (d : Disk) → P d → C (torn t d))
    → Ensures C P (attempt act torn) Q
unfolding attempt
Ensures-attempt C P Q act torn a b c [] d p = a d p
Ensures-attempt C P Q act torn a b c (goes ∷ faults) d p = a d p
Ensures-attempt C P Q act torn a b c (fails t ∷ faults) d p = b t d p
Ensures-attempt C P Q act torn a b c (ends t ∷ faults) d p = c t d p

pub Ends-act_if :
    (C : Disk → Type 0) (Q : Bool → Disk → Type 0) (source : Option Text) (act : Text → Disk → Disk)
    (torn : Text → Disk → Disk) (faults : List Fault) (d : Disk)
    → ((c : Text) → source ≡ some c → Q true (act c d))
    → Q false d
    → ((t : Text) → Q false (torn t d))
    → ((t : Text) → C (torn t d))
    → Ends C Q (act_if source act torn faults d)
unfolding act_if attempt
Ends-act_if C Q none act torn faults d a n b c = n
Ends-act_if C Q (some s) act torn [] d a n b c = a s refl
Ends-act_if C Q (some s) act torn (goes ∷ faults) d a n b c = a s refl
Ends-act_if C Q (some s) act torn (fails t ∷ faults) d a n b c = b t
Ends-act_if C Q (some s) act torn (ends t ∷ faults) d a n b c = c t

pub Ensures-return : (C P : Disk → Type 0) (b : Bool) → Ensures C P (return b) (λ _. P)
Ensures-return C P b faults d p = p

Ends-weaken :
    (C : Disk → Type 0) (Q R : Bool → Disk → Type 0) (r : Ran Bool)
    → ((b : Bool) (d : Disk) → Q b d → R b d)
    → Ends C Q r
    → Ends C R r
Ends-weaken C Q R (went b faults d) f h = f b d h
Ends-weaken C Q R (crashed d) f h = h

pub Ensures-weaken :
    (C P : Disk → Type 0) (Q R : Bool → Disk → Type 0) (m : M Bool)
    → ((b : Bool) (d : Disk) → Q b d → R b d)
    → Ensures C P m Q
    → Ensures C P m R
Ensures-weaken C P Q R m f h faults d p = Ends-weaken C Q R (m faults d) f (h faults d p)

-- What a run leaves on the disk, whether it ended or the process did.
abbrev pub disk_of : {A : Type 0} → Ran A → Disk
disk_of (went a faults d) = d
disk_of (crashed d) = d

pub Ends-disk_of : (C : Disk → Type 0) (r : Ran Bool) → Ends C (λ _. C) r → C (disk_of r)
Ends-disk_of C (went a faults d) h = h
Ends-disk_of C (crashed d) h = h
