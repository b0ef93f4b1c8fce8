-- ===== src/Pairing.antt =====
-- pkg/identity/pairing.go: the one-time codes that pair an Agent with the Hub. Times are
-- nanoseconds.
pub mod Codes
mod Tests
use Prim.Native.Nat.{◌/◌, ◌%◌}
use tmuxatlas.Common.{
  ℕ, ◌+◌, Bool, true, false, not, leb, List, [], ◌∷◌, ◌++◌, Option, none, some, Text, text_key,
  Dict, get, put, remove, keep, length, if◌then◌else◌, trim_space, get_or, bytes, Result, ok, err,
}

-- strings.ToUpper
pub record Library : Type 0 where
  pub to_upper : Text → Text

abbrev pub pairing_code_ttl : ℕ
pairing_code_ttl = 300000000000

abbrev pub pairing_syllables : List Text
pairing_syllables =
    bytes "ba"
    ∷ bytes "be"
    ∷ bytes "bi"
    ∷ bytes "bo"
    ∷ bytes "da"
    ∷ bytes "de"
    ∷ bytes "di"
    ∷ bytes "do"
    ∷ bytes "ka"
    ∷ bytes "ke"
    ∷ bytes "ki"
    ∷ bytes "ko"
    ∷ bytes "la"
    ∷ bytes "le"
    ∷ bytes "li"
    ∷ bytes "lo"
    ∷ []

-- The codes that wait, with the times when they expire.
pub record PairingManager : Type 0 where
  pub codes : Dict Text ℕ
  pub max : ℕ

abbrev pub new_pairing_manager : ℕ → PairingManager
new_pairing_manager max = record { codes = []; max = max }

pub data PairingError : Type 0 where
  capacity_reached random_failed pairing_failed : PairingError

-- strings.Join(parts, "-") of a word for each random byte.
abbrev pub word : ℕ → Text
word value = get_or pairing_syllables (value / 16) [] ++ get_or pairing_syllables (value % 16) []

unfoldable pub joined_words : List ℕ → Text
joined_words [] = []
joined_words (value ∷ []) = word value
joined_words (value ∷ next ∷ rest) = word value ++ bytes "-" ++ joined_words (next ∷ rest)

unfoldable pub cleanup : ℕ → PairingManager → PairingManager
cleanup now pm = record pm { codes = keep (λ _ expires. not (leb expires now)) pm.codes }

module _ (lib : Library) where
  open lib use {to_upper}

  -- Generate, with the random bytes that were read or none for a failed read.
  abbrev add_code :
      ℕ → Option (List ℕ) → PairingManager → Result PairingError (Text × ℕ) × PairingManager
  add_code now none pm = (err random_failed, pm)
  add_code now (some random) pm =
      let code = to_upper (joined_words random) in
      (
        ok (code, now + pairing_code_ttl),
        record pm { codes = put code (now + pairing_code_ttl) pm.codes },
      )

  unfoldable pub generate :
      ℕ → Option (List ℕ) → PairingManager → Result PairingError (Text × ℕ) × PairingManager
  unfolding cleanup joined_words
  generate now random pm =
      let cleaned = cleanup now pm in
      if leb cleaned.max (length cleaned.codes)
      then (err capacity_reached, cleaned)
      else add_code now random cleaned

  abbrev pub normalize_pairing_code : Text → Text
  normalize_pairing_code code = to_upper (trim_space code)

  -- Complete, with what commit returns if it is run; the second component says whether it is run.
  abbrev complete_as : Option ℕ → Text → ℕ → Bool → PairingManager → Bool × Bool × PairingManager
  complete_as none code now commits pm = (false, false, pm)
  complete_as (some expires) code now commits pm =
      if leb expires now
      then (false, false, record pm { codes = remove code pm.codes })
      else if commits
      then (true, true, record pm { codes = remove code pm.codes })
      else (false, true, pm)

  unfoldable pub complete : Text → ℕ → Bool → PairingManager → Bool × Bool × PairingManager
  complete code now commits pm =
      let normal = normalize_pairing_code code in
      complete_as (get normal pm.codes) normal now commits pm
