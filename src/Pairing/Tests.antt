-- ===== src/Pairing/Tests.antt =====
-- Runs of the pairing codes, and the theorems at concrete inputs.
use tmuxatlas.Common.{
  ◌≡◌, ◌≤◌, refl, List, [], ◌∷◌, true, false, not, leb, some, bytes, Text-discrete, ℕ_discrete, get,
  keep, text_key, length, ◌&&◌, trim_space,
}
use tmuxatlas.Pairing.{
  Library, PairingManager, new_pairing_manager, generate, complete, cleanup, joined_words,
}
use tmuxatlas.Pairing.Codes.{
  Event, generates, completes, run, code_completes_once, code_lives_until_expiry, codes_are_bounded,
}

-- Texts that are upper case already.
abbrev library : Library
library = record { to_upper = λ s. s }

abbrev manager : PairingManager
manager = record { codes = (bytes "baba-bebe", 300) ∷ []; max = 2 }

abbrev attempts : List Event
attempts = completes (bytes "x") 20 true ∷ []

code_completes_once_example :
    let r =
      complete library
        (bytes "baba-bebe")
        30
        true
        (run library attempts (complete library (bytes "baba-bebe") 10 true manager).2) in
    (r.0 ≡ false) × (r.1 ≡ false)
code_completes_once_example =
    code_completes_once library (bytes "baba-bebe") (bytes "baba-bebe") 10 30 true attempts manager
      (unfold complete get trim_space Text-discrete ℕ_discrete in refl) refl (tt, tt)

code_lives_until_expiry_example :
    let r =
      complete library
        (bytes "baba")
        40
        true
        (run library [] (generate library 10 (some (0 ∷ [])) manager).1) in
    (r.0 ≡ (not (leb 300000000010 40) && true)) × (r.1 ≡ not (leb 300000000010 40))
code_lives_until_expiry_example =
    code_lives_until_expiry library 10 40 300000000010 (some (0 ∷ [])) (bytes "baba") (bytes "baba")
      true [] manager (unfold generate cleanup keep joined_words in refl) tt
      (unfold trim_space in refl)

codes_are_bounded_example :
    (length (run library (generates 10 (some (0 ∷ [])) ∷ []) (new_pairing_manager 2)).codes ≤ 2)
    × ((run library (generates 10 (some (0 ∷ [])) ∷ []) (new_pairing_manager 2)).max ≡ 2)
codes_are_bounded_example = codes_are_bounded library 2 (generates 10 (some (0 ∷ [])) ∷ [])
