-- ===== src/Auth/Tests.antt =====
-- The theorem about sessions at a concrete input, and a request with a wrong CSRF value.
use tmuxatlas.Common.{
  ℕ, ◌≡◌, refl, false, List, [], ◌∷◌, none, some, bytes, arith, get, put, text_key, Text-discrete,
  ℕ_discrete,
}
use tmuxatlas.Auth.{
  new_session_manager, Call, creates, validates, cleans, validate, run, csrf_middleware, csrf_of,
  create,
}
use tmuxatlas.Auth.Expiry.{is_valid_at, expiry_of, sessions_are_fresh}

abbrev some_calls : List (ℕ × Call)
some_calls =
    (1, creates (bytes "t") (bytes "c"))
    ∷ (9, validates (bytes "t"))
    ∷ (12, cleans)
    ∷ (15, validates (bytes "u"))
    ∷ []

sessions_are_fresh_example :
    (validate 19 (bytes "t") (run some_calls (new_session_manager 10))).0
    ≡ is_valid_at 19 (expiry_of 10 (bytes "t") some_calls none)
sessions_are_fresh_example =
    sessions_are_fresh 10 19 (bytes "t") some_calls
      (omega arith, (omega arith, (omega arith, (omega arith, omega arith))))

wrong_csrf :
    csrf_middleware 5
      (some (bytes "t"))
      (bytes "x")
      (create 1 (bytes "t") (bytes "c") (new_session_manager 10))
    ≡ false
unfolding csrf_middleware csrf_of create get put Text-discrete ℕ_discrete
wrong_csrf = refl
