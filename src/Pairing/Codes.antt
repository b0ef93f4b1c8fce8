-- ===== src/Pairing/Codes.antt =====
-- What becomes of a pairing code.
use tmuxatlas.Common.{
  ℕ, ◌+◌, ◌≤◌, ◌<◌, ◌≡◌, ◌≢◌, refl, Bool, true, false, not, leb, List, [], ◌∷◌, Option, none, some,
  arith, Text, text_key, ◌&&◌, ◌⊎◌, get, keep, length, ok, All, Option-cases, Bool-cases, inl, inr,
  get-put, get-put_self, get-remove, get-keep-some, get-keep-none, length-keep-le, length-put-le,
  length-remove-le,
}
use tmuxatlas.Pairing.{
  Library, PairingManager, new_pairing_manager, joined_words, cleanup, generate, complete,
  normalize_pairing_code, pairing_code_ttl,
}

pub data Event : Type 0 where
  generates : ℕ → Option (List ℕ) → Event
  completes : Text → ℕ → Bool → Event

module _ (lib : Library) where
  open lib use {to_upper}

  unfoldable pub handle : Event → PairingManager → PairingManager
  handle (generates now random) pm = (generate lib now random pm).1
  handle (completes code now commits) pm = (complete lib code now commits pm).2

  unfoldable pub run : List Event → PairingManager → PairingManager
  unfolding handle
  run [] pm = pm
  run (e ∷ events) pm = run events (handle e pm)

  -- An event that does not generate a code.
  abbrev pub Spares : Text → Event → Type 0
  Spares k (generates now none) = Unit
  Spares k (generates now (some random)) = to_upper (joined_words random) ≢ k
  Spares k (completes code now commits) = Unit

  complete-none :
      (k code : Text) (now : ℕ) (commits : Bool) (pm : PairingManager)
      → get k pm.codes ≡ none
      → get k (complete lib code now commits pm).2.codes ≡ none
  unfolding complete
  complete-none k code now commits pm h =
      let normal = normalize_pairing_code lib code in
      elim (Option-cases (get normal pm.codes)) [
        | inl e ↦ rw e h
        | inr (expires, e) ↦ rw e (ground (arith, get-remove k normal pm.codes))
      ]

  generate-none :
      (k : Text) (now : ℕ) (random : Option (List ℕ)) (pm : PairingManager)
      → Spares k (generates now random)
      → get k pm.codes ≡ none
      → get k (generate lib now random pm).1.codes ≡ none
  unfolding generate cleanup
  generate-none k now none pm s h =
      let kept = get-keep-none (λ _ expires. not (leb expires now)) k pm.codes h in ground arith
  generate-none k now (some random) pm s h =
      let kept = get-keep-none (λ _ expires. not (leb expires now)) k pm.codes h in
      elim (Bool-cases (leb pm.max (length (keep (λ _ expires. not (leb expires now)) pm.codes)))) [
        | inl e ↦ rw e kept
        | inr e ↦ rw e (
            ground (
              arith,
              get-put k (to_upper (joined_words random)) (now + pairing_code_ttl)
                  (keep (λ _ expires. not (leb expires now)) pm.codes),
            ))
      ]

  run-none :
      (k : Text) (events : List Event) (pm : PairingManager)
      → All (Spares k) events
      → get k pm.codes ≡ none
      → get k (run events pm).codes ≡ none
  unfolding run handle
  run-none k [] pm s h = h
  run-none k (generates now random ∷ events) pm s h =
      run-none k events (generate lib now random pm).1 s.1 (generate-none k now random pm s.0 h)
  run-none k (completes code now commits ∷ events) pm s h =
      run-none k events (complete lib code now commits pm).2 s.1
        (complete-none k code now commits pm h)

  complete-consumes :
      (code : Text) (now : ℕ) (pm : PairingManager)
      → (complete lib code now true pm).0 ≡ true
      → get (normalize_pairing_code lib code) (complete lib code now true pm).2.codes ≡ none
  unfolding complete
  complete-consumes code now pm h =
      let normal = normalize_pairing_code lib code in
      elim (Option-cases (get normal pm.codes)) [
        | inl e ↦ rw e e
        | inr (expires, e) ↦ rw e (ground (arith, get-remove normal normal pm.codes))
      ]

  complete-fails :
      (code : Text) (now : ℕ) (commits : Bool) (pm : PairingManager)
      → get (normalize_pairing_code lib code) pm.codes ≡ none
      → ((complete lib code now commits pm).0 ≡ false)
        × ((complete lib code now commits pm).1 ≡ false)
  unfolding complete
  complete-fails code now commits pm h = rw h (refl, refl)

  -- After an attempt with a code that succeeded, and any further calls of which none generates the
  -- same code again, each attempt with a text that normalizes to the same code fails and its commit is
  -- not run.
  pub code_completes_once :
      (code again : Text) (now after : ℕ) (commits : Bool) (events : List Event)
      (pm : PairingManager)
      → (complete lib code now true pm).0 ≡ true
      → normalize_pairing_code lib again ≡ normalize_pairing_code lib code
      → All (Spares (normalize_pairing_code lib code)) events
      → let r = complete lib again after commits (run events (complete lib code now true pm).2) in
        (r.0 ≡ false) × (r.1 ≡ false)
  code_completes_once code again now after commits events pm h e s =
      let spent =
        run-none (normalize_pairing_code lib code) events (complete lib code now true pm).2 s
          (complete-consumes code now pm h) in
      complete-fails again after commits (run events (complete lib code now true pm).2) (rw e spent)

  -- A call at a time before the expiry that neither generates the code nor completes it.
  abbrev pub Leaves : Text → ℕ → Event → Type 0
  Leaves k expires (generates now random) = (now < expires) × Spares k (generates now random)
  Leaves k expires (completes code now commits) =
      (now < expires) × ((normalize_pairing_code lib code ≢ k) ⊎ (commits ≡ false))

  generate-some :
      (k : Text) (expires now : ℕ) (random : Option (List ℕ)) (pm : PairingManager)
      → Leaves k expires (generates now random)
      → get k pm.codes ≡ some expires
      → get k (generate lib now random pm).1.codes ≡ some expires
  unfolding generate cleanup
  generate-some k expires now none pm s h =
      let kept =
        get-keep-some (λ _ e. not (leb e now)) k expires pm.codes h (let l = s.0 in ground arith) in
      ground arith
  generate-some k expires now (some random) pm s h =
      let kept =
        get-keep-some (λ _ e. not (leb e now)) k expires pm.codes h (let l = s.0 in ground arith) in
      elim (Bool-cases (leb pm.max (length (keep (λ _ e. not (leb e now)) pm.codes)))) [
        | inl e ↦ rw e kept
        | inr e ↦ rw e (
            ground (
              arith,
              get-put k (to_upper (joined_words random)) (now + pairing_code_ttl)
                  (keep (λ _ e. not (leb e now)) pm.codes),
            ))
      ]

  complete-some :
      (k : Text) (expires : ℕ) (code : Text) (now : ℕ) (commits : Bool) (pm : PairingManager)
      → Leaves k expires (completes code now commits)
      → get k pm.codes ≡ some expires
      → get k (complete lib code now commits pm).2.codes ≡ some expires
  unfolding complete
  complete-some k expires code now commits pm s h =
      let normal = normalize_pairing_code lib code in
      elim (Option-cases (get normal pm.codes)) [
        | inl e ↦ rw e h
        | inr (other, e) ↦ rw e (ground (arith, get-remove k normal pm.codes))
      ]

  run-some :
      (k : Text) (expires : ℕ) (events : List Event) (pm : PairingManager)
      → All (Leaves k expires) events
      → get k pm.codes ≡ some expires
      → get k (run events pm).codes ≡ some expires
  unfolding run handle
  run-some k expires [] pm s h = h
  run-some k expires (generates now random ∷ events) pm s h =
      run-some k expires events (generate lib now random pm).1 s.1
        (generate-some k expires now random pm s.0 h)
  run-some k expires (completes code now commits ∷ events) pm s h =
      run-some k expires events (complete lib code now commits pm).2 s.1
        (complete-some k expires code now commits pm s.0 h)

  generate-adds :
      (now expires : ℕ) (random : Option (List ℕ)) (k : Text) (pm : PairingManager)
      → (generate lib now random pm).0 ≡ ok (k, expires)
      → get k (generate lib now random pm).1.codes ≡ some expires
  unfolding generate cleanup
  generate-adds now expires none k pm h = absurd (ground arith)
  generate-adds now expires (some random) k pm h =
      let codes = keep (λ _ e. not (leb e now)) pm.codes in
      ground (arith, get-put_self (to_upper (joined_words random)) (now + pairing_code_ttl) codes)

  -- A code that Generate returned, with its expiry: after any calls before the expiry that do not
  -- generate it again, whose attempts with it fail to commit, an attempt with a text that normalizes to it
  -- runs its commit and succeeds with it before the expiry, and fails without it from then on.
  pub code_lives_until_expiry :
      (made now expires : ℕ) (random : Option (List ℕ)) (k code : Text) (commits : Bool)
      (events : List Event) (pm : PairingManager)
      → (generate lib made random pm).0 ≡ ok (k, expires)
      → All (Leaves k expires) events
      → normalize_pairing_code lib code ≡ k
      → let r = complete lib code now commits (run events (generate lib made random pm).1) in
        (r.0 ≡ (not (leb expires now) && commits)) × (r.1 ≡ not (leb expires now))
  unfolding complete
  code_lives_until_expiry made now expires random k code commits events pm h s e =
      let found =
        run-some k expires events (generate lib made random pm).1 s
          (generate-adds made expires random k pm h) in
      rw (e, found) (ground arith, ground arith)

  generate-bounded :
      (now : ℕ) (random : Option (List ℕ)) (pm : PairingManager)
      → length pm.codes ≤ pm.max
      → (length (generate lib now random pm).1.codes ≤ pm.max)
        × ((generate lib now random pm).1.max ≡ pm.max)
  unfolding generate cleanup
  generate-bounded now none pm h =
      let kept = length-keep-le (λ _ e. not (leb e now)) pm.codes in ground arith
  generate-bounded now (some random) pm h =
      let codes = keep (λ _ e. not (leb e now)) pm.codes in
      let kept = length-keep-le (λ _ e. not (leb e now)) pm.codes in
      let added = length-put-le (to_upper (joined_words random)) (now + pairing_code_ttl) codes in
      ground arith

  complete-bounded :
      (code : Text) (now : ℕ) (commits : Bool) (pm : PairingManager)
      → length pm.codes ≤ pm.max
      → (length (complete lib code now commits pm).2.codes ≤ pm.max)
        × ((complete lib code now commits pm).2.max ≡ pm.max)
  unfolding complete
  complete-bounded code now commits pm h =
      let normal = normalize_pairing_code lib code in
      elim (Option-cases (get normal pm.codes)) [
        | inl e ↦ rw e (h, refl)
        | inr (expires, e) ↦ rw e (ground (arith, length-remove-le normal pm.codes))
      ]

  run-bounded :
      (max : ℕ) (events : List Event) (pm : PairingManager)
      → (length pm.codes ≤ max) × (pm.max ≡ max)
      → (length (run events pm).codes ≤ max) × ((run events pm).max ≡ max)
  unfolding run handle
  run-bounded max [] pm h = h
  run-bounded max (generates now random ∷ events) pm h =
      run-bounded max events (generate lib now random pm).1
        (ground (arith, generate-bounded now random pm))
  run-bounded max (completes code now commits ∷ events) pm h =
      run-bounded max events (complete lib code now commits pm).2
        (ground (arith, complete-bounded code now commits pm))

  -- The manager never has more codes than its bound, and the bound stays.
  pub codes_are_bounded :
      (max : ℕ) (events : List Event)
      → (length (run events (new_pairing_manager max)).codes ≤ max)
        × ((run events (new_pairing_manager max)).max ≡ max)
  codes_are_bounded max events =
      run-bounded max events (new_pairing_manager max) (omega arith, refl)
