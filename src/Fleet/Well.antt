-- ===== src/Fleet/Well.antt =====
-- When a host has no problem to report.
use tmuxatlas.Common.{
  ℕ, ◌-◌, ◌<◌, ◌≡◌, refl, ap, ◌∙◌, Bool, true, false, not, ◌&&◌, ◌||◌, ◌==◌, List, [], ◌∷◌, ◌++◌,
  Option, none, some, bytes, same_text, ltb, leb, if◌then◌else◌, arith, All, Text-discrete,
  ℕ_discrete,
}
use tmuxatlas.Fleet.{
  Check, UpdateOutcome, Facts, Reason, Version, Formats, Order, behind, same, ahead,
  compare_version, online_as, version_as, version_order, protocol_as, check_as, check_reasons,
  without_checks, update_as, reasons_of,
}

-- A host with nothing to report, said at once.
abbrev pub is_online : Option Bool → Facts → ℕ → ℕ → Bool
is_online none f now freshness = false
is_online (some b) f now freshness =
    b && not (f.last_state_sync == 0) && not (ltb freshness (now - f.last_state_sync))

abbrev pub is_current : Option Version → Option Version → Bool
is_current none hub = false
is_current (some host) none = false
is_current (some host) (some hub) =
    host.major == hub.major && host.minor == hub.minor && host.patch == hub.patch

abbrev pub speaks : Option ℕ → Option ℕ → Option ℕ → Bool
speaks (some v) (some low) (some high) = leb low v && leb v high
speaks (some v) (some low) none = false
speaks (some v) none high = false
speaks none low high = false

abbrev pub passes_check : Option Bool → Bool
passes_check none = false
passes_check (some b) = b

unfoldable pub all_pass : List Check → Bool
all_pass [] = true
all_pass (c ∷ checks) = passes_check c.is_ok && all_pass checks

abbrev pub is_nil {ℓ} : {A : Type ℓ} → List A → Bool
is_nil [] = true
is_nil (x ∷ xs) = false

abbrev pub not_rolled_back : Option UpdateOutcome → Bool
not_rolled_back none = true
not_rolled_back (some u) = not (same_text u.result (bytes "rolled-back"))

abbrev pub is_well : Formats → Facts → ℕ → ℕ → Bool
is_well formats f now freshness =
    is_online f.online f now freshness
    && is_current (formats.parse_version f.version) (formats.parse_version f.hub_version)
    && speaks f.protocol_version f.protocol_min f.protocol_max
    && (not (is_nil f.checks) && all_pass f.checks)
    && not_rolled_back f.last_update

is_nil-append : {A : Type 0} (xs ys : List A) → is_nil (xs ++ ys) ≡ (is_nil xs && is_nil ys)
is_nil-append [] ys = refl
is_nil-append (x ∷ xs) ys = refl

abbrev is_same : Order → Bool
is_same behind = false
is_same same = true
is_same ahead = false

-- A reason that stands for a problem.
abbrev pub IsProblem : Reason → Type 0
IsProblem r = (0 < r.severity) × (same_text r.code (bytes "healthy") ≡ false)

All-append_problems :
    (xs ys : List Reason) → All IsProblem xs → All IsProblem ys → All IsProblem (xs ++ ys)
All-append_problems [] ys h g = g
All-append_problems (x ∷ xs) ys (p, h) g = (p, All-append_problems xs ys h g)

-- A list of problems that is empty just if `well` holds.
abbrev pub Tells : List Reason → Bool → Type 0
Tells reasons well = (is_nil reasons ≡ well) × All IsProblem reasons

Tells-if :
    (b well : Bool) (r : Reason) (rest : List Reason)
    → IsProblem r
    → Tells rest well
    → Tells (if b then r ∷ [] else rest) (not b && well)
Tells-if true well r rest p h = (refl, (p, tt))
Tells-if false well r rest p h = h

Tells-append :
    (xs ys : List Reason) (a b : Bool) → Tells xs a → Tells ys b → Tells (xs ++ ys) (a && b)
Tells-append xs ys a b (e, h) (f, g) = (
  is_nil-append xs ys ∙ (ap (λ x. x && is_nil ys) e ∙ ap (λ y. a && y) f),
  All-append_problems xs ys h g,
)

Tells-same : (xs : List Reason) (a b : Bool) → a ≡ b → Tells xs a → Tells xs b
Tells-same xs a b e h = (h.0 ∙ e, h.1)

module _ (formats : Formats) where
  online-Tells :
      (o : Option Bool) (f : Facts) (now freshness : ℕ)
      → Tells (online_as formats o f now freshness) (is_online o f now freshness)
  unfolding Text-discrete ℕ_discrete
  online-Tells none f now freshness = (refl, ((omega arith, refl), tt))
  online-Tells (some false) f now freshness = (refl, ((omega arith, refl), tt))
  online-Tells (some true) f now freshness = Tells-same _ _ _ (ground arith) (
      Tells-if (f.last_state_sync == 0) _ _ _ (omega arith, refl)
        (Tells-if (ltb freshness (now - f.last_state_sync)) true _ [] (omega arith, refl)
          (refl, tt)))

  order-Tells : (o : Order) (f : Facts) → Tells (version_order formats o f) (is_same o)
  unfolding Text-discrete ℕ_discrete
  order-Tells behind f = (refl, ((omega arith, refl), tt))
  order-Tells same f = (refl, tt)
  order-Tells ahead f = (refl, ((omega arith, refl), tt))

  version-Tells :
      (host hub : Option Version) (f : Facts)
      → Tells (version_as formats host hub f) (is_current host hub)
  unfolding Text-discrete ℕ_discrete compare_version
  version-Tells none hub f = (refl, ((omega arith, refl), tt))
  version-Tells (some host) none f = (refl, ((omega arith, refl), tt))
  version-Tells (some host) (some hub) f =
      Tells-same _ _ _ (ground arith) (order-Tells (compare_version host hub) f)

  protocol-Tells :
      (v low high : Option ℕ) (f : Facts)
      → Tells (protocol_as formats v low high f) (speaks v low high)
  unfolding Text-discrete ℕ_discrete
  protocol-Tells (some v) (some low) (some high) f =
      Tells-same _ _ _ (ground arith)
        (Tells-if (ltb v low || ltb high v) true _ [] (omega arith, refl) (refl, tt))
  protocol-Tells (some v) (some low) none f = (refl, ((omega arith, refl), tt))
  protocol-Tells (some v) none high f = (refl, ((omega arith, refl), tt))
  protocol-Tells none low high f = (refl, ((omega arith, refl), tt))

  check-Tells :
      (o : Option Bool) (c : Check) (rest : List Reason) (well : Bool)
      → Tells rest well
      → Tells (check_as formats o c rest) (passes_check o && well)
  unfolding Text-discrete ℕ_discrete
  check-Tells none c rest well h = (refl, ((omega arith, refl), h.1))
  check-Tells (some false) c rest well h = (refl, ((omega arith, refl), h.1))
  check-Tells (some true) c rest well h = h

  checks-Tells : (checks : List Check) → Tells (check_reasons formats checks) (all_pass checks)
  unfolding check_reasons all_pass
  checks-Tells [] = (refl, tt)
  checks-Tells (c ∷ checks) = check-Tells c.is_ok c _ _ (checks-Tells checks)

  no_checks-Tells :
      (checks : List Check) (f : Facts)
      → Tells (without_checks formats checks f) (not (is_nil checks))
  unfolding Text-discrete ℕ_discrete
  no_checks-Tells [] f = (refl, ((omega arith, refl), tt))
  no_checks-Tells (c ∷ checks) f = (refl, tt)

  update-Tells :
      (u : Option UpdateOutcome) (f : Facts) → Tells (update_as formats u f) (not_rolled_back u)
  unfolding Text-discrete ℕ_discrete
  update-Tells none f = (refl, tt)
  update-Tells (some u) f =
      Tells-same _ _ _ (ground arith) (
        Tells-if (same_text u.result (bytes "rolled-back")) true _ [] (omega arith, refl)
          (refl, tt))

  pub reasons-Tells :
      (f : Facts) (now freshness : ℕ)
      → Tells (reasons_of formats f now freshness) (is_well formats f now freshness)
  unfolding reasons_of
  reasons-Tells f now freshness = Tells-same _ _ _ (ground arith) (
      Tells-append _ _ _ _ (online-Tells f.online f now freshness) (
        Tells-append _ _ _ _
          (version-Tells (formats.parse_version f.version) (formats.parse_version f.hub_version) f)
          (Tells-append _ _ _ _ (protocol-Tells f.protocol_version f.protocol_min f.protocol_max f)
            (Tells-append _ _ _ _ (checks-Tells f.checks)
              (Tells-append _ _ _ _ (no_checks-Tells f.checks f) (update-Tells f.last_update f))))))
