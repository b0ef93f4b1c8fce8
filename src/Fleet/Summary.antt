-- ===== src/Fleet/Summary.antt =====
-- What the summary says.
use tmuxatlas.Common.{
  ℕ, ◌≤◌, ◌<◌, ◌≡◌, refl, sym, ap, subst, Bool, true, false, ◌&&◌, ◌==◌, List, [], ◌∷◌, Text, bytes,
  same_text, ltb, if◌then◌else◌, arith, Bool-cases, inl, inr, ◌⊎◌, All, any, Text-discrete,
  ℕ_discrete,
}
use tmuxatlas.Fleet.{Facts, Reason, Formats, reasons_of, summarize, conclude, evaluate}
use tmuxatlas.Fleet.Well.{is_well, IsProblem, Tells, reasons-Tells}

-- The pair that the loop ends with: a bound of the severities, and the code of a reason that has it, unless
-- the loop kept what it began with.
abbrev Worst : List Reason → ℕ → Text → ℕ × Text → Type 0
Worst rs highest summary w =
    (highest ≤ w.0)
    × All (λ r. r.severity ≤ w.0) rs
    × (((w.0 ≡ highest) × (w.1 ≡ summary))
        ⊎ (any (λ r. same_text r.code w.1 && r.severity == w.0) rs ≡ true))

raised-Worst :
    (r : Reason) (rs : List Reason) (highest : ℕ) (summary : Text) (w : ℕ × Text)
    → highest < r.severity
    → Worst rs r.severity r.code w
    → Worst (r ∷ rs) highest summary w
raised-Worst r rs highest summary w b (low, all, inl (e, f)) =
    (omega arith, (low, all), inr (ground arith))
raised-Worst r rs highest summary w b (low, all, inr e) =
    (omega arith, (low, all), inr (ground arith))

unchanged-Worst :
    (r : Reason) (rs : List Reason) (highest : ℕ) (summary : Text) (w : ℕ × Text)
    → r.severity ≤ highest
    → Worst rs highest summary w
    → Worst (r ∷ rs) highest summary w
unchanged-Worst r rs highest summary w b (low, all, inl h) = (low, (omega arith, all), inl h)
unchanged-Worst r rs highest summary w b (low, all, inr e) =
    (low, (omega arith, all), inr (ground arith))

summarize-cons :
    (r : Reason) (rs : List Reason) (highest : ℕ) (summary : Text) (b : Bool)
    → ltb highest r.severity ≡ b
    → summarize highest summary (r ∷ rs)
      ≡ summarize (if b then r.severity else highest) (if b then r.code else summary) rs
unfolding summarize
summarize-cons r rs highest summary b e =
    ap (λ x. summarize (if x then r.severity else highest) (if x then r.code else summary) rs) e

summarize-Worst :
    (rs : List Reason) (highest : ℕ) (summary : Text)
    → Worst rs highest summary (summarize highest summary rs)
summarize-Worst [] highest summary = unfold summarize in (omega arith, tt, inl (refl, refl))
summarize-Worst (r ∷ rs) highest summary = elim (Bool-cases (ltb highest r.severity)) [
  | inl b ↦
      subst (Worst (r ∷ rs) highest summary) (sym (summarize-cons r rs highest summary true b)) (
        raised-Worst r rs highest summary (summarize r.severity r.code rs) (ground arith)
          (summarize-Worst rs r.severity r.code))
  | inr b ↦
      subst (Worst (r ∷ rs) highest summary) (sym (summarize-cons r rs highest summary false b)) (
        unchanged-Worst r rs highest summary (summarize highest summary rs) (ground arith)
          (summarize-Worst rs highest summary))
]

problem_code :
    (rs : List Reason) (summary : Text) (highest : ℕ)
    → All IsProblem rs
    → any (λ r. same_text r.code summary && r.severity == highest) rs ≡ true
    → same_text summary (bytes "healthy") ≡ false
problem_code [] summary highest h e = cc
problem_code (r ∷ rs) summary highest ((p, c), h) e = elim (Text-discrete r.code summary) [
  | yes q ↦ subst (λ t. same_text t (bytes "healthy") ≡ false) q c
  | no n ↦ problem_code rs summary highest h (ground arith)
]

-- What the record says of reasons, as the theorem below has it.
abbrev Says : Text × List Reason → Bool → Type 0
Says out well =
    (same_text out.0 (bytes "healthy") ≡ well)
    × ((worst : ℕ) × All (λ r. r.severity ≤ worst) out.1
        × (any (λ r. same_text r.code out.0 && r.severity == worst) out.1 ≡ true))

conclude-Says :
    (highest : ℕ) (summary : Text) (r : Reason) (rs : List Reason)
    → All IsProblem (r ∷ rs)
    → Worst (r ∷ rs) 0 (bytes "healthy") (highest, summary)
    → Says (conclude (highest, summary) (r ∷ rs)) false
conclude-Says highest summary r rs h (low, all, inl (e, f)) = absurd (omega (arith, h.0.0, all.0))
conclude-Says highest summary r rs h (low, all, inr e) = elim (Bool-cases (highest == 0)) [
  | inl z ↦ absurd (ground (arith, h.0.0, all.0))
  | inr z ↦ rw z (problem_code (r ∷ rs) summary highest h e, (highest, all, e))
]

concluded :
    (rs : List Reason) (well : Bool)
    → Tells rs well
    → Says (conclude (summarize 0 (bytes "healthy") rs) rs) well
concluded [] well (e, h) =
    unfold summarize Text-discrete ℕ_discrete in (e, (0, (omega arith, tt), refl))
concluded (r ∷ rs) well (e, h) =
    let w = summarize 0 (bytes "healthy") (r ∷ rs) in
    subst (Says (conclude w (r ∷ rs))) e
      (conclude-Says w.0 w.1 r rs h (summarize-Worst (r ∷ rs) 0 (bytes "healthy")))

-- The summary is "healthy" just if the host is online and its state fresh, its version is the Hub's and its
-- protocol in the Hub's range, its checks are known and pass, and its last update was not rolled back; in any
-- case it is the code of a reason of the record whose severity no reason exceeds.
pub summary_tells_worst :
    (formats : Formats) (f : Facts) (now freshness : ℕ)
    → (same_text (evaluate formats f now freshness).0 (bytes "healthy")
        ≡ is_well formats f now freshness)
      × ((worst : ℕ) × All (λ r. r.severity ≤ worst) (evaluate formats f now freshness).1
          × (any
                (λ r. same_text r.code (evaluate formats f now freshness).0 && r.severity == worst)
                (evaluate formats f now freshness).1
              ≡ true))
unfolding evaluate
summary_tells_worst formats f now freshness =
    concluded (reasons_of formats f now freshness) (is_well formats f now freshness)
      (reasons-Tells formats f now freshness)
