-- ===== src/ToolEvents/Silence/Bound.antt =====
-- How often a silent pane is looked at.
use tmuxatlas.Common.{
  ℕ, suc, ◌+◌, ◌-◌, ◌≤◌, ◌≡◌, ◌≢◌, refl, true, List, [], ◌∷◌, Option, none, some, arith, Text,
  Text-discrete, text_key, Dict, get, has, if◌then◌else◌, holds, Bool-cases, Option-cases, inl, inr,
  get-put_ne, get-put_self, get-keep-some, keep-Unique, All, same_text, ◌||◌, Unique, put-Unique,
}
use tmuxatlas.ToolEvents.Silence.{
  MonitoredPane, Monitored, record_output, sync, add_panes, due_panes, count_checks, mark_prompted,
  is_due, max_silence_checks, fresh_pane,
}
use tmuxatlas.ToolEvents.{tool_claude}

-- The locked sections of concurrent goroutines.
pub data Step : Type 0 where
  outputs : ℕ → Text → Step
  syncs : ℕ → (Text → Text × ℕ) → Dict Text Text → Step
  checks : ℕ → Step
  prompts : Text → Step

unfoldable pub handle : Step → Monitored → Monitored
handle (outputs now pane) m = record_output now pane m
handle (syncs now info detected) m = sync now info detected m
handle (checks now) m = count_checks now m
handle (prompts pane) m = mark_prompted pane m

-- How often a pane is among those that are looked at.
unfoldable pub looked_at : Text → List (Text × MonitoredPane) → ℕ
looked_at pane [] = 0
looked_at pane ((p, mp) ∷ rest) =
    (if holds (Text-discrete p pane) then 1 else 0) + looked_at pane rest

unfoldable pub captures : Text → List Step → Monitored → ℕ
unfolding handle
captures pane [] m = 0
captures pane (checks now ∷ steps) m =
    looked_at pane (due_panes now m) + captures pane steps (count_checks now m)
captures pane (outputs now p ∷ steps) m = captures pane steps (record_output now p m)
captures pane (syncs now info detected ∷ steps) m = captures pane steps (sync now info detected m)
captures pane (prompts p ∷ steps) m = captures pane steps (mark_prompted p m)

-- A step that is no output of a pane, and after which it is still detected.
abbrev pub IsSilent : Text → Step → Type 0
IsSilent pane (outputs now p) = p ≢ pane
IsSilent pane (syncs now info detected) = has pane detected ≡ true
IsSilent pane (checks now) = Unit
IsSilent pane (prompts p) = Unit

-- The looks that are left for a pane.
abbrev pub looks_left : Option MonitoredPane → ℕ
looks_left none = 0
looks_left (some mp) = if mp.prompted then 0 else max_silence_checks - mp.silence_checks

looked_at-none :
    (now : ℕ) (pane : Text) (m : Monitored)
    → get pane m ≡ none
    → looked_at pane (due_panes now m) ≡ 0
unfolding looked_at due_panes get
looked_at-none now pane [] h = refl
looked_at-none now pane ((p, mp) ∷ m) h = ground (arith, looked_at-none now pane m)

count_checks-none :
    (now : ℕ) (pane : Text) (m : Monitored)
    → get pane m ≡ none
    → get pane (count_checks now m) ≡ none
unfolding count_checks get
count_checks-none now pane [] h = refl
count_checks-none now pane ((p, mp) ∷ m) h = ground (arith, count_checks-none now pane m)

count_checks-Unique : (now : ℕ) (m : Monitored) → Unique m → Unique (count_checks now m)
unfolding count_checks
count_checks-Unique now [] u = tt
count_checks-Unique now ((p, mp) ∷ m) u =
    (count_checks-none now p m u.0, count_checks-Unique now m u.1)

-- A look is paid for by a count.
check-pays :
    (now : ℕ) (pane : Text) (mp : MonitoredPane) (m : Monitored)
    → Unique m
    → get pane m ≡ some mp
    → (next : MonitoredPane) × (get pane (count_checks now m) ≡ some next)
      × (looked_at pane (due_panes now m) + looks_left (some next) ≤ looks_left (some mp))
unfolding looked_at due_panes count_checks get
check-pays now pane mp [] u h = absurd (ground arith)
check-pays now pane mp ((p, q) ∷ m) u h = elim (Text-discrete p pane) [
  | yes e ↦
      let none_left = looked_at-none now pane m (rw (← e) u.0) in
      elim (Bool-cases (is_due now q)) [
        | inl d ↦ (record q { silence_checks = suc q.silence_checks }, ground arith, ground arith)
        | inr d ↦ (q, ground arith, ground arith)
      ]
  | no n ↦
      let (next, g, l) = check-pays now pane mp m u.1 (ground arith) in
      (next, ground arith, ground arith)
]

record_output-Unique :
    (now : ℕ) (p : Text) (m : Monitored) → Unique m → Unique (record_output now p m)
unfolding record_output
record_output-Unique now p m u = elim (Option-cases (get p m)) [
  | inl e ↦ rw e u
  | inr (mp, e) ↦ rw e (put-Unique p _ m u)
]

mark_prompted-Unique : (p : Text) (m : Monitored) → Unique m → Unique (mark_prompted p m)
unfolding mark_prompted
mark_prompted-Unique p m u = elim (Option-cases (get p m)) [
  | inl e ↦ rw e u
  | inr (mp, e) ↦ rw e (put-Unique p _ m u)
]

add_panes-Unique :
    (now : ℕ) (info : Text → Text × ℕ) (detected : Dict Text Text) (m : Monitored)
    → Unique m
    → Unique (add_panes now info detected m)
unfolding add_panes
add_panes-Unique now info [] m u = u
add_panes-Unique now info ((p, tool) ∷ detected) m u =
    elim (Bool-cases (same_text tool tool_claude || has p m)) [
      | inl e ↦ rw e (add_panes-Unique now info detected m u)
      | inr e ↦ rw e (add_panes-Unique now info detected _ (put-Unique p _ m u))
    ]

get-add_panes :
    (now : ℕ) (info : Text → Text × ℕ) (detected : Dict Text Text) (pane : Text)
    (mp : MonitoredPane) (m : Monitored)
    → get pane m ≡ some mp
    → get pane (add_panes now info detected m) ≡ some mp
unfolding add_panes
get-add_panes now info [] pane mp m h = h
get-add_panes now info ((p, tool) ∷ detected) pane mp m h =
    elim (Bool-cases (same_text tool tool_claude || has p m)) [
      | inl e ↦ rw e (get-add_panes now info detected pane mp m h)
      | inr e ↦
          let other : p ≢ pane = (λ q. ground arith) in
          rw e (
            get-add_panes now info detected pane mp _
              (rw (get-put_ne pane p (fresh_pane now info p tool) m other) h))
    ]

-- What the panes that are looked at pay for, over any steps that leave a pane quiet.
captures-le :
    (pane : Text) (mp : MonitoredPane) (steps : List Step) (m : Monitored)
    → Unique m
    → get pane m ≡ some mp
    → All (IsSilent pane) steps
    → captures pane steps m ≤ looks_left (some mp)
unfolding captures
captures-le pane mp [] m u h s = omega arith
captures-le pane mp (checks now ∷ steps) m u h s =
    let (next, g, l) = check-pays now pane mp m u h in
    omega
      (arith, captures-le pane next steps (count_checks now m) (count_checks-Unique now m u) g s.1)
captures-le pane mp (outputs now p ∷ steps) m u h s =
    captures-le pane mp steps (record_output now p m) (record_output-Unique now p m u)
      (unfold record_output in
        elim (Option-cases (get p m)) [
          | inl e ↦ rw e h
          | inr (q, e) ↦ rw e (rw (get-put_ne pane p _ m s.0) h)
        ])
      s.1
captures-le pane mp (syncs now info detected ∷ steps) m u h s =
    captures-le pane mp steps (sync now info detected m)
      (unfold sync in
        keep-Unique (λ p _. has p detected) (add_panes now info detected m)
          (add_panes-Unique now info detected m u))
      (unfold sync in
        get-keep-some (λ p _. has p detected) pane mp (add_panes now info detected m)
          (get-add_panes now info detected pane mp m h) s.0)
      s.1
captures-le pane mp (prompts p ∷ steps) m u h s = elim (Text-discrete p pane) [
  | yes e ↦
      let marked =
        captures-le pane (record mp { prompted = true }) steps (mark_prompted p m)
          (mark_prompted-Unique p m u)
          (unfold mark_prompted in
            rw e (rw h (ground (arith, get-put_self pane (record mp { prompted = true }) m))))
          s.1 in
      omega arith
  | no n ↦
      captures-le pane mp steps (mark_prompted p m) (mark_prompted-Unique p m u)
        (unfold mark_prompted in
          elim (Option-cases (get p m)) [
            | inl e ↦ rw e h
            | inr (q, e) ↦ rw e (rw (get-put_ne pane p _ m n) h)
          ])
        s.1
]

-- A monitored pane that stays detected and has no output is captured at most twice, counting the
-- checks it has had, whatever else the goroutines do; once a prompt was recorded for it, it is not
-- captured at all.
pub captures_are_bounded :
    (pane : Text) (mp : MonitoredPane) (steps : List Step) (m : Monitored)
    → Unique m
    → get pane m ≡ some mp
    → All (IsSilent pane) steps
    → captures pane steps m ≤ (if mp.prompted then 0 else max_silence_checks - mp.silence_checks)
captures_are_bounded pane mp steps m u h s = captures-le pane mp steps m u h s
