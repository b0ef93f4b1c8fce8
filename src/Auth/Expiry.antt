-- ===== src/Auth/Expiry.antt =====
-- When a session is valid.
use tmuxatlas.Common.{
  ℕ, ◌+◌, ◌≤◌, ◌<◌, ◌≡◌, refl, sym, subst, ite, ap, ◌∙◌, Bool, true, false, not, List, [], ◌∷◌,
  Option, none, some, Text, text_key, Text-discrete, Dict, get, keep, ltb, if◌then◌else◌, arith,
  inl, inr, Bool-cases, get-put, get-remove, get-keep-some, get-keep-none, get-keep-dropped, holds,
  Unique, put-Unique, remove-Unique, keep-Unique,
}
use tmuxatlas.Auth.{
  Session, SessionManager, new_session_manager, create, validate_as, validate, revoke, cleanup,
  Call, creates, validates, revokes, cleans, handle, run,
}

-- The time until which a token is valid, without the map: a creation and a successful validation set it
-- to the time to live from then on, and a revocation or a validation that fails ends it.
abbrev pub renewed : ℕ → ℕ → Option ℕ → Option ℕ
renewed ttl now none = none
renewed ttl now (some e) = if ltb e now then none else some (now + ttl)

unfoldable pub expiry_after : ℕ → Text → ℕ → Call → Option ℕ → Option ℕ
expiry_after ttl token now (creates t csrf) e =
    if holds (Text-discrete t token) then some (now + ttl) else e
expiry_after ttl token now (validates t) e =
    if holds (Text-discrete t token) then renewed ttl now e else e
expiry_after ttl token now (revokes t) e = if holds (Text-discrete t token) then none else e
expiry_after ttl token now cleans e = e

unfoldable pub expiry_of : ℕ → Text → List (ℕ × Call) → Option ℕ → Option ℕ
unfolding expiry_after
expiry_of ttl token [] e = e
expiry_of ttl token ((now, call) ∷ calls) e =
    expiry_of ttl token calls (expiry_after ttl token now call e)

abbrev pub is_valid_at : ℕ → Option ℕ → Bool
is_valid_at now none = false
is_valid_at now (some e) = not (ltb e now)

-- Calls whose times do not go back, from one time to another.
abbrev pub InOrder : ℕ → List (ℕ × Call) → ℕ → Type 0
InOrder from [] to = from ≤ to
InOrder from ((now, call) ∷ calls) to = (from ≤ now) × InOrder now calls to

-- What the map has for a token at a time, and when the token is valid.
abbrev Agrees : ℕ → Option Session → Option ℕ → Type 0
Agrees now none none = Unit {0}
Agrees now none (some e) = e < now
Agrees now (some s) e = e ≡ some s.expiry

abbrev Agreed : ℕ → ℕ → Text → SessionManager → Option ℕ → Type 0
Agreed ttl now token sm e =
    (sm.ttl ≡ ttl) × Unique sm.sessions × Agrees now (get token sm.sessions) e

Agrees-later : (a b : ℕ) (g : Option Session) (e : Option ℕ) → a ≤ b → Agrees a g e → Agrees b g e
Agrees-later a b none none h g = tt
Agrees-later a b none (some e) h g = omega arith
Agrees-later a b (some s) e h g = g

Agrees-put :
    (now : ℕ) {t token : Text} (d : Dec (t ≡ token)) (s : Session) (g : Option Session)
    (e : Option ℕ)
    → Agrees now g e
    → Agrees now (ite d (some s) g) (if holds d then some s.expiry else e)
Agrees-put now (yes p) s g e a = refl
Agrees-put now (no n) s g e a = a

Agrees-removed :
    (now : ℕ) {t token : Text} (d : Dec (t ≡ token)) (g : Option Session) (new e : Option ℕ)
    → (t ≡ token → Agrees now none new)
    → Agrees now g e
    → Agrees now (ite d none g) (if holds d then new else e)
Agrees-removed now (yes p) g new e h a = h p
Agrees-removed now (no n) g new e h a = a

Agrees-renewed :
    (now : ℕ) {t token : Text} (d : Dec (t ≡ token)) (s : Session) (g : Option Session)
    (new e : Option ℕ)
    → (t ≡ token → new ≡ some s.expiry)
    → Agrees now g e
    → Agrees now (ite d (some s) g) (if holds d then new else e)
Agrees-renewed now (yes p) s g new e h a = h p
Agrees-renewed now (no n) s g new e h a = a

-- A validation of a token that the map has not, or has as expired, leaves nothing.
renewed-none :
    (ttl now : ℕ) (e : Option ℕ) → Agrees now none e → Agrees now none (renewed ttl now e)
renewed-none ttl now none a = tt
renewed-none ttl now (some x) a = rw (lt_true x now a) tt
  where
    lt_true : (x now : ℕ) → x < now → ltb x now ≡ true
    lt_true x now h = ground arith

validate-Agreed :
    (ttl now : ℕ) (t token : Text) (known : Option Session) (sm : SessionManager) (e : Option ℕ)
    → get t sm.sessions ≡ known
    → Agreed ttl now token sm e
    → Agreed ttl now token
        (validate_as known now t sm).1
        (expiry_after ttl token now (validates t) e)
unfolding expiry_after
validate-Agreed ttl now t token none sm e f (b, u, a) = (
  b,
  remove-Unique t sm.sessions u,
  rw (get-remove token t sm.sessions) (
      Agrees-removed now (Text-discrete t token) (get token sm.sessions) (renewed ttl now e) e
        (λ p.
          renewed-none ttl now e
            (subst (λ g. Agrees now g e) (sym (ap (λ (k : Text). get k sm.sessions) p) ∙ f) a))
        a),
)
validate-Agreed ttl now t token (some s) sm e f (b, u, a) =
    let same = λ (p : t ≡ token).
      subst (λ g. Agrees now g e) (sym (ap (λ (k : Text). get k sm.sessions) p) ∙ f) a in
    elim (Bool-cases (ltb s.expiry now)) [
      | inl l ↦ rw l (
        b,
        remove-Unique t sm.sessions u,
        rw (get-remove token t sm.sessions) (
            Agrees-removed now (Text-discrete t token) (get token sm.sessions) (renewed ttl now e) e
              (λ p. rw (same p, l) tt) a),
      )
      | inr l ↦ rw l (
        b,
        put-Unique t (record s { expiry = now + sm.ttl }) sm.sessions u,
        rw (get-put token t (record s { expiry = now + sm.ttl }) sm.sessions) (
            Agrees-renewed now (Text-discrete t token) (record s { expiry = now + sm.ttl })
              (get token sm.sessions) (renewed ttl now e) e (λ p. rw (same p, l, b) refl) a),
      )
    ]

kept-Agrees :
    (now : ℕ) (token : Text) (g : Option Session) (m : Dict Text Session) (e : Option ℕ)
    → Unique m
    → get token m ≡ g
    → Agrees now g e
    → Agrees now (get token (keep (λ t s. not (ltb s.expiry now)) m)) e
kept-Agrees now token none m e u f a =
    rw (get-keep-none (λ t s. not (ltb s.expiry now)) token m f) a
kept-Agrees now token (some s) m e u f a = elim (Bool-cases (ltb s.expiry now)) [
  | inl l ↦
      rw (get-keep-dropped (λ t s. not (ltb s.expiry now)) token s m u f (rw l refl), a)
        (ground arith)
  | inr l ↦ rw (get-keep-some (λ t s. not (ltb s.expiry now)) token s m f (rw l refl)) a
]

handle-Agreed :
    (ttl now : ℕ) (token : Text) (call : Call) (sm : SessionManager) (e : Option ℕ)
    → Agreed ttl now token sm e
    → Agreed ttl now token (handle now call sm) (expiry_after ttl token now call e)
unfolding handle expiry_after
handle-Agreed ttl now token (creates t csrf) sm e (b, u, a) =
    let s : Session = record { expiry = now + sm.ttl; csrf = csrf } in
    unfold create in
    (
      b,
      put-Unique t s sm.sessions u,
      rw (get-put token t s sm.sessions, ← b)
          (Agrees-put now (Text-discrete t token) s (get token sm.sessions) e a),
    )
handle-Agreed ttl now token (validates t) sm e h =
    unfold validate in validate-Agreed ttl now t token (get t sm.sessions) sm e refl h
handle-Agreed ttl now token (revokes t) sm e (b, u, a) =
    unfold revoke in
    (
      b,
      remove-Unique t sm.sessions u,
      rw (get-remove token t sm.sessions)
          (Agrees-removed now (Text-discrete t token) (get token sm.sessions) none e (λ p. tt) a),
    )
handle-Agreed ttl now token cleans sm e (b, u, a) =
    unfold cleanup in
    (
      b,
      keep-Unique (λ t s. not (ltb s.expiry now)) sm.sessions u,
      kept-Agrees now token (get token sm.sessions) sm.sessions e u refl a,
    )

run-Agreed :
    (ttl from to : ℕ) (token : Text) (calls : List (ℕ × Call)) (sm : SessionManager) (e : Option ℕ)
    → InOrder from calls to
    → Agreed ttl from token sm e
    → Agreed ttl to token (run calls sm) (expiry_of ttl token calls e)
unfolding run expiry_of
run-Agreed ttl from to token [] sm e o (b, u, a) =
    (b, u, Agrees-later from to (get token sm.sessions) e o a)
run-Agreed ttl from to token ((now, call) ∷ calls) sm e (h, o) (b, u, a) =
    run-Agreed ttl now to token calls (handle now call sm) (expiry_after ttl token now call e) o (
      handle-Agreed ttl now token call sm e
        (b, u, Agrees-later from now (get token sm.sessions) e h a))

answer-Agrees :
    (now : ℕ) (token : Text) (g : Option Session) (sm : SessionManager) (e : Option ℕ)
    → Agrees now g e
    → (validate_as g now token sm).0 ≡ is_valid_at now e
answer-Agrees now token none sm none a = refl
answer-Agrees now token none sm (some x) a = ground arith
answer-Agrees now token (some s) sm e a =
    rw a (elim (Bool-cases (ltb s.expiry now)) [ inl l ↦ rw l refl | inr l ↦ rw l refl ])

-- After any calls whose times do not go back, a token validates at a later time just if it was created, its
-- creation or last successful validation is at most the time to live ago, and it was not revoked since:
-- when Cleanup and failed validations drop entries makes no difference.
pub sessions_are_fresh :
    (ttl to : ℕ) (token : Text) (calls : List (ℕ × Call))
    → InOrder 0 calls to
    → (validate to token (run calls (new_session_manager ttl))).0
      ≡ is_valid_at to (expiry_of ttl token calls none)
sessions_are_fresh ttl to token calls o =
    let sm = run calls (new_session_manager ttl) in
    let (b, u, a) =
      run-Agreed ttl 0 to token calls (new_session_manager ttl) none o
        (refl, tt, unfold get in tt) in
    unfold validate in
    answer-Agrees to token (get token sm.sessions) sm (expiry_of ttl token calls none) a
