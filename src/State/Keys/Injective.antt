-- ===== src/State/Keys/Injective.antt =====
-- Two objects have one key only if they are the same object.
use mathlib.Core.List.{append_assoc}
use tmuxatlas.Common.{
  ℕ, ◌/◌, ◌%◌, ◌<◌, ◌≡◌, ◌≢◌, refl, true, [], ◌∷◌, ◌++◌, arith, All, IsByte, Text, bytes, inl, inr,
  Bool-cases,
}
use tmuxatlas.State.Keys.{
  is_plain, upper_hex, escape_byte, key_part, host_key, session_key, pane_key,
}

plain-ne-percent : (c : ℕ) → is_plain c ≡ true → c ≢ b'%'
unfolding is_plain
plain-ne-percent c h = λ e. ground arith

plain-ne-slash : (c : ℕ) → is_plain c ≡ true → c ≢ b'/'
unfolding is_plain
plain-ne-slash c h = λ e. ground arith

upper_hex_injective : (m n : ℕ) → m < 16 → n < 16 → upper_hex m ≡ upper_hex n → m ≡ n
unfolding upper_hex
upper_hex_injective m n hm hn e = ground arith

upper_hex-ne-slash : (n : ℕ) → upper_hex n ≢ b'/'
unfolding upper_hex
upper_hex-ne-slash n = λ e. ground arith

escape_byte_injective :
    (c d : ℕ) (s t : Text)
    → IsByte c
    → IsByte d
    → escape_byte c s ≡ escape_byte d t
    → (c ≡ d) × (s ≡ t)
unfolding escape_byte
escape_byte_injective c d s t hc hd e = elim (Bool-cases (is_plain c)) [
  | inl p ↦ elim (Bool-cases (is_plain d)) [
    | inl q ↦ (ground arith, ground arith)
    | inr q ↦ absurd (ground (arith, plain-ne-percent c p))
  ]
  | inr p ↦ elim (Bool-cases (is_plain d)) [
    | inl q ↦ absurd (ground (arith, plain-ne-percent d q))
    | inr q ↦ (
      ground (arith, upper_hex_injective (c / 16) (d / 16), upper_hex_injective (c % 16) (d % 16)),
      ground arith,
    )
  ]
]

key_part_injective : (s t : Text) → All IsByte s → All IsByte t → key_part s ≡ key_part t → s ≡ t
unfolding key_part
key_part_injective [] [] hs ht e = refl
key_part_injective [] (d ∷ t) hs ht e = absurd (unfold escape_byte in ground arith)
key_part_injective (c ∷ s) [] hs ht e = absurd (unfold escape_byte in ground arith)
key_part_injective (c ∷ s) (d ∷ t) hs ht e =
    let (p, q) = escape_byte_injective c d (key_part s) (key_part t) hs.0 ht.0 e in
    cc (key_part_injective s t hs.1 ht.1 q)

abbrev HasNoSlash : Text → Type 0
HasNoSlash = All (λ c. c ≢ b'/')

escape_byte-HasNoSlash : (c : ℕ) (s : Text) → HasNoSlash s → HasNoSlash (escape_byte c s)
unfolding escape_byte
escape_byte-HasNoSlash c s h = elim (Bool-cases (is_plain c)) [
  | inl p ↦ rw (p, escape_byte) (plain-ne-slash c p, h)
  | inr p ↦
      rw (p, escape_byte)
        (
          (λ e. absurd (omega arith)),
          (upper_hex-ne-slash (c / 16), (upper_hex-ne-slash (c % 16), h)),
        )
]

key_part-HasNoSlash : (s : Text) → HasNoSlash (key_part s)
unfolding key_part
key_part-HasNoSlash [] = tt
key_part-HasNoSlash (c ∷ s) = escape_byte-HasNoSlash c (key_part s) (key_part-HasNoSlash s)

-- The part before the first slash, and what follows it.
split_at_slash :
    (s t u v : Text)
    → HasNoSlash s
    → HasNoSlash t
    → s ++ (b'/' ∷ u) ≡ t ++ (b'/' ∷ v)
    → (s ≡ t) × (u ≡ v)
split_at_slash [] [] u v hs ht e = (refl, cc)
split_at_slash [] (d ∷ t) u v hs ht e = absurd (ht.0 (cc))
split_at_slash (c ∷ s) [] u v hs ht e = absurd (hs.0 (cc))
split_at_slash (c ∷ s) (d ∷ t) u v hs ht e =
    let (p, q) = split_at_slash s t u v hs.1 ht.1 (cc) in (cc, q)

key_part_split :
    (s t u v : Text)
    → All IsByte s
    → All IsByte t
    → key_part s ++ (b'/' ∷ u) ≡ key_part t ++ (b'/' ∷ v)
    → (s ≡ t) × (u ≡ v)
key_part_split s t u v hs ht e =
    let (p, q) =
      split_at_slash (key_part s) (key_part t) u v (key_part-HasNoSlash s) (key_part-HasNoSlash t)
        e in
    (key_part_injective s t hs ht p, q)

-- Two hosts have the same key only if they have the same identifier.
pub host_key_injective :
    (h h' : Text) → All IsByte h → All IsByte h' → host_key h ≡ host_key h' → h ≡ h'
unfolding host_key
host_key_injective h h' b b' e = key_part_injective h h' b b' (cc)

session_key_lem :
    (h s : Text)
    → session_key h s ≡ bytes "host/" ++ (key_part h ++ (bytes "/session/" ++ key_part s))
unfolding session_key
session_key_lem h s = simp append_assoc

-- Two sessions have the same key only if they have the same name on the same host.
pub session_key_injective :
    (h s h' s' : Text)
    → All IsByte h
    → All IsByte s
    → All IsByte h'
    → All IsByte s'
    → session_key h s ≡ session_key h' s'
    → (h ≡ h') × (s ≡ s')
session_key_injective h s h' s' b c b' c' e =
    let (p, q) =
      key_part_split h h' (bytes "session/" ++ key_part s) (bytes "session/" ++ key_part s') b b'
        (cc (session_key_lem h s, session_key_lem h' s')) in
    (p, key_part_injective s s' c c' (cc))

-- What stands behind the host's part of a pane's key.
abbrev pane_rest : Text → Text → Text → Text
pane_rest s w p =
    bytes "session/"
    ++ (key_part s ++ (bytes "/window/" ++ (key_part w ++ (bytes "/pane/" ++ key_part p))))

pane_key_lem :
    (h s w p : Text) → pane_key h s w p ≡ bytes "host/" ++ (key_part h ++ (b'/' ∷ pane_rest s w p))
unfolding pane_key
pane_key_lem h s w p = simp append_assoc

window_rest_injective :
    (w p w' p' : Text)
    → All IsByte w × All IsByte p × All IsByte w' × All IsByte p'
    → key_part w ++ (bytes "/pane/" ++ key_part p) ≡ key_part w' ++ (bytes "/pane/" ++ key_part p')
    → (w ≡ w') × (p ≡ p')
window_rest_injective w p w' p' (b, c, b', c') e =
    let (q, r) =
      key_part_split w w' (bytes "pane/" ++ key_part p) (bytes "pane/" ++ key_part p') b b' e in
    (q, key_part_injective p p' c c' (cc))

-- The four names of a pane, each a string of bytes.
pub record Place : Type 0 where
  pub host_id : Text
  pub session : Text
  pub window : Text
  pub pane : Text

pub record IsPlace (x : Place) : Type 0 where
  pub host_id : All IsByte x.host_id
  pub session : All IsByte x.session
  pub window : All IsByte x.window
  pub pane : All IsByte x.pane

abbrev pub key_of : Place → Text
key_of x = pane_key x.host_id x.session x.window x.pane

-- Two panes have the same key only if they are the same pane of the same window, session and host.
pub pane_key_injective : (x y : Place) → IsPlace x → IsPlace y → key_of x ≡ key_of y → x ≡ y
pane_key_injective x y b c e =
    let (h, r) =
      key_part_split x.host_id y.host_id (pane_rest x.session x.window x.pane)
        (pane_rest y.session y.window y.pane) b.host_id c.host_id
        (cc (
          pane_key_lem x.host_id x.session x.window x.pane,
          pane_key_lem y.host_id y.session y.window y.pane,
        )) in
    let (s, r') =
      key_part_split x.session y.session
        (bytes "window/" ++ (key_part x.window ++ (bytes "/pane/" ++ key_part x.pane)))
        (bytes "window/" ++ (key_part y.window ++ (bytes "/pane/" ++ key_part y.pane))) b.session
        c.session (cc r) in
    let (w, p) =
      window_rest_injective x.window x.pane y.window y.pane (b.window, b.pane, c.window, c.pane)
        (cc r') in
    λ i. record { host_id = h i; session = s i; window = w i; pane = p i }
