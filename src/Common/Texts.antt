-- ===== src/Common/Texts.antt =====
-- Go's `string` and `[]byte` as the list of its bytes.
use Prim.Native.Char.{code}
use Prim.Native.String.{String}
use Prim.Native.Nat.{ℕ, zero, suc, ◌<◌}
use mathlib.Core.Bool.{Bool, true, false, ◌&&◌, ◌||◌}
use mathlib.Core.List.{List, [], ◌∷◌, ◌++◌, reverse, reverse-append, reverse-cons}
use mathlib.Core.Path.{◌≡◌, refl}
use mathlib.Core.Logic.{inl, inr}
use native.Mathlib.Omega.{arith}
unfoldable use native.Mathlib.Decide.{ℕ_discrete}
use tmuxatlas.Common.Tests.{Bool-cases, ◌==◌, ltb, leb, if◌then◌else◌, holds}
use tmuxatlas.Common.Lists.{length, get_or, drop}
use tmuxatlas.Common.Maps.{Key}

abbrev pub Text : Type 0
Text = List ℕ

abbrev pub IsByte : ℕ → Type 0
IsByte c = c < 256

-- The bytes of an ASCII literal.
abbrev pub bytes : String → Text
bytes String.[] = []
bytes (String.◌∷◌ c s) = code c ∷ bytes s

unfoldable pub Text-discrete : Discrete Text
Text-discrete = hlevel ℕ_discrete

instance abbrev pub text_key : Key Text
text_key = record { eq? = Text-discrete }

abbrev pub same_text : Text → Text → Bool
same_text s t = holds (Text-discrete s t)

abbrev pub is_empty : Text → Bool
is_empty [] = true
is_empty (c ∷ s) = false

-- unicode.IsSpace, on the UTF-8 bytes: U+0009 to U+000D, U+0020; U+0085, U+00A0; U+1680,
-- U+2000 to U+200A, U+2028, U+2029, U+202F, U+205F, U+3000.
abbrev is_space_1 : ℕ → Bool
is_space_1 a = (leb 9 a && leb a 13) || a == 32

abbrev is_space_2 : ℕ → ℕ → Bool
is_space_2 a b = a == 0xC2 && (b == 0x85 || b == 0xA0)

abbrev is_space_3 : ℕ → ℕ → ℕ → Bool
is_space_3 a b c =
    (a == 0xE1 && b == 0x9A && c == 0x80)
    || (a == 0xE2 && b == 0x80 && (leb 0x80 c && leb c 0x8A || c == 0xA8 || c == 0xA9 || c == 0xAF))
    || (a == 0xE2 && b == 0x81 && c == 0x9F)
    || (a == 0xE3 && b == 0x80 && c == 0x80)

-- How many bytes the white space character at the front has, 0 if there is none there. At the back
-- of a text its bytes come in the reverse order.
space_at_front : Text → ℕ
space_at_front s =
    let a = get_or s 0 0 in
    let b = get_or s 1 0 in
    let c = get_or s 2 0 in
    if is_space_1 a then 1 else if is_space_2 a b then 2 else if is_space_3 a b c then 3 else 0

space_at_back : Text → ℕ
space_at_back s =
    let a = get_or s 0 0 in
    let b = get_or s 1 0 in
    let c = get_or s 2 0 in
    if is_space_1 a then 1 else if is_space_2 b a then 2 else if is_space_3 c b a then 3 else 0

-- The fuel is the number of bytes, and each round drops one at least.
trim_by : (Text → ℕ) → ℕ → Text → Text
trim_by width zero s = s
trim_by width (suc fuel) s =
    let rest = trim_by width fuel (drop (width s) s) in if width s == 0 then s else rest

-- strings.TrimSpace
unfoldable pub trim_space : Text → Text
unfolding trim_by space_at_front space_at_back
trim_space s =
    let front = trim_by space_at_front (length s) s in
    reverse (trim_by space_at_back (length front) (reverse front))

-- strings.TrimSpace(s) == ""
abbrev pub is_blank : Text → Bool
is_blank s = is_empty (trim_space s)

-- s < t, as Go compares strings.
unfoldable pub text_less : Text → Text → Bool
text_less s [] = false
text_less [] (d ∷ t) = true
text_less (c ∷ s) (d ∷ t) = if c == d then text_less s t else ltb c d

-- What ends in a letter is not trimmed to nothing: `mid ++ c ∷ []`, where `c` is an ASCII letter.
trim_back-ends :
    (fuel c : ℕ) (mid : Text)
    → 64 < c
    → c < 128
    → (rest : Text) × (trim_by space_at_back fuel (mid ++ c ∷ []) ≡ rest ++ c ∷ [])
unfolding trim_by space_at_back
trim_back-ends zero c mid l u = (mid, refl)
trim_back-ends (suc fuel) c [] l u = ([], ground arith)
trim_back-ends (suc fuel) c (x ∷ []) l u =
    let (rest, e) = trim_back-ends fuel c [] l u in
    elim (Bool-cases (is_space_1 x)) [
      | inl s ↦ (rest, ground arith)
      | inr s ↦ (x ∷ [], ground arith)
    ]
trim_back-ends (suc fuel) c (x ∷ y ∷ []) l u =
    let (r1, e1) = trim_back-ends fuel c (y ∷ []) l u in
    let (r2, e2) = trim_back-ends fuel c [] l u in
    elim (Bool-cases (is_space_1 x)) [
      | inl s ↦ (r1, ground arith)
      | inr s ↦ elim (Bool-cases (is_space_2 y x)) [
        | inl t ↦ (r2, ground arith)
        | inr t ↦ (x ∷ y ∷ [], ground arith)
      ]
    ]
trim_back-ends (suc fuel) c (x ∷ y ∷ z ∷ mid) l u =
    let (r1, e1) = trim_back-ends fuel c (y ∷ z ∷ mid) l u in
    let (r2, e2) = trim_back-ends fuel c (z ∷ mid) l u in
    let (r3, e3) = trim_back-ends fuel c mid l u in
    elim (Bool-cases (is_space_1 x)) [
      | inl s ↦ (r1, rw s e1)
      | inr s ↦ elim (Bool-cases (is_space_2 y x)) [
        | inl t ↦ (r2, rw (s, t) e2)
        | inr t ↦ elim (Bool-cases (is_space_3 z y x)) [
          | inl v ↦ (r3, rw (s, t, v) e3)
          | inr v ↦ (x ∷ y ∷ z ∷ mid, rw (s, t, v) refl)
        ]
      ]
    ]

trim_front-letter :
    (fuel c : ℕ) (s : Text) → 64 < c → c < 128 → trim_by space_at_front fuel (c ∷ s) ≡ c ∷ s
unfolding trim_by space_at_front
trim_front-letter zero c s l u = refl
trim_front-letter (suc fuel) c s l u = ground arith

-- A text that begins with an ASCII letter is not white space.
pub letter-not-blank : (c : ℕ) (s : Text) → 64 < c → c < 128 → is_blank (c ∷ s) ≡ false
unfolding trim_space
letter-not-blank c s l u =
    let (rest, e) = trim_back-ends (length (c ∷ s)) c (reverse s) l u in
    rw
      (
        trim_front-letter (length (c ∷ s)) c s l u,
        reverse-cons c s,
        e,
        reverse-append rest (c ∷ []),
      )
      refl
