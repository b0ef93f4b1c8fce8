-- ===== src/Peer/Frame/RoundTrip.antt =====
-- What is encoded is decoded, and only what is encoded.
use tmuxatlas.Common.{
  ℕ, ◌+◌, ◌%◌, ◌^◌, ◌<◌, ◌≤◌, ◌≡◌, [], ◌∷◌, arith, All, IsByte, Text, Text-discrete, ℕ_discrete,
  length, drop, ok, ◌⊎◌,
}
use tmuxatlas.Peer.Frame.{PtyDataFrame, encode, decode, layout, put_u64, put_u32, u64_at, u32_at}

u64-put_u64 : (n : ℕ) (rest : Text) → n < 2 ^ 64 → u64_at (put_u64 n rest) 0 ≡ n
u64-put_u64 n rest h = omega arith

u32-put_u32 : (n : ℕ) (rest : Text) → n < 2 ^ 32 → u32_at (put_u32 n rest) 0 ≡ n
u32-put_u32 n rest h = omega arith

-- What the checks of `encode` establish.
encode-ok :
    (direction sequence : ℕ) (payload frame : Text)
    → encode direction sequence payload ≡ ok frame
    → (layout direction sequence payload ≡ frame)
      × ((direction ≡ 1) ⊎ (direction ≡ 2))
      × (0 < sequence)
      × (length payload ≤ 65536)
unfolding encode
encode-ok direction sequence payload frame h =
    (ground arith, ground arith, ground arith, ground arith)

decode-layout :
    (direction sequence : ℕ) (payload : Text)
    → (direction ≡ 1) ⊎ (direction ≡ 2)
    → 0 < sequence
    → sequence < 2 ^ 64
    → length payload ≤ 65536
    → decode (layout direction sequence payload)
      ≡ ok (record { direction = direction; sequence = sequence; payload = payload })
unfolding decode Text-discrete ℕ_discrete
decode-layout direction sequence payload d p b l =
    ground (arith, u64-put_u64 sequence [] b, u32-put_u32 (length payload % 2 ^ 32) [])

-- A frame that is encoded is decoded to the direction, the sequence number and the payload that it was
-- made of.
pub decode-encode :
    (direction sequence : ℕ) (payload frame : Text)
    → sequence < 2 ^ 64
    → encode direction sequence payload ≡ ok frame
    → decode frame ≡ ok (record { direction = direction; sequence = sequence; payload = payload })
decode-encode direction sequence payload frame b h =
    let (e, d, p, l) = encode-ok direction sequence payload frame h in
    rw (← e) (decode-layout direction sequence payload d p b l)

put_u64-u64 :
    (a b c d e f g h : ℕ) (rest : Text)
    → All IsByte (a ∷ b ∷ c ∷ d ∷ e ∷ f ∷ g ∷ h ∷ [])
    → put_u64 (u64_at (a ∷ b ∷ c ∷ d ∷ e ∷ f ∷ g ∷ h ∷ []) 0) rest
      ≡ a ∷ b ∷ c ∷ d ∷ e ∷ f ∷ g ∷ h ∷ rest
put_u64-u64 a b c d e f g h rest (ha, (hb, (hc, (hd, (he, (hf, (hg, (hh, _)))))))) = ground arith

put_u32-u32 :
    (a b c d : ℕ) (rest : Text)
    → All IsByte (a ∷ b ∷ c ∷ d ∷ [])
    → put_u32 (u32_at (a ∷ b ∷ c ∷ d ∷ []) 0) rest ≡ a ∷ b ∷ c ∷ d ∷ rest
put_u32-u32 a b c d rest h = ground arith

encode-layout :
    (direction sequence : ℕ) (payload : Text)
    → (direction ≡ 1) ⊎ (direction ≡ 2)
    → 0 < sequence
    → length payload ≤ 65536
    → encode direction sequence payload ≡ ok (layout direction sequence payload)
unfolding encode
encode-layout direction sequence payload d p l = ground arith

-- The header of a frame that is decoded, and the frame.
decode-ok :
    (m0 m1 m2 m3 version direction r0 r1 : ℕ) (rest : Text) (f : PtyDataFrame)
    → decode (m0 ∷ m1 ∷ m2 ∷ m3 ∷ version ∷ direction ∷ r0 ∷ r1 ∷ rest) ≡ ok f
    → (m0 ∷ m1 ∷ m2 ∷ m3 ∷ version ∷ r0 ∷ r1 ∷ [] ≡ 84 ∷ 65 ∷ 80 ∷ 49 ∷ 1 ∷ 0 ∷ 0 ∷ [])
      × ((direction ≡ 1) ⊎ (direction ≡ 2))
      × (0 < u64_at rest 0)
      × (u32_at rest 8 ≤ 65536)
      × (u32_at rest 8 + 12 ≡ length rest)
      × (f ≡ record { direction = direction; sequence = u64_at rest 0; payload = drop 12 rest })
unfolding decode Text-discrete ℕ_discrete
decode-ok m0 m1 m2 m3 version direction r0 r1 rest f h =
    (ground arith, ground arith, ground arith, ground arith, ground arith, ground arith)

same_length :
    (payload : Text) (n : ℕ) → n ≤ 65536 → n ≡ length payload → length payload % 2 ^ 32 ≡ n
same_length payload n h e = omega arith

-- Whatever is decoded is what `encode` makes of the result.
pub encode-decode :
    (s : Text) (f : PtyDataFrame)
    → All IsByte s
    → decode s ≡ ok f
    → encode f.direction f.sequence f.payload ≡ ok s
encode-decode
      (m0 ∷ m1 ∷ m2 ∷ m3 ∷ version ∷ direction ∷ r0 ∷ r1 ∷ s0 ∷ s1 ∷ s2 ∷ s3 ∷ s4 ∷ s5 ∷ s6 ∷ s7
        ∷ l0 ∷ l1 ∷ l2 ∷ l3 ∷ payload)
      f b h =
    let rest = s0 ∷ s1 ∷ s2 ∷ s3 ∷ s4 ∷ s5 ∷ s6 ∷ s7 ∷ l0 ∷ l1 ∷ l2 ∷ l3 ∷ payload in
    let (m, d, p, l, n, e) = decode-ok m0 m1 m2 m3 version direction r0 r1 rest f h in
    rw (e, encode-layout direction (u64_at rest 0) payload d p (omega arith))
      (cc (
        put_u64-u64 s0 s1 s2 s3 s4 s5 s6 s7 (put_u32 (u32_at rest 8) payload) (omega arith),
        put_u32-u32 l0 l1 l2 l3 payload (omega arith),
        same_length payload (u32_at rest 8) (omega arith) (omega arith),
      ))
encode-decode _ f b h = absurd (unfold decode in ground arith)
