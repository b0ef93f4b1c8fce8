-- ===== src/Peer/Frame/Order.antt =====
-- The terminal gets each frame once and in order.
use tmuxatlas.Common.{
  ℕ, suc, ◌+◌, ◌^◌, ◌<◌, ◌≡◌, ◌==◌, refl, subst, Bool, true, false, List, [], ◌∷◌, arith, length,
  inl, inr, ◌⊎◌, dec_lt, Text, Result, ok, err, Bool-cases,
}
use tmuxatlas.Peer.Frame.{
  FrameError, PtyDataFrame, pty_data_input, decode, Verdict, fresh, duplicate, gap, expected,
  accept, Delivery, write_frame, deliver, deliver_as,
}

-- Binary messages that are frames of input whose Writes work, which the sender may repeat: the second
-- list is that of the frames without the repetitions.
pub data Resent : ℕ → List (Text × Bool) → List PtyDataFrame → Type 0 where
  over : {n : ℕ} → Resent n [] []
  next :
      {n : ℕ} {messages : List (Text × Bool)} {frames : List PtyDataFrame} (content : Text)
      (f : PtyDataFrame)
      → decode content ≡ ok f
      → (f.direction == pty_data_input) ≡ true
      → f.sequence ≡ n
      → Resent (suc n) messages frames
      → Resent n ((content, true) ∷ messages) (f ∷ frames)
  again :
      {n : ℕ} {messages : List (Text × Bool)} {frames : List PtyDataFrame} (content : Text)
      (works : Bool) (f : PtyDataFrame)
      → decode content ≡ ok f
      → (f.direction == pty_data_input) ≡ true
      → f.sequence < n
      → Resent n messages frames
      → Resent n ((content, works) ∷ messages) frames

-- The three verdicts, at a counter whose next value is not the wrap to 0.
pub accept_cases :
    (s v : ℕ)
    → expected s + 1 < 2 ^ 64
    → ((v ≡ expected s) × ((accept s v).1 ≡ fresh) × (expected (accept s v).0 ≡ suc (expected s)))
      ⊎ ((v < expected s) × ((accept s v).1 ≡ duplicate) × (expected (accept s v).0 ≡ expected s))
      ⊎ ((expected s < v) × ((accept s v).1 ≡ gap))
unfolding accept
accept_cases s v b = elim (dec_lt v (expected s)) [
  | yes h ↦ inr (inl (h, ground arith, ground arith))
  | no h ↦ elim (dec_lt (expected s) v) [
    | yes g ↦ inr (inr (g, ground arith))
    | no g ↦ inl (omega arith, ground arith, ground arith)
  ]
]

Result-cases :
    (r : Result FrameError PtyDataFrame)
    → ((e : FrameError) × (r ≡ err e)) ⊎ ((f : PtyDataFrame) × (r ≡ ok f))
Result-cases (err e) = inl (e, refl)
Result-cases (ok f) = inr (f, refl)

deliver-cons :
    (s : ℕ) (content : Text) (works : Bool) (f : PtyDataFrame) (messages : List (Text × Bool))
    (v : Verdict)
    → decode content ≡ ok f
    → (f.direction == pty_data_input) ≡ true
    → (accept s f.sequence).1 ≡ v
    → deliver s ((content, works) ∷ messages)
      ≡ deliver_as v works f (deliver (accept s f.sequence).0 messages)
unfolding deliver
deliver-cons s content works f messages v d i e = rw (d, i, e) refl

-- The frames are of input, and have the numbers from one on.
abbrev pub IsConsecutive : ℕ → List PtyDataFrame → Type 0
IsConsecutive n [] = Unit {0}
IsConsecutive n (f ∷ fs) =
    (f.direction ≡ pty_data_input) × (f.sequence ≡ n) × IsConsecutive (suc n) fs

write_frame-IsConsecutive :
    (works : Bool) (f : PtyDataFrame) (n : ℕ) (rest : Delivery)
    → f.direction ≡ pty_data_input
    → f.sequence ≡ n
    → IsConsecutive (suc n) rest.written
    → IsConsecutive n (write_frame works f rest).written
write_frame-IsConsecutive true f n rest i e h = (i, e, h)
write_frame-IsConsecutive false f n rest i e h = tt

-- Whatever binary messages arrive, and whichever of the terminal's Writes work, the frames written are of
-- input and have the numbers from the expected one on, without a gap or a repetition, as long as the
-- counter does not wrap.
pub deliver-IsConsecutive :
    (s : ℕ) (messages : List (Text × Bool))
    → expected s + length messages < 2 ^ 64
    → IsConsecutive (expected s) (deliver s messages).written
unfolding deliver
deliver-IsConsecutive s [] b = tt
deliver-IsConsecutive s ((content, works) ∷ messages) b = elim (Result-cases (decode content)) [
  | inl (e, d) ↦ rw d tt
  | inr (f, d) ↦ elim (Bool-cases (f.direction == pty_data_input)) [
    | inr i ↦ rw (d, i) tt
    | inl i ↦ elim (accept_cases s f.sequence (omega arith)) [
      | inl (v, e, n) ↦ rw (deliver-cons s content works f messages fresh d i e) (
          write_frame-IsConsecutive works f (expected s) (deliver (accept s f.sequence).0 messages)
            (ground arith) v
            (subst (λ k. IsConsecutive k (deliver (accept s f.sequence).0 messages).written) n
              (deliver-IsConsecutive (accept s f.sequence).0 messages (omega arith))))
      | inr (inl (v, e, n)) ↦ rw (deliver-cons s content works f messages duplicate d i e) (
          subst (λ k. IsConsecutive k (deliver (accept s f.sequence).0 messages).written) n
            (deliver-IsConsecutive (accept s f.sequence).0 messages (omega arith)))
      | inr (inr (v, e)) ↦ rw (deliver-cons s content works f messages gap d i e) tt
    ]
  ]
]

deliver_complete_from :
    (s n : ℕ) (messages : List (Text × Bool)) (frames : List PtyDataFrame)
    → expected s ≡ n
    → n + length messages < 2 ^ 64
    → Resent n messages frames
    → deliver s messages ≡ record { written = frames; finished = false }
deliver_complete_from s n _ _ p b over = unfold deliver in refl
deliver_complete_from s n _ _ p b (next {messages = ms} {frames = fs} content f d i h r) =
    elim (accept_cases s f.sequence (omega arith)) [
      | inl (v, e, m) ↦ rw (
        deliver-cons s content true f ms fresh d i e,
        deliver_complete_from (accept s f.sequence).0 (suc n) ms fs (omega arith) (omega arith) r,
      )
      | inr (inl (v, e, m)) ↦ absurd (omega arith)
      | inr (inr (v, e)) ↦ absurd (omega arith)
    ]
deliver_complete_from s n _ _ p b (again {messages = ms} {frames = fs} content works f d i h r) =
    elim (accept_cases s f.sequence (omega arith)) [
      | inl (v, e, m) ↦ absurd (omega arith)
      | inr (inl (v, e, m)) ↦ rw (
        deliver-cons s content works f ms duplicate d i e,
        deliver_complete_from (accept s f.sequence).0 n ms fs (omega arith) (omega arith) r,
      )
      | inr (inr (v, e)) ↦ absurd (omega arith)
    ]

-- Where the binary messages are input frames that may be repeated and have no gap, and the terminal's
-- Writes of new frames work, the frames are written without the repetitions, and the loop reads on to the
-- end, as long as the counter does not wrap.
pub deliver_complete :
    (s : ℕ) (messages : List (Text × Bool)) (frames : List PtyDataFrame)
    → expected s + length messages < 2 ^ 64
    → Resent (expected s) messages frames
    → deliver s messages ≡ record { written = frames; finished = false }
deliver_complete s messages frames b r =
    deliver_complete_from s (expected s) messages frames refl b r
