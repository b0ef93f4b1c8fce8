-- ===== src/Peer/Connection/Order.antt =====
-- What is sent is written in order.
use tmuxatlas.Common.{
  ℕ, ◌≤◌, ◌≡◌, refl, sym, ap, ◌∙◌, Bool, List, [], ◌∷◌, ◌++◌, Option, none, some, length,
  length-append, arith, Bool-cases, inl, inr,
}
use tmuxatlas.Peer.Connection.{
  Writer, selects, writes, left, failed_on, Connection, new_connection, send, take_message,
  see_done, finish_write, Step, sends, takes, sees_done, closes, cancels, finishes, handle, run,
  if_sent, sent_by, sent,
}

module _ {A : Type 0} where
  -- The message that has left the queue and is not written.
  abbrev pub in_hand : Writer A → List A
  in_hand selects = []
  in_hand (writes message) = message ∷ []
  in_hand left = []
  in_hand (failed_on message) = message ∷ []

  -- What has been sent so far, wherever it is.
  abbrev pub held : Connection A → List A
  held c = c.written ++ (in_hand c.writer ++ c.queue)

  append_assoc : (xs ys zs : List A) → (xs ++ ys) ++ zs ≡ xs ++ (ys ++ zs)
  append_assoc [] ys zs = refl
  append_assoc (x ∷ xs) ys zs = ap (λ l. x ∷ l) (append_assoc xs ys zs)

  append_nil : (xs : List A) → xs ++ [] ≡ xs
  append_nil [] = refl
  append_nil (x ∷ xs) = ap (λ l. x ∷ l) (append_nil xs)

  send-held :
      (caller_done takes_done : Bool) (message : A) (c : Connection A)
      → held (send caller_done takes_done (some message) c).1
        ≡ held c ++ if_sent (send caller_done takes_done (some message) c).0 (some message)
  unfolding send
  send-held caller_done takes_done message c = ground (
    arith,
    append_nil (held c),
    append_assoc c.written (in_hand c.writer ++ c.queue) (message ∷ []),
    append_assoc (in_hand c.writer) c.queue (message ∷ []),
  )

  take-held :
      (w : Writer A) (q : List A) (c : Connection A)
      → c.writer ≡ w
      → c.queue ≡ q
      → held (take_message w c) ≡ held c
  take-held selects [] c e f = rw (f, e) refl
  take-held selects (x ∷ q) c e f = rw (f, e) refl
  take-held (writes m) q c e f = refl
  take-held left q c e f = refl
  take-held (failed_on m) q c e f = refl

  finish-held :
      (works : Bool) (w : Writer A) (c : Connection A)
      → c.writer ≡ w
      → held (finish_write works w c) ≡ held c
  finish-held works selects c e = refl
  finish-held works (writes m) c e = elim (Bool-cases works) [
    | inl b ↦ rw (b, e) (append_assoc c.written (m ∷ []) c.queue)
    | inr b ↦ rw (b, e) refl
  ]
  finish-held works left c e = refl
  finish-held works (failed_on m) c e = refl

  see-held : (w : Writer A) (c : Connection A) → c.writer ≡ w → held (see_done w c) ≡ held c
  see-held selects c e = elim (Bool-cases c.done) [ inl d ↦ rw (d, e) refl | inr d ↦ rw d refl ]
  see-held (writes m) c e = refl
  see-held left c e = refl
  see-held (failed_on m) c e = refl

  -- What a step adds to what has been sent, and the bound of the queue.
  handle-held : (s : Step A) (c : Connection A) → held (handle s c) ≡ held c ++ sent_by s c
  unfolding handle
  handle-held (sends caller_done takes_done none) c = unfold send in sym (append_nil (held c))
  handle-held (sends caller_done takes_done (some message)) c =
      send-held caller_done takes_done message c
  handle-held takes c = take-held c.writer c.queue c refl refl ∙ sym (append_nil (held c))
  handle-held sees_done c = see-held c.writer c refl ∙ sym (append_nil (held c))
  handle-held (finishes works) c = finish-held works c.writer c refl ∙ sym (append_nil (held c))
  handle-held closes c = sym (append_nil (held c))
  handle-held cancels c = sym (append_nil (held c))

  run-held :
      (steps : List (Step A)) (c : Connection A) → held (run steps c) ≡ held c ++ sent steps c
  unfolding run sent
  run-held [] c = sym (append_nil (held c))
  run-held (s ∷ steps) c =
      run-held steps (handle s c)
      ∙ (ap (λ l. l ++ sent steps (handle s c)) (handle-held s c)
          ∙ append_assoc (held c) (sent_by s c) (sent steps (handle s c)))

  abbrev IsBounded : ℕ → Connection A → Type 0
  IsBounded n c = (c.capacity ≡ n) × (length c.queue ≤ n)

  take-IsBounded :
      (n : ℕ) (w : Writer A) (q : List A) (c : Connection A)
      → c.queue ≡ q
      → IsBounded n c
      → IsBounded n (take_message w c)
  take-IsBounded n selects [] c f b = rw f (b.0, omega (arith, b.1, ap length f))
  take-IsBounded n selects (x ∷ q) c f b = rw f (b.0, omega (arith, b.1, ap length f))
  take-IsBounded n (writes m) q c f b = b
  take-IsBounded n left q c f b = b
  take-IsBounded n (failed_on m) q c f b = b

  finish-IsBounded :
      (n : ℕ) (works : Bool) (w : Writer A) (c : Connection A)
      → IsBounded n c
      → IsBounded n (finish_write works w c)
  finish-IsBounded n works selects c b = b
  finish-IsBounded n works (writes m) c b = elim (Bool-cases works) [
    | inl e ↦ rw e b
    | inr e ↦ rw e b
  ]
  finish-IsBounded n works left c b = b
  finish-IsBounded n works (failed_on m) c b = b

  see-IsBounded :
      (n : ℕ) (w : Writer A) (c : Connection A) → IsBounded n c → IsBounded n (see_done w c)
  see-IsBounded n selects c b = elim (Bool-cases c.done) [ inl e ↦ rw e b | inr e ↦ rw e b ]
  see-IsBounded n (writes m) c b = b
  see-IsBounded n left c b = b
  see-IsBounded n (failed_on m) c b = b

  send-IsBounded :
      (n : ℕ) (caller_done takes_done : Bool) (message : Option A) (c : Connection A)
      → IsBounded n c
      → IsBounded n (send caller_done takes_done message c).1
  unfolding send
  send-IsBounded n caller_done takes_done none c b = b
  send-IsBounded n caller_done takes_done (some m) c (e, b) =
      (ground arith, ground (arith, length-append c.queue (m ∷ [])))

  handle-IsBounded :
      (n : ℕ) (s : Step A) (c : Connection A) → IsBounded n c → IsBounded n (handle s c)
  unfolding handle
  handle-IsBounded n (sends caller_done takes_done message) c b =
      send-IsBounded n caller_done takes_done message c b
  handle-IsBounded n takes c b = take-IsBounded n c.writer c.queue c refl b
  handle-IsBounded n sees_done c b = see-IsBounded n c.writer c b
  handle-IsBounded n (finishes works) c b = finish-IsBounded n works c.writer c b
  handle-IsBounded n closes c b = b
  handle-IsBounded n cancels c b = b

  run-IsBounded :
      (n : ℕ) (steps : List (Step A)) (c : Connection A) → IsBounded n c → IsBounded n (run steps c)
  unfolding run
  run-IsBounded n [] c b = b
  run-IsBounded n (s ∷ steps) c b = run-IsBounded n steps (handle s c) (handle-IsBounded n s c b)

-- After any interleaving of the calls of Send, the writer's goroutine and Close: the messages for which Send
-- has returned nil, in their order, are those that were written, then the one that the writer has taken, then
-- those in the queue; and the queue keeps within its capacity.
pub sent_is_written_in_order :
    {A : Type 0} (capacity : ℕ) (steps : List (Step A))
    → (held (run steps (new_connection capacity)) ≡ sent steps (new_connection capacity))
      × (length (run steps (new_connection {A = A} capacity)).queue ≤ capacity)
sent_is_written_in_order capacity steps = (
  run-held steps (new_connection capacity),
  (run-IsBounded capacity steps (new_connection capacity) (refl, omega arith)).1,
)
