-- ===== src/Peer/Requests/Accounts.antt =====
-- Each ticket that was handed out is in one place: waiting, taken by one call, or answered.
use tmuxatlas.Common.{
  ℕ, ◌+◌, ◌≡◌, refl, Bool, false, not, ◌==◌, ltb, List, [], ◌∷◌, none, some, arith, Text, text_key,
  ℕ_key, Dict, get, put, remove, keep, has, if◌then◌else◌, ◌++◌, Unique, Option-cases, inl, inr,
  get-put, put-Unique, remove-Unique, keep-Unique, Bool-cases,
}
use tmuxatlas.Peer.Protocol.{Library, RuntimeRequest, ErrorCode}
use tmuxatlas.Peer.Requests.{
  RequestOutcome, PendingRequest, RequestTracker, new_request_tracker, register, complete,
  complete_as, complete_result, complete_error, failures, fail_all, drop_first, settle, settle_as,
  Event, registers, accepts, completes_result, completes_error, fails, settles, handle, run,
}

abbrev pub one_if : Bool → ℕ
one_if b = if b then 1 else 0

-- The waiting entries with a ticket, and the calls that hold it.
unfoldable pub waiting : ℕ → Dict Text PendingRequest → ℕ
waiting t [] = 0
waiting t ((k, p) ∷ m) = one_if (p.ticket == t) + waiting t m

unfoldable pub held : ℕ → Dict ℕ RequestOutcome → ℕ
held t [] = 0
held t ((s, o) ∷ m) = one_if (s == t) + held t m

-- A table with one entry for a request id in which a ticket below the next one is in just one place,
-- and no other ticket is in any.
abbrev pub IsAccounted : RequestTracker → Type 0
IsAccounted tracker =
    Unique tracker.pending
    × ((t : ℕ)
        → waiting t tracker.pending + held t tracker.taken + one_if (has t tracker.outcomes)
          ≡ one_if (ltb t tracker.next_ticket))

waiting-remove-none :
    (t : ℕ) (k : Text) (m : Dict Text PendingRequest)
    → get k m ≡ none
    → waiting t (remove k m) ≡ waiting t m
unfolding waiting get remove
waiting-remove-none t k [] h = refl
waiting-remove-none t k ((j, p) ∷ m) h = ground (arith, waiting-remove-none t k m)

waiting-remove :
    (t : ℕ) (k : Text) (p : PendingRequest) (m : Dict Text PendingRequest)
    → Unique m
    → get k m ≡ some p
    → waiting t m ≡ one_if (p.ticket == t) + waiting t (remove k m)
unfolding waiting get remove
waiting-remove t k p [] u h = absurd (ground arith)
waiting-remove t k p ((j, q) ∷ m) u h =
    ground (arith, waiting-remove t k p m u.1, waiting-remove-none t k m)

waiting-put :
    (t : ℕ) (k : Text) (p : PendingRequest) (m : Dict Text PendingRequest)
    → get k m ≡ none
    → waiting t (put k p m) ≡ one_if (p.ticket == t) + waiting t m
unfolding waiting put
waiting-put t k p m h = ground (arith, waiting-remove-none t k m h)

waiting-failures :
    (t g : ℕ) (code : ErrorCode) (m : Dict Text PendingRequest)
    → waiting t (keep (λ _ p. not (p.generation == g)) m) + held t (failures g code m) ≡ waiting t m
unfolding waiting keep failures held
waiting-failures t g code [] = refl
waiting-failures t g code ((k, p) ∷ m) = ground (arith, waiting-failures t g code m)

held-append : (t : ℕ) (m n : Dict ℕ RequestOutcome) → held t (m ++ n) ≡ held t m + held t n
unfolding held
held-append t [] n = omega arith
held-append t ((s, o) ∷ m) n = ground (arith, held-append t m n)

held-drop_first :
    (t s : ℕ) (o : RequestOutcome) (m : Dict ℕ RequestOutcome)
    → get s m ≡ some o
    → held t m ≡ one_if (s == t) + held t (drop_first s m)
unfolding held get drop_first
held-drop_first t s o [] h = absurd (ground arith)
held-drop_first t s o ((r, q) ∷ m) h = ground (arith, held-drop_first t s o m)

register-IsAccounted :
    (request : RuntimeRequest) (tracker : RequestTracker)
    → IsAccounted tracker
    → IsAccounted (register request tracker).1
unfolding register
register-IsAccounted request tracker a =
    elim (Option-cases (get request.request_id tracker.pending)) [
      | inl e ↦ rw e (
        put-Unique request.request_id _ tracker.pending a.0,
        λ t. rw (waiting-put t request.request_id _ tracker.pending e) (ground (arith, a.1 t)),
      )
      | inr (p, e) ↦ rw e a
    ]

complete-IsAccounted :
    (k : Text) (g : ℕ) (o : RequestOutcome) (tracker : RequestTracker)
    → IsAccounted tracker
    → IsAccounted (complete k g o tracker).1
unfolding complete complete_as
complete-IsAccounted k g o tracker a = elim (Option-cases (get k tracker.pending)) [
  | inl e ↦ rw e a
  | inr (p, e) ↦ elim (Bool-cases (p.generation == g)) [
    | inl f ↦
        rw (e, f)
          (
            remove-Unique k tracker.pending a.0,
            λ t. unfold held in omega (arith, a.1 t, waiting-remove t k p tracker.pending a.0 e),
          )
    | inr f ↦ rw (e, f) a
  ]
]

fail_all-IsAccounted :
    (g : ℕ) (code : ErrorCode) (tracker : RequestTracker)
    → IsAccounted tracker
    → IsAccounted (fail_all g code tracker)
unfolding fail_all
fail_all-IsAccounted g code tracker a = (
  keep-Unique _ tracker.pending a.0,
  λ t. omega (
    arith,
    a.1 t,
    waiting-failures t g code tracker.pending,
    held-append t (failures g code tracker.pending) tracker.taken,
  ),
)

-- A call that holds a ticket finds its channel empty.
pub IsAccounted-unsent :
    (t : ℕ) (o : RequestOutcome) (tracker : RequestTracker)
    → IsAccounted tracker
    → get t tracker.taken ≡ some o
    → has t tracker.outcomes ≡ false
IsAccounted-unsent t o tracker a h = ground (arith, a.1 t, held-drop_first t t o tracker.taken h)

settle-IsAccounted :
    (t : ℕ) (tracker : RequestTracker) → IsAccounted tracker → IsAccounted (settle t tracker).1
unfolding settle settle_as
settle-IsAccounted t tracker a = elim (Option-cases (get t tracker.taken)) [
  | inl e ↦ rw e a
  | inr (o, e) ↦
      rw (e, IsAccounted-unsent t o tracker a e)
        (
          a.0,
          λ s. ground (
            arith,
            a.1 s,
            held-drop_first s t o tracker.taken e,
            get-put s t o tracker.outcomes,
            IsAccounted-unsent t o tracker a e,
          ),
        )
]

pub handle-IsAccounted :
    (lib : Library) (event : Event) (tracker : RequestTracker)
    → IsAccounted tracker
    → IsAccounted (handle lib event tracker)
unfolding handle complete_result complete_error
handle-IsAccounted lib (registers request) tracker a = register-IsAccounted request tracker a
handle-IsAccounted lib (accepts ack) tracker a = a
handle-IsAccounted lib (completes_result r) tracker a =
    ground
      (arith, complete-IsAccounted r.request_id r.generation (RequestOutcome.result r) tracker a)
handle-IsAccounted lib (completes_error e) tracker a =
    ground
      (arith, complete-IsAccounted e.request_id e.generation (RequestOutcome.error e) tracker a)
handle-IsAccounted lib (fails g code) tracker a = fail_all-IsAccounted g code tracker a
handle-IsAccounted lib (settles t) tracker a = settle-IsAccounted t tracker a

pub run-IsAccounted :
    (lib : Library) (events : List Event) (tracker : RequestTracker)
    → IsAccounted tracker
    → IsAccounted (run lib events tracker)
unfolding run
run-IsAccounted lib [] tracker a = a
run-IsAccounted lib (e ∷ events) tracker a =
    run-IsAccounted lib events (handle lib e tracker) (handle-IsAccounted lib e tracker a)

pub new_request_tracker-IsAccounted : IsAccounted new_request_tracker
unfolding waiting held get
new_request_tracker-IsAccounted = (tt, λ t. ground arith)
