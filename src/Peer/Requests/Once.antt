-- ===== src/Peer/Requests/Once.antt =====
-- A request is answered once, and by its own connection.
use tmuxatlas.Common.{
  ℕ, ◌≡◌, ◌<◌, refl, true, not, ◌==◌, List, [], ◌∷◌, none, some, arith, Text, text_key, ℕ_key, Dict,
  get, keep, if◌then◌else◌, ◌++◌, Unique, Option-cases, inl, inr, get-put,
}
use tmuxatlas.Peer.Protocol.{Library, ErrorCode}
use tmuxatlas.Peer.Requests.{
  RequestOutcome, PendingRequest, RequestTracker, new_request_tracker, register, complete,
  complete_as, of_generation, complete_result, complete_error, failures, fail_all, settle,
  settle_as, Event, registers, accepts, completes_result, completes_error, fails, settles, handle,
  run,
}
use tmuxatlas.Peer.Requests.Accounts.{
  waiting, IsAccounted, IsAccounted-unsent, run-IsAccounted, new_request_tracker-IsAccounted,
}

settle-keeps :
    (t s : ℕ) (o : RequestOutcome) (tracker : RequestTracker)
    → get t tracker.outcomes ≡ some o
    → get t (settle s tracker).1.outcomes ≡ some o
unfolding settle settle_as
settle-keeps t s o tracker h = elim (Option-cases (get s tracker.taken)) [
  | inl e ↦ rw e h
  | inr (q, e) ↦ rw e (ground (arith, get-put t s q tracker.outcomes))
]

complete-outcomes :
    (k : Text) (g : ℕ) (o : RequestOutcome) (tracker : RequestTracker)
    → (complete k g o tracker).1.outcomes ≡ tracker.outcomes
unfolding complete complete_as
complete-outcomes k g o tracker = elim (Option-cases (get k tracker.pending)) [
  | inl e ↦ rw e refl
  | inr (p, e) ↦ rw e (ground arith)
]

handle-keeps :
    (lib : Library) (event : Event) (t : ℕ) (o : RequestOutcome) (tracker : RequestTracker)
    → get t tracker.outcomes ≡ some o
    → get t (handle lib event tracker).outcomes ≡ some o
unfolding handle register complete_result complete_error fail_all
handle-keeps lib (registers request) t o tracker h = ground arith
handle-keeps lib (accepts ack) t o tracker h = h
handle-keeps lib (completes_result r) t o tracker h =
    ground (arith, complete-outcomes r.request_id r.generation (RequestOutcome.result r) tracker)
handle-keeps lib (completes_error e) t o tracker h =
    ground (arith, complete-outcomes e.request_id e.generation (RequestOutcome.error e) tracker)
handle-keeps lib (fails g code) t o tracker h = h
handle-keeps lib (settles s) t o tracker h = settle-keeps t s o tracker h

run-keeps :
    (lib : Library) (events : List Event) (t : ℕ) (o : RequestOutcome) (tracker : RequestTracker)
    → get t tracker.outcomes ≡ some o
    → get t (run lib events tracker).outcomes ≡ some o
unfolding run
run-keeps lib [] t o tracker h = h
run-keeps lib (e ∷ events) t o tracker h =
    run-keeps lib events t o (handle lib e tracker) (handle-keeps lib e t o tracker h)

-- After any interleaving of the locked sections and the sync.Once calls of concurrent goroutines, each
-- ticket that Register handed out is in one place: it waits in the table, one call has taken it, or
-- its channel was sent an outcome, and the ticket of no other request is in any of them.
pub tickets_in_one_place :
    (lib : Library) (events : List Event) → IsAccounted (run lib events new_request_tracker)
tickets_in_one_place lib events =
    run-IsAccounted lib events new_request_tracker new_request_tracker-IsAccounted

-- After any interleaving of steps, a call that has taken a ticket to send an outcome reports that it
-- completed the request, and the channel holds that outcome after any later steps.
pub settle_once :
    (lib : Library) (events later : List Event) (t : ℕ) (o : RequestOutcome)
    → get t (run lib events new_request_tracker).taken ≡ some o
    → ((settle t (run lib events new_request_tracker)).0 ≡ true)
      × (get t (run lib later (settle t (run lib events new_request_tracker)).1).outcomes ≡ some o)
settle_once lib events later t o h =
    let tracker = run lib events new_request_tracker in
    let unsent = IsAccounted-unsent t o tracker (tickets_in_one_place lib events) h in
    (
      unfold settle settle_as in rw (h, unsent) refl,
      run-keeps lib later t o (settle t tracker).1 (
          unfold settle settle_as in
          rw (h, unsent) (ground (arith, get-put t t o tracker.outcomes))),
    )

get-keep_generation :
    (k : Text) (g : ℕ) (m : Dict Text PendingRequest)
    → Unique m
    → get k (keep (λ _ p. not (p.generation == g)) m)
      ≡ (if of_generation g (get k m) then none else get k m)
unfolding get keep
get-keep_generation k g [] u = refl
get-keep_generation k g ((j, p) ∷ m) u = ground (arith, get-keep_generation k g m u.1)

waiting-pos :
    (k : Text) (p : PendingRequest) (m : Dict Text PendingRequest)
    → get k m ≡ some p
    → 0 < waiting p.ticket m
unfolding get waiting
waiting-pos k p [] h = absurd (ground arith)
waiting-pos k p ((j, q) ∷ m) h = ground (arith, waiting-pos k p m)

abbrev pub failure : Text → ℕ → ErrorCode → RequestOutcome
failure k g code =
    RequestOutcome.error (record { request_id = k; generation = g; code = code; message = [] })

get-failures :
    (k : Text) (g : ℕ) (code : ErrorCode) (p : PendingRequest) (m : Dict Text PendingRequest)
    → get k m ≡ some p
    → p.generation ≡ g
    → waiting p.ticket m ≡ 1
    → get p.ticket (failures g code m) ≡ some (failure k g code)
unfolding get failures waiting
get-failures k g code p [] h e w = absurd (ground arith)
get-failures k g code p ((j, q) ∷ m) h e w =
    ground (arith, get-failures k g code p m, waiting-pos k p m)

get-append :
    (t : ℕ) (o : RequestOutcome) (m n : Dict ℕ RequestOutcome)
    → get t m ≡ some o
    → get t (m ++ n) ≡ some o
unfolding get
get-append t o [] n h = absurd (ground arith)
get-append t o ((s, q) ∷ m) n h = ground (arith, get-append t o m n)

-- After any interleaving of steps, FailAll for a generation leaves no request of that generation in
-- the table and every other one as it was, and each one it takes out is held with an error that has
-- the request's id, the generation and the code.
pub fail_all_ends_generation :
    (lib : Library) (events : List Event) (g : ℕ) (code : ErrorCode) (k : Text)
    → let tracker = run lib events new_request_tracker in
      (get k (fail_all g code tracker).pending
        ≡ (if of_generation g (get k tracker.pending) then none else get k tracker.pending))
      × ((p : PendingRequest)
          → get k tracker.pending ≡ some p
          → p.generation ≡ g
          → get p.ticket (fail_all g code tracker).taken ≡ some (failure k g code))
unfolding fail_all
fail_all_ends_generation lib events g code k =
    let tracker = run lib events new_request_tracker in
    let accounted = tickets_in_one_place lib events in
    (
      get-keep_generation k g tracker.pending accounted.0,
      λ p h e.
          get-append p.ticket (failure k g code) (failures g code tracker.pending) tracker.taken (
            get-failures k g code p tracker.pending h e
              (ground (arith, accounted.1 p.ticket, waiting-pos k p tracker.pending h))),
    )
