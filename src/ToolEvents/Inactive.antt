-- ===== src/ToolEvents/Inactive.antt =====
-- Which events the inactivity promoter turns into waiting ones.
use tmuxatlas.Common.{
  ℕ, ◌-◌, ◌<◌, ◌≡◌, refl, false, not, List, [], ◌∷◌, ◌++◌, arith, Dict, All, Bool-cases, inl, inr,
  All-put, All-remove, All-keep, same_text,
}
use tmuxatlas.ToolEvents.{
  Event, PaneKey, pane_key_key, key_of, native_waiting, watched, status_active, Tracker,
  record_event, older_than, prune, inactive, without_inactive, World, new_world, Step, records,
  reads, clears_pane, clears_all, subscribes, unsubscribes, takes_inactive, promotes, handle, run,
  promoted, clear, clear_all, subscribe, unsubscribe,
}

-- An active event that a hook sent, of a tool without a waiting event of its own.
abbrev pub IsHookActive : Event → Type 0
IsHookActive e =
    (native_waiting e.tool ≡ false) × (e.status ≡ status_active) × (e.auto_detected ≡ false)

-- The same, of an entry of the map of last activity, which stands at the key of its pane.
abbrev pub IsEntry : PaneKey × Event → Type 0
IsEntry (key, e) = IsHookActive e × (key_of e ≡ key)

abbrev pub IsQuiet : World → Type 0
IsQuiet w = All IsEntry w.tracker.last_active × All IsHookActive w.waiting

record_event-IsEntry :
    (now : ℕ) (e : Event) (tracker : Tracker)
    → All IsEntry tracker.last_active
    → All IsEntry (record_event now e tracker).last_active
unfolding record_event
record_event-IsEntry now e tracker h = elim (Bool-cases (watched e)) [
  | inr f ↦ rw f h
  | inl f ↦ elim (Bool-cases (same_text e.status status_active)) [
    | inr g ↦ rw (f, g) (All-remove IsEntry (key_of e) tracker.last_active h)
    | inl g ↦
        rw (f, g)
          (All-put IsEntry (key_of e) (record e { timestamp = now }) tracker.last_active
            ((ground arith, ground arith, ground arith), refl) h)
  ]
]

All-append_entries :
    (xs ys : List Event) → All IsHookActive xs → All IsHookActive ys → All IsHookActive (xs ++ ys)
All-append_entries [] ys h g = g
All-append_entries (x ∷ xs) ys h g = (h.0, All-append_entries xs ys h.1 g)

inactive-IsHookActive :
    (now timeout : ℕ) (m : Dict PaneKey Event)
    → All IsEntry m
    → All (λ e. IsHookActive e × (timeout < now - e.timestamp)) (inactive now timeout m)
      × All IsHookActive (inactive now timeout m)
unfolding inactive
inactive-IsHookActive now timeout [] h = (tt, tt)
inactive-IsHookActive now timeout ((key, e) ∷ m) h =
    let (due, rest) = inactive-IsHookActive now timeout m h.1 in
    elim (Bool-cases (older_than now timeout e)) [
      | inl o ↦ rw o (((h.0.0, ground arith), due), (h.0.0, rest))
      | inr o ↦ rw o (due, rest)
    ]

promote-IsQuiet :
    (now : ℕ) (waiting : List Event) (tracker : Tracker)
    → All IsEntry tracker.last_active
    → All IsHookActive waiting
    → IsQuiet (handle (promotes now) (record { tracker = tracker; waiting = waiting }))
unfolding handle
promote-IsQuiet now [] tracker h g = (h, tt)
promote-IsQuiet now (e ∷ waiting) tracker h g =
    (record_event-IsEntry now (promoted e) tracker h, g.1)

handle-IsQuiet : (s : Step) (w : World) → IsQuiet w → IsQuiet (handle s w)
unfolding handle prune clear clear_all subscribe unsubscribe without_inactive
handle-IsQuiet (records now e) w q = (record_event-IsEntry now e w.tracker q.0, q.1)
handle-IsQuiet (takes_inactive now timeout) w q = (
  All-keep IsEntry (λ _ e. not (older_than now timeout e)) w.tracker.last_active q.0,
  All-append_entries w.waiting (inactive now timeout w.tracker.last_active) q.1
      (inactive-IsHookActive now timeout w.tracker.last_active q.0).1,
)
handle-IsQuiet (promotes now) w q = promote-IsQuiet now w.waiting w.tracker q.0 q.1
handle-IsQuiet (reads now) w q = q
handle-IsQuiet (clears_pane key) w q = q
handle-IsQuiet clears_all w q = q
handle-IsQuiet (subscribes id) w q = q
handle-IsQuiet (unsubscribes id) w q = q

run-IsQuiet : (steps : List Step) (w : World) → IsQuiet w → IsQuiet (run steps w)
unfolding run
run-IsQuiet [] w q = q
run-IsQuiet (s ∷ steps) w q = run-IsQuiet steps (handle s w) (handle-IsQuiet s w q)

-- After any interleaving of the tracker's calls, what the inactivity promoter takes at a time are active
-- events that hooks sent, of tools without a waiting event of their own, which are all but Claude and
-- OpenCode, each older than the timeout; and so are, but for the age, the events that it has taken and
-- not yet recorded as waiting.
pub promotions_are_due :
    (steps : List Step) (now timeout : ℕ)
    → let w = run steps new_world in
      All
        (λ e. IsHookActive e × (timeout < now - e.timestamp))
        (inactive now timeout w.tracker.last_active)
      × All IsHookActive w.waiting
promotions_are_due steps now timeout =
    let q = run-IsQuiet steps new_world (tt, tt) in
    ((inactive-IsHookActive now timeout (run steps new_world).tracker.last_active q.0).0, q.1)
