-- ===== src/ToolEvents/Latest.antt =====
-- What the tracker says of a pane.
use tmuxatlas.Common.{
  false, Text-discrete, ℕ_discrete, ℕ, ◌≡◌, ◌-◌, refl, ap, ◌∙◌, ◌||◌, List, [], ◌∷◌, Option, none,
  some, arith, bytes, same_text, ltb, ite, if◌then◌else◌, get, get-put, get-remove, get-keep-some,
  get-keep-none, get-keep-dropped, Unique, put-Unique, remove-Unique, keep-Unique, Bool-cases,
  Option-cases, inl, inr,
}
use tmuxatlas.ToolEvents.{
  Event, PaneKey, pane_key_key, key_of, Tracker, record_event, older_than, stale_timeout, prune,
  clear, clear_all, subscribe, unsubscribe, without_inactive, promoted, World, new_world, Step,
  records, reads, clears_pane, clears_all, subscribes, unsubscribes, takes_inactive, promotes,
  handle, run,
}

-- What one pane shows, without the maps. A record of an active or a completed status shows nothing.
abbrev pub shown_record : ℕ → Event → Option Event
shown_record now e =
    if same_text e.status (bytes "active") || same_text e.status (bytes "completed")
    then none
    else some (record e { timestamp = now })

-- The event of a pane that a read at a time leaves: one of the 24 hours before.
abbrev pub unless_stale : ℕ → Option Event → Option Event
unless_stale now none = none
unless_stale now (some e) = if ltb 86400000000000 (now - e.timestamp) then none else some e

-- An inactivity promotion shows the event of its pane as waiting, without the host's name.
abbrev pub shown_waiting : ℕ → Event → Event
shown_waiting now e = record e {
  status = bytes "waiting";
  message = bytes "May need attention";
  host_name = [];
  timestamp = now;
  auto_detected = false;
}

abbrev pub shown_promotion : PaneKey → ℕ → List Event → Option Event → Option Event
shown_promotion key now [] before = before
shown_promotion key now (e ∷ waiting) before =
    ite (pane_key_key.eq? (key_of e) key) (some (shown_waiting now e)) before

-- What the pane shows after a step, by what it showed before and the events that wait for promotion.
abbrev pub shown_after : PaneKey → Step → List Event → Option Event → Option Event
shown_after key (records now e) waiting before =
    ite (pane_key_key.eq? (key_of e) key) (shown_record now e) before
shown_after key (reads now) waiting before = unless_stale now before
shown_after key (clears_pane k) waiting before = ite (pane_key_key.eq? k key) none before
shown_after key clears_all waiting before = none
shown_after key (promotes now) waiting before = shown_promotion key now waiting before
shown_after key (subscribes id) waiting before = before
shown_after key (unsubscribes id) waiting before = before
shown_after key (takes_inactive now timeout) waiting before = before

unfoldable pub shown : PaneKey → List Step → World → Option Event → Option Event
shown key [] w before = before
shown key (s ∷ steps) w before = shown key steps (handle s w) (shown_after key s w.waiting before)

get-record_event :
    (key : PaneKey) (now : ℕ) (e : Event) (tracker : Tracker)
    → get key (record_event now e tracker).events
      ≡ ite (pane_key_key.eq? (key_of e) key) (shown_record now e) (get key tracker.events)
unfolding record_event
get-record_event key now e tracker = ground (
  arith,
  get-put key (key_of e) (record e { timestamp = now }) tracker.events,
  get-remove key (key_of e) tracker.events,
)

get-prune :
    (key : PaneKey) (now : ℕ) (tracker : Tracker)
    → Unique tracker.events
    → get key (prune now tracker).events ≡ unless_stale now (get key tracker.events)
unfolding prune
get-prune key now tracker u = elim (Option-cases (get key tracker.events)) [
  | inl h ↦ rw h (get-keep-none _ key tracker.events h)
  | inr (e, h) ↦ elim (Bool-cases (older_than now stale_timeout e)) [
    | inl o ↦ rw (h, o) (get-keep-dropped _ key e tracker.events u h (rw o refl))
    | inr o ↦ rw (h, o) (get-keep-some _ key e tracker.events h (rw o refl))
  ]
]

get-handle :
    (key : PaneKey) (s : Step) (w : World)
    → Unique w.tracker.events
    → get key (handle s w).tracker.events ≡ shown_after key s w.waiting (get key w.tracker.events)
unfolding handle clear clear_all subscribe unsubscribe without_inactive Text-discrete ℕ_discrete
get-handle key (records now e) w u = get-record_event key now e w.tracker
get-handle key (reads now) w u = get-prune key now w.tracker u
get-handle key (clears_pane k) w u = get-remove key k w.tracker.events
get-handle key clears_all w u = unfold get in refl
get-handle key (promotes now) w u = get-promoted w.waiting w.tracker
  where
    get-promoted :
        (waiting : List Event) (tracker : Tracker)
        → get key
            (handle (promotes now) (record { tracker = tracker; waiting = waiting })).tracker.events
          ≡ shown_promotion key now waiting (get key tracker.events)
    get-promoted [] tracker = refl
    get-promoted (e ∷ waiting) tracker = get-record_event key now (promoted e) tracker
get-handle key (subscribes id) w u = refl
get-handle key (unsubscribes id) w u = refl
get-handle key (takes_inactive now timeout) w u = refl

record_event-Unique :
    (now : ℕ) (e : Event) (tracker : Tracker)
    → Unique tracker.events
    → Unique (record_event now e tracker).events
unfolding record_event
record_event-Unique now e tracker u = ground (
  arith,
  put-Unique (key_of e) (record e { timestamp = now }) tracker.events u,
  remove-Unique (key_of e) tracker.events u,
)

promotes-Unique :
    (now : ℕ) (waiting : List Event) (tracker : Tracker)
    → Unique tracker.events
    → Unique
        (handle (promotes now) (record { tracker = tracker; waiting = waiting })).tracker.events
unfolding handle
promotes-Unique now [] tracker u = u
promotes-Unique now (e ∷ waiting) tracker u = record_event-Unique now (promoted e) tracker u

handle-Unique :
    (s : Step) (w : World) → Unique w.tracker.events → Unique (handle s w).tracker.events
unfolding handle prune clear clear_all subscribe unsubscribe without_inactive
handle-Unique (records now e) w u = record_event-Unique now e w.tracker u
handle-Unique (reads now) w u = keep-Unique _ w.tracker.events u
handle-Unique (clears_pane k) w u = remove-Unique k w.tracker.events u
handle-Unique clears_all w u = tt
handle-Unique (promotes now) w u = promotes-Unique now w.waiting w.tracker u
handle-Unique (subscribes id) w u = u
handle-Unique (unsubscribes id) w u = u
handle-Unique (takes_inactive now timeout) w u = u

run-shown :
    (key : PaneKey) (steps : List Step) (w : World)
    → Unique w.tracker.events
    → get key (run steps w).tracker.events ≡ shown key steps w (get key w.tracker.events)
unfolding run shown
run-shown key [] w u = refl
run-shown key (s ∷ steps) w u =
    run-shown key steps (handle s w) (handle-Unique s w u)
    ∙ ap (λ before. shown key steps (handle s w) before) (get-handle key s w u)

-- After any interleaving of the tracker's calls, the tracker has for each pane what the calls alone tell:
-- the last event recorded or promoted for the pane, with the time of its record, unless its status was
-- active or completed, the pane or everything was cleared since, or a read since found it older than 24
-- hours; then it has none. Other panes' calls change nothing.
pub events_are_latest :
    (key : PaneKey) (steps : List Step)
    → get key (run steps new_world).tracker.events ≡ shown key steps new_world none
events_are_latest key steps = run-shown key steps new_world tt ∙ unfold get in refl
