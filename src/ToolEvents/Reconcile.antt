-- ===== src/ToolEvents/Reconcile.antt =====
-- pkg/toolevents/reconciler.go: events whose pane is gone, or shows a shell, are cleared.
use tmuxatlas.Common.{
  ℕ, ◌≡◌, refl, ap, sym, ◌∙◌, Bool, true, false, not, ◌&&◌, ◌||◌, List, [], ◌∷◌, Option, none, some,
  arith, Text, bytes, same_text, is_empty, Text-discrete, Dict, get, All, any, if◌then◌else◌, holds,
  Bool-cases, Option-cases, inl, inr, get-remove, All-keep,
}
use tmuxatlas.ToolEvents.{
  Event, PaneKey, PaneKey-discrete, pane_key_key, key_of, status_completed, Tracker, record_event,
  prune, older_than, stale_timeout,
}

abbrev pub shells : List Text
shells =
    bytes "zsh"
    ∷ bytes "bash"
    ∷ bytes "fish"
    ∷ bytes "sh"
    ∷ bytes "dash"
    ∷ bytes "tcsh"
    ∷ bytes "csh"
    ∷ bytes "ksh"
    ∷ bytes "pwsh"
    ∷ []

-- PaneState: none for a pane that does not exist, else its current command.
abbrev pub has_no_agent : Option Text → Bool
has_no_agent none = true
has_no_agent (some command) = any (λ s. same_text s command) shells

-- A pane for which an event is cleared: the empty identifier is passed over.
abbrev pub abandoned : (Text → Option Text) → Text → Bool
abandoned lookup pane = not (is_empty pane) && has_no_agent (lookup pane)

-- The synthetic event; its host is left out.
abbrev pub completed_event : Event → Event
completed_event e = record {
  tool = e.tool;
  status = status_completed;
  host = [];
  host_name = [];
  session = e.session;
  window = e.window;
  pane = e.pane;
  message = bytes "auto-cleared: agent no longer running";
  timestamp = 0;
  auto_detected = false;
}

abbrev pub values : Dict PaneKey Event → List Event
values [] = []
values ((key, e) ∷ m) = e ∷ values m

unfoldable pub reconcile_events : ℕ → (Text → Option Text) → List Event → Tracker → Tracker
reconcile_events now lookup [] tracker = tracker
reconcile_events now lookup (e ∷ events) tracker =
    reconcile_events now lookup events
      (if abandoned lookup e.pane then record_event now (completed_event e) tracker else tracker)

-- reconcile
unfoldable pub reconcile : ℕ → (Text → Option Text) → Tracker → Tracker
unfolding reconcile_events prune
reconcile now lookup tracker =
    let known = prune now tracker in reconcile_events now lookup (values known.events) known

-- Whether one of some events leads to a record that clears a key.
hits : (Text → Option Text) → PaneKey → List Event → Bool
hits lookup key [] = false
hits lookup key (e ∷ events) =
    (abandoned lookup e.pane && holds (PaneKey-discrete (key_of (completed_event e)) key))
    || hits lookup key events

record_completed :
    (now : ℕ) (e : Event) (key : PaneKey) (tracker : Tracker)
    → get key (record_event now (completed_event e) tracker).events ≡ (
        if holds (PaneKey-discrete (key_of (completed_event e)) key)
        then none
        else get key tracker.events)
unfolding record_event Text-discrete
record_completed now e key tracker =
    ground (arith, get-remove key (key_of (completed_event e)) tracker.events)

get-reconcile_events :
    (now : ℕ) (lookup : Text → Option Text) (key : PaneKey) (events : List Event)
    (tracker : Tracker)
    → get key (reconcile_events now lookup events tracker).events
      ≡ (if hits lookup key events then none else get key tracker.events)
unfolding reconcile_events hits
get-reconcile_events now lookup key [] tracker = refl
get-reconcile_events now lookup key (e ∷ events) tracker = ground (
  arith,
  get-reconcile_events now lookup key events
      (if abandoned lookup e.pane then record_event now (completed_event e) tracker else tracker),
  record_completed now e key tracker,
)

hits-hosted :
    (lookup : Text → Option Text) (key : PaneKey) (events : List Event)
    → is_empty key.host && abandoned lookup key.pane ≡ false
    → hits lookup key events ≡ false
unfolding hits
hits-hosted lookup key [] h = refl
hits-hosted lookup key (e ∷ events) h = elim (PaneKey-discrete (key_of (completed_event e)) key) [
  | yes p ↦ ground (
    arith,
    ap (λ (k : PaneKey). is_empty k.host) p,
    ap (λ (k : PaneKey). abandoned lookup k.pane) p,
    hits-hosted lookup key events,
  )
  | no n ↦ ground (arith, hits-hosted lookup key events)
]

-- An entry of the map stands at the key of its pane.
abbrev pub IsKeyed : PaneKey × Event → Type 0
IsKeyed (key, e) = key_of e ≡ key

is_empty-nil : (t : Text) → is_empty t ≡ true → t ≡ []
is_empty-nil [] h = refl
is_empty-nil (c ∷ t) h = cc

hostless :
    (q : Event) (key : PaneKey)
    → key_of q ≡ key
    → is_empty key.host ≡ true
    → key_of (completed_event q) ≡ key
hostless q key p h =
    let empty = is_empty-nil key.host h in
    ap (λ (t : Text). record (key_of q) { host = t })
      (sym empty ∙ sym (ap (λ (k : PaneKey). k.host) p))
    ∙ p

hits-entry :
    (lookup : Text → Option Text) (key : PaneKey) (e : Event) (m : Dict PaneKey Event)
    → All IsKeyed m
    → get key m ≡ some e
    → is_empty key.host && abandoned lookup key.pane ≡ true
    → hits lookup key (values m) ≡ true
unfolding hits get
hits-entry lookup key e [] k h a = absurd (ground arith)
hits-entry lookup key e ((j, q) ∷ m) k h a = elim (PaneKey-discrete j key) [
  | yes p ↦
      let same = hostless q key (k.0 ∙ p) (ground arith) in
      ground (arith, same, ap (λ (k : PaneKey). abandoned lookup k.pane) same)
  | no n ↦ ground (arith, hits-entry lookup key e m k.1)
]

-- In a tracker whose entries stand at the keys of their panes, a reconciliation removes just the
-- entries that are stale and the ones without a host whose pane, if it has an identifier, is gone or
-- shows a shell. It leaves every other one: an entry with a host stays, whatever its pane shows.
pub reconcile_removes_hostless :
    (now : ℕ) (lookup : Text → Option Text) (key : PaneKey) (tracker : Tracker)
    → All IsKeyed tracker.events
    → get key (reconcile now lookup tracker).events ≡ (
        if is_empty key.host && abandoned lookup key.pane
        then none
        else get key (prune now tracker).events)
unfolding reconcile
reconcile_removes_hostless now lookup key tracker k =
    let known = prune now tracker in
    let loop = get-reconcile_events now lookup key (values known.events) known in
    elim (Bool-cases (is_empty key.host && abandoned lookup key.pane)) [
      | inr a ↦ ground (arith, loop, hits-hosted lookup key (values known.events) a)
      | inl a ↦ elim (Option-cases (get key known.events)) [
        | inl e ↦ ground (arith, loop)
        | inr (v, e) ↦ ground (
          arith,
          loop,
          hits-entry lookup key v known.events
              (unfold prune in
                All-keep IsKeyed (λ _ e. not (older_than now stale_timeout e)) tracker.events k)
              e a,
        )
      ]
    ]
