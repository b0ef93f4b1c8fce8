-- ===== src/ToolEvents.antt =====
-- pkg/toolevents/tracker.go: the latest status of the coding tools in the panes. Times are
-- nanoseconds. The two mutexes guard one record each; a channel is the list of what it holds.
pub mod Latest
pub mod Inactive
pub mod Prompt
pub mod Silence
pub mod Reconcile
pub mod Detect
mod Tests
use tmuxatlas.Common.{
  ℕ, suc, ◌+◌, ◌-◌, Bool, true, false, not, ◌&&◌, ◌||◌, List, [], ◌∷◌, ◌++◌, Option, none, some,
  Text, bytes, same_text, Text-discrete, text_key, ℕ_discrete, Key, Dict, get, put, remove, keep,
  length, ltb, ◌==◌, if◌then◌else◌,
}

abbrev pub tool_claude : Text
tool_claude = bytes "claude"

abbrev pub tool_open_code : Text
tool_open_code = bytes "opencode"

abbrev pub status_active : Text
status_active = bytes "active"

abbrev pub status_waiting : Text
status_waiting = bytes "waiting"

abbrev pub status_completed : Text
status_completed = bytes "completed"

pub record Event : Type 0 where
  pub tool : Text
  pub status : Text
  pub host : Text
  pub host_name : Text
  pub session : Text
  pub window : ℕ
  pub pane : Text
  pub message : Text
  pub timestamp : ℕ
  pub auto_detected : Bool

pub record PaneKey : Type 0 where
  pub host : Text
  pub session : Text
  pub window : ℕ
  pub pane : Text

unfoldable pub PaneKey-discrete : Discrete PaneKey
PaneKey-discrete = hlevel (ℕ_discrete, Text-discrete)

instance abbrev pub pane_key_key : Key PaneKey
pane_key_key = record { eq? = PaneKey-discrete }

abbrev pub key_of : Event → PaneKey
key_of e = record { host = e.host; session = e.session; window = e.window; pane = e.pane }

-- nativeWaitingTools[tool]
abbrev pub native_waiting : Text → Bool
native_waiting tool = same_text tool tool_claude || same_text tool tool_open_code

pub record Subscriber : Type 0 where
  pub id : ℕ
  pub buffer : List Event

pub record Tracker : Type 0 where
  pub events : Dict PaneKey Event
  pub last_active : Dict PaneKey Event
  pub subscribers : List Subscriber

abbrev pub new_tracker : Tracker
new_tracker = record { events = []; last_active = []; subscribers = [] }

abbrev pub clears : Text → Bool
clears status = same_text status status_completed || same_text status status_active

-- Whether an event touches the map of last activity.
abbrev pub watched : Event → Bool
watched e = not (native_waiting e.tool) && not e.auto_detected

abbrev pub subscriber_capacity : ℕ
subscriber_capacity = 64

-- A send that is dropped where the channel is full.
unfoldable pub broadcast : Event → List Subscriber → List Subscriber
broadcast e [] = []
broadcast e (s ∷ rest) =
    (if ltb (length s.buffer) subscriber_capacity
      then record s { buffer = s.buffer ++ e ∷ [] }
      else s)
    ∷ broadcast e rest

-- Record
unfoldable pub record_event : ℕ → Event → Tracker → Tracker
unfolding broadcast
record_event now event tracker =
    let evt = record event { timestamp = now } in
    let key = key_of evt in
    record {
      events = if clears evt.status then remove key tracker.events else put key evt tracker.events;
      last_active =
          if watched evt
          then if same_text evt.status status_active
            then put key evt tracker.last_active
            else remove key tracker.last_active
          else tracker.last_active;
      subscribers = broadcast evt tracker.subscribers;
    }

abbrev pub stale_timeout : ℕ
stale_timeout = 86400000000000

-- now.Sub(evt.Timestamp) > timeout
abbrev pub older_than : ℕ → ℕ → Event → Bool
older_than now timeout e = ltb timeout (now - e.timestamp)

-- GetAll: what is left are the events of the result.
unfoldable pub prune : ℕ → Tracker → Tracker
prune now tracker = record tracker {
  events = keep (λ _ e. not (older_than now stale_timeout e)) tracker.events;
}

unfoldable pub clear : PaneKey → Tracker → Tracker
clear key tracker = record tracker { events = remove key tracker.events }

unfoldable pub clear_all : Tracker → Tracker
clear_all tracker = record tracker { events = [] }

unfoldable pub events_of_session : Text → Dict PaneKey Event → List Event
events_of_session session [] = []
events_of_session session ((key, e) ∷ rest) =
    let others = events_of_session session rest in
    if same_text key.session session then e ∷ others else others

unfoldable pub subscribe : ℕ → Tracker → Tracker
subscribe id tracker = record tracker {
  subscribers = tracker.subscribers ++ record { id = id; buffer = [] } ∷ [];
}

-- The first subscriber with the channel is taken out.
unfoldable pub without_subscriber : ℕ → List Subscriber → List Subscriber
without_subscriber id [] = []
without_subscriber id (s ∷ rest) =
    let others = without_subscriber id rest in if s.id == id then rest else s ∷ others

unfoldable pub unsubscribe : ℕ → Tracker → Tracker
unfolding without_subscriber
unsubscribe id tracker = record tracker { subscribers = without_subscriber id tracker.subscribers }

-- The locked section of promoteInactive: what it takes out of the map of last activity.
unfoldable pub inactive : ℕ → ℕ → Dict PaneKey Event → List Event
inactive now timeout [] = []
inactive now timeout ((key, e) ∷ rest) =
    let others = inactive now timeout rest in
    if older_than now timeout e then e ∷ others else others

unfoldable pub without_inactive : ℕ → ℕ → Tracker → Tracker
without_inactive now timeout tracker = record tracker {
  last_active = keep (λ _ e. not (older_than now timeout e)) tracker.last_active;
}

-- The event that is recorded for one of them.
abbrev pub promoted : Event → Event
promoted e = record {
  tool = e.tool;
  status = status_waiting;
  host = e.host;
  host_name = [];
  session = e.session;
  window = e.window;
  pane = e.pane;
  message = bytes "May need attention";
  timestamp = 0;
  auto_detected = false;
}

-- The calls of concurrent goroutines. `waiting` are the events that promoteInactive has taken and not
-- yet recorded.
pub record World : Type 0 where
  pub tracker : Tracker
  pub waiting : List Event

pub data Step : Type 0 where
  records : ℕ → Event → Step
  reads : ℕ → Step
  clears_pane : PaneKey → Step
  clears_all : Step
  subscribes unsubscribes : ℕ → Step
  takes_inactive : ℕ → ℕ → Step
  promotes : ℕ → Step

abbrev promote_first : ℕ → List Event → Tracker → World
promote_first now [] tracker = record { tracker = tracker; waiting = [] }
promote_first now (e ∷ rest) tracker = record {
  tracker = record_event now (promoted e) tracker;
  waiting = rest;
}

unfoldable pub handle : Step → World → World
unfolding prune clear clear_all subscribe unsubscribe inactive without_inactive
handle (records now e) w = record w { tracker = record_event now e w.tracker }
handle (reads now) w = record w { tracker = prune now w.tracker }
handle (clears_pane key) w = record w { tracker = clear key w.tracker }
handle clears_all w = record w { tracker = clear_all w.tracker }
handle (subscribes id) w = record w { tracker = subscribe id w.tracker }
handle (unsubscribes id) w = record w { tracker = unsubscribe id w.tracker }
handle (takes_inactive now timeout) w = record {
  tracker = without_inactive now timeout w.tracker;
  waiting = w.waiting ++ inactive now timeout w.tracker.last_active;
}
handle (promotes now) w = promote_first now w.waiting w.tracker

unfoldable pub run : List Step → World → World
unfolding handle
run [] w = w
run (s ∷ steps) w = run steps (handle s w)

abbrev pub new_world : World
new_world = record { tracker = new_tracker; waiting = [] }
