-- ===== src/State/Adapters/Tests.antt =====
-- The theorems about the adapters at concrete inputs.
use tmuxatlas.Activity as Bytes
use tmuxatlas.Common.{
  ℕ, ◌+◌, ◌≡◌, refl, subst, is_blank, letter-not-blank, Result, err, Bool, true, false, none, some,
  List, [], ◌∷◌, arith, Text, bytes, get, text_key, ok, if◌then◌else◌, holds, Text-discrete,
}
use tmuxatlas.State.Adapters.Effects.{SameOthers, replace_hosts_shows_report}
use tmuxatlas.State.Adapters.Samples.{replace_activity_shows_samples}
use tmuxatlas.State.Adapters.Tools.{
  is_cleared, clear_tool_events_removes, key_for, apply_tool_event_shows,
}
use tmuxatlas.State.Adapters.{
  answered, replace_hosts, replace_activity, reported, clear_tool_events, apply_tool_event,
  is_clearing, tool_event_of, host_or,
}
use tmuxatlas.State.Commit.{CommitResult}
use tmuxatlas.State.Coordinator.{
  Coordinator, take_snapshot, committed, snapshot, serve, step, handle,
}
use tmuxatlas.State.Projection.{ToolEvent, Projection, new_projection}
use tmuxatlas.State.Reconcile.Complete.Whole.{SameTree, HasStableTree}
use tmuxatlas.State.Reconcile.Complete.{HasStableKeys}
use tmuxatlas.State.Reconcile.{HostSnapshot, TmuxSession, ReconcileError, desired}
use tmuxatlas.ToolEvents.{Event, status_waiting}

abbrev accepts_all : Text → Bool
accepts_all metadata = true

abbrev digits : ℕ → Text
digits n = (48 + n) ∷ []

abbrev waiting_event : ToolEvent
waiting_event = record {
  key = bytes "k";
  host_id = bytes "l";
  session = bytes "main";
  window = bytes "0";
  pane = bytes "%1";
  tool = bytes "codex";
  status = status_waiting;
  message = [];
  timestamp = 3;
  auto_detected = false;
}

abbrev hub : Coordinator
hub = record {
  instance_id = bytes "i";
  projection = record new_projection { tool_events = (bytes "k", waiting_event) ∷ [] };
  revision = 4;
  next_subscriber_id = 0;
  subscribers = [];
  detached = [];
  stopped = false;
}

hub-HasStableTree : HasStableTree hub.projection
unfolding get
hub-HasStableTree = record {
  hosts = λ k v h. absurd (ground arith);
  sessions = λ k v h. absurd (ground arith);
  windows = λ k v h. absurd (ground arith);
  panes = λ k v h. absurd (ground arith);
}

no_activity-HasStableKeys : HasStableKeys hub.projection.activity
unfolding get
no_activity-HasStableKeys k v h = absurd (ground arith)

hub_events-HasStableKeys : HasStableKeys hub.projection.tool_events
unfolding get
hub_events-HasStableKeys k v h = elim (Text-discrete (bytes "k") k) [
  | yes e ↦
      subst (λ (j : Text). is_blank j ≡ false) e
        (letter-not-blank b'k' [] (omega arith) (omega arith))
  | no n ↦ absurd (ground arith)
]

abbrev main_session : TmuxSession
main_session = record {
  id = bytes "$1";
  name = bytes "main";
  attached = true;
  created = 1;
  last_activity = 2;
  windows = [];
}

abbrev report : List HostSnapshot
report =
    record {
      id = bytes "l";
      display_name = bytes "laptop";
      online = true;
      local = true;
      version = [];
      sessions = some main_session ∷ [];
    }
    ∷ []

abbrev next_of : Result ReconcileError Projection → Projection
next_of (ok next) = next
next_of (err e) = new_projection

abbrev wanted : Projection
wanted = next_of (desired report new_projection)

replace_hosts_shows_report_example :
    let after = replace_hosts accepts_all report [] hub in
    ((r : CommitResult) × (after.1 ≡ answered (committed r)))
    × SameTree (snapshot after.0).state wanted
    × SameOthers accepts_all (snapshot after.0).state (snapshot hub).state
replace_hosts_shows_report_example =
    replace_hosts_shows_report accepts_all hub report wanted refl hub-HasStableTree
      (unfold desired in refl)

abbrev sample : Bytes.Snapshot
sample = record {
  session_name = bytes "main";
  host = [];
  idle = some 5;
  sparkline = 1 ∷ 2 ∷ [];
  total_bytes = 3;
}

replace_activity_shows_samples_example :
    let after =
      replace_activity accepts_all
        (λ idle. 7)
        (λ n. n)
        (some sample ∷ none ∷ [])
        (bytes "l")
        []
        hub in
    ((r : CommitResult) × (after.1 ≡ answered (committed r)))
    × ((k : Text)
        → get k (snapshot after.0).state.activity
          ≡ get k (reported (λ idle. 7) (λ n. n) (bytes "l") (some sample ∷ none ∷ []) []))
replace_activity_shows_samples_example =
    replace_activity_shows_samples accepts_all (λ idle. 7) (λ n. n) (some sample ∷ none ∷ [])
      (bytes "l") hub refl no_activity-HasStableKeys

clear_tool_events_removes_example :
    let after =
      clear_tool_events accepts_all digits
        (bytes "l")
        (bytes "main")
        0
        (bytes "%1")
        (take_snapshot ∷ [])
        hub in
    ((r : CommitResult) × (after.1 ≡ answered (committed r)))
    × ((k : Text)
        → get k (snapshot after.0).state.tool_events ≡ (
            if is_cleared accepts_all digits
              (bytes "l")
              (bytes "main")
              0
              (bytes "%1")
              (get k hub.projection.tool_events)
            then none
            else get k (serve accepts_all (take_snapshot ∷ []) hub).projection.tool_events))
clear_tool_events_removes_example =
    clear_tool_events_removes accepts_all digits (bytes "l") (bytes "main") 0 (bytes "%1")
      (take_snapshot ∷ []) hub refl (unfold serve step handle in refl) (unfold get in (refl, tt))
      hub_events-HasStableKeys

abbrev late_event : Event
late_event = record {
  tool = bytes "codex";
  status = status_waiting;
  host = [];
  host_name = [];
  session = bytes "main";
  window = 1;
  pane = bytes "%2";
  message = [];
  timestamp = 9;
  auto_detected = false;
}

apply_tool_event_shows_example :
    let after = apply_tool_event accepts_all digits (some late_event) (bytes "l") hub in
    ((r : CommitResult) × (after.1 ≡ answered (committed r)))
    × ((k : Text)
        → get k (snapshot after.0).state.tool_events ≡ (
            if holds (
              Text-discrete
                (key_for accepts_all digits (host_or late_event.host (bytes "l")) late_event)
                k)
            then (if is_clearing late_event
                then none
                else some (tool_event_of digits (host_or late_event.host (bytes "l")) late_event))
            else get k (snapshot hub).state.tool_events))
apply_tool_event_shows_example =
    apply_tool_event_shows accepts_all digits late_event (bytes "l") hub refl refl
