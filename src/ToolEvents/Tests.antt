-- ===== src/ToolEvents/Tests.antt =====
-- The theorems about tool events at concrete inputs.
use tmuxatlas.Common.{
  ℕ, ◌≡◌, ◌≤◌, ◌<◌, ◌-◌, ◌&&◌, refl, false, not, List, [], ◌∷◌, Option, none, some, arith, Text,
  bytes, get, has, All, is_empty, if◌then◌else◌, ℕ_discrete, Text-discrete, ◌==◌,
}
use tmuxatlas.ToolEvents.{
  Event, pane_key_key, key_of, new_tracker, Tracker, status_active, status_waiting, Step, records,
  reads, promotes, takes_inactive, new_world, run, inactive, prune,
}
use tmuxatlas.ToolEvents.Latest.{shown, events_are_latest}
use tmuxatlas.ToolEvents.Inactive.{IsHookActive, promotions_are_due}
use tmuxatlas.ToolEvents.Silence.{MonitoredPane, max_silence_checks}
use tmuxatlas.ToolEvents.Silence.Bound.{captures, outputs, checks, captures_are_bounded}
use tmuxatlas.ToolEvents.Reconcile.{reconcile, abandoned, reconcile_removes_hostless}
use tmuxatlas.ToolEvents.Detect.{PaneInfo, Detector, detect}
use tmuxatlas.ToolEvents.Detect.Seen.{some_runs_agent, seen_is_present}

abbrev event_at : Text → Text → Text → Event
event_at host pane status = record {
  tool = bytes "codex";
  status = status;
  host = host;
  host_name = [];
  session = bytes "main";
  window = 0;
  pane = pane;
  message = [];
  timestamp = 0;
  auto_detected = false;
}

abbrev some_steps : List Step
some_steps =
    records 5 (event_at [] (bytes "%2") status_waiting)
    ∷ records 6 (event_at [] (bytes "%1") status_active)
    ∷ takes_inactive 60 30
    ∷ promotes 61
    ∷ records 70 (event_at [] (bytes "%2") (bytes "completed"))
    ∷ reads 80
    ∷ []

events_are_latest_example :
    get (key_of (event_at [] (bytes "%1") [])) (run some_steps new_world).tracker.events
    ≡ shown (key_of (event_at [] (bytes "%1") [])) some_steps new_world none
events_are_latest_example = events_are_latest (key_of (event_at [] (bytes "%1") [])) some_steps

promotions_are_due_example :
    let w =
      run
        (records 1 (event_at [] (bytes "%1") status_active)
          ∷ records 50 (event_at [] (bytes "%2") status_active)
          ∷ takes_inactive 60 30
          ∷ [])
        new_world in
    All (λ e. IsHookActive e × (5 < 70 - e.timestamp)) (inactive 70 5 w.tracker.last_active)
    × All IsHookActive w.waiting
promotions_are_due_example =
    promotions_are_due
      (records 1 (event_at [] (bytes "%1") status_active)
        ∷ records 50 (event_at [] (bytes "%2") status_active)
        ∷ takes_inactive 60 30
        ∷ [])
      70 5

abbrev quiet_pane : MonitoredPane
quiet_pane = record {
  tool = bytes "codex";
  session = bytes "main";
  window = 0;
  last_output = 0;
  prompted = false;
  silence_checks = 0;
}

captures_are_bounded_example :
    captures
      (bytes "%1")
      (checks 10000000000
        ∷ outputs 10000000001 (bytes "%2")
        ∷ checks 20000000000
        ∷ checks 30000000000
        ∷ [])
      ((bytes "%1", quiet_pane) ∷ [])
    ≤ (if quiet_pane.prompted then 0 else max_silence_checks - quiet_pane.silence_checks)
unfolding get Text-discrete ℕ_discrete
captures_are_bounded_example =
    captures_are_bounded (bytes "%1") quiet_pane
      (checks 10000000000
        ∷ outputs 10000000001 (bytes "%2")
        ∷ checks 20000000000
        ∷ checks 30000000000
        ∷ [])
      ((bytes "%1", quiet_pane) ∷ []) (refl, tt) refl (tt, (ground arith, (tt, (tt, tt))))

-- The pane of a tracked event with a host is gone, and the event stays.
hosted : Tracker
hosted = record {
  events =
      (
        key_of (event_at (bytes "h1") (bytes "%1") []),
        event_at (bytes "h1") (bytes "%1") status_waiting,
      )
      ∷ [];
  last_active = [];
  subscribers = [];
}

reconcile_removes_hostless_example :
    let key = key_of (event_at (bytes "h1") (bytes "%1") []) in
    get key (reconcile 9 (λ pane. none) hosted).events ≡ (
      if is_empty key.host && abandoned (λ pane. none) key.pane
      then none
      else get key (prune 9 hosted).events)
reconcile_removes_hostless_example =
    reconcile_removes_hostless 9 (λ pane. none) (key_of (event_at (bytes "h1") (bytes "%1") []))
      hosted (unfold hosted in (refl, tt))

abbrev codex_below : ℕ → Option Text
codex_below pid = if pid == 42 then some (bytes "codex") else none

abbrev agent_pane : PaneInfo
agent_pane = record { pane_id = bytes "%1"; session = bytes "main"; window = 0; pid = 42 }

abbrev idle_detector : Detector
idle_detector = record { tracker = new_tracker; seen = []; host_id = []; host_name = [] }

seen_is_present_example :
    let key = key_of (event_at [] (bytes "%1") []) in
    has key (detect codex_below 9 (agent_pane ∷ []) idle_detector).seen ≡ (
      not (has key (prune 9 idle_detector.tracker).events)
      && not (has key idle_detector.tracker.last_active)
      && some_runs_agent codex_below key (agent_pane ∷ []))
seen_is_present_example =
    seen_is_present codex_below 9 agent_pane [] (key_of (event_at [] (bytes "%1") [])) idle_detector
