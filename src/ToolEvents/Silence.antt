-- ===== src/ToolEvents/Silence.antt =====
-- pkg/toolevents/silence.go: panes that have gone quiet are looked at for prompts, a few times.
pub mod Bound
use tmuxatlas.Common.{
  ℕ, suc, ◌+◌, ◌-◌, Bool, true, false, not, ◌&&◌, ◌||◌, List, [], ◌∷◌, ◌++◌, Option, none, some,
  Text, bytes, same_text, text_key, Dict, get, put, remove, keep, has, ltb, leb, ◌==◌,
  if◌then◌else◌,
}
use tmuxatlas.ToolEvents.{Event, Tracker, tool_claude, status_waiting, record_event}

abbrev pub silence_threshold : ℕ
silence_threshold = 10000000000

abbrev pub max_silence_checks : ℕ
max_silence_checks = 2

pub record MonitoredPane : Type 0 where
  pub tool : Text
  pub session : Text
  pub window : ℕ
  pub last_output : ℕ
  pub prompted : Bool
  pub silence_checks : ℕ

abbrev pub Monitored : Type 0
Monitored = Dict Text MonitoredPane

abbrev pub with_output : ℕ → Option MonitoredPane → Text → Monitored → Monitored
with_output now none pane m = m
with_output now (some mp) pane m =
    put pane
      (if mp.prompted || ltb 0 mp.silence_checks
        then record mp { last_output = now; prompted = false; silence_checks = 0 }
        else record mp { last_output = now })
      m

-- RecordOutput
unfoldable pub record_output : ℕ → Text → Monitored → Monitored
record_output now pane m = with_output now (get pane m) pane m

abbrev pub fresh_pane : ℕ → (Text → Text × ℕ) → Text → Text → MonitoredPane
fresh_pane now info pane tool = record {
  tool = tool;
  session = (info pane).0;
  window = (info pane).1;
  last_output = now;
  prompted = false;
  silence_checks = 0;
}

-- The first loop of sync, over the detected panes; `info` is Detector.PaneInfo.
unfoldable pub add_panes : ℕ → (Text → Text × ℕ) → Dict Text Text → Monitored → Monitored
add_panes now info [] m = m
add_panes now info ((pane, tool) ∷ detected) m = add_panes now info detected (
    if same_text tool tool_claude || has pane m
    then m
    else put pane (fresh_pane now info pane tool) m)

unfoldable pub sync : ℕ → (Text → Text × ℕ) → Dict Text Text → Monitored → Monitored
unfolding add_panes
sync now info detected m = keep (λ pane _. has pane detected) (add_panes now info detected m)

-- The test in the locked section of checkSilentPanes.
abbrev pub is_due : ℕ → MonitoredPane → Bool
is_due now mp =
    not (mp.prompted || leb max_silence_checks mp.silence_checks)
    && leb silence_threshold (now - mp.last_output)

-- The panes that are looked at, and the counts after it.
unfoldable pub due_panes : ℕ → Monitored → List (Text × MonitoredPane)
due_panes now [] = []
due_panes now ((pane, mp) ∷ m) =
    let rest = due_panes now m in if is_due now mp then (pane, mp) ∷ rest else rest

unfoldable pub count_checks : ℕ → Monitored → Monitored
count_checks now [] = []
count_checks now ((pane, mp) ∷ m) =
    (pane, if is_due now mp then record mp { silence_checks = suc mp.silence_checks } else mp)
    ∷ count_checks now m

abbrev pub prompted_at : Option MonitoredPane → Text → Monitored → Monitored
prompted_at none pane m = m
prompted_at (some mp) pane m = put pane (record mp { prompted = true }) m

unfoldable pub mark_prompted : Text → Monitored → Monitored
mark_prompted pane m = prompted_at (get pane m) pane m

-- The event that is recorded for a prompt; the monitor's host stands in it.
abbrev pub prompt_event : Text → Text → Text → MonitoredPane → Text → Event
prompt_event host host_name pane mp message = record {
  tool = mp.tool;
  status = status_waiting;
  host = host;
  host_name = host_name;
  session = mp.session;
  window = mp.window;
  pane = pane;
  message = message;
  timestamp = 0;
  auto_detected = true;
}

-- One round of the loop over the targets, with what DetectPrompt says of the captured content, or
-- none where the capture failed or is no prompt.
unfoldable pub check_pane :
    ℕ → Text → Text → Text × MonitoredPane → Option Text → Monitored × Tracker → Monitored × Tracker
unfolding mark_prompted
check_pane now host host_name (pane, mp) none (m, tracker) = (m, tracker)
check_pane now host host_name (pane, mp) (some message) (m, tracker) =
    (mark_prompted pane m, record_event now (prompt_event host host_name pane mp message) tracker)
