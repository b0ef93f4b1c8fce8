-- ===== src/ToolEvents/Detect.antt =====
-- pkg/toolevents/detect.go and detector.go: agents are found by the arguments of the processes below
-- a pane. What /proc says of a process and the functions on texts are parameters.
pub mod Seen
use tmuxatlas.Common.{
  ℕ, Bool, true, false, not, ◌&&◌, ◌||◌, List, [], ◌∷◌, Option, none, some, Text, bytes, same_text,
  is_empty, Dict, get, put, keep, has, any, holds, ◌==◌, if◌then◌else◌,
}
use tmuxatlas.ToolEvents.{
  Event, PaneKey, PaneKey-discrete, pane_key_key, key_of, Tracker, record_event, prune,
  status_active, tool_claude, tool_open_code,
}

-- filepath.Base, strings.HasPrefix(arg, "-"), strings.Contains of strings.ToLower, the children of a
-- process and its arguments.
pub record Processes : Type 0 where
  pub base : Text → Text
  pub is_option : Text → Bool
  pub mentions : Text → Text → Bool
  pub children : ℕ → List ℕ
  pub arguments : ℕ → List Text

abbrev pub tool_codex : Text
tool_codex = bytes "codex"

abbrev pub tool_copilot : Text
tool_copilot = bytes "copilot"

pub record PaneInfo : Type 0 where
  pub pane_id : Text
  pub session : Text
  pub window : ℕ
  pub pid : ℕ

module _ (os : Processes) where
  open os use {base, is_option, mentions, children, arguments}

  unfoldable pub match_binary_name : List Text → Text → Bool
  match_binary_name [] name = false
  match_binary_name (binary ∷ args) name = same_text (base binary) name

  unfoldable pub match_node_script : List Text → Text → Bool
  match_node_script [] name = false
  match_node_script (binary ∷ []) name = false
  match_node_script (binary ∷ arg ∷ args) name =
      (same_text (base binary) (bytes "node") || same_text (base binary) (bytes "nodejs"))
      && any (λ a. not (is_option a) && mentions a name) (arg ∷ args)

  -- The first of agentPatterns that matches.
  unfoldable pub agent_of : List Text → Option Text
  unfolding match_binary_name match_node_script
  agent_of args =
      if match_binary_name args (bytes "claude")
      then some tool_claude
      else if match_binary_name args (bytes "copilot") || match_node_script args (bytes "copilot")
      then some tool_copilot
      else if match_binary_name args (bytes "codex") || match_node_script args (bytes "codex")
      then some tool_codex
      else if match_binary_name args (bytes "opencode")
      then some tool_open_code
      else none

  abbrev first_of {ℓ} : {A : Type ℓ} → Option A → Option A → Option A
  first_of none other = other
  first_of (some a) other = some a

  unfoldable pub agent_in_all : List ℕ → Option Text
  unfolding agent_of
  agent_in_all [] = none
  agent_in_all (pid ∷ pids) =
      let others = agent_in_all pids in first_of (agent_of (arguments pid)) others

  -- A child without arguments is passed over, its own children too.
  abbrev agent_below : List Text → ℕ → Option Text
  agent_below [] pid = none
  agent_below (a ∷ args) pid = first_of (agent_of (a ∷ args)) (agent_in_all (children pid))

  unfoldable pub agent_in_children : List ℕ → Option Text
  unfolding agent_of agent_in_all
  agent_in_children [] = none
  agent_in_children (pid ∷ pids) =
      let others = agent_in_children pids in first_of (agent_below (arguments pid) pid) others

  -- DetectAgentInProcessTree
  unfoldable pub detect_agent : ℕ → Option Text
  unfolding agent_in_children
  detect_agent pid = agent_in_children (children pid)

pub record Detector : Type 0 where
  pub tracker : Tracker
  pub seen : Dict PaneKey Text
  pub host_id : Text
  pub host_name : Text

-- The key that detect gives a pane has no host.
abbrev pub pane_info_key : PaneInfo → PaneKey
pane_info_key p = record { host = []; session = p.session; window = p.window; pane = p.pane_id }

abbrev pub detected_event : Text → Text → Text → PaneInfo → Event
detected_event host host_name tool p = record {
  tool = tool;
  status = status_active;
  host = host;
  host_name = host_name;
  session = p.session;
  window = p.window;
  pane = p.pane_id;
  message = bytes "auto-detected";
  timestamp = 0;
  auto_detected = true;
}

module _ (agent : ℕ → Option Text) where
  -- The loop's state: the detector, and stillPresent.
  abbrev pub Scan : Type 0
  Scan = Detector × Dict PaneKey Bool

  abbrev note_agent : ℕ → PaneInfo → Option Text → Scan → Scan
  note_agent now p none scan = scan
  note_agent now p (some tool) (d, still_present) = (
    record d {
      seen = put (pane_info_key p) tool d.seen;
      tracker =
          if has (pane_info_key p) d.seen
          then d.tracker
          else record_event now (detected_event d.host_id d.host_name tool p) d.tracker;
    },
    put (pane_info_key p) true still_present,
  )

  -- One round of the loop over the panes; `tracked` are the keys of the tracker's maps.
  unfoldable pub scan_pane : ℕ → (PaneKey → Bool) → PaneInfo → Scan → Scan
  scan_pane now tracked p scan =
      if p.pid == 0 || is_empty p.session
      then scan
      else if tracked (pane_info_key p)
      then scan
      else note_agent now p (agent p.pid) scan

  unfoldable pub scan_panes : ℕ → (PaneKey → Bool) → List PaneInfo → Scan → Scan
  unfolding scan_pane
  scan_panes now tracked [] scan = scan
  scan_panes now tracked (p ∷ panes) scan =
      scan_panes now tracked panes (scan_pane now tracked p scan)

  -- The panes that are not in stillPresent are forgotten.
  abbrev pub clean_up : Scan → Detector
  clean_up (d, still_present) = record d { seen = keep (λ key _. has key still_present) d.seen }

  -- detect
  unfoldable pub detect : ℕ → List PaneInfo → Detector → Detector
  unfolding scan_panes prune
  detect now [] d = d
  detect now (p ∷ panes) d =
      let known = record d { tracker = prune now d.tracker } in
      let tracked =
        λ (key : PaneKey). has key known.tracker.events || has key known.tracker.last_active in
      clean_up (scan_panes now tracked (p ∷ panes) (known, []))
