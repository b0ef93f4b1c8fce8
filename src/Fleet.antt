-- ===== src/Fleet.antt =====
-- pkg/fleethealth/health.go: what the facts about a host say of its health. Times are nanoseconds, 0 the
-- zero time. parseVersion, which is a regular expression and strconv.Atoi, and the forms of numbers, times
-- and durations are parameters.
pub mod Well
pub mod Summary
mod Tests
use tmuxatlas.Common.{
  ℕ, ◌-◌, Bool, true, false, not, ◌&&◌, ◌||◌, ◌==◌, List, [], ◌∷◌, ◌++◌, Option, none, some, Text,
  bytes, same_text, is_empty, ltb, if◌then◌else◌,
}

pub record Check : Type 0 where
  pub name : Text
  pub is_ok : Option Bool
  pub message : Text
  pub command : Text

pub record UpdateOutcome : Type 0 where
  pub result : Text
  pub failure : Text

pub record Facts : Type 0 where
  pub online : Option Bool
  pub last_seen : ℕ
  pub last_state_sync : ℕ
  pub version : Text
  pub hub_version : Text
  pub protocol_version : Option ℕ
  pub protocol_min : Option ℕ
  pub protocol_max : Option ℕ
  pub checks : List Check
  pub deployment : Text
  pub last_update : Option UpdateOutcome

pub record Reason : Type 0 where
  pub code : Text
  pub severity : ℕ
  pub message : Text
  pub evidence : Text
  pub remediation : Text

pub record Version : Type 0 where
  pub major : ℕ
  pub minor : ℕ
  pub patch : ℕ

pub record Formats : Type 0 where
  pub parse_version : Text → Option Version
  pub itoa : ℕ → Text
  pub time_text : ℕ → Text
  pub duration_text : ℕ → Text

abbrev pub reason : Text → ℕ → Text → Text → Text → Reason
reason code severity message evidence remediation = record {
  code = code;
  severity = severity;
  message = message;
  evidence = evidence;
  remediation = remediation;
}

pub data Order : Type 0 where
  behind same ahead : Order

abbrev pub first_difference : ℕ → ℕ → Order → Order
first_difference left right rest =
    if ltb left right then behind else if ltb right left then ahead else rest

-- compareVersion
unfoldable pub compare_version : Version → Version → Order
compare_version l r =
    first_difference l.major r.major
      (first_difference l.minor r.minor (first_difference l.patch r.patch same))

abbrev pub diagnostic_command : Facts → Text
diagnostic_command f =
    if same_text f.deployment (bytes "docker")
    then bytes "docker compose exec tmuxatlas tmuxatlas doctor"
    else bytes "tmuxatlas doctor"

abbrev pub update_command : Facts → Text
update_command f =
    if same_text f.deployment (bytes "docker")
    then bytes "docker compose pull && docker compose up -d"
    else bytes "tmuxatlas update"

abbrev pub unknown_reason : Facts → Text → Text → Reason
unknown_reason f message evidence =
    reason (bytes "unknown") 1 message evidence (diagnostic_command f)

-- The loop for the summary: the highest severity so far, and its code.
unfoldable pub summarize : ℕ → Text → List Reason → ℕ × Text
summarize highest summary [] = (highest, summary)
summarize highest summary (r ∷ reasons) =
    summarize (if ltb highest r.severity then r.severity else highest)
      (if ltb highest r.severity then r.code else summary) reasons

-- The summary and the reasons of the record.
abbrev pub conclude : ℕ × Text → List Reason → Text × List Reason
conclude (highest, summary) reasons =
    if highest == 0
    then (
      summary,
      reason (bytes "healthy") 0
            (bytes "The host is online, fresh, compatible, and all checks pass.") [] []
          ∷ [],
    )
    else (summary, reasons)

module _ (formats : Formats) where
  open formats use {parse_version, itoa, time_text, duration_text}

  abbrev pub online_as : Option Bool → Facts → ℕ → ℕ → List Reason
  online_as none f now freshness = unknown_reason f (bytes "Online state is unknown.") [] ∷ []
  online_as (some false) f now freshness =
      reason (bytes "offline") 4 (bytes "The host is offline.") (time_text f.last_seen)
        (diagnostic_command f)
      ∷ []
  online_as (some true) f now freshness =
      if f.last_state_sync == 0
      then unknown_reason f (bytes "Last state sync is unknown.") [] ∷ []
      else if ltb freshness (now - f.last_state_sync)
      then reason (bytes "stale") 3 (bytes "The host is online but its state is stale.")
          (duration_text (now - f.last_state_sync)) (diagnostic_command f)
        ∷ []
      else []

  abbrev pub version_order : Order → Facts → List Reason
  version_order behind f =
      reason (bytes "version-behind") 2 (bytes "The host version is behind the Hub.")
        (f.version ++ (bytes " < " ++ f.hub_version)) (update_command f)
      ∷ []
  version_order ahead f =
      reason (bytes "version-ahead") 2 (bytes "The host version is ahead of the Hub.")
        (f.version ++ (bytes " > " ++ f.hub_version)) (update_command f)
      ∷ []
  version_order same f = []

  abbrev pub version_as : Option Version → Option Version → Facts → List Reason
  version_as none hub f = unknown_reason f (bytes "Host version is unknown.") f.version ∷ []
  version_as (some host) none f =
      reason (bytes "unknown") 1 (bytes "Hub version is unknown.") f.hub_version
        (bytes "tmuxatlas --version")
      ∷ []
  version_as (some host) (some hub) f = version_order (compare_version host hub) f

  abbrev pub protocol_as : Option ℕ → Option ℕ → Option ℕ → Facts → List Reason
  protocol_as (some v) (some low) (some high) f =
      if ltb v low || ltb high v
      then reason (bytes "incompatible") 5
          (bytes "The host explicitly reports an incompatible protocol.")
          (itoa v ++ (bytes " not in [" ++ (itoa low ++ (bytes "," ++ (itoa high ++ bytes "]")))))
          (update_command f)
        ∷ []
      else []
  protocol_as (some v) (some low) none f =
      unknown_reason f (bytes "Protocol compatibility is unknown.") [] ∷ []
  protocol_as (some v) none high f =
      unknown_reason f (bytes "Protocol compatibility is unknown.") [] ∷ []
  protocol_as none low high f =
      unknown_reason f (bytes "Protocol compatibility is unknown.") [] ∷ []

  abbrev pub check_as : Option Bool → Check → List Reason → List Reason
  check_as none c rest =
      reason (bytes "unknown") 1 (c.name ++ bytes " check is unknown.") c.message c.command ∷ rest
  check_as (some false) c rest =
      reason (bytes "check-failed") 3 (c.name ++ bytes " check failed.") c.message c.command ∷ rest
  check_as (some true) c rest = rest

  unfoldable pub check_reasons : List Check → List Reason
  check_reasons [] = []
  check_reasons (c ∷ checks) = check_as c.is_ok c (check_reasons checks)

  abbrev pub without_checks : List Check → Facts → List Reason
  without_checks [] f = unknown_reason f (bytes "Agent and hook checks are unknown.") [] ∷ []
  without_checks (c ∷ checks) f = []

  abbrev pub update_as : Option UpdateOutcome → Facts → List Reason
  update_as none f = []
  update_as (some u) f =
      if same_text u.result (bytes "rolled-back")
      then reason (bytes "update-rolled-back") 3 (bytes "The most recent update was rolled back.")
          u.failure (update_command f)
        ∷ []
      else []

  -- What Evaluate appends, in order.
  unfoldable pub reasons_of : Facts → ℕ → ℕ → List Reason
  unfolding compare_version check_reasons
  reasons_of f now freshness =
      online_as f.online f now freshness
      ++ (version_as (parse_version f.version) (parse_version f.hub_version) f
          ++ (protocol_as f.protocol_version f.protocol_min f.protocol_max f
              ++ (check_reasons f.checks
                  ++ (without_checks f.checks f ++ update_as f.last_update f))))

  unfoldable pub evaluate : Facts → ℕ → ℕ → Text × List Reason
  unfolding reasons_of summarize
  evaluate f now freshness =
      conclude (summarize 0 (bytes "healthy") (reasons_of f now freshness))
        (reasons_of f now freshness)
