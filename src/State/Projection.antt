-- ===== src/State/Projection.antt =====
-- pkg/state/projection.go: the normalised state of the Hub and its operations. A `time.Time` is a
-- number, 0 its zero value; the width and index of a window or a pane are numbers as well.
pub mod Validate
pub mod Clone
pub mod Apply
use tmuxatlas.Common.{
  ℕ, Bool, Option, none, [], Text, Text-discrete, ℕ_discrete, Dict, Option-discrete,
}
use tmuxatlas.State.Values.{Value, Fields, Value-discrete}

pub record Host : Type 0 where
  pub key : Text
  pub id : Text
  pub display_name : Text
  pub online : Bool
  pub local : Bool
  pub version : Text
  pub last_seen : ℕ

pub record Session : Type 0 where
  pub key : Text
  pub host_key : Text
  pub host_id : Text
  pub name : Text
  pub tmux_id : Text
  pub attached : Bool
  pub created : ℕ
  pub last_activity : ℕ

pub record Window : Type 0 where
  pub key : Text
  pub session_key : Text
  pub tmux_id : Text
  pub name : Text
  pub index : ℕ
  pub active : Bool
  pub layout : Text

pub record Pane : Type 0 where
  pub key : Text
  pub window_key : Text
  pub tmux_id : Text
  pub index : ℕ
  pub active : Bool
  pub width : ℕ
  pub height : ℕ
  pub current_command : Text
  pub pid : ℕ

pub record ToolEvent : Type 0 where
  pub key : Text
  pub host_id : Text
  pub session : Text
  pub window : Text
  pub pane : Text
  pub tool : Text
  pub status : Text
  pub message : Text
  pub timestamp : ℕ
  pub auto_detected : Bool

pub record Activity : Type 0 where
  pub key : Text
  pub host_id : Text
  pub session : Text
  pub window : Text
  pub pane : Text
  pub timestamp : ℕ
  pub payload : Value

-- `none` is a nil map of facts.
pub record Health : Type 0 where
  pub host_key : Text
  pub last_state_sync : ℕ
  pub facts : Option Fields

pub record Projection : Type 0 where
  pub hosts : Dict Text Host
  pub sessions : Dict Text Session
  pub windows : Dict Text Window
  pub panes : Dict Text Pane
  pub tool_events : Dict Text ToolEvent
  pub activity : Dict Text Activity
  pub health : Dict Text Health
  pub metadata : Dict Text Text

abbrev pub new_projection : Projection
new_projection = record {
  hosts = [];
  sessions = [];
  windows = [];
  panes = [];
  tool_events = [];
  activity = [];
  health = [];
  metadata = [];
}

-- `unknown` is any other string.
pub data OperationKind : Type 0 where
  upsert_host remove_host upsert_session remove_session upsert_window remove_window : OperationKind
  upsert_pane remove_pane upsert_tool_event remove_tool_event upsert_activity : OperationKind
  remove_activity upsert_health remove_health set_metadata remove_metadata : OperationKind
  unknown : Text → OperationKind

pub record Operation : Type 0 where
  pub kind : OperationKind
  pub key : Text
  pub host : Option Host
  pub session : Option Session
  pub window : Option Window
  pub pane : Option Pane
  pub tool_event : Option ToolEvent
  pub activity : Option Activity
  pub health : Option Health
  pub metadata : Text

-- An operation with nothing but its kind and key: Operation{Kind: kind, Key: key}.
abbrev pub bare : OperationKind → Text → Operation
bare kind key = record {
  kind = kind;
  key = key;
  host = none;
  session = none;
  window = none;
  pane = none;
  tool_event = none;
  activity = none;
  health = none;
  metadata = [];
}

-- Go's `==` on the values, and reflect.DeepEqual where a value holds an `any`.
unfoldable pub Host-discrete : Discrete Host
Host-discrete = hlevel (ℕ_discrete, Text-discrete)

unfoldable pub Session-discrete : Discrete Session
Session-discrete = hlevel (ℕ_discrete, Text-discrete)

unfoldable pub Window-discrete : Discrete Window
Window-discrete = hlevel (ℕ_discrete, Text-discrete)

unfoldable pub Pane-discrete : Discrete Pane
Pane-discrete = hlevel (ℕ_discrete, Text-discrete)

unfoldable pub ToolEvent-discrete : Discrete ToolEvent
ToolEvent-discrete = hlevel (ℕ_discrete, Text-discrete)

unfoldable pub Activity-discrete : Discrete Activity
Activity-discrete = hlevel (ℕ_discrete, Text-discrete, Value-discrete)

unfoldable pub Health-discrete : Discrete Health
Health-discrete = hlevel (ℕ_discrete, Text-discrete, Value-discrete)
