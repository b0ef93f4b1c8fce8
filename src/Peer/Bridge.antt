-- ===== src/Peer/Bridge.antt =====
-- The loops between a browser and a terminal: PTYOwner.Bridge of pkg/peer/pty_relay.go in the Hub, and the
-- loops of HandlePTYOpen of pkg/peer/pty_manager.go in the Agent. A loop maps the messages that it
-- reads, up to the end of its input, to those that it writes. JSON is a library's: its functions are
-- parameters.
pub mod Carries
mod Tests
use tmuxatlas.Common.{
  ℕ, ◌+◌, ◌%◌, ◌^◌, Bool, true, false, not, ◌&&◌, ◌||◌, ◌==◌, List, [], ◌∷◌, Option, none, some,
  Text, bytes, same_text, length, ltb, if◌then◌else◌, Result, ok, err, ◌>>=◌,
}
use tmuxatlas.Peer.Frame.{
  FrameError, PtyDataFrame, PtyControlFrame, pty_data_input, pty_data_output, pty_frame_version,
  encode, decode, validate_control, Verdict, fresh, duplicate, gap, accept,
}

pub data Message : Type 0 where
  binary text : Text → Message
  other : Message

-- What the Agent's terminal is told.
pub data Effect : Type 0 where
  writes : Text → Effect
  resizes : ℕ → ℕ → Effect

pub record BrowserResize : Type 0 where
  pub kind : Text
  pub cols : ℕ
  pub rows : ℕ

-- The browser's strict JSON, and the control frames' JSON in both directions.
pub record Json : Type 0 where
  pub parse_resize : Text → Option BrowserResize
  pub marshal : PtyControlFrame → Text
  pub unmarshal : Text → Option PtyControlFrame

abbrev pub next_u64 : ℕ → ℕ
next_u64 n = (n + 1) % 2 ^ 64

abbrev pub resize_frame : ℕ → BrowserResize → PtyControlFrame
resize_frame sequence r = record {
  version = pty_frame_version;
  kind = bytes "resize";
  sequence = sequence;
  cols = r.cols;
  rows = r.rows;
  reason = [];
}

abbrev pub is_resize : BrowserResize → Bool
is_resize r = same_text r.kind (bytes "resize") && not (r.cols == 0 || r.rows == 0)

abbrev pub send_data : Result FrameError Text → List Message → List Message
send_data (err e) rest = []
send_data (ok frame) rest = binary frame ∷ rest

abbrev pub if_valid : Result FrameError (Unit {0}) → Text → List Message → List Message
if_valid (err e) frame rest = []
if_valid (ok done) frame rest = text frame ∷ rest

module _ (json : Json) where
  open json use {parse_resize, marshal, unmarshal}

  abbrev send_resize : ℕ → Option BrowserResize → List Message → List Message
  send_resize sequence none rest = []
  send_resize sequence (some r) rest =
      if is_resize r
      then if_valid (validate_control (resize_frame sequence r)) (marshal (resize_frame sequence r))
          rest
      else []

  -- Bridge's second goroutine: from the browser to the Agent.
  unfoldable pub browser_to_peer : ℕ → ℕ → List Message → List Message
  unfolding encode validate_control
  browser_to_peer data_sequence control_sequence [] = []
  browser_to_peer data_sequence control_sequence (binary payload ∷ messages) =
      let sequence = next_u64 data_sequence in
      send_data (encode pty_data_input sequence payload)
        (browser_to_peer sequence control_sequence messages)
  browser_to_peer data_sequence control_sequence (text content ∷ messages) =
      let sequence = next_u64 control_sequence in
      send_resize sequence (parse_resize content) (browser_to_peer data_sequence sequence messages)
  browser_to_peer data_sequence control_sequence (other ∷ messages) = []

  -- DecodePTYControlFrame
  abbrev checked_control : PtyControlFrame → Result FrameError (Unit {0}) → Option PtyControlFrame
  checked_control f (err e) = none
  checked_control f (ok done) = some f

  abbrev decode_as : Option PtyControlFrame → Option PtyControlFrame
  decode_as none = none
  decode_as (some f) = checked_control f (validate_control f)

  unfoldable pub decode_control : Text → Option PtyControlFrame
  unfolding validate_control
  decode_control content = decode_as (unmarshal content)

  abbrev write_as : Verdict → Text → List Effect → List Effect
  write_as fresh payload rest = writes payload ∷ rest
  write_as duplicate payload rest = rest
  write_as gap payload rest = []

  abbrev resize_as : Verdict → PtyControlFrame → List Effect → List Effect
  resize_as fresh f rest =
      if same_text f.kind (bytes "resize")
      then resizes f.cols f.rows ∷ rest
      else if same_text f.kind (bytes "close") || same_text f.kind (bytes "error")
      then []
      else rest
  resize_as duplicate f rest = rest
  resize_as gap f rest = []

  -- One message, and what the loop does with the rest from a counter on.
  abbrev write_data : ℕ → (ℕ → List Effect) → Result FrameError PtyDataFrame → List Effect
  write_data next rest (err e) = []
  write_data next rest (ok f) =
      if f.direction == pty_data_input
      then write_as (accept next f.sequence).1 f.payload (rest (accept next f.sequence).0)
      else []

  abbrev apply_control : ℕ → (ℕ → List Effect) → Option PtyControlFrame → List Effect
  apply_control next rest none = []
  apply_control next rest (some f) =
      resize_as (accept next f.sequence).1 f (rest (accept next f.sequence).0)

  -- The Agent's second goroutine: from the Hub to the terminal.
  unfoldable pub input_loop : ℕ → ℕ → List Message → List Effect
  unfolding decode accept decode_control
  input_loop input_next control_next [] = []
  input_loop input_next control_next (binary content ∷ messages) =
      write_data input_next (λ next. input_loop next control_next messages) (decode content)
  input_loop input_next control_next (text content ∷ messages) =
      apply_control control_next (λ next. input_loop input_next next messages)
        (decode_control content)
  input_loop input_next control_next (other ∷ messages) = []

  abbrev show_as : Verdict → Text → List Text → List Text
  show_as fresh payload rest = payload ∷ rest
  show_as duplicate payload rest = rest
  show_as gap payload rest = []

  abbrev show_data : ℕ → (ℕ → List Text) → Result FrameError PtyDataFrame → List Text
  show_data next rest (err e) = []
  show_data next rest (ok f) =
      if f.direction == pty_data_output
      then show_as (accept next f.sequence).1 f.payload (rest (accept next f.sequence).0)
      else []

  abbrev unless_closed : Option PtyControlFrame → List Text → List Text
  unless_closed none rest = []
  unless_closed (some f) rest =
      if same_text f.kind (bytes "close") || same_text f.kind (bytes "error") then [] else rest

  -- Bridge's first goroutine: from the Agent to the browser.
  unfoldable pub peer_to_browser : ℕ → List Message → List Text
  unfolding decode accept decode_control
  peer_to_browser output_next [] = []
  peer_to_browser output_next (binary content ∷ messages) =
      show_data output_next (λ next. peer_to_browser next messages) (decode content)
  peer_to_browser output_next (text content ∷ messages) =
      unless_closed (decode_control content) (peer_to_browser output_next messages)
  peer_to_browser output_next (other ∷ messages) = []

-- The Agent's first goroutine: what the terminal prints, in reads of at most 32 KiB.
unfoldable pub output_loop : ℕ → List Text → List Message
unfolding encode
output_loop sequence [] = []
output_loop sequence (printed ∷ reads) =
    send_data (encode pty_data_output (next_u64 sequence) printed)
      (output_loop (next_u64 sequence) reads)
