-- ===== src/Peer/Frame.antt =====
-- pkg/peer/pty_frame.go: the binary frames of a PTY stream, and the check of its sequence numbers.
pub mod RoundTrip
pub mod Order
use tmuxatlas.Common.{
  ℕ, zero, ◌+◌, ◌-◌, ◌*◌, ◌/◌, ◌%◌, ◌^◌, Bool, true, false, not, ◌&&◌, ◌||◌, List, [], ◌∷◌, ◌++◌,
  Text, bytes, same_text, length, get_or, take, drop, ltb, ◌==◌, if◌then◌else◌, Result, ok, err,
  ◌>>=◌, ◌>>◌, require, is_empty,
}

abbrev pub pty_frame_version : ℕ
pty_frame_version = 1

abbrev pub pty_data_input : ℕ
pty_data_input = 1

abbrev pub pty_data_output : ℕ
pty_data_output = 2

abbrev pub pty_data_header_size : ℕ
pty_data_header_size = 20

abbrev pub max_pty_frame_data : ℕ
max_pty_frame_data = 64 * 2 ^ 10

abbrev pub max_pty_reason : ℕ
max_pty_reason = 256

abbrev pub pty_frame_magic : Text
pty_frame_magic = bytes "TAP1"

pub data FrameError : Type 0 where
  truncated bad_magic bad_version bad_reserved bad_direction bad_sequence bad_length : FrameError
  payload_too_long bad_size bad_reason bad_type : FrameError

pub record PtyDataFrame : Type 0 where
  pub direction : ℕ  -- uint8
  pub sequence : ℕ  -- uint64
  pub payload : Text

-- binary.BigEndian.PutUint64 and Uint64, PutUint32 and Uint32.
abbrev pub put_u64 : ℕ → Text → Text
put_u64 n rest =
    (n / 2 ^ 56 % 256)
    ∷ (n / 2 ^ 48 % 256)
    ∷ (n / 2 ^ 40 % 256)
    ∷ (n / 2 ^ 32 % 256)
    ∷ (n / 2 ^ 24 % 256)
    ∷ (n / 2 ^ 16 % 256)
    ∷ (n / 2 ^ 8 % 256)
    ∷ (n % 256)
    ∷ rest

abbrev pub put_u32 : ℕ → Text → Text
put_u32 n rest = (n / 2 ^ 24 % 256) ∷ (n / 2 ^ 16 % 256) ∷ (n / 2 ^ 8 % 256) ∷ (n % 256) ∷ rest

abbrev pub u64_at : Text → ℕ → ℕ
u64_at s i =
    get_or s i 0 * 2 ^ 56
    + get_or s (i + 1) 0 * 2 ^ 48
    + get_or s (i + 2) 0 * 2 ^ 40
    + get_or s (i + 3) 0 * 2 ^ 32
    + get_or s (i + 4) 0 * 2 ^ 24
    + get_or s (i + 5) 0 * 2 ^ 16
    + get_or s (i + 6) 0 * 2 ^ 8
    + get_or s (i + 7) 0

abbrev pub u32_at : Text → ℕ → ℕ
u32_at s i =
    get_or s i 0 * 2 ^ 24
    + get_or s (i + 1) 0 * 2 ^ 16
    + get_or s (i + 2) 0 * 2 ^ 8
    + get_or s (i + 3) 0

abbrev is_direction : ℕ → Bool
is_direction d = d == pty_data_input || d == pty_data_output

-- The bytes that EncodePTYDataFrame fills in; frame[6] and frame[7] stay 0.
abbrev pub layout : ℕ → ℕ → Text → Text
layout direction sequence payload =
    pty_frame_magic
    ++ (pty_frame_version
        ∷ direction
        ∷ 0
        ∷ 0
        ∷ put_u64 sequence (put_u32 (length payload % 2 ^ 32) payload))

unfoldable pub encode : ℕ → ℕ → Text → Result FrameError Text
encode direction sequence payload = do
  require (is_direction direction) bad_direction
  require (not (sequence == 0)) bad_sequence
  require (not (ltb max_pty_frame_data (length payload))) payload_too_long
  ok (layout direction sequence payload)

-- The checks after the header's magic.
abbrev decode_fields : Text → Result FrameError PtyDataFrame
decode_fields s = do
  require (get_or s 4 0 == pty_frame_version) bad_version
  require (get_or s 6 0 == 0 && get_or s 7 0 == 0) bad_reserved
  require (is_direction (get_or s 5 0)) bad_direction
  require (not (u64_at s 8 == 0)) bad_sequence
  require
      (not (ltb max_pty_frame_data (u32_at s 16)) && u32_at s 16 == length s - pty_data_header_size)
      bad_length
  ok (record { direction = get_or s 5 0; sequence = u64_at s 8; payload = drop 20 s })

unfoldable pub decode : Text → Result FrameError PtyDataFrame
decode s = do
  require (not (ltb (length s) pty_data_header_size)) truncated
  require (same_text (take 4 s) pty_frame_magic) bad_magic
  decode_fields s

pub record PtyControlFrame : Type 0 where
  pub version : ℕ  -- uint8
  pub kind : Text
  pub sequence : ℕ  -- uint64
  pub cols : ℕ  -- uint16
  pub rows : ℕ  -- uint16
  pub reason : Text

-- PTYControlFrame.Validate
unfoldable pub validate_control : PtyControlFrame → Result FrameError (Unit {0})
validate_control f = do
  require (f.version == pty_frame_version) bad_version
  require (not (f.sequence == 0)) bad_sequence
  if same_text f.kind (bytes "resize")
      then (do
        require (not (f.cols == 0 || f.rows == 0)) bad_size
        require (is_empty f.reason) bad_reason)
      else (if same_text f.kind (bytes "close") || same_text f.kind (bytes "error")
          then require (f.cols == 0 && f.rows == 0 && not (ltb max_pty_reason (length f.reason)))
              bad_reason
          else err bad_type)

-- PTYSequence.Accept: the number that is expected next, 0 before the first one. The result is the new
-- state with whether the value was a duplicate, or none for a gap.
pub data Verdict : Type 0 where
  fresh duplicate gap : Verdict

unfoldable pub expected : ℕ → ℕ
expected next = if next == 0 then 1 else next

unfoldable pub accept : ℕ → ℕ → ℕ × Verdict
unfolding expected
accept next value =
    let want = expected next in
    if ltb value want
    then (want, duplicate)
    else (if ltb want value then (want, gap) else ((want + 1) % 2 ^ 64, fresh))

-- What the input loop of pty_manager.go does with the binary messages it reads, up to their end.
-- `written` are the frames whose Write worked; `finished` says that the loop returned by itself.
pub record Delivery : Type 0 where
  pub written : List PtyDataFrame
  pub finished : Bool

abbrev pub returned : Delivery
returned = record { written = []; finished = true }

-- The terminal's Write, which works or not.
abbrev pub write_frame : Bool → PtyDataFrame → Delivery → Delivery
write_frame true f rest = record { written = f ∷ rest.written; finished = rest.finished }
write_frame false f rest = returned

-- What the loop does with a number it accepted or not, given what it does with the rest.
abbrev pub deliver_as : Verdict → Bool → PtyDataFrame → Delivery → Delivery
deliver_as fresh works f rest = write_frame works f rest
deliver_as duplicate works f rest = rest
deliver_as gap works f rest = returned

-- One message decoded, and what the loop does with the rest from a counter on.
abbrev pub deliver_data : ℕ → Bool → (ℕ → Delivery) → Result FrameError PtyDataFrame → Delivery
deliver_data next works rest (err e) = returned
deliver_data next works rest (ok f) =
    if f.direction == pty_data_input
    then deliver_as (accept next f.sequence).1 works f (rest (accept next f.sequence).0)
    else returned

-- Each message with whether the terminal's Write of its payload works.
unfoldable pub deliver : ℕ → List (Text × Bool) → Delivery
unfolding decode accept
deliver next [] = record { written = []; finished = false }
deliver next ((content, works) ∷ messages) =
    deliver_data next works (λ n. deliver n messages) (decode content)
