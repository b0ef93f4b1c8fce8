-- ===== src/Peer/Bridge/Carries.antt =====
-- What is typed in the browser reaches the terminal, and what the terminal prints reaches the browser.
use tmuxatlas.Common.{
  ℕ, ◌<◌, ◌^◌, ◌≡◌, List, [], ◌∷◌, Option, none, some, Text, length, ltb, if◌then◌else◌,
}
use tmuxatlas.Peer.Bridge.{
  Message, binary, text, other, Effect, writes, resizes, BrowserResize, Json, resize_frame,
  is_resize,
}
use tmuxatlas.Peer.Frame.{max_pty_frame_data}

-- What the terminal prints in reads that are not too long; a longer one ends the loop.
unfoldable pub printed_until : List Text → List Text
printed_until [] = []
printed_until (p ∷ reads) =
    let rest = printed_until reads in if ltb max_pty_frame_data (length p) then [] else p ∷ rest

-- The library's JSON of a resize frame is read back as the frame, for numbers in the bounds of the
-- source's uint64 and uint16 fields.
abbrev pub ReadsResizesBack : Json → Type 0
ReadsResizesBack json =
    (sequence : ℕ) (r : BrowserResize)
    → sequence < 2 ^ 64
    → r.cols < 2 ^ 16
    → r.rows < 2 ^ 16
    → json.unmarshal (json.marshal (resize_frame sequence r)) ≡ some (resize_frame sequence r)

-- The browser's JSON is read into uint16 fields.
abbrev pub ReadsSmallSizes : Json → Type 0
ReadsSmallSizes json =
    (content : Text) (r : BrowserResize)
    → json.parse_resize content ≡ some r
    → (r.cols < 2 ^ 16) × (r.rows < 2 ^ 16)

module _ (json : Json) where
  -- What the terminal is to be told: keys and sizes up to the first message that is no binary one of a
  -- frame's length and no resize of the browser.
  abbrev pub resize_wanted : Option BrowserResize → List Effect → List Effect
  resize_wanted none rest = []
  resize_wanted (some r) rest = if is_resize r then resizes r.cols r.rows ∷ rest else []

  unfoldable pub typed_until : List Message → List Effect
  typed_until [] = []
  typed_until (binary p ∷ messages) =
      let rest = typed_until messages in
      if ltb max_pty_frame_data (length p) then [] else writes p ∷ rest
  typed_until (text content ∷ messages) =
      resize_wanted (json.parse_resize content) (typed_until messages)
  typed_until (other ∷ messages) = []
