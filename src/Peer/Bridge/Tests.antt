-- ===== src/Peer/Bridge/Tests.antt =====
-- The theorems about a connection's queue and the bridge at concrete inputs.
use tmuxatlas.Common.{
  ℕ, zero, suc, ◌≤◌, ◌≡◌, true, false, List, [], ◌∷◌, Option, none, some, Text, bytes, length,
}
use tmuxatlas.Peer.Bridge.{Json}
use tmuxatlas.Peer.Connection.Order.{held, sent_is_written_in_order}
use tmuxatlas.Peer.Connection.{Step, sends, takes, finishes, closes, new_connection, run, sent}
use tmuxatlas.Peer.Frame.{PtyControlFrame}

abbrev some_steps : List (Step ℕ)
some_steps =
    sends false false (some 7)
    ∷ sends false false (some 8)
    ∷ takes
    ∷ sends true true (some 9)
    ∷ finishes true
    ∷ closes
    ∷ sends false false (some 10)
    ∷ []

sent_is_written_in_order_example :
    (held (run some_steps (new_connection 2)) ≡ sent some_steps (new_connection 2))
    × (length (run some_steps (new_connection {A = ℕ} 2)).queue ≤ 2)
sent_is_written_in_order_example = sent_is_written_in_order 2 some_steps

-- A form of control frames that can be read back: each byte of the kind after a 1, and a 0 before the reason.
unfoldable joined : Text → Text → Text
joined [] reason = 0 ∷ reason
joined (c ∷ kind) reason = 1 ∷ c ∷ joined kind reason

unfoldable split : Text → Text × Text
split [] = ([], [])
split (zero ∷ reason) = ([], reason)
split (suc n ∷ []) = ([], [])
split (suc n ∷ c ∷ rest) = let (kind, reason) = split rest in (c ∷ kind, reason)

unfoldable frame_text : PtyControlFrame → Text
unfolding joined
frame_text f = f.version ∷ f.sequence ∷ f.cols ∷ f.rows ∷ joined f.kind f.reason

abbrev frame_with : ℕ → ℕ → ℕ → ℕ → Text × Text → PtyControlFrame
frame_with version sequence cols rows (kind, reason) = record {
  version = version;
  kind = kind;
  sequence = sequence;
  cols = cols;
  rows = rows;
  reason = reason;
}

unfoldable text_frame : Text → Option PtyControlFrame
unfolding split
text_frame (v ∷ s ∷ c ∷ r ∷ rest) = some (frame_with v s c r (split rest))
text_frame _ = none

abbrev plain : Json
plain = record {
  parse_resize = λ s. some (record { kind = bytes "resize"; cols = 80; rows = 24 });
  marshal = frame_text;
  unmarshal = text_frame;
}
