-- ===== src/Peer/Connection.antt =====
-- pkg/peer/connection.go: the bounded queue of a connection, its writer goroutine, and its end. A channel is
-- its content; each use of one and each locked section is a step.
pub mod Order
use tmuxatlas.Common.{
  ℕ, Bool, true, false, not, ◌&&◌, ◌||◌, List, [], ◌∷◌, ◌++◌, Option, none, some, length, ltb,
  if◌then◌else◌,
}

pub data SendError : Type 0 where
  nil_message peer_offline queue_full context_done : SendError

-- The writer's loop: at its select, with a message for the writer function, or left.
pub data Writer (A : Type 0) : Type 0 where
  selects : Writer A
  writes : A → Writer A
  left : Writer A
  -- the writer function failed on this message, and Close is called
  failed_on : A → Writer A

pub record Connection (A : Type 0) : Type 0 where
  pub capacity : ℕ
  pub queue : List A
  pub closed : Bool
  pub done : Bool
  pub writer : Writer A
  pub written : List A

abbrev pub new_connection : {A : Type 0} → ℕ → Connection A
new_connection capacity = record {
  capacity = capacity;
  queue = [];
  closed = false;
  done = false;
  writer = selects;
  written = [];
}

module _ {A : Type 0} where
  -- Send, in its locked section. Where the caller's context has ended and there is room, the select takes
  -- either: `takes_done` says which.
  abbrev pub enqueue : Bool → Bool → A → Connection A → Option SendError × Connection A
  enqueue caller_done takes_done message c =
      if ltb (length c.queue) c.capacity
      then if caller_done && takes_done
        then (some context_done, c)
        else (none, record c { queue = c.queue ++ (message ∷ []) })
      else if caller_done
      then (some context_done, c)
      else (some queue_full, c)

  unfoldable pub send : Bool → Bool → Option A → Connection A → Option SendError × Connection A
  send caller_done takes_done none c = (some nil_message, c)
  send caller_done takes_done (some message) c =
      if c.closed then (some peer_offline, c) else enqueue caller_done takes_done message c

  abbrev pub receive : List A → Connection A → Connection A
  receive [] c = c
  receive (message ∷ queue) c = record c { queue = queue; writer = writes message }

  -- The writer's goroutine: it takes a message, it sees the context's end, or the writer function returns.
  -- The select takes either where both are there.
  abbrev pub take_message : Writer A → Connection A → Connection A
  take_message selects c = receive c.queue c
  take_message (writes message) c = c
  take_message left c = c
  take_message (failed_on message) c = c

  abbrev pub see_done : Writer A → Connection A → Connection A
  see_done selects c = if c.done then record c { writer = left } else c
  see_done (writes message) c = c
  see_done left c = c
  see_done (failed_on message) c = c

  abbrev pub finish_write : Bool → Writer A → Connection A → Connection A
  finish_write works selects c = c
  finish_write works (writes message) c =
      if works
      then record c { writer = selects; written = c.written ++ (message ∷ []) }
      else record c { writer = failed_on message }
  finish_write works left c = c
  finish_write works (failed_on message) c = c

-- `closes` and `cancels` are two steps of CloseWith.
pub data Step (A : Type 0) : Type 0 where
  sends : Bool → Bool → Option A → Step A
  takes sees_done closes cancels : Step A
  finishes : Bool → Step A

module _ {A : Type 0} where
  unfoldable pub handle : Step A → Connection A → Connection A
  unfolding send
  handle (sends caller_done takes_done message) c = (send caller_done takes_done message c).1
  handle takes c = take_message c.writer c
  handle sees_done c = see_done c.writer c
  handle (finishes works) c = finish_write works c.writer c
  handle closes c = record c { closed = true }
  handle cancels c = record c { done = true }

  unfoldable pub run : List (Step A) → Connection A → Connection A
  run [] c = c
  run (s ∷ steps) c = run steps (handle s c)

  -- The message of a call of Send that returned nil.
  abbrev pub if_sent : Option SendError → Option A → List A
  if_sent none (some message) = message ∷ []
  if_sent none none = []
  if_sent (some e) message = []

  abbrev pub sent_by : Step A → Connection A → List A
  sent_by (sends caller_done takes_done message) c =
      if_sent (send caller_done takes_done message c).0 message
  sent_by takes c = []
  sent_by sees_done c = []
  sent_by (finishes works) c = []
  sent_by closes c = []
  sent_by cancels c = []

  -- The messages of all these calls in a run.
  unfoldable pub sent : List (Step A) → Connection A → List A
  unfolding handle
  sent [] c = []
  sent (s ∷ steps) c = sent_by s c ++ sent steps (handle s c)
