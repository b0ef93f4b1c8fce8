-- ===== src/Peer/Relay.antt =====
-- pkg/peer/pty_relay.go and the part of pkg/peer/connection.go that owns PTY streams: the Hub pairs a
-- browser's stream with the Agent's. Each locked section is a step, and goroutines interleave them. The
-- relay's maps `pending` and `active` and a connection's `ptys` are keyed by the stream, so they are flags of
-- the stream here. Identifiers of streams are random: one that is taken is not given out again.
pub mod Moves
pub mod Sound
pub mod Leak
mod Tests
use tmuxatlas.Common.{
  ℕ, Bool, true, false, not, ◌&&◌, ◌||◌, ◌==◌, List, [], ◌∷◌, Option, none, some, Text, same_text,
  text_key, ℕ_key, Dict, get, put, has, map_values, is_some, if◌then◌else◌,
}

-- What RegisterPending has done: it has the owner, it has seen the connection open, it has put the owner
-- into the connection's map, it has put it into the relay's; or it has been refused.
pub data Phase : Type 0 where
  created checked owned listed refused : Phase

-- What Teardown's sync.Once has done: cancelled the context, left the relay's maps, left the connection's
-- map, closed the sockets.
pub data Teardown : Type 0 where
  idle cancelled unlisted released ended : Teardown

-- The arguments of CompletePending; `peer` is the Agent's socket.
pub record Attachment : Type 0 where
  pub host_id : Text
  pub generation : ℕ
  pub token : Text
  pub session : Text
  pub peer : ℕ

pub record PtyOwner : Type 0 where
  pub connection : ℕ
  pub host_id : Text
  pub generation : ℕ
  pub session : Text
  pub token : Text
  pub phase : Phase
  pub done : Bool
  pub ready : Bool
  pub attachment : Option Attachment
  pub teardown : Teardown
  pub peer_closed : Bool
  pub in_pending : Bool
  pub in_active : Bool
  pub in_ptys : Bool

pub record PeerConnection : Type 0 where
  pub host_id : Text
  pub generation : ℕ
  pub closed : Bool
  pub done : Bool

pub record World : Type 0 where
  pub owners : Dict Text PtyOwner
  pub connections : Dict ℕ PeerConnection
  pub panicked : Bool

-- The steps of one stream.
pub data Move : Type 0 where
  checks owns lists tears unlists releases closes_sockets : Move
  attaches : Attachment → Move

abbrev pub matches : Attachment → PtyOwner → Bool
matches a o =
    same_text o.host_id a.host_id
    && o.generation == a.generation
    && same_text o.token a.token
    && same_text o.session a.session

-- CompletePending goes on: the stream is pending, matches, and neither its context nor the connection's,
-- whose child it is, has ended.
abbrev pub attachable : Bool → Attachment → PtyOwner → Bool
attachable done a o = o.in_pending && matches a o && not (o.done || done)

-- The rest of RegisterPending, by what it has done.
abbrev pub check : Bool → Phase → PtyOwner → PtyOwner
check closed created o =
    if closed then record o { phase = refused; done = true } else record o { phase = checked }
check closed checked o = o
check closed owned o = o
check closed listed o = o
check closed refused o = o

abbrev pub own : Phase → PtyOwner → PtyOwner
own created o = o
own checked o = record o { phase = owned; in_ptys = true }
own owned o = o
own listed o = o
own refused o = o

abbrev pub list_pending : Phase → PtyOwner → PtyOwner
list_pending created o = o
list_pending checked o = o
list_pending owned o = record o { phase = listed; in_pending = true }
list_pending listed o = o
list_pending refused o = o

-- Teardown, by what it has done. Only its first call runs.
abbrev pub tear : Teardown → PtyOwner → PtyOwner
tear idle o = record o { teardown = cancelled; done = true }
tear cancelled o = o
tear unlisted o = o
tear released o = o
tear ended o = o

abbrev pub unlist : Teardown → PtyOwner → PtyOwner
unlist idle o = o
unlist cancelled o = record o { teardown = unlisted; in_pending = false; in_active = false }
unlist unlisted o = o
unlist released o = o
unlist ended o = o

abbrev pub release : Teardown → PtyOwner → PtyOwner
release idle o = o
release cancelled o = o
release unlisted o = record o { teardown = released; in_ptys = false }
release released o = o
release ended o = o

abbrev pub close_sockets : Teardown → PtyOwner → PtyOwner
close_sockets idle o = o
close_sockets cancelled o = o
close_sockets unlisted o = o
close_sockets released o = record o { teardown = ended; peer_closed = is_some o.attachment }
close_sockets ended o = o

-- One step of a stream; `closed` and `done` are what its connection has.
unfoldable pub move : Bool → Bool → Move → PtyOwner → PtyOwner
move closed done checks o = check closed o.phase o
move closed done owns o = own o.phase o
move closed done lists o = list_pending o.phase o
move closed done tears o = tear o.teardown o
move closed done unlists o = unlist o.teardown o
move closed done releases o = release o.teardown o
move closed done closes_sockets o = close_sockets o.teardown o
move closed done (attaches a) o =
    if attachable done a o
    then record o { in_pending = false; in_active = true; attachment = some a; ready = true }
    else o

-- close(owner.ready) panics on a channel that is closed.
abbrev pub panics : Bool → Move → PtyOwner → Bool
panics done (attaches a) o = attachable done a o && o.ready
panics done checks o = false
panics done owns o = false
panics done lists o = false
panics done tears o = false
panics done unlists o = false
panics done releases o = false
panics done closes_sockets o = false

pub data Step : Type 0 where
  opens : Text → ℕ → Text → Text → Step
  moves : Text → Move → Step
  closes cancels collects : ℕ → Step

abbrev pub new_owner : ℕ → PeerConnection → Text → Text → PtyOwner
new_owner connection c session token = record {
  connection = connection;
  host_id = c.host_id;
  generation = c.generation;
  session = session;
  token = token;
  phase = created;
  done = false;
  ready = false;
  attachment = none;
  teardown = idle;
  peer_closed = false;
  in_pending = false;
  in_active = false;
  in_ptys = false;
}

-- RegisterPending's start: a nil connection is refused.
abbrev pub open_on : Option PeerConnection → Text → ℕ → Text → Text → World → World
open_on none stream connection session token w = w
open_on (some c) stream connection session token w =
    if has stream w.owners
    then w
    else record w { owners = put stream (new_owner connection c session token) w.owners }

abbrev pub is_closed : Option PeerConnection → Bool
is_closed none = false
is_closed (some c) = c.closed

abbrev pub is_done : Option PeerConnection → Bool
is_done none = false
is_done (some c) = c.done

abbrev pub move_on : Option PtyOwner → Text → Move → World → World
move_on none stream m w = w
move_on (some o) stream m w =
    let c = get o.connection w.connections in
    record w {
      owners = put stream (move (is_closed c) (is_done c) m o) w.owners;
      panicked = w.panicked || panics (is_done c) m o;
    }

abbrev pub close_on : Option PeerConnection → ℕ → World → World
close_on none id w = w
close_on (some c) id w = record w {
  connections = put id (record c { closed = true }) w.connections;
}

abbrev pub cancel_on : Option PeerConnection → ℕ → World → World
cancel_on none id w = w
cancel_on (some c) id w = record w { connections = put id (record c { done = true }) w.connections }

-- CloseWith's locked sections: the flag, the context, and the map of streams, which is emptied; it then
-- tears down the streams that the map had.
unfoldable pub handle : Step → World → World
unfolding move
handle (opens stream connection session token) w =
    open_on (get connection w.connections) stream connection session token w
handle (moves stream m) w = move_on (get stream w.owners) stream m w
handle (closes id) w = close_on (get id w.connections) id w
handle (cancels id) w = cancel_on (get id w.connections) id w
handle (collects id) w = record w {
  owners =
      map_values (λ o. if o.connection == id then record o { in_ptys = false } else o) w.owners;
}

unfoldable pub run : List Step → World → World
run [] w = w
run (s ∷ steps) w = run steps (handle s w)
