-- ===== src/Peer/Relay/Tests.antt =====
-- The theorems about the relay at concrete inputs.
use tmuxatlas.Common.{
  ◌≡◌, refl, true, false, not, ◌&&◌, List, [], ◌∷◌, none, some, bytes, get, put, text_key, ℕ_key,
  is_some, Text-discrete, ℕ_discrete, map_values,
}
use tmuxatlas.Peer.Relay.Leak.{late_stream_stays_pending}
use tmuxatlas.Peer.Relay.Moves.{implies, fits, is_unlisted, is_ended}
use tmuxatlas.Peer.Relay.Sound.{streams_are_sound}
use tmuxatlas.Peer.Relay.{
  owned, listed, idle, ended, Attachment, PtyOwner, PeerConnection, checks, owns, lists, tears,
  unlists, releases, closes_sockets, attaches, Step, opens, moves, closes, cancels, collects,
  handle, run, move,
}

abbrev agent : PeerConnection
agent = record { host_id = bytes "h"; generation = 1; closed = false; done = false }

abbrev attachment : Attachment
attachment = record {
  host_id = bytes "h";
  generation = 1;
  token = bytes "t";
  session = bytes "main";
  peer = 9;
}

abbrev attached : List Step
attached =
    opens (bytes "s") 0 (bytes "main") (bytes "t")
    ∷ moves (bytes "s") checks
    ∷ moves (bytes "s") owns
    ∷ moves (bytes "s") lists
    ∷ moves (bytes "s") (attaches attachment)
    ∷ []

abbrev active_owner : PtyOwner
active_owner = record {
  connection = 0;
  host_id = bytes "h";
  generation = 1;
  session = bytes "main";
  token = bytes "t";
  phase = listed;
  done = false;
  ready = true;
  attachment = some attachment;
  teardown = idle;
  peer_closed = false;
  in_pending = false;
  in_active = true;
  in_ptys = true;
}

streams_are_sound_example :
    ((run attached
        (record { owners = []; connections = (0, agent) ∷ []; panicked = false })).panicked
      ≡ false)
    × (active_owner.in_pending && active_owner.in_active ≡ false)
    × (implies active_owner.in_active (
          is_some active_owner.attachment
          && fits active_owner.attachment active_owner
          && not (is_unlisted active_owner.teardown))
        ≡ true)
    × (implies (is_ended active_owner.teardown) (
          not active_owner.in_active
          && implies (is_some active_owner.attachment) active_owner.peer_closed)
        ≡ true)
unfolding run handle move put get Text-discrete ℕ_discrete
streams_are_sound_example =
    streams_are_sound ((0, agent) ∷ []) attached (bytes "s") active_owner refl

-- RegisterPending is between ownPTY and the relay's lock while Close runs.
abbrev overtaken : List Step
overtaken =
    opens (bytes "s") 0 (bytes "main") (bytes "t")
    ∷ moves (bytes "s") checks
    ∷ moves (bytes "s") owns
    ∷ closes 0
    ∷ cancels 0
    ∷ collects 0
    ∷ moves (bytes "s") tears
    ∷ moves (bytes "s") unlists
    ∷ moves (bytes "s") releases
    ∷ moves (bytes "s") closes_sockets
    ∷ []

abbrev torn_owner : PtyOwner
torn_owner = record {
  connection = 0;
  host_id = bytes "h";
  generation = 1;
  session = bytes "main";
  token = bytes "t";
  phase = owned;
  done = true;
  ready = false;
  attachment = none;
  teardown = ended;
  peer_closed = false;
  in_pending = false;
  in_active = false;
  in_ptys = false;
}

late_stream_stays_pending_example :
    let w =
      run overtaken (record { owners = []; connections = (0, agent) ∷ []; panicked = false }) in
    (p : PtyOwner) × (get
        (bytes "s")
        (run (moves (bytes "s") tears ∷ []) (handle (moves (bytes "s") lists) w)).owners
      ≡ some p)
    × (p.teardown ≡ ended)
    × (p.in_pending ≡ true)
unfolding run handle move put get map_values Text-discrete ℕ_discrete
late_stream_stays_pending_example =
    late_stream_stays_pending (bytes "s") torn_owner
      (run overtaken (record { owners = []; connections = (0, agent) ∷ []; panicked = false }))
      (moves (bytes "s") tears ∷ []) refl refl refl refl
