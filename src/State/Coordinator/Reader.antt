-- ===== src/State/Coordinator/Reader.antt =====
-- The other end of a subscription, as the protocol of openspec/specs/revisioned-state-sync describes
-- it: it starts from the snapshot, applies each delta whose base is its revision, and stops at a
-- notice to resynchronise. The world is the coordinator with one such reader.
use tmuxatlas.Common.{
  ℕ, Bool, List, [], ◌∷◌, Text, Option, none, some, ◌==◌, if◌then◌else◌, Result, ok, err, get, put,
  ℕ_key,
}
use tmuxatlas.State.Projection.{Projection}
use tmuxatlas.State.Projection.Validate.{Error}
use tmuxatlas.State.Commit.{SnapshotEnvelope, DeltaEnvelope, apply_all}
use tmuxatlas.State.Coordinator.{
  Coordinator, Channel, Command, SubscriberMessage, delta, outcome, step,
}

-- `broken` is a delta that does not fit: a gap in the revisions, or an operation that fails.
pub data Status : Type 0 where
  following resync broken : Status

pub record Reader : Type 0 where
  pub state : Projection
  pub revision : ℕ
  pub status : Status

pub data Event : Type 0 where
  command : Command → Event
  receive : Event

pub record World : Type 0 where
  pub hub : Coordinator
  pub reader : Reader

unfoldable pub start : SnapshotEnvelope → Reader
start s = record { state = s.state; revision = s.revision; status = following }

module _ (json_valid : Text → Bool) where
  abbrev pub take_result : ℕ → Reader → Result Error Projection → Reader
  take_result revision r (ok state) = record {
    state = state;
    revision = revision;
    status = following;
  }
  take_result revision r (err e) = record r { status = broken }

  unfoldable pub take_delta : DeltaEnvelope → Reader → Reader
  take_delta d r =
      if d.base_revision == r.revision
      then take_result d.revision r (apply_all json_valid 0 d.operations r.state)
      else record r { status = broken }

  read_as : Status → SubscriberMessage → Reader → Reader
  read_as following (delta d) r = take_delta d r
  read_as following (outcome o) r = record r { status = resync }
  read_as resync message r = r
  read_as broken message r = r

  unfoldable pub read : SubscriberMessage → Reader → Reader
  unfolding read_as
  read message r = read_as r.status message r

  unfoldable pub drain : List SubscriberMessage → Reader → Reader
  drain [] r = r
  drain (m ∷ ms) r = drain ms (read m r)

  -- The oldest message of a channel in the registry, or of one that has left it.
  abbrev pub take_registered : ℕ → Channel → List SubscriberMessage → World → World
  take_registered id ch [] w = w
  take_registered id ch (m ∷ ms) w = record {
    hub = record (w.hub) { subscribers = put id (record ch { buffer = ms }) w.hub.subscribers };
    reader = read m w.reader;
  }

  abbrev pub take_detached : ℕ → Channel → List SubscriberMessage → World → World
  take_detached id ch [] w = w
  take_detached id ch (m ∷ ms) w = record {
    hub = record (w.hub) { detached = put id (record ch { buffer = ms }) w.hub.detached };
    reader = read m w.reader;
  }

  abbrev pub receive_from : ℕ → Option Channel → Option Channel → World → World
  receive_from id (some ch) _ w = take_registered id ch ch.buffer w
  receive_from id none (some ch) w = take_detached id ch ch.buffer w
  receive_from id none none w = w

  -- The reader of subscription `id` takes the oldest message, if there is one.
  unfoldable pub receive_next : ℕ → World → World
  receive_next id w = receive_from id (get id w.hub.subscribers) (get id w.hub.detached) w

  unfoldable pub world_step : ℕ → Event → World → World
  world_step id (command c) w = record w { hub = (step json_valid c w.hub).0 }
  world_step id receive w = receive_next id w

  unfoldable pub world_run : ℕ → List Event → World → World
  world_run id [] w = w
  world_run id (e ∷ es) w = world_run id es (world_step id e w)
