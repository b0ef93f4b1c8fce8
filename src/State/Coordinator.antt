-- ===== src/State/Coordinator.antt =====
-- The run loop of pkg/state/coordinator.go. It is the only code that touches the projection, the
-- revision and the registry, so its state is one record and each command one step. A channel is its
-- buffer; one that has left the registry is closed, and its reader can still drain it.
pub mod Broadcast
pub mod Reader
pub mod Commits
pub mod Follow
use tmuxatlas.Common.{
  ℕ, suc, ◌+◌, Bool, true, false, Option, none, some, List, [], ◌∷◌, ◌++◌, Text, bytes, ltb, ◌==◌,
  if◌then◌else◌, Result, ok, err, Dict, get, put, remove, ℕ_key, length,
}
use tmuxatlas.State.Projection.{Projection, Operation, new_projection}
use tmuxatlas.State.Projection.Validate.{Error}
use tmuxatlas.State.Projection.Clone.{clone_projection, clone_operation}
use tmuxatlas.State.Commit.{
  SnapshotEnvelope, DeltaEnvelope, OutcomeEnvelope, CommitResult, schema_version, envelope_snapshot,
  envelope_resync_required, u64, apply_commit,
}
use tmuxatlas.Common.{map}

-- SubscriberMessage has one of its two fields.
pub data SubscriberMessage : Type 0 where
  delta : DeltaEnvelope → SubscriberMessage
  outcome : OutcomeEnvelope → SubscriberMessage

pub record Channel : Type 0 where
  pub capacity : ℕ
  pub buffer : List SubscriberMessage

pub record Coordinator : Type 0 where
  pub instance_id : Text
  pub projection : Projection
  pub revision : ℕ
  pub next_subscriber_id : ℕ
  pub subscribers : Dict ℕ Channel
  pub detached : Dict ℕ Channel
  pub stopped : Bool

abbrev pub default_subscriber_buffer : ℕ
default_subscriber_buffer = 64

-- NewCoordinatorWithInstanceID; the source panics on an empty identifier.
unfoldable pub new_coordinator : Text → Coordinator
new_coordinator instance_id = record {
  instance_id = instance_id;
  projection = new_projection;
  revision = 0;
  next_subscriber_id = 0;
  subscribers = [];
  detached = [];
  stopped = false;
}

unfoldable pub snapshot : Coordinator → SnapshotEnvelope
snapshot c = record {
  kind = envelope_snapshot;
  schema_version = schema_version;
  instance_id = c.instance_id;
  revision = c.revision;
  state = clone_projection c.projection;
}

abbrev pub overflow_notice : Text → ℕ → SubscriberMessage
overflow_notice instance_id revision = outcome (record {
  kind = envelope_resync_required;
  schema_version = schema_version;
  instance_id = instance_id;
  revision = revision;
  reason = bytes "subscriber queue overflow";
})

-- cloneDelta
unfoldable pub clone_delta : DeltaEnvelope → DeltaEnvelope
clone_delta d = record d { operations = map clone_operation d.operations }

-- A send that has room, or the notice in place of what was queued: the buffer, and whether the
-- subscriber is kept.
unfoldable pub offer : SubscriberMessage → SubscriberMessage → Channel → Channel × Bool
offer message notice ch =
    if ltb (length ch.buffer) ch.capacity
    then (record ch { buffer = ch.buffer ++ (message ∷ []) }, true)
    else (record ch { buffer = notice ∷ [] }, false)

-- The loop over the subscribers: those that stay, and those that were closed.
unfoldable pub broadcast :
    SubscriberMessage
    → SubscriberMessage
    → Dict ℕ Channel
    → Dict ℕ Channel
    → Dict ℕ Channel × Dict ℕ Channel
broadcast message notice [] detached = ([], detached)
broadcast message notice ((id, ch) ∷ rest) detached =
    let (ch', kept) = offer message notice ch in
    let (subscribers, closed) = broadcast message notice rest detached in
    if kept then ((id, ch') ∷ subscribers, closed) else (subscribers, put id ch' closed)

unfoldable pub publish : Option DeltaEnvelope → Coordinator → Coordinator
publish none c = c
publish (some d) c =
    let (subscribers, detached) =
      broadcast (delta (clone_delta d)) (overflow_notice c.instance_id c.revision) c.subscribers
        c.detached in
    record c { subscribers = subscribers; detached = detached }

pub data Command : Type 0 where
  commit : List Operation → Command
  take_snapshot : Command
  subscribe : ℕ → Command
  unsubscribe : ℕ → Command
  stop : Command

pub data Response : Type 0 where
  committed : CommitResult → Response
  failed : Error → Response
  snapshot_of : SnapshotEnvelope → Response
  subscribed : SnapshotEnvelope → ℕ → Response
  done closed : Response

-- close(sub.ch) and the registry without the subscriber.
abbrev pub detach : ℕ → Option Channel → Coordinator → Coordinator
detach id none c = c
detach id (some ch) c = record c {
  subscribers = remove id c.subscribers;
  detached = put id ch c.detached;
}

-- Subscribe's queue size, and the registration in the loop.
unfoldable pub register : ℕ → Coordinator → Coordinator
register queue_size c =
    let id = u64 (c.next_subscriber_id + 1) in
    record c {
      next_subscriber_id = id;
      subscribers =
          put id
            (record {
              capacity = if queue_size == 0 then default_subscriber_buffer else queue_size;
              buffer = [];
            })
            c.subscribers;
    }

-- Stopping closes every channel.
unfoldable pub close_all : Dict ℕ Channel → Dict ℕ Channel → Dict ℕ Channel
close_all [] detached = detached
close_all ((id, ch) ∷ rest) detached = put id ch (close_all rest detached)

module _ (json_valid : Text → Bool) where
  abbrev pub adopt : Coordinator → Result Error (CommitResult × Projection) → Coordinator × Response
  adopt c (err e) = (c, failed e)
  adopt c (ok (result, next)) =
      if result.changed
      then (
        publish result.delta (record c { projection = next; revision = result.revision }),
        committed result,
      )
      else (c, committed result)

  unfoldable pub handle : Command → Coordinator → Coordinator × Response
  unfolding close_all
  handle (commit operations) c =
      adopt c (apply_commit json_valid c.instance_id c.projection c.revision operations)
  handle take_snapshot c = (c, snapshot_of (snapshot c))
  handle (subscribe queue_size) c =
      let c' = register queue_size c in (c', subscribed (snapshot c') c'.next_subscriber_id)
  handle (unsubscribe id) c = (detach id (get id c.subscribers) c, done)
  handle stop c = (
    record c { subscribers = []; detached = close_all c.subscribers c.detached; stopped = true },
    done,
  )

  -- A command to a loop that has ended is answered with ErrCoordinatorClosed.
  unfoldable pub step : Command → Coordinator → Coordinator × Response
  unfolding handle
  step command c = if c.stopped then (c, closed) else handle command c

  -- The commands that the loop has taken, in order.
  unfoldable pub serve : List Command → Coordinator → Coordinator
  serve [] c = c
  serve (command ∷ rest) c = serve rest (step command c).0
