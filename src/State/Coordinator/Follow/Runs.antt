-- ===== src/State/Coordinator/Follow/Runs.antt =====
-- A subscription, whatever happened before it and whatever happens after it.
use tmuxatlas.Common.{
  ℕ, ◌+◌, ◌^◌, ◌<◌, ◌≤◌, ◌≡◌, refl, List, [], ◌∷◌, arith, Bool, true, false, Option, none, some,
  get, ℕ_key, Unique, put-Unique, remove-Unique, Text, ok, err, Result, length, inl, get-put_self,
  if◌then◌else◌,
}
use tmuxatlas.State.Projection.{Projection}
use tmuxatlas.State.Projection.Validate.{Error}
use tmuxatlas.State.Commit.{CommitResult, DeltaEnvelope, u64, SnapshotEnvelope}
use tmuxatlas.State.Coordinator.{
  Coordinator, Command, commit, take_snapshot, subscribe, unsubscribe, stop, new_coordinator,
  publish, register, snapshot, detach, adopt, handle, step, Channel, subscribed, SubscriberMessage,
  closed, serve,
}
use tmuxatlas.State.Coordinator.Broadcast.{broadcast-Unique}
use tmuxatlas.State.Coordinator.Reader.{
  World, Event, command, receive, start, receive_next, drain, world_step, world_run,
  take_registered, take_detached, receive_from,
}
use tmuxatlas.State.Coordinator.Follow.{Inv, IsFollowing}
use tmuxatlas.State.Coordinator.Follow.Steps.{step-Inv, receive-Inv}

-- What every command keeps of the registry, and how far it moves the counter.
record IsSound (c d : Coordinator) : Type 0 where
  unique : Unique c.subscribers → Unique d.subscribers
  counter : d.next_subscriber_id ≤ c.next_subscriber_id + 1

publish-IsSound : (o : Option DeltaEnvelope) (c : Coordinator) → IsSound c (publish o c)
unfolding publish
publish-IsSound none c = record { unique = λ u. u; counter = omega arith }
publish-IsSound (some d) c = record {
  unique = broadcast-Unique _ _ c.subscribers c.detached;
  counter = omega arith;
}

detach-IsSound : (id : ℕ) (o : Option Channel) (c : Coordinator) → IsSound c (detach id o c)
detach-IsSound id none c = record { unique = λ u. u; counter = omega arith }
detach-IsSound id (some ch) c = record {
  unique = remove-Unique id c.subscribers;
  counter = omega arith;
}

module _ (json_valid : Text → Bool) where
  adopt-IsSound :
      (c : Coordinator) (r : Result Error (CommitResult × Projection))
      → IsSound c (adopt json_valid c r).0
  adopt-IsSound c (err e) = record { unique = λ u. u; counter = omega arith }
  adopt-IsSound c (ok (result, next)) = ground (
    arith,
    publish-IsSound result.delta (record c { projection = next; revision = result.revision }),
  )

  handle-IsSound : (cmd : Command) (c : Coordinator) → IsSound c (handle json_valid cmd c).0
  unfolding handle register
  handle-IsSound (commit ops) c = adopt-IsSound c _
  handle-IsSound take_snapshot c = record { unique = λ u. u; counter = omega arith }
  handle-IsSound (subscribe queue_size) c = record {
    unique = put-Unique _ _ c.subscribers;
    counter = omega arith;
  }
  handle-IsSound (unsubscribe id) c = detach-IsSound id (get id c.subscribers) c
  handle-IsSound stop c = record { unique = λ u. tt; counter = omega arith }

  stopping-IsSound :
      (b : Bool) (cmd : Command) (c : Coordinator)
      → IsSound c (if b then (c, closed) else handle json_valid cmd c).0
  stopping-IsSound true cmd c = record { unique = λ u. u; counter = omega arith }
  stopping-IsSound false cmd c = handle-IsSound cmd c

  step-IsSound : (cmd : Command) (c : Coordinator) → IsSound c (step json_valid cmd c).0
  unfolding step
  step-IsSound cmd c = stopping-IsSound c.stopped cmd c

  serve-Unique :
      (cmds : List Command) (c : Coordinator)
      → Unique c.subscribers
      → Unique (serve json_valid cmds c).subscribers
        × ((serve json_valid cmds c).next_subscriber_id ≤ c.next_subscriber_id + length cmds)
  unfolding serve
  serve-Unique [] c u = (u, omega arith)
  serve-Unique (cmd ∷ cmds) c u =
      let d = (step json_valid cmd c).0 in
      let s = step-IsSound cmd c in
      let (u', b) = serve-Unique cmds d (s.unique u) in (u', omega (arith, b, s.counter))

  counter-take_registered :
      (id : ℕ) (ch : Channel) (ms : List SubscriberMessage) (w : World)
      → (take_registered json_valid id ch ms w).hub.next_subscriber_id ≡ w.hub.next_subscriber_id
  counter-take_registered id ch [] w = refl
  counter-take_registered id ch (m ∷ ms) w = refl

  counter-take_detached :
      (id : ℕ) (ch : Channel) (ms : List SubscriberMessage) (w : World)
      → (take_detached json_valid id ch ms w).hub.next_subscriber_id ≡ w.hub.next_subscriber_id
  counter-take_detached id ch [] w = refl
  counter-take_detached id ch (m ∷ ms) w = refl

  counter-receive_from :
      (id : ℕ) (o p : Option Channel) (w : World)
      → (receive_from json_valid id o p w).hub.next_subscriber_id ≡ w.hub.next_subscriber_id
  counter-receive_from id (some ch) p w = counter-take_registered id ch ch.buffer w
  counter-receive_from id none (some ch) w = counter-take_detached id ch ch.buffer w
  counter-receive_from id none none w = refl

  module _ (id : ℕ) where
    world_step-Inv :
        (e : Event) (w : World)
        → w.hub.next_subscriber_id + 1 < 2 ^ 64
        → Inv json_valid id w
        → Inv json_valid id (world_step json_valid id e w)
          × ((world_step json_valid id e w).hub.next_subscriber_id ≤ w.hub.next_subscriber_id + 1)
    unfolding world_step receive_next
    world_step-Inv (command c) w bound v =
        (step-Inv json_valid id w c bound v, (step-IsSound c w.hub).counter)
    world_step-Inv receive w bound v = (
      receive-Inv json_valid id w v,
      omega (arith, counter-receive_from id (get id w.hub.subscribers) (get id w.hub.detached) w),
    )

    world_run-Inv :
        (es : List Event) (w : World)
        → w.hub.next_subscriber_id + length es < 2 ^ 64
        → Inv json_valid id w
        → Inv json_valid id (world_run json_valid id es w)
    unfolding world_run
    world_run-Inv [] w bound v = v
    world_run-Inv (e ∷ es) w bound v =
        let (v', b) = world_step-Inv e w (omega arith) v in
        world_run-Inv es (world_step json_valid id e w) (omega (arith, b)) v'

  -- The hub after some commands, a subscription to it, and its reader.
  abbrev pub before : Text → List Command → Coordinator
  before instance_id cmds = serve json_valid cmds (new_coordinator instance_id)

  abbrev pub subscription : ℕ → Coordinator → World
  subscription queue_size c =
      let c' = register queue_size c in record { hub = c'; reader = start (snapshot c') }

  subscription-Inv :
      (queue_size : ℕ) (c : Coordinator)
      → Unique c.subscribers
      → Inv json_valid (register queue_size c).next_subscriber_id (subscription queue_size c)
  unfolding register start snapshot drain
  subscription-Inv queue_size c u = record {
    unique = put-Unique _ _ c.subscribers u;
    known = omega arith;
    follows = inl (_, get-put_self (u64 (c.next_subscriber_id + 1)) _ c.subscribers, refl);
  }

  subscription_follows_registered :
      (instance_id : Text) (cmds : List Command) (queue_size : ℕ) (es : List Event)
      → length cmds + 1 + length es < 2 ^ 64
      → IsFollowing json_valid (register queue_size (before instance_id cmds)).next_subscriber_id (
          world_run json_valid
            (register queue_size (before instance_id cmds)).next_subscriber_id
            es
            (subscription queue_size (before instance_id cmds)))
  unfolding register new_coordinator
  subscription_follows_registered instance_id cmds queue_size es bound =
      let (u, b) = serve-Unique cmds (new_coordinator instance_id) tt in
      (world_run-Inv (register queue_size (before instance_id cmds)).next_subscriber_id es
        (subscription queue_size (before instance_id cmds)) (omega (arith, b))
        (subscription-Inv queue_size (before instance_id cmds) u)).follows

  step-subscribe :
      (queue_size : ℕ) (c c' : Coordinator) (s : SnapshotEnvelope) (id : ℕ)
      → step json_valid (subscribe queue_size) c ≡ (c', subscribed s id)
      → (c' ≡ register queue_size c)
        × (s ≡ snapshot (register queue_size c))
        × (id ≡ (register queue_size c).next_subscriber_id)
  unfolding step handle
  step-subscribe queue_size c c' s id h = ground arith

  -- A subscription to a coordinator that has served any commands, answered with a snapshot and a
  -- number, and then any commands and receives, fewer than 2^64 in all. As long as the subscriber is
  -- registered, what it has read and what is queued for it make up the state that a snapshot would
  -- show now, at the current revision. Once it is registered no more, nothing of what it is left with
  -- has a gap or fails to apply.
  pub subscription_follows :
      (instance_id : Text) (cmds : List Command) (queue_size : ℕ) (es : List Event)
      (c : Coordinator) (s : SnapshotEnvelope) (id : ℕ)
      → length cmds + 1 + length es < 2 ^ 64
      → step json_valid (subscribe queue_size) (serve json_valid cmds (new_coordinator instance_id))
        ≡ (c, subscribed s id)
      → IsFollowing json_valid id
          (world_run json_valid id es (record { hub = c; reader = start s }))
  subscription_follows instance_id cmds queue_size es c s id bound h =
      let (p, q, r) = step-subscribe queue_size (before instance_id cmds) c s id h in
      rw (p, q, r) (subscription_follows_registered instance_id cmds queue_size es bound)
