-- ===== src/State/Coordinator/Follow.antt =====
-- A subscriber never sees a gap: what it has read, with what is queued for it, is the state.
mod Steps
pub mod Runs
use tmuxatlas.Common.{
  ℕ, zero, suc, ◌+◌, ◌%◌, ◌^◌, ◌<◌, ◌≤◌, ◌≡◌, ◌≢◌, refl, sym, ap, ◌∙◌, List, [], ◌∷◌, ◌++◌, map,
  arith, Bool, true, false, Option, none, some, Dict, get, put, remove, ℕ_key, get-put, get-remove,
  Unique, put-Unique, remove-Unique, Text, ok, err, Result, inl, inr, ◌⊎◌, Option-cases, Bool-cases,
  length,
}
use tmuxatlas.State.Projection.{Projection, Operation}
use tmuxatlas.State.Projection.Clone.{clone_projection, clone_operation}
use tmuxatlas.State.Commit.{
  DeltaEnvelope, CommitResult, delta_of, u64, apply_all, apply_commit, conclude,
}
use tmuxatlas.State.Commit.Replay.{replay_lem}
use tmuxatlas.State.Commit.Effects.{conclude_cases}
use tmuxatlas.State.Coordinator.{
  Coordinator, Channel, Command, commit, take_snapshot, subscribe, unsubscribe, stop, delta,
  outcome, SubscriberMessage, clone_delta, overflow_notice, offer, broadcast, publish, register,
  step,
}
use tmuxatlas.State.Coordinator.Broadcast.{staying, leaving, get-broadcast, broadcast-Unique}
use tmuxatlas.State.Coordinator.Reader.{
  Status, following, resync, broken, Reader, World, Event, command, receive, start, take_delta,
  read, drain, receive_next, world_step, world_run,
}

-- A reader that has all of the hub's state.
abbrev pub synced : Coordinator → Reader
synced hub = record {
  state = clone_projection hub.projection;
  revision = hub.revision;
  status = following;
}

module _ (json_valid : Text → Bool) where
  drain-append :
      (ms ns : List SubscriberMessage) (r : Reader)
      → drain json_valid (ms ++ ns) r ≡ drain json_valid ns (drain json_valid ms r)
  unfolding drain
  drain-append [] ns r = refl
  drain-append (m ∷ ms) ns r = drain-append ms ns (read json_valid m r)

  -- Still registered: after all that is queued the reader has the state. Gone: it has not met a
  -- delta that does not fit, and will not.
  abbrev pub IsFollowing : ℕ → World → Type 0
  IsFollowing id w =
      ((ch : Channel) × (get id w.hub.subscribers ≡ some ch)
        × (drain json_valid ch.buffer w.reader ≡ synced w.hub))
      ⊎ ((get id w.hub.subscribers ≡ none)
          × ((ch : Channel) × (get id w.hub.detached ≡ some ch)
              × ((drain json_valid ch.buffer w.reader).status ≢ broken)))

  pub record Inv (id : ℕ) (w : World) : Type 0 where
    pub unique : Unique w.hub.subscribers
    pub known : id ≤ w.hub.next_subscriber_id
    pub follows : IsFollowing id w

  -- The delta of a commit takes a reader that has the state before it to the state after it.
  read_delta :
      (hub : Coordinator) (next : Projection) (ops : List Operation)
      → apply_all json_valid 0 ops (clone_projection hub.projection) ≡ ok next
      → read json_valid
          (delta (clone_delta (delta_of hub.instance_id hub.revision ops)))
          (synced hub)
        ≡ synced (record hub { projection = next; revision = u64 (hub.revision + 1) })
  unfolding read take_delta clone_delta
  read_delta hub next ops h = ground (arith, replay_lem json_valid ops hub.projection next h)

  read_broken :
      (m : SubscriberMessage) (r : Reader)
      → r.status ≡ broken
      → (read json_valid m r).status ≡ broken
  unfolding read
  read_broken m r h = ground arith

  drain_broken :
      (ms : List SubscriberMessage) (r : Reader)
      → r.status ≡ broken
      → (drain json_valid ms r).status ≡ broken
  unfolding drain
  drain_broken [] r h = h
  drain_broken (m ∷ ms) r h = drain_broken ms (read json_valid m r) (read_broken m r h)

  read_notice :
      (instance_id : Text) (revision : ℕ) (r : Reader)
      → r.status ≢ broken
      → (read json_valid (overflow_notice instance_id revision) r).status ≢ broken
  unfolding read
  read_notice instance_id revision r h = λ e. ground arith

  module _ (message : SubscriberMessage) (instance_id : Text) (revision : ℕ) where
    abbrev notice : SubscriberMessage
    notice = overflow_notice instance_id revision

    -- The channel after a send: the message behind the others, or the notice in their place.
    offer_cases :
        (ch : Channel)
        → ((offer message notice ch).1 ≡ true)
            × ((offer message notice ch).0.buffer ≡ ch.buffer ++ (message ∷ []))
          ⊎ ((offer message notice ch).1 ≡ false)
            × ((offer message notice ch).0.buffer ≡ notice ∷ [])
    unfolding offer
    offer_cases ch = ground arith

    drain-notice :
        (ms : List SubscriberMessage) (r s : Reader)
        → drain json_valid ms r ≡ s
        → s.status ≡ following
        → (drain json_valid (notice ∷ []) r).status ≢ broken
    unfolding drain
    drain-notice ms r s h f =
        read_notice instance_id revision r (λ e. ground (arith, drain_broken ms r e))

  module _ (id : ℕ) (w : World) (next : Projection) (ops : List Operation) where
    -- The hub once the commit is adopted, before and after the broadcast.
    abbrev adopted : Coordinator
    adopted = record (w.hub) { projection = next; revision = u64 (w.hub.revision + 1) }

    abbrev announced : Coordinator
    announced = publish (some (delta_of w.hub.instance_id w.hub.revision ops)) adopted

    abbrev sent : SubscriberMessage
    sent = delta (clone_delta (delta_of w.hub.instance_id w.hub.revision ops))

    abbrev notice_sent : SubscriberMessage
    notice_sent = overflow_notice w.hub.instance_id (u64 (w.hub.revision + 1))

    announced-IsFollowing_registered :
        (ch : Channel)
        → Unique w.hub.subscribers
        → get id w.hub.subscribers ≡ some ch
        → drain json_valid ch.buffer w.reader ≡ synced w.hub
        → apply_all json_valid 0 ops (clone_projection w.hub.projection) ≡ ok next
        → IsFollowing id (record w { hub = announced })
    unfolding publish
    announced-IsFollowing_registered ch u e d h =
        let (s, l) = get-broadcast sent notice_sent id w.hub.subscribers w.hub.detached u in
        elim (offer_cases sent w.hub.instance_id (u64 (w.hub.revision + 1)) ch) [
          | inl (kept, b) ↦ inl (
            (offer sent notice_sent ch).0,
            ground arith,
            rw (b, drain-append ch.buffer (sent ∷ []) w.reader, d)
                (unfold drain in read_delta w.hub next ops h),
          )
          | inr (dropped, b) ↦ inr (
            ground arith,
            (
              (offer sent notice_sent ch).0,
              ground arith,
              rw b (
                  drain-notice sent w.hub.instance_id (u64 (w.hub.revision + 1)) ch.buffer w.reader
                    (synced w.hub) d refl),
            ),
          )
        ]

    announced-Inv :
        Inv id w
        → apply_all json_valid 0 ops (clone_projection w.hub.projection) ≡ ok next
        → Inv id (record w { hub = announced })
    unfolding publish
    announced-Inv v h = record {
      unique = broadcast-Unique sent notice_sent w.hub.subscribers w.hub.detached v.unique;
      known = v.known;
      follows = follows_from v.follows;
    }
      where
        follows_from : IsFollowing id w → IsFollowing id (record w { hub = announced })
        follows_from (inl (ch, e, d)) = announced-IsFollowing_registered ch v.unique e d h
        follows_from (inr (e, (ch, g, d))) =
            let (s, l) =
              get-broadcast sent notice_sent id w.hub.subscribers w.hub.detached v.unique in
            inr (ground arith, (ch, ground arith, d))
