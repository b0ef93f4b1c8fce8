-- ===== src/State/Coordinator/Follow/Steps.antt =====
-- Every step of the world keeps the invariant of `Follow`.
use tmuxatlas.Common.{
  ℕ, ◌+◌, ◌^◌, ◌<◌, ◌≡◌, ◌≢◌, refl, sym, ap, ◌∙◌, List, [], ◌∷◌, arith, Bool, true, false, Option,
  none, some, Dict, get, ℕ_key, get-put, get-put_self, get-put_ne, get-remove_self, get-remove_ne,
  put-Unique, remove-Unique, Text, ok, err, Result, inl, inr, ◌>>=◌, if◌then◌else◌, ℕ_discrete,
}
use tmuxatlas.State.Projection.{Projection, Operation}
use tmuxatlas.State.Projection.Validate.{Error}
use tmuxatlas.State.Projection.Clone.{clone_projection}
use tmuxatlas.State.Commit.{u64, apply_all, apply_commit, conclude}
use tmuxatlas.State.Commit.Effects.{conclude_cases}
use tmuxatlas.State.Coordinator.{
  Channel, Command, commit, take_snapshot, subscribe, unsubscribe, stop, register, detach,
  close_all, adopt, handle, step, closed, SubscriberMessage,
}
use tmuxatlas.State.Coordinator.Reader.{
  broken, Reader, World, drain, take_registered, take_detached, receive_next,
}
use tmuxatlas.State.Coordinator.Follow.{Inv, IsFollowing, synced, announced-Inv}

get-close_all :
    (id : ℕ) (subs old : Dict ℕ Channel)
    → get id (close_all subs old) ≡ elim (get id subs) [ none ↦ get id old | some ch ↦ some ch ]
unfolding close_all get
get-close_all id [] old = refl
get-close_all id ((j, ch) ∷ subs) old =
    ground (arith, get-put id j ch (close_all subs old), get-close_all id subs old)

module _ (json_valid : Text → Bool) (id : ℕ) where
  -- The registry and the closed channels are as they were at `id`, and so is the state.
  IsFollowing-same :
      (w w' : World)
      → get id w'.hub.subscribers ≡ get id w.hub.subscribers
      → get id w'.hub.detached ≡ get id w.hub.detached
      → w'.reader ≡ w.reader
      → synced w'.hub ≡ synced w.hub
      → IsFollowing json_valid id w
      → IsFollowing json_valid id w'
  IsFollowing-same w w' s d r e (inl (ch, g, h)) = inl (ch, s ∙ g, rw (r, e) h)
  IsFollowing-same w w' s d r e (inr (g, (ch, k, h))) = inr (s ∙ g, (ch, d ∙ k, rw r h))

  -- The channel of `id` has left the registry, if it was there, and is as it was.
  IsFollowing-left :
      (w w' : World)
      → get id w'.hub.subscribers ≡ none
      → get id w'.hub.detached
        ≡ elim (get id w.hub.subscribers) [ none ↦ get id w.hub.detached | some ch ↦ some ch ]
      → w'.reader ≡ w.reader
      → IsFollowing json_valid id w
      → IsFollowing json_valid id w'
  IsFollowing-left w w' s d r (inl (ch, g, h)) =
      inr (s, (ch, ground arith, λ e. ground (arith, ap (λ (x : Reader). x.status) h, r)))
  IsFollowing-left w w' s d r (inr (g, (ch, k, h))) = inr (s, (ch, ground arith, rw r h))

  adopt-Inv :
      (w : World) (op : Operation) (ops : List Operation) (r : Result Error Projection)
      → Inv json_valid id w
      → apply_all json_valid 0 (op ∷ ops) (clone_projection w.hub.projection) ≡ r
      → Inv json_valid id (record w {
        hub =
            (adopt json_valid w.hub (
              r >>= λ next. ok (
                conclude json_valid w.hub.instance_id w.hub.projection w.hub.revision
                  (op ∷ ops)
                  next))).0;
      })
  adopt-Inv w op ops (err e) v h = v
  adopt-Inv w op ops (ok next) v h =
      elim (conclude_cases json_valid w.hub.instance_id w.hub.projection next w.hub.revision
        (op ∷ ops)) [
          | inl (e, same) ↦ rw e v
          | inr e ↦ rw e (announced-Inv json_valid id w next (op ∷ ops) v h)
        ]

  commit-Inv :
      (w : World) (ops : List Operation)
      → Inv json_valid id w
      → Inv json_valid id (record w { hub = (handle json_valid (commit ops) w.hub).0 })
  unfolding handle apply_commit
  commit-Inv w [] v = v
  commit-Inv w (op ∷ ops) v = adopt-Inv w op ops _ v refl

  subscribe-Inv :
      (w : World) (queue_size : ℕ)
      → w.hub.next_subscriber_id + 1 < 2 ^ 64
      → Inv json_valid id w
      → Inv json_valid id (record w { hub = register queue_size w.hub })
  unfolding register
  subscribe-Inv w queue_size bound v = record {
    unique = put-Unique _ _ w.hub.subscribers v.unique;
    known = omega (arith, v.known);
    follows =
        IsFollowing-same w (record w { hub = register queue_size w.hub })
          (get-put_ne id (u64 (w.hub.next_subscriber_id + 1)) _ w.hub.subscribers
            (λ e. omega (arith, v.known)))
          refl refl refl v.follows;
  }

  abbrev left_world : World → ℕ → Channel → World
  left_world w j ch = record w { hub = detach j (some ch) w.hub }

  unsubscribe-Inv :
      (w : World) (j : ℕ) (o : Option Channel)
      → get j w.hub.subscribers ≡ o
      → Inv json_valid id w
      → Inv json_valid id (record w { hub = detach j o w.hub })
  unsubscribe-Inv w j none e v = v
  unsubscribe-Inv w j (some ch) e v = record {
    unique = remove-Unique j w.hub.subscribers v.unique;
    known = v.known;
    follows = elim (ℕ_discrete j id) [
      | yes same ↦
          IsFollowing-left w (left_world w j ch) (rw same (get-remove_self id w.hub.subscribers))
            (rw same (get-put_self id ch w.hub.detached) ∙ found same) refl v.follows
      | no other ↦
          IsFollowing-same w (left_world w j ch) (get-remove_ne id j w.hub.subscribers other)
            (get-put_ne id j ch w.hub.detached other) refl refl v.follows
    ];
  }
    where
      found :
          j ≡ id
          → some ch
            ≡ elim (get id w.hub.subscribers) [ none ↦ get id w.hub.detached | some c ↦ some c ]
      found same = rw (sym (ap (λ k. get k w.hub.subscribers) same) ∙ e)

  stop-Inv :
      (w : World)
      → Inv json_valid id w
      → Inv json_valid id (record w { hub = (handle json_valid stop w.hub).0 })
  unfolding handle
  stop-Inv w v = record {
    unique = tt;
    known = v.known;
    follows =
        IsFollowing-left w (record w { hub = (handle json_valid stop w.hub).0 })
          (unfold get in refl) (get-close_all id w.hub.subscribers w.hub.detached) refl v.follows;
  }

  -- A command from anyone.
  handle-Inv :
      (w : World) (c : Command)
      → w.hub.next_subscriber_id + 1 < 2 ^ 64
      → Inv json_valid id w
      → Inv json_valid id (record w { hub = (handle json_valid c w.hub).0 })
  handle-Inv w (commit ops) bound v = commit-Inv w ops v
  handle-Inv w take_snapshot bound v = unfold handle in v
  handle-Inv w (subscribe queue_size) bound v = unfold handle in subscribe-Inv w queue_size bound v
  handle-Inv w (unsubscribe j) bound v =
      unfold handle in unsubscribe-Inv w j (get j w.hub.subscribers) refl v
  handle-Inv w stop bound v = stop-Inv w v

  -- `b` is whether the loop has ended.
  stopping-Inv :
      (w : World) (c : Command) (b : Bool)
      → w.hub.next_subscriber_id + 1 < 2 ^ 64
      → Inv json_valid id w
      → Inv json_valid id
          (record w { hub = (if b then (w.hub, closed) else handle json_valid c w.hub).0 })
  stopping-Inv w c true bound v = v
  stopping-Inv w c false bound v = handle-Inv w c bound v

  pub step-Inv :
      (w : World) (c : Command)
      → w.hub.next_subscriber_id + 1 < 2 ^ 64
      → Inv json_valid id w
      → Inv json_valid id (record w { hub = (step json_valid c w.hub).0 })
  unfolding step
  step-Inv w c bound v = stopping-Inv w c w.hub.stopped bound v

  registered-Inv :
      (w : World) (ch : Channel) (ms : List SubscriberMessage)
      → ch.buffer ≡ ms
      → drain json_valid ch.buffer w.reader ≡ synced w.hub
      → Inv json_valid id w
      → Inv json_valid id (take_registered json_valid id ch ms w)
  unfolding drain
  registered-Inv w ch [] e d v = v
  registered-Inv w ch (m ∷ ms) e d v = record {
    unique = put-Unique id _ w.hub.subscribers v.unique;
    known = v.known;
    follows = inl (
      record ch { buffer = ms },
      get-put_self id (record ch { buffer = ms }) w.hub.subscribers,
      rw e at d,
    );
  }

  detached-Inv :
      (w : World) (ch : Channel) (ms : List SubscriberMessage)
      → ch.buffer ≡ ms
      → get id w.hub.subscribers ≡ none
      → (drain json_valid ch.buffer w.reader).status ≢ broken
      → Inv json_valid id w
      → Inv json_valid id (take_detached json_valid id ch ms w)
  unfolding drain
  detached-Inv w ch [] e g d v = v
  detached-Inv w ch (m ∷ ms) e g d v = record {
    unique = v.unique;
    known = v.known;
    follows = inr (
      g,
      (
        record ch { buffer = ms },
        get-put_self id (record ch { buffer = ms }) w.hub.detached,
        rw e at d,
      ),
    );
  }

  pub receive-Inv :
      (w : World) → Inv json_valid id w → Inv json_valid id (receive_next json_valid id w)
  unfolding receive_next
  receive-Inv w v = from v.follows
    where
      from : IsFollowing json_valid id w → Inv json_valid id (receive_next json_valid id w)
      from (inl (ch, g, d)) = rw (g, receive_next) (registered-Inv w ch ch.buffer refl d v)
      from (inr (g, (ch, k, d))) = rw (g, k, receive_next) (detached-Inv w ch ch.buffer refl g d v)
