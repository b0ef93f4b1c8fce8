-- ===== src/State/Coordinator/Broadcast.antt =====
-- What one subscriber sees of a broadcast.
use tmuxatlas.Common.{
  ℕ, ◌≡◌, refl, [], ◌∷◌, arith, Option, none, some, Dict, get, ℕ_key, if◌then◌else◌, get-put,
  Unique,
}
use tmuxatlas.State.Coordinator.{Channel, SubscriberMessage, offer, broadcast}

module _ (message notice : SubscriberMessage) where
  -- Its channel in the registry afterwards, and the one that its reader is left with.
  abbrev pub staying : Option Channel → Option Channel
  staying none = none
  staying (some ch) = if (offer message notice ch).1 then some (offer message notice ch).0 else none

  abbrev pub leaving : Option Channel → Option Channel → Option Channel
  leaving old none = old
  leaving old (some ch) =
      if (offer message notice ch).1 then old else some (offer message notice ch).0

  pub get-broadcast :
      (id : ℕ) (subs old : Dict ℕ Channel)
      → Unique subs
      → (get id (broadcast message notice subs old).0 ≡ staying (get id subs))
        × (get id (broadcast message notice subs old).1 ≡ leaving (get id old) (get id subs))
  unfolding broadcast get
  get-broadcast id [] old u = (refl, refl)
  get-broadcast id ((j, ch) ∷ subs) old u = ground (
    arith,
    get-broadcast id subs old u.1,
    get-broadcast j subs old u.1,
    get-put id j (offer message notice ch).0 (broadcast message notice subs old).1,
  )

  pub broadcast-Unique :
      (subs old : Dict ℕ Channel) → Unique subs → Unique (broadcast message notice subs old).0
  unfolding broadcast
  broadcast-Unique [] old u = tt
  broadcast-Unique ((j, ch) ∷ subs) old u =
      ground (arith, get-broadcast j subs old u.1, broadcast-Unique subs old u.1)
