-- ===== src/Peer/Relay/Sound.antt =====
-- What holds of each stream of the relay.
use tmuxatlas.Common.{
  ℕ, ◌≡◌, refl, sym, ap, subst, ◌∙◌, true, false, not, ◌&&◌, ◌==◌, List, [], ◌∷◌, Option, none,
  some, arith, Text, text_key, ℕ_key, Dict, get, put, has, is_some, if◌then◌else◌, inl, inr,
  Bool-cases, Option-cases, get-put, get-map_values, Text-discrete,
}
use tmuxatlas.Peer.Relay.{
  Teardown, idle, cancelled, unlisted, released, ended, Attachment, PtyOwner, PeerConnection, World,
  Move, move, Step, opens, moves, closes, cancels, collects, new_owner, open_on, move_on, is_closed,
  is_done, handle, run, close_on, cancel_on,
}
use tmuxatlas.Peer.Relay.Moves.{
  is_unlisted, is_ended, implies, fits, is_sound, move-is_sound, panics-is_sound,
}

abbrev pub AreSound : World → Type 0
AreSound w =
    ((stream : Text) (o : PtyOwner) → get stream w.owners ≡ some o → is_sound o ≡ true)
    × (w.panicked ≡ false)

put-AreSound :
    (stream : Text) (o : PtyOwner) (m : Dict Text PtyOwner)
    → ((k : Text) (v : PtyOwner) → get k m ≡ some v → is_sound v ≡ true)
    → is_sound o ≡ true
    → (k : Text) (v : PtyOwner) → get k (put stream o m) ≡ some v
    → is_sound v ≡ true
put-AreSound stream o m h s k v e = elim (Text-discrete stream k) [
  | yes p ↦
      let same : o ≡ v = ground (arith, get-put k stream o m) in
      subst (λ x. is_sound x ≡ true) same s
  | no n ↦ h k v (ground (arith, get-put k stream o m))
]

opens-AreSound :
    (c : Option PeerConnection) (stream : Text) (connection : ℕ) (session token : Text) (w : World)
    → AreSound w
    → AreSound (open_on c stream connection session token w)
opens-AreSound none stream connection session token w h = h
opens-AreSound (some c) stream connection session token w h =
    elim (Bool-cases (has stream w.owners)) [
      | inl e ↦ rw e h
      | inr e ↦
          rw e (put-AreSound stream (new_owner connection c session token) w.owners h.0 refl, h.1)
    ]

moves-AreSound :
    (known : Option PtyOwner) (stream : Text) (m : Move) (w : World)
    → get stream w.owners ≡ known
    → AreSound w
    → AreSound (move_on known stream m w)
moves-AreSound none stream m w e h = h
moves-AreSound (some o) stream m w e h =
    let c = get o.connection w.connections in
    (
      put-AreSound stream (move (is_closed c) (is_done c) m o) w.owners h.0
          (move-is_sound (is_closed c) (is_done c) m o (h.0 stream o e)),
      ground (arith, h.1, panics-is_sound (is_done c) m o (h.0 stream o e)),
    )

-- A step of a connection leaves what is_sound looks at.
connection-AreSound :
    (w x : World) → x.owners ≡ w.owners → x.panicked ≡ w.panicked → AreSound w → AreSound x
connection-AreSound w x e f h = (λ k o g. h.0 k o (sym (ap (get k) e) ∙ g), f ∙ h.1)

fits_ptys :
    (a : Option Attachment) (o : PtyOwner) → fits a (record o { in_ptys = false }) ≡ fits a o
fits_ptys none o = refl
fits_ptys (some a) o = refl

collected-is_sound :
    (id : ℕ) (o : PtyOwner)
    → is_sound o ≡ true
    → is_sound (if o.connection == id then record o { in_ptys = false } else o) ≡ true
collected-is_sound id o h = elim (Bool-cases (o.connection == id)) [
  | inl e ↦ rw e (ground (arith, fits_ptys o.attachment o))
  | inr e ↦ rw e h
]

collects-AreSound : (id : ℕ) (w : World) → AreSound w → AreSound (handle (collects id) w)
unfolding handle
collects-AreSound id w h = (
  λ k o e.
      let f = λ (v : PtyOwner). if v.connection == id then record v { in_ptys = false } else v in
      elim (Option-cases (get k w.owners)) [
        | inl n ↦ absurd (ground (arith, get-map_values f k w.owners))
        | inr (v, n) ↦
            let same : f v ≡ o = ground (arith, get-map_values f k w.owners) in
            subst (λ x. is_sound x ≡ true) same (collected-is_sound id v (h.0 k v n))
      ],
  h.1,
)

close-AreSound :
    (c : Option PeerConnection) (id : ℕ) (w : World)
    → AreSound w
    → AreSound (close_on c id w) × AreSound (cancel_on c id w)
close-AreSound none id w h = (h, h)
close-AreSound (some c) id w h = (h, h)

handle-AreSound : (s : Step) (w : World) → AreSound w → AreSound (handle s w)
handle-AreSound (opens stream connection session token) w h =
    unfold handle in
    opens-AreSound (get connection w.connections) stream connection session token w h
handle-AreSound (moves stream m) w h =
    unfold handle in moves-AreSound (get stream w.owners) stream m w refl h
handle-AreSound (closes id) w h = unfold handle in (close-AreSound (get id w.connections) id w h).0
handle-AreSound (cancels id) w h = unfold handle in (close-AreSound (get id w.connections) id w h).1
handle-AreSound (collects id) w h = collects-AreSound id w h

pub run-AreSound : (steps : List Step) (w : World) → AreSound w → AreSound (run steps w)
unfolding run
run-AreSound [] w h = h
run-AreSound (s ∷ steps) w h = run-AreSound steps (handle s w) (handle-AreSound s w h)

ended_lem :
    (t : Teardown) (o : PtyOwner)
    → o.teardown ≡ t
    → is_sound o ≡ true
    → implies (is_ended t) (not o.in_active && implies (is_some o.attachment) o.peer_closed) ≡ true
ended_lem idle o e h = refl
ended_lem cancelled o e h = refl
ended_lem unlisted o e h = refl
ended_lem released o e h = refl
ended_lem ended o e h = ground arith

-- From a relay without streams, after any interleaving of the steps of its streams and connections: no
-- channel is closed twice; each stream is in at most one of the relay's maps; one that is active is bound to
-- an attachment with its host, generation, token and session, and its teardown has not left the maps; one
-- whose teardown has ended is not active, and the socket of its attachment, if it has one, is closed.
pub streams_are_sound :
    (connections : Dict ℕ PeerConnection) (steps : List Step) (stream : Text) (o : PtyOwner)
    → get stream
        (run steps (record { owners = []; connections = connections; panicked = false })).owners
      ≡ some o
    → ((run steps (record { owners = []; connections = connections; panicked = false })).panicked
        ≡ false)
      × (o.in_pending && o.in_active ≡ false)
      × (implies o.in_active
            (is_some o.attachment && fits o.attachment o && not (is_unlisted o.teardown))
          ≡ true)
      × (implies
            (is_ended o.teardown)
            (not o.in_active && implies (is_some o.attachment) o.peer_closed)
          ≡ true)
streams_are_sound connections steps stream o e =
    let w = run steps (record { owners = []; connections = connections; panicked = false }) in
    let h =
      run-AreSound steps (record { owners = []; connections = connections; panicked = false })
        (λ k v f. absurd (unfold get in cc), refl) in
    let s : is_sound o ≡ true = h.0 stream o e in
    (h.1, ground arith, ground arith, ended_lem o.teardown o refl s)
