-- ===== src/Peer/Relay/Leak.antt =====
-- A stream that is put into the relay's map after its teardown has left it.
use tmuxatlas.Common.{
  ℕ, ◌≡◌, refl, sym, ap, subst, Bool, true, false, ◌==◌, List, [], ◌∷◌, Option, none, some, arith,
  Text, text_key, ℕ_key, get, has, if◌then◌else◌, inl, inr, Bool-cases, get-put, get-put_self,
  get-map_values, Text-discrete,
}
use tmuxatlas.Peer.Relay.{
  owned, listed, ended, PtyOwner, PeerConnection, World, Move, checks, owns, lists, tears, unlists,
  releases, closes_sockets, attaches, attachable, move, Step, opens, moves, closes, cancels,
  collects, new_owner, open_on, move_on, is_closed, is_done, handle, run, close_on, cancel_on,
}

-- The owner is torn down, and still pending.
abbrev pub IsStuck : PtyOwner → Type 0
IsStuck o = (o.phase ≡ listed) × (o.teardown ≡ ended) × (o.done ≡ true) × (o.in_pending ≡ true)

move-IsStuck :
    (closed done : Bool) (m : Move) (o : PtyOwner) → IsStuck o → IsStuck (move closed done m o)
unfolding move
move-IsStuck closed done checks o h = rw h.0 (refl, h.1, h.2, h.3)
move-IsStuck closed done owns o h = rw h.0 (refl, h.1, h.2, h.3)
move-IsStuck closed done lists o h = rw h.0 (refl, h.1, h.2, h.3)
move-IsStuck closed done tears o h = rw h.1 (h.0, refl, h.2, h.3)
move-IsStuck closed done unlists o h = rw h.1 (h.0, refl, h.2, h.3)
move-IsStuck closed done releases o h = rw h.1 (h.0, refl, h.2, h.3)
move-IsStuck closed done closes_sockets o h = rw h.1 (h.0, refl, h.2, h.3)
move-IsStuck closed done (attaches a) o h = elim (Bool-cases (attachable done a o)) [
  | inl e ↦ absurd (ground arith)
  | inr e ↦ rw e h
]

module _ (stream : Text) where
  abbrev HasStuck : World → Type 0
  HasStuck w = (o : PtyOwner) × (get stream w.owners ≡ some o) × IsStuck o

  opens-HasStuck :
      (c : Option PeerConnection) (other : Text) (connection : ℕ) (session token : Text) (w : World)
      → HasStuck w
      → HasStuck (open_on c other connection session token w)
  opens-HasStuck none other connection session token w h = h
  opens-HasStuck (some c) other connection session token w (o, e, h) =
      elim (Bool-cases (has other w.owners)) [
        | inl f ↦ rw f (o, e, h)
        | inr f ↦ rw f (elim (Text-discrete other stream) [
          | yes p ↦ absurd (ground (arith, ap (λ (k : Text). get k w.owners) p))
          | no n ↦ (
            o,
            ground (arith, get-put stream other (new_owner connection c session token) w.owners),
            h,
          )
        ])
      ]

  moves-HasStuck :
      (known : Option PtyOwner) (other : Text) (m : Move) (w : World)
      → get other w.owners ≡ known
      → HasStuck w
      → HasStuck (move_on known other m w)
  moves-HasStuck none other m w e h = h
  moves-HasStuck (some v) other m w e (o, f, h) =
      let c = get v.connection w.connections in
      elim (Text-discrete other stream) [
        | yes p ↦
            let same : v ≡ o = ground (arith, ap (λ (k : Text). get k w.owners) p) in
            (
              move (is_closed c) (is_done c) m v,
              ground (arith, get-put stream other (move (is_closed c) (is_done c) m v) w.owners),
              move-IsStuck (is_closed c) (is_done c) m v (subst IsStuck (sym same) h),
            )
        | no n ↦ (
          o,
          ground (arith, get-put stream other (move (is_closed c) (is_done c) m v) w.owners),
          h,
        )
      ]

  close-HasStuck :
      (c : Option PeerConnection) (id : ℕ) (w : World)
      → HasStuck w
      → HasStuck (close_on c id w) × HasStuck (cancel_on c id w)
  close-HasStuck none id w h = (h, h)
  close-HasStuck (some c) id w h = (h, h)

  handle-HasStuck : (s : Step) (w : World) → HasStuck w → HasStuck (handle s w)
  unfolding handle
  handle-HasStuck (opens other connection session token) w h =
      opens-HasStuck (get connection w.connections) other connection session token w h
  handle-HasStuck (moves other m) w h = moves-HasStuck (get other w.owners) other m w refl h
  handle-HasStuck (closes id) w h = (close-HasStuck (get id w.connections) id w h).0
  handle-HasStuck (cancels id) w h = (close-HasStuck (get id w.connections) id w h).1
  handle-HasStuck (collects id) w (o, e, h) =
      let f = λ (v : PtyOwner). if v.connection == id then record v { in_ptys = false } else v in
      (
        f o,
        ground (arith, get-map_values f stream w.owners),
        elim (Bool-cases (o.connection == id)) [ inl g ↦ rw g h | inr g ↦ rw g h ],
      )

  run-HasStuck : (steps : List Step) (w : World) → HasStuck w → HasStuck (run steps w)
  unfolding run
  run-HasStuck [] w h = h
  run-HasStuck (s ∷ steps) w h = run-HasStuck steps (handle s w) (handle-HasStuck s w h)

-- RegisterPending's goroutine has put the stream into the connection's map, the teardown that Close then
-- runs ends, and only then is the stream put into the relay's map: whatever steps follow, it stays there,
-- though its teardown has ended.
pub late_stream_stays_pending :
    (stream : Text) (o : PtyOwner) (w : World) (steps : List Step)
    → get stream w.owners ≡ some o
    → o.phase ≡ owned
    → o.teardown ≡ ended
    → o.done ≡ true
    → (p : PtyOwner) × (get stream (run steps (handle (moves stream lists) w)).owners ≡ some p)
      × (p.teardown ≡ ended)
      × (p.in_pending ≡ true)
late_stream_stays_pending stream o w steps e f g d =
    let (p, q, h) = run-HasStuck stream steps (handle (moves stream lists) w) (
      record o { phase = listed; in_pending = true },
      unfold handle move in rw (e, f) (get-put_self stream _ w.owners),
      (refl, g, d, refl),
    ) in
    (p, q, h.1, h.3)
