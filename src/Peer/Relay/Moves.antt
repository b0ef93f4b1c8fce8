-- ===== src/Peer/Relay/Moves.antt =====
-- What holds of a stream of the relay, and that each of its steps keeps it.
use tmuxatlas.Common.{
  ◌≡◌, refl, Bool, true, false, not, ◌&&◌, ◌||◌, Option, none, some, arith, text_key, ℕ_key,
  is_some, inl, inr, Bool-cases,
}
use tmuxatlas.Peer.Relay.{
  Phase, created, checked, owned, listed, refused, Teardown, idle, cancelled, unlisted, released,
  ended, Attachment, PtyOwner, Move, checks, owns, lists, tears, unlists, releases, closes_sockets,
  attaches, matches, attachable, check, own, list_pending, tear, unlist, release, close_sockets,
  move, panics,
}

-- Teardown has left the relay's maps.
abbrev pub is_unlisted : Teardown → Bool
is_unlisted idle = false
is_unlisted cancelled = false
is_unlisted unlisted = true
is_unlisted released = true
is_unlisted ended = true

abbrev pub is_ended : Teardown → Bool
is_ended idle = false
is_ended cancelled = false
is_ended unlisted = false
is_ended released = false
is_ended ended = true

abbrev pub is_listed : Phase → Bool
is_listed created = false
is_listed checked = false
is_listed owned = false
is_listed listed = true
is_listed refused = false

abbrev pub is_idle : Teardown → Bool
is_idle idle = true
is_idle cancelled = false
is_idle unlisted = false
is_idle released = false
is_idle ended = false

abbrev pub implies : Bool → Bool → Bool
implies a b = not a || b

abbrev pub fits : Option Attachment → PtyOwner → Bool
fits none o = true
fits (some a) o = matches a o

-- A stream that may be looked at between any two steps.
abbrev pub is_sound : PtyOwner → Bool
is_sound o =
    implies o.in_pending (is_listed o.phase && not o.ready)
    && implies o.in_active (o.ready && not (is_unlisted o.teardown))
    && implies o.ready (is_listed o.phase && is_some o.attachment)
    && implies (is_some o.attachment) o.ready
    && implies (not (is_idle o.teardown)) o.done
    && implies (is_ended o.teardown && is_some o.attachment) o.peer_closed
    && fits o.attachment o

check-is_sound :
    (closed : Bool) (p : Phase) (o : PtyOwner)
    → o.phase ≡ p
    → is_sound o ≡ true
    → is_sound (check closed p o) ≡ true
check-is_sound closed created o e h = ground arith
check-is_sound closed checked o e h = ground arith
check-is_sound closed owned o e h = ground arith
check-is_sound closed listed o e h = ground arith
check-is_sound closed refused o e h = ground arith

own-is_sound :
    (p : Phase) (o : PtyOwner) → o.phase ≡ p → is_sound o ≡ true → is_sound (own p o) ≡ true
own-is_sound created o e h = ground arith
own-is_sound checked o e h = ground arith
own-is_sound owned o e h = ground arith
own-is_sound listed o e h = ground arith
own-is_sound refused o e h = ground arith

list_pending-is_sound :
    (p : Phase) (o : PtyOwner)
    → o.phase ≡ p
    → is_sound o ≡ true
    → is_sound (list_pending p o) ≡ true
list_pending-is_sound created o e h = ground arith
list_pending-is_sound checked o e h = ground arith
list_pending-is_sound owned o e h = ground arith
list_pending-is_sound listed o e h = ground arith
list_pending-is_sound refused o e h = ground arith

tear-is_sound :
    (p : Teardown) (o : PtyOwner) → o.teardown ≡ p → is_sound o ≡ true → is_sound (tear p o) ≡ true
tear-is_sound idle o e h = ground arith
tear-is_sound cancelled o e h = ground arith
tear-is_sound unlisted o e h = ground arith
tear-is_sound released o e h = ground arith
tear-is_sound ended o e h = ground arith

unlist-is_sound :
    (p : Teardown) (o : PtyOwner)
    → o.teardown ≡ p
    → is_sound o ≡ true
    → is_sound (unlist p o) ≡ true
unlist-is_sound idle o e h = ground arith
unlist-is_sound cancelled o e h = ground arith
unlist-is_sound unlisted o e h = ground arith
unlist-is_sound released o e h = ground arith
unlist-is_sound ended o e h = ground arith

release-is_sound :
    (p : Teardown) (o : PtyOwner)
    → o.teardown ≡ p
    → is_sound o ≡ true
    → is_sound (release p o) ≡ true
release-is_sound idle o e h = ground arith
release-is_sound cancelled o e h = ground arith
release-is_sound unlisted o e h = ground arith
release-is_sound released o e h = ground arith
release-is_sound ended o e h = ground arith

close_sockets-is_sound :
    (p : Teardown) (o : PtyOwner)
    → o.teardown ≡ p
    → is_sound o ≡ true
    → is_sound (close_sockets p o) ≡ true
close_sockets-is_sound idle o e h = ground arith
close_sockets-is_sound cancelled o e h = ground arith
close_sockets-is_sound unlisted o e h = ground arith
close_sockets-is_sound released o e h = ground arith
close_sockets-is_sound ended o e h = ground arith

pub move-is_sound :
    (closed done : Bool) (m : Move) (o : PtyOwner)
    → is_sound o ≡ true
    → is_sound (move closed done m o) ≡ true
unfolding move
move-is_sound closed done checks o h = check-is_sound closed o.phase o refl h
move-is_sound closed done owns o h = own-is_sound o.phase o refl h
move-is_sound closed done lists o h = list_pending-is_sound o.phase o refl h
move-is_sound closed done tears o h = tear-is_sound o.teardown o refl h
move-is_sound closed done unlists o h = unlist-is_sound o.teardown o refl h
move-is_sound closed done releases o h = release-is_sound o.teardown o refl h
move-is_sound closed done closes_sockets o h = close_sockets-is_sound o.teardown o refl h
move-is_sound closed done (attaches a) o h = elim (Bool-cases (attachable done a o)) [
  | inl e ↦ ground arith
  | inr e ↦ rw e h
]

-- A stream that is ready is not pending, so that its channel is closed once.
pub panics-is_sound :
    (done : Bool) (m : Move) (o : PtyOwner) → is_sound o ≡ true → panics done m o ≡ false
panics-is_sound done (attaches a) o h = ground arith
panics-is_sound done checks o h = refl
panics-is_sound done owns o h = refl
panics-is_sound done lists o h = refl
panics-is_sound done tears o h = refl
panics-is_sound done unlists o h = refl
panics-is_sound done releases o h = refl
panics-is_sound done closes_sockets o h = refl
