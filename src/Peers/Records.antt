-- ===== src/Peers/Records.antt =====
-- The check of the records of peers, when one is added or taken out.
use tmuxatlas.Common.{
  ◌≡◌, refl, Bool, true, false, ◌||◌, List, [], ◌∷◌, ◌++◌, Text, same_text, any, arith, Bool-cases,
  inl, inr,
}
use tmuxatlas.Peers.{Peer, Names, validate_peer, validate_records, without_peer}

module _ (names : Names) where
  -- No name and no key of the peer is among those of a list.
  abbrev pub clashes : List Peer → Peer → Bool
  clashes seen p =
      any (λ q. same_text q.name p.name) seen || any (λ q. same_text q.public_key p.public_key) seen

  -- A list that is checked with more peers before it is checked with fewer.
  pub records_append :
      (seen peers : List Peer) (p : Peer)
      → validate_records names seen peers ≡ true
      → validate_peer names p ≡ true
      → clashes seen p ≡ false
      → clashes peers p ≡ false
      → validate_records names seen (peers ++ p ∷ []) ≡ true
  unfolding validate_records
  records_append seen [] p h v c d = ground arith
  records_append seen (x ∷ peers) p h v c d = ground (arith, records_append (x ∷ seen) peers p)

  clashes_cons :
      (a b : List Peer) (x : Peer)
      → ((p : Peer) → clashes a p ≡ false → clashes b p ≡ false)
      → (p : Peer) → clashes (x ∷ a) p ≡ false
      → clashes (x ∷ b) p ≡ false
  clashes_cons a b x h p e = ground (arith, h p)

  records_fewer :
      (a b peers : List Peer)
      → ((p : Peer) → clashes a p ≡ false → clashes b p ≡ false)
      → validate_records names a peers ≡ true
      → validate_records names b peers ≡ true
  unfolding validate_records
  records_fewer a b [] h v = refl
  records_fewer a b (p ∷ peers) h v =
      ground (arith, h p, records_fewer (p ∷ a) (p ∷ b) peers (clashes_cons a b p h))

  pub records_without :
      (name : Text) (seen peers : List Peer)
      → validate_records names seen peers ≡ true
      → validate_records names seen (without_peer name peers) ≡ true
  unfolding validate_records without_peer
  records_without name seen [] v = refl
  records_without name seen (p ∷ peers) v = elim (Bool-cases (same_text p.name name)) [
    | inl e ↦ rw e (records_fewer (p ∷ seen) seen peers (λ q c. ground arith) (ground arith))
    | inr e ↦ rw e (ground (arith, records_without name (p ∷ seen) peers))
  ]

  pub no_clash :
      (peers : List Peer) (p : Peer)
      → any (λ q. same_text q.public_key p.public_key || same_text q.name p.name) peers ≡ false
      → clashes peers p ≡ false
  no_clash [] p h = refl
  no_clash (x ∷ peers) p h = ground (arith, no_clash peers p)

  pub no_clash_nil : (p : Peer) → clashes [] p ≡ false
  no_clash_nil p = refl
