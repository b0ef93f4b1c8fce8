-- ===== src/Peers/Stored.antt =====
-- What the store writes, it can load.
use tmuxatlas.Common.{
  ◌≡◌, refl, subst, Bool, true, false, ◌||◌, List, [], ◌∷◌, ◌++◌, Option, none, some, Text,
  same_text, any, map, arith, Bool-cases, Option-cases, inl, inr, get, Text-discrete, ℕ_discrete,
  ap,
}
use tmuxatlas.Peers.{
  Peer, Names, Object, Json, object_of, legacy_peer_of, peer_of, has_certificate, PeerStore,
  validate_peer, validate_records, save_peers, load_peers, add_as, add, without_peer, remove_peer,
  Call, adds, removes, handle, run,
}
use tmuxatlas.Peers.Records.{records_append, records_without, no_clash, no_clash_nil}

pub peers_come_back :
    (peers : List Peer) → map peer_of (map legacy_peer_of (map object_of peers)) ≡ peers
unfolding object_of legacy_peer_of get Text-discrete ℕ_discrete
peers_come_back [] = refl
peers_come_back (p ∷ peers) = ap (λ t. p ∷ t) (peers_come_back peers)

no_certificate :
    (peers : List Peer) → any has_certificate (map legacy_peer_of (map object_of peers)) ≡ false
unfolding object_of legacy_peer_of get Text-discrete ℕ_discrete
no_certificate [] = refl
no_certificate (p ∷ peers) = no_certificate peers

-- The library reads the objects of peers that pass the store's checks back from its text of them.
abbrev pub ReadsBack : Names → Json → Type 0
ReadsBack names json =
    (peers : List Peer) (content : Text)
    → validate_records names [] peers ≡ true
    → json.marshal (map object_of peers) ≡ some content
    → json.unmarshal content ≡ some (map object_of peers)

module _ (names : Names) (json : Json) (law : ReadsBack names json) where
  -- The records in memory pass the check, and the file loads as the store, whatever works then.
  abbrev IsStored : PeerStore → Type 0
  IsStored ps =
      (validate_records names [] ps.peers ≡ true)
      × ((backs_up saves : Bool) → load_peers names json backs_up saves ps.file ≡ some ps)

  loads_back :
      (peers : List Peer) (content : Text) (backs_up saves : Bool)
      → validate_records names [] peers ≡ true
      → json.marshal (map object_of peers) ≡ some content
      → load_peers names json backs_up saves (some content)
        ≡ some (record { peers = peers; file = some content })
  unfolding load_peers
  loads_back peers content backs_up saves v m =
      rw (law peers content v m, no_certificate peers, peers_come_back peers, v) refl

  save_peers-IsStored :
      (saves : Bool) (updated : List Peer) (ps : PeerStore)
      → validate_records names [] updated ≡ true
      → IsStored ps
      → IsStored (save_peers names json saves updated ps).1
  unfolding save_peers
  save_peers-IsStored saves updated ps v h =
      elim (Option-cases (json.marshal (map object_of updated))) [
        | inl m ↦ rw m h
        | inr (content, m) ↦ elim (Bool-cases saves) [
          | inr s ↦ rw (m, s) h
          | inl s ↦ rw (m, s) (v, λ b t. loads_back updated content b t v m)
        ]
      ]

  add-IsStored :
      (saves : Bool) (peer : Peer) (ps : PeerStore)
      → IsStored ps
      → IsStored (add names json saves peer ps).1
  unfolding add
  add-IsStored saves peer ps h = elim (Option-cases (names.normalize peer.name)) [
    | inl e ↦ rw e h
    | inr (name, e) ↦ rw e (added (record peer { name = name }))
  ]
    where
      added : (p : Peer) → IsStored (add_as names json saves p ps).1
      added p = elim (Bool-cases (validate_peer names p)) [
        | inr v ↦ rw v h
        | inl v ↦
            elim (Bool-cases (
              any (λ q. same_text q.public_key p.public_key || same_text q.name p.name) ps.peers)) [
                | inl c ↦ rw (v, c) h
                | inr c ↦
                    rw (v, c)
                      (save_peers-IsStored saves (ps.peers ++ p ∷ []) ps
                        (records_append names [] ps.peers p h.0 v (no_clash_nil names p)
                          (no_clash names ps.peers p c))
                        h)
              ]
      ]

  remove-IsStored :
      (saves : Bool) (name : Text) (ps : PeerStore)
      → IsStored ps
      → IsStored (remove_peer names json saves name ps).1
  unfolding remove_peer
  remove-IsStored saves name ps h = elim (Bool-cases (any (λ p. same_text p.name name) ps.peers)) [
    | inr e ↦ rw e h
    | inl e ↦ rw e (
        save_peers-IsStored saves (without_peer name ps.peers) ps
          (records_without names name [] ps.peers h.0) h)
  ]

  run-IsStored :
      (calls : List Call) (ps : PeerStore) → IsStored ps → IsStored (run names json calls ps)
  unfolding run handle
  run-IsStored [] ps h = h
  run-IsStored (adds saves peer ∷ calls) ps h =
      run-IsStored calls (add names json saves peer ps).1 (add-IsStored saves peer ps h)
  run-IsStored (removes saves name ∷ calls) ps h =
      run-IsStored calls (remove_peer names json saves name ps).1 (remove-IsStored saves name ps h)

  -- The store that is read from objects.
  abbrev records_of : List Object → List Peer
  records_of objects = map peer_of (map legacy_peer_of objects)

  -- A file without certificates is taken as it is.
  plain-IsStored :
      (backs_up saves : Bool) (content : Text) (objects : List Object) (ps : PeerStore)
      → json.unmarshal content ≡ some objects
      → any has_certificate (map legacy_peer_of objects) ≡ false
      → validate_records names [] (records_of objects) ≡ true
      → load_peers names json backs_up saves (some content) ≡ some ps
      → IsStored ps
  unfolding load_peers
  plain-IsStored backs_up saves content objects ps u c v e =
      let found : (b t : Bool)
          → load_peers names json b t (some content)
            ≡ some (record { peers = records_of objects; file = some content }) =
        λ b t. rw (u, v, c) refl in
      let same : record { peers = records_of objects; file = some content } ≡ ps =
        cc (e, found backs_up saves) in
      subst IsStored same (v, found)

  -- A file with a certificate is backed up and saved.
  migrated-IsStored :
      (backs_up saves : Bool) (content : Text) (objects : List Object) (ps : PeerStore)
      → json.unmarshal content ≡ some objects
      → any has_certificate (map legacy_peer_of objects) ≡ true
      → validate_records names [] (records_of objects) ≡ true
      → load_peers names json backs_up saves (some content) ≡ some ps
      → IsStored ps
  unfolding load_peers save_peers
  migrated-IsStored false saves content objects ps u c v e = absurd (
      let refused : load_peers names json false saves (some content) ≡ none = rw (u, v, c) refl in
      cc (e, refused))
  migrated-IsStored true saves content objects ps u c v e =
      elim (Option-cases (json.marshal (map object_of (records_of objects)))) [
        | inl m ↦ absurd (
            let refused : load_peers names json true saves (some content) ≡ none =
              rw (u, v, c, m) refl in
            cc (e, refused))
        | inr (next, m) ↦ elim (Bool-cases saves) [
          | inr s ↦ absurd (
              let refused : load_peers names json true saves (some content) ≡ none =
                rw (u, v, c, m, s) refl in
              cc (e, refused))
          | inl s ↦
              let found : load_peers names json true saves (some content)
                  ≡ some (record { peers = records_of objects; file = some next }) =
                rw (u, v, c, m, s) refl in
              let same : record { peers = records_of objects; file = some next } ≡ ps =
                cc (e, found) in
              subst IsStored same (v, λ b t. loads_back (records_of objects) next b t v m)
        ]
      ]

  read-IsStored :
      (backs_up saves : Bool) (content : Text) (objects : List Object) (ps : PeerStore)
      → json.unmarshal content ≡ some objects
      → load_peers names json backs_up saves (some content) ≡ some ps
      → IsStored ps
  read-IsStored backs_up saves content objects ps u e =
      elim (Bool-cases (validate_records names [] (records_of objects))) [
        | inr v ↦ absurd (
            let refused : load_peers names json backs_up saves (some content) ≡ none =
              unfold load_peers in rw (u, v) refl in
            cc (e, refused))
        | inl v ↦ elim (Bool-cases (any has_certificate (map legacy_peer_of objects))) [
          | inl c ↦ migrated-IsStored backs_up saves content objects ps u c v e
          | inr c ↦ plain-IsStored backs_up saves content objects ps u c v e
        ]
      ]

  load_peers-IsStored :
      (backs_up saves : Bool) (file : Option Text) (ps : PeerStore)
      → load_peers names json backs_up saves file ≡ some ps
      → IsStored ps
  load_peers-IsStored backs_up saves none ps e =
      let found : (b t : Bool)
          → load_peers names json b t none ≡ some (record { peers = []; file = none }) =
        λ b t. unfold load_peers in refl in
      let same : record { peers = []; file = none } ≡ ps = cc (e, found backs_up saves) in
      subst IsStored same (unfold validate_records in refl, found)
  load_peers-IsStored backs_up saves (some content) ps e =
      elim (Option-cases (json.unmarshal content)) [
        | inl u ↦ absurd (unfold load_peers in ground arith)
        | inr (objects, u) ↦ read-IsStored backs_up saves content objects ps u e
      ]

-- The JSON library reads back what it wrote of valid peers. From a store that was loaded, where a file
-- with old certificates is migrated, after any additions and removals, whose saves may fail: the file
-- loads again, as just the store that is in memory.
pub stored_peers_load :
    (names : Names) (json : Json) (backs_up saves : Bool) (file : Option Text) (ps : PeerStore)
    (calls : List Call)
    → ReadsBack names json
    → load_peers names json backs_up saves file ≡ some ps
    → (b s : Bool)
    → load_peers names json b s (run names json calls ps).file ≡ some (run names json calls ps)
stored_peers_load names json backs_up saves file ps calls law e b s =
    (run-IsStored names json law calls ps
        (load_peers-IsStored names json law backs_up saves file ps e)).1
      b s
