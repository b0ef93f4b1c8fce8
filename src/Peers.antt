-- ===== src/Peers.antt =====
-- pkg/identity/peers.go: the store of paired peers in memory and on disk. NormalizeName, the check of stored
-- names and ParsePublicKey are parameters. encoding/json is a parameter too, between texts and objects;
-- the tags of the two structures are those of the source. `saves` says whether the calls of the operating
-- system in saveData work, which replaces the file by a rename, and `backs_up` whether backupPeerStore does.
pub mod Records
pub mod Stored
mod Tests
use tmuxatlas.Common.{
  ℕ, Bool, true, false, not, ◌&&◌, ◌||◌, List, [], ◌∷◌, ◌++◌, Option, none, some, Text, same_text,
  any, if◌then◌else◌, bytes, is_empty, map, Dict, get, text_key, Text-discrete,
}

pub record Peer : Type 0 where
  pub name : Text
  pub public_key : Text
  pub paired_at : ℕ

pub record Names : Type 0 where
  pub normalize : Text → Option Text
  pub is_stored_name : Text → Bool
  pub is_public_key : Text → Bool

-- What a file of peers is read into: Peer's fields, and the certificates of older versions.
pub record LegacyPeer : Type 0 where
  pub name : Text
  pub public_key : Text
  pub paired_at : ℕ
  pub tls_cert_pem : Text
  pub ca_cert_pem : Text

-- A JSON object, as the values of its tags.
pub data Value : Type 0 where
  text : Text → Value
  time : ℕ → Value

abbrev pub Object : Type 0
Object = Dict Text Value

-- json.MarshalIndent of an object whose "peers" are the objects, none where it fails, and
-- json.Unmarshal of such a text.
pub record Json : Type 0 where
  pub marshal : List Object → Option Text
  pub unmarshal : Text → Option (List Object)

-- The tags of Peer.
unfoldable pub object_of : Peer → Object
object_of p =
    (bytes "name", text p.name)
    ∷ (bytes "public_key", text p.public_key)
    ∷ (bytes "paired_at", time p.paired_at)
    ∷ []

abbrev text_or_empty : Option Value → Text
text_or_empty (some (text s)) = s
text_or_empty _ = []

abbrev time_or_zero : Option Value → ℕ
time_or_zero (some (time t)) = t
time_or_zero _ = 0

-- The tags of legacyPeer: a field whose tag is missing is zero.
unfoldable pub legacy_peer_of : Object → LegacyPeer
unfolding get
legacy_peer_of object = record {
  name = text_or_empty (get (bytes "name") object);
  public_key = text_or_empty (get (bytes "public_key") object);
  paired_at = time_or_zero (get (bytes "paired_at") object);
  tls_cert_pem = text_or_empty (get (bytes "tls_cert_pem") object);
  ca_cert_pem = text_or_empty (get (bytes "ca_cert_pem") object);
}

-- The loop of loadPeerStore.
abbrev pub peer_of : LegacyPeer → Peer
peer_of p = record { name = p.name; public_key = p.public_key; paired_at = p.paired_at }

abbrev pub has_certificate : LegacyPeer → Bool
has_certificate p = not (is_empty p.tls_cert_pem) || not (is_empty p.ca_cert_pem)

-- The store in memory, and the text of its file, none where there is none.
pub record PeerStore : Type 0 where
  pub peers : List Peer
  pub file : Option Text

pub data PeerError : Type 0 where
  invalid_peer conflict not_saved not_found : PeerError

module _ (names : Names) where
  open names use {is_stored_name, is_public_key}

  abbrev pub validate_peer : Peer → Bool
  validate_peer p = is_stored_name p.name && is_public_key p.public_key

  -- The loop of validatePeerRecords, with the names and keys of the peers before.
  unfoldable pub validate_records : List Peer → List Peer → Bool
  validate_records seen [] = true
  validate_records seen (p ∷ peers) =
      validate_peer p
      && not (any (λ q. same_text q.name p.name) seen)
      && not (any (λ q. same_text q.public_key p.public_key) seen)
      && validate_records (p ∷ seen) peers

module _ (names : Names) (json : Json) where
  open names use {normalize}

  -- saveData: the text replaces the file where each call of the operating system works.
  abbrev save_text : Bool → Option Text → List Peer → PeerStore → Option PeerError × PeerStore
  save_text saves none updated ps = (some not_saved, ps)
  save_text saves (some content) updated ps =
      if saves
      then (none, record { peers = updated; file = some content })
      else (some not_saved, ps)

  -- Where the file is saved, the list becomes the store's.
  unfoldable pub save_peers : Bool → List Peer → PeerStore → Option PeerError × PeerStore
  unfolding object_of
  save_peers saves updated ps = save_text saves (json.marshal (map object_of updated)) updated ps

  abbrev if_saved : Option PeerError × PeerStore → Option PeerStore
  if_saved (none, ps) = some ps
  if_saved (some e, ps) = none

  -- The migration of a file with certificates: a backup, and the file saved without them.
  abbrev migrated : Bool → Bool → Bool → PeerStore → Option PeerStore
  migrated needed backs_up saves ps =
      if needed then if backs_up then if_saved (save_peers saves ps.peers ps) else none else some ps

  abbrev load_records : Bool → Bool → Text → List LegacyPeer → Option PeerStore
  load_records backs_up saves content stored =
      let peers = map peer_of stored in
      if validate_records names [] peers
      then migrated (any has_certificate stored) backs_up saves
          (record { peers = peers; file = some content })
      else none

  abbrev load_parsed : Bool → Bool → Text → Option (List Object) → Option PeerStore
  load_parsed backs_up saves content none = none
  load_parsed backs_up saves content (some objects) =
      load_records backs_up saves content (map legacy_peer_of objects)

  -- loadPeerStore of a file that is not there or can be read; none for an error.
  unfoldable pub load_peers : Bool → Bool → Option Text → Option PeerStore
  unfolding validate_records save_peers legacy_peer_of
  load_peers backs_up saves none = some (record { peers = []; file = none })
  load_peers backs_up saves (some content) =
      load_parsed backs_up saves content (json.unmarshal content)

  abbrev pub add_as : Bool → Peer → PeerStore → Option PeerError × PeerStore
  add_as saves peer ps =
      if not (validate_peer names peer)
      then (some invalid_peer, ps)
      else if any (λ q. same_text q.public_key peer.public_key || same_text q.name peer.name)
          ps.peers
      then (some conflict, ps)
      else save_peers saves (ps.peers ++ peer ∷ []) ps

  abbrev pub add_named : Bool → Option Text → Peer → PeerStore → Option PeerError × PeerStore
  add_named saves none peer ps = (some invalid_peer, ps)
  add_named saves (some name) peer ps = add_as saves (record peer { name = name }) ps

  unfoldable pub add : Bool → Peer → PeerStore → Option PeerError × PeerStore
  unfolding save_peers
  add saves peer ps = add_named saves (normalize peer.name) peer ps

-- The list without the first peer of the name.
unfoldable pub without_peer : Text → List Peer → List Peer
without_peer name [] = []
without_peer name (p ∷ peers) =
    let rest = without_peer name peers in if same_text p.name name then peers else p ∷ rest

unfoldable pub find_peer : Text → List Peer → Option Peer
find_peer name [] = none
find_peer name (p ∷ peers) =
    let rest = find_peer name peers in if same_text p.name name then some p else rest

unfoldable pub find_key : Text → List Peer → Option Peer
find_key key [] = none
find_key key (p ∷ peers) =
    let rest = find_key key peers in if same_text p.public_key key then some p else rest

module _ (names : Names) (json : Json) where
  unfoldable pub remove_peer : Bool → Text → PeerStore → Option PeerError × PeerStore
  unfolding without_peer save_peers
  remove_peer saves name ps =
      if any (λ p. same_text p.name name) ps.peers
      then save_peers names json saves (without_peer name ps.peers) ps
      else (some not_found, ps)

pub data Call : Type 0 where
  adds : Bool → Peer → Call
  removes : Bool → Text → Call

module _ (names : Names) (json : Json) where
  unfoldable pub handle : Call → PeerStore → PeerStore
  unfolding add remove_peer
  handle (adds saves peer) ps = (add names json saves peer ps).1
  handle (removes saves name) ps = (remove_peer names json saves name ps).1

  unfoldable pub run : List Call → PeerStore → PeerStore
  run [] ps = ps
  run (c ∷ calls) ps = run calls (handle c ps)
