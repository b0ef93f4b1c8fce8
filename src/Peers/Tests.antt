-- ===== src/Peers/Tests.antt =====
-- The theorem about the store of peers at a concrete input.
use tmuxatlas.Common.{
  ℕ, zero, suc, ◌≡◌, refl, ap, true, false, not, List, [], ◌∷◌, Option, none, some, Text, bytes,
  is_empty, map, length, get, Text-discrete, ℕ_discrete,
}
use tmuxatlas.Peers.{
  Peer, Names, Object, Json, object_of, legacy_peer_of, peer_of, load_peers, validate_records, Call,
  adds, removes, run,
}
use tmuxatlas.Peers.Stored.{ReadsBack, peers_come_back, stored_peers_load}

abbrev plain_names : Names
plain_names = record {
  normalize = λ name. some name;
  is_stored_name = λ name. not (is_empty name);
  is_public_key = λ key. not (is_empty key);
}

abbrev laptop : Peer
laptop = record { name = bytes "laptop"; public_key = bytes "k1"; paired_at = 1 }

abbrev desktop : Peer
desktop = record { name = bytes "desktop"; public_key = bytes "k2"; paired_at = 2 }

abbrev some_calls : List Call
some_calls =
    adds true desktop
    ∷ adds true laptop
    ∷ removes false (bytes "laptop")
    ∷ removes true (bytes "laptop")
    ∷ []

-- A text for the objects of peers: how many there are, then for each the time, the name and the key, each
-- byte of these two after a 1, and a 0 at the end.
unfoldable joined : Text → Text → Text
joined [] rest = 0 ∷ rest
joined (c ∷ s) rest = 1 ∷ c ∷ joined s rest

unfoldable split : Text → Text × Text
split [] = ([], [])
split (zero ∷ rest) = ([], rest)
split (suc n ∷ []) = ([], [])
split (suc n ∷ c ∷ rest) = let (s, others) = split rest in (c ∷ s, others)

split-joined : (s rest : Text) → split (joined s rest) ≡ (s, rest)
unfolding split joined
split-joined [] rest = refl
split-joined (c ∷ s) rest = rw (split-joined s rest) refl

unfoldable write_all : List Peer → Text
unfolding joined
write_all [] = []
write_all (p ∷ peers) = p.paired_at ∷ joined p.name (joined p.public_key (write_all peers))

abbrev peer_with : ℕ → Text → Text → Peer
peer_with t name key = record { name = name; public_key = key; paired_at = t }

unfoldable read_all : ℕ → Text → List Peer
unfolding split
read_all zero s = []
read_all (suc n) [] = []
read_all (suc n) (t ∷ s) =
    let named = split s in
    let keyed = split named.1 in peer_with t named.0 keyed.0 ∷ read_all n keyed.1

read_all-write_all : (peers : List Peer) → read_all (length peers) (write_all peers) ≡ peers
unfolding read_all write_all
read_all-write_all [] = refl
read_all-write_all (p ∷ peers) =
    rw (split-joined p.name (joined p.public_key (write_all peers))) (
      rw (split-joined p.public_key (write_all peers)) (ap (λ t. p ∷ t) (read_all-write_all peers)))

abbrev written_text : List Peer → Text
written_text peers = length peers ∷ write_all peers

unfoldable objects_of_text : Text → Option (List Object)
unfolding read_all object_of
objects_of_text [] = none
objects_of_text (n ∷ s) = some (map object_of (read_all n s))

abbrev plain_json : Json
plain_json = record {
  marshal = λ objects. some (written_text (map peer_of (map legacy_peer_of objects)));
  unmarshal = objects_of_text;
}

plain_json-reads : ReadsBack plain_names plain_json
unfolding objects_of_text
plain_json-reads peers content v m =
    let same : content ≡ written_text peers = cc (m, ap written_text (peers_come_back peers)) in
    rw (same, read_all-write_all peers) refl

stored_peers_load_example :
    load_peers plain_names plain_json true false
      (run plain_names plain_json some_calls
        (record { peers = laptop ∷ []; file = some (written_text (laptop ∷ [])) })).file
    ≡ some (
        run plain_names plain_json some_calls
          (record { peers = laptop ∷ []; file = some (written_text (laptop ∷ [])) }))
stored_peers_load_example =
    stored_peers_load plain_names plain_json false false (some (written_text (laptop ∷ [])))
      (record { peers = laptop ∷ []; file = some (written_text (laptop ∷ [])) }) some_calls
      plain_json-reads
      (unfold load_peers validate_records objects_of_text read_all write_all joined split object_of
          legacy_peer_of get Text-discrete ℕ_discrete in
        refl)
      true false
