-- ===== src/Peer/Protocol/Negotiate.antt =====
-- What the two ends agree on.
use Prim.Native.Nat.{max, min}
use tmuxatlas.Common.{
  ℕ, ◌≤◌, ◌<◌, ◌≡◌, ◌≢◌, refl, false, List, [], ◌∷◌, arith, Text, length, ok, err, Bool-cases, leb,
  ◌&&◌, ◌⊎◌, inl, inr,
}
use tmuxatlas.Peer.Protocol.{
  Library, HelloPayload, HelloAckPayload, runtime_capabilities, runtime_protocol_min,
  runtime_protocol_max, max_build_length, validate_bounded_text, validate_distinct,
  validate_capabilities, contains, intersect_capabilities, validate_hello, validate_hello_ack,
  negotiate_hello, incompatible,
}

length-intersect_capabilities :
    (left right : List Text) → length (intersect_capabilities left right) ≤ length left
unfolding intersect_capabilities
length-intersect_capabilities [] right = omega arith
length-intersect_capabilities (c ∷ left) right =
    ground (arith, length-intersect_capabilities left right)

distinct-cons :
    (seen rest : List Text) (c : Text)
    → validate_distinct seen (c ∷ rest) ≡ ok tt
    → (validate_bounded_text c 64 ≡ ok tt)
      × (contains c seen ≡ false)
      × (validate_distinct (c ∷ seen) rest ≡ ok tt)
unfolding validate_distinct
distinct-cons seen rest c h = (ground arith, ground arith, ground arith)

distinct_cons-intro :
    (seen rest : List Text) (c : Text)
    → validate_bounded_text c 64 ≡ ok tt
    → contains c seen ≡ false
    → validate_distinct (c ∷ seen) rest ≡ ok tt
    → validate_distinct seen (c ∷ rest) ≡ ok tt
unfolding validate_distinct
distinct_cons-intro seen rest c b n h = ground arith

-- Leaving out some of a list of distinct names, and of those seen before it, leaves distinct names.
validate_distinct-intersect :
    (seen fewer left right : List Text)
    → ((c : Text) → contains c seen ≡ false → contains c fewer ≡ false)
    → validate_distinct seen left ≡ ok tt
    → validate_distinct fewer (intersect_capabilities left right) ≡ ok tt
unfolding intersect_capabilities
validate_distinct-intersect seen fewer [] right h v = unfold validate_distinct in refl
validate_distinct-intersect seen fewer (c ∷ left) right h v =
    let (b, n, rest) = distinct-cons seen left c v in
    elim (Bool-cases (contains c right)) [
      | inl e ↦ rw e (
          distinct_cons-intro fewer (intersect_capabilities left right) c b (h c n) (
            validate_distinct-intersect (c ∷ seen) (c ∷ fewer) left right
              (λ d f. unfold contains in ground (arith, h d)) rest))
      | inr e ↦ rw e (
          validate_distinct-intersect (c ∷ seen) fewer left right
            (λ d f. h d (unfold contains in ground arith)) rest)
    ]

validate_capabilities-intersect :
    (left right : List Text)
    → validate_capabilities left ≡ ok tt
    → validate_capabilities (intersect_capabilities left right) ≡ ok tt
unfolding validate_capabilities
validate_capabilities-intersect left right h = ground (
  arith,
  length-intersect_capabilities left right,
  validate_distinct-intersect [] [] left right (λ c f. f),
)

contains-intersect :
    (c : Text) (left right : List Text)
    → contains c (intersect_capabilities left right) ≡ (contains c left && contains c right)
unfolding contains intersect_capabilities
contains-intersect c [] right = refl
contains-intersect c (d ∷ left) right = ground (arith, contains-intersect c left right)

-- A handshake that succeeds, for a connection with a generation and a Hub with a valid build name: the
-- answer passes the Agent's check, its version lies in the ranges of both ends, and it has just the
-- capabilities that both have. A valid greeting whose range and the Hub's have no version in common
-- is refused as incompatible.
pub negotiate_hello_agrees :
    (lib : Library) (hello : HelloPayload) (generation : ℕ) (hub_build : Text)
    → validate_hello lib hello ≡ ok tt
    → generation ≢ 0
    → validate_bounded_text hub_build max_build_length ≡ ok tt
    → ((ack : HelloAckPayload) × (negotiate_hello lib hello generation hub_build ≡ ok ack)
        × (validate_hello_ack lib ack ≡ ok tt)
        × (hello.min_version ≤ ack.version)
        × (ack.version ≤ hello.max_version)
        × (ack.generation ≡ generation)
        × ((c : Text)
            → contains c ack.capabilities
              ≡ (contains c hello.capabilities && contains c runtime_capabilities)))
      ⊎ ((negotiate_hello lib hello generation hub_build ≡ err incompatible)
          × ((runtime_protocol_max < hello.min_version)
              ⊎ (hello.max_version < runtime_protocol_min)))
unfolding negotiate_hello
negotiate_hello_agrees lib hello generation hub_build h g b =
    elim (Bool-cases (
      leb (max hello.min_version runtime_protocol_min)
        (min hello.max_version runtime_protocol_max))) [
          | inl e ↦ inl (
            record {
              version = min hello.max_version runtime_protocol_max;
              capabilities = intersect_capabilities hello.capabilities runtime_capabilities;
              build_version = hub_build;
              generation = generation;
              agent_instance_id = hello.agent_instance_id;
            },
            rw (h, e) refl,
            unfold validate_hello_ack validate_hello in
                ground
                  (arith, validate_capabilities-intersect hello.capabilities runtime_capabilities),
            ground arith,
            ground arith,
            refl,
            λ c. contains-intersect c hello.capabilities runtime_capabilities,
          )
          | inr e ↦ inr (rw (h, e) refl, unfold validate_hello in ground arith)
        ]
