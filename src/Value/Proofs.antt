-- ===== src/Value/Proofs.antt =====
-- The proofs that travel with an answer: backend/app/value/proofs.py. The two signatures of PyNaCl, over
-- the canonical JSON of a payload, and the hash of a proof are parameters. A received object with a key
-- left out is read as one with that key null, and an empty object as null.
pub mod Verify
pub mod Checks
pub mod Relay
use can_framework.Prelude.{
  ℕ, zero, suc, ◌+◌, ◌-◌, ◌==◌, ◌≡◌, Bool, true, false, not, Option, none, some, List, [], ◌∷◌,
  ◌++◌, String, str_eq, ◌&&◌, ◌||◌, if◌then◌else◌,
}
use can_framework.Prelude.Table.{length}

-- The payload of a match, or of a hop.
pub record Payload : Type 0 where
  pub kind : String
  pub query_id : Option String
  pub commitment : Option String
  pub node_id : Option String
  pub from_node : Option String
  pub inner_hash : Option String

-- What `_sign` makes.
pub record Attestation : Type 0 where
  pub node_id : Option String
  pub public_key : Option String
  pub payload : Option Payload
  pub value : Option String

pub record Proof : Type 0 where
  pub match : Option Attestation
  pub hops : List Attestation
  pub inner_hash : Option String

-- NODE_ID and NODE_SIGNING_KEY; an empty key is no key.
pub record Node : Type 0 where
  pub node_id : String
  pub signing_key : Option String

-- PyNaCl and the hash: the public key of a signing key, a signature, its check (`false` where it raises),
-- and `proof_hash`.
pub record Crypto : Type 0 where
  pub public_key : String → String
  pub sign : String → Payload → String
  pub verifies : String → Payload → String → Bool
  pub proof_hash : Option Proof → String

abbrev pub signed : Crypto → Node → Payload → String → Attestation
signed c n p key = record {
  node_id = some n.node_id;
  public_key = some (c.public_key key);
  payload = some p;
  value = some (c.sign key p);
}

unfoldable pub sign : Crypto → Node → Payload → Option Attestation
sign c n p = elim n.signing_key [ none ↦ none | some key ↦ some (signed c n p key) ]

abbrev pub match_payload : Node → String → String → Payload
match_payload n query_id commitment = record {
  kind = "match";
  query_id = some query_id;
  commitment = some commitment;
  node_id = some n.node_id;
  from_node = none;
  inner_hash = none;
}

unfoldable pub match_attestation : Crypto → Node → String → String → Option Attestation
unfolding sign
match_attestation c n query_id commitment = sign c n (match_payload n query_id commitment)

abbrev pub hop_payload : Crypto → Node → Option Proof → String → String → String → Payload
hop_payload c n inner query_id commitment from_node = record {
  kind = "hop";
  query_id = some query_id;
  commitment = some commitment;
  node_id = some n.node_id;
  from_node = some from_node;
  inner_hash = some (c.proof_hash inner);
}

abbrev pub inner_match : Option Proof → Option Attestation
inner_match none = none
inner_match (some p) = p.match

abbrev pub inner_hops : Option Proof → List Attestation
inner_hops none = []
inner_hops (some p) = p.hops

abbrev pub wrapped : Crypto → Option Proof → Attestation → Proof
wrapped c inner hop = record {
  match = inner_match inner;
  hops = inner_hops inner ++ hop ∷ [];
  inner_hash = some (c.proof_hash inner);
}

unfoldable pub wrap_hop : Crypto → Node → Option Proof → String → String → String → Option Proof
unfolding sign
wrap_hop c n inner query_id commitment from_node =
    elim (sign c n (hop_payload c n inner query_id commitment from_node)) [
      | none ↦ none
      | some hop ↦ some (wrapped c inner hop)
    ]

abbrev pub chain : Option Attestation → List Attestation → Proof
chain match hops = record { match = match; hops = hops; inner_hash = none }

unfoldable pub new_proof : Option Attestation → Option Proof
new_proof none = none
new_proof (some match) = some (chain (some match) [])

-- The payload of an attestation whose signature verifies, as `_verify_signature` finds it.
abbrev pub checked_payload :
    Crypto → Option String → Option Payload → Option String → Option Payload
checked_payload c (some key) (some p) (some value) = if c.verifies key p value then some p else none
checked_payload c _ _ _ = none

unfoldable pub verified : Crypto → Attestation → Option Payload
verified c att = checked_payload c att.public_key att.payload att.value
