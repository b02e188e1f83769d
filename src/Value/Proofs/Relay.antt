-- ===== src/Value/Proofs/Relay.antt =====
-- Proofs as `wrap_hop` of backend/app/value/proofs.py makes them, and chains that end in one hop.
use can_framework.Prelude.{
  ◌≡◌, refl, ap, sym, ◌∙◌, true, false, Option, some, List, [], ◌∷◌, ◌++◌, String, str_eq,
  str_eq_iff, arith, Bool-cases, Option-cases, inl, inr,
}
use mathlib.Core.Path.{subst}
use mathlib.Core.List.{append-nil, append_assoc}
use can_framework.Value.Proofs.{
  Payload, Attestation, Proof, Node, Crypto, sign, signed, match_attestation, match_payload,
  hop_payload, wrap_hop, wrapped, chain, new_proof, verified,
}
use can_framework.Value.Proofs.Verify.{
  Claim, match_problems, walk, anchor_problems, problems_of, verify_proof,
}
use can_framework.Value.Proofs.Checks.{IsLinked, AllLinked, proven-AllLinked}

-- What PyNaCl documents: a signature made with a key verifies with its public key.
abbrev pub HasSignatures : Crypto → Type 0
HasSignatures c =
    (key : String) (p : Payload) → c.verifies (c.public_key key) p (c.sign key p) ≡ true

verified-signed :
    (c : Crypto) (n : Node) (p : Payload) (key : String)
    → HasSignatures c
    → verified c (signed c n p key) ≡ some p
unfolding verified
verified-signed c n p key h = rw (h key p)

str_eq_self : (s : String) → str_eq s s ≡ true
str_eq_self s = (str_eq_iff s s).1 refl

-- The question of a node, about an answer that came along `path` from the peer behind it.
abbrev pub claim : String → String → List String → Node → String → Claim
claim query_id commitment path peer public_key = record {
  query_id = query_id;
  commitment = commitment;
  path = path;
  anchor_node = some peer.node_id;
  anchor_public_key = some public_key;
}

-- A node that can sign.
abbrev pub with_key : String → String → Node
with_key node_id key = record { node_id = node_id; signing_key = some key }

-- An answer that two honest nodes with keys give is proven at the node that asked: where the peer that was
-- asked holds the match, at degree 1, and where it relays the answer of a holder behind it, at degree 2.
pub honest_answers_proven :
    (c : Crypto) (origin relay_id relay_key holder_id holder_key query_id commitment : String)
    → HasSignatures c
    → let holder = with_key holder_id holder_key in
      let relay = with_key relay_id relay_key in
      let direct = new_proof (match_attestation c holder query_id commitment) in
      let near = origin ∷ holder_id ∷ [] in
      let far = origin ∷ relay_id ∷ holder_id ∷ [] in
      (verify_proof c (claim query_id commitment near holder (c.public_key holder_key)) direct
        ≡ record { proven = true; problems = []; degree = some 1 })
      × (verify_proof c
            (claim query_id commitment far relay (c.public_key relay_key))
            (wrap_hop c relay direct query_id commitment holder_id)
          ≡ record { proven = true; problems = []; degree = some 2 })
unfolding verify_proof problems_of match_problems walk anchor_problems new_proof match_attestation
    wrap_hop
honest_answers_proven c origin relay_id relay_key holder_id holder_key query_id commitment h =
    let holder = with_key holder_id holder_key in
    let relay = with_key relay_id relay_key in
    let held = match_payload holder query_id commitment in
    let direct = new_proof (match_attestation c holder query_id commitment) in
    let hop = hop_payload c relay direct query_id commitment holder_id in
    (
      rw (verified-signed c holder held holder_key h) (
          ground (
            arith,
            str_eq_self query_id,
            str_eq_self commitment,
            str_eq_self holder_id,
            str_eq_self (c.public_key holder_key),
          )),
      rw (verified-signed c holder held holder_key h) (
          rw (walk, verified-signed c relay hop relay_key h)
            (ground (
              arith,
              str_eq_self query_id,
              str_eq_self commitment,
              str_eq_self holder_id,
              str_eq_self relay_id,
              str_eq_self (c.public_key relay_key),
              str_eq_self (c.proof_hash direct),
            ))),
    )

-- A peer that relays can make a proven answer out of its own key alone: whatever node it names as the
-- holder, there is a proof that the check accepts at degree 2, whose match names that node and bears the
-- public key of the relay. The node that is named takes no part in it.
pub forged_match_proven :
    (c : Crypto) (origin relay_id relay_key named query_id commitment : String)
    → HasSignatures c
    → let relay = with_key relay_id relay_key in
      let path = origin ∷ relay_id ∷ named ∷ [] in
      (p : Proof) × (forged : Attestation) × (p.match ≡ some forged)
      × (forged.node_id ≡ some named)
      × (forged.public_key ≡ some (c.public_key relay_key))
      × (verify_proof c (claim query_id commitment path relay (c.public_key relay_key)) (some p)
          ≡ record { proven = true; problems = []; degree = some 2 })
unfolding match_attestation new_proof wrap_hop
forged_match_proven c origin relay_id relay_key named query_id commitment h =
    let relay = with_key relay_id relay_key in
    let liar = with_key named relay_key in
    let forged = signed c liar (match_payload liar query_id commitment) relay_key in
    let inner = some (chain (some forged) []) in
    let hop = signed c relay (hop_payload c relay inner query_id commitment named) relay_key in
    (
      wrapped c inner hop,
      forged,
      refl,
      refl,
      refl,
      (honest_answers_proven c origin relay_id relay_key named relay_key query_id commitment h).1,
    )

-- A signature that verifies covers the payload that it stands with.
verified-signed_payload :
    (c : Crypto) (n : Node) (p : Payload) (key : String) {p' : Payload}
    → verified c (signed c n p key) ≡ some p'
    → p ≡ p'
unfolding verified
verified-signed_payload c n p key e = ground arith

AllLinked-last :
    (c : Crypto) (q : Claim) (match : Option Attestation) (passed hops : List Attestation)
    (hop : Attestation)
    → AllLinked c q match passed (hops ++ hop ∷ [])
    → IsLinked c q (chain match (passed ++ hops)) hop
AllLinked-last c q match passed [] hop h = rw (append-nil passed) h.0
AllLinked-last c q match passed (x ∷ hops) hop h =
    rw (← append_assoc passed (x ∷ []) hops)
      (AllLinked-last c q match (passed ++ x ∷ []) hops hop h.1)

-- Where two chains are each proven, for whatever questions, and their outermost hops are one and the same
-- attestation, they have the same match and the same hops, unless the hashes of what stands before that
-- hop collide: nobody behind a signature can shorten or exchange the chain that it was made over.
pub outer_hop_fixes_chain :
    (c : Crypto) (q r : Claim) (p p' : Proof) (hops hops' : List Attestation) (hop : Attestation)
    → p.hops ≡ hops ++ hop ∷ []
    → p'.hops ≡ hops' ++ hop ∷ []
    → (verify_proof c q (some p)).proven ≡ true
    → (verify_proof c r (some p')).proven ≡ true
    → (c.proof_hash (some (chain p.match hops)) ≡ c.proof_hash (some (chain p'.match hops'))
        → chain p.match hops ≡ chain p'.match hops')
    → (p.match ≡ p'.match) × (p.hops ≡ p'.hops)
outer_hop_fixes_chain c q r p p' hops hops' hop e e' h h' free =
    let one = AllLinked-last c q p.match [] hops hop (rw (← e) (proven-AllLinked c q p h)) in
    let two = AllLinked-last c r p'.match [] hops' hop (rw (← e') (proven-AllLinked c r p' h')) in
    let payload : one.payload ≡ two.payload = cc (one.signature, two.signature) in
    let same =
      free (cc (one.committed, two.committed, ap (λ (x : Payload). x.inner_hash) payload)) in
    (ap (λ (x : Proof). x.match) same, e ∙ (ap (λ (x : Proof). x.hops ++ hop ∷ []) same ∙ sym e'))

wrap_hop-wrapped :
    (c : Crypto) (n : Node) (inner : Option Proof) (query_id commitment from_node : String)
    {w : Proof}
    → wrap_hop c n inner query_id commitment from_node ≡ some w
    → (key : String) × (wrapped c inner
          (signed c n (hop_payload c n inner query_id commitment from_node) key)
        ≡ w)
unfolding wrap_hop sign
wrap_hop-wrapped c n inner query_id commitment from_node e = elim (Option-cases n.signing_key) [
  | inl missing ↦ absurd (ground arith)
  | inr (key, known) ↦ (key, ground arith)
]

-- A proof that verifies after a relay hashes like the bare chain that the relay was handed.
proven-rehashed :
    (c : Crypto) (n : Node) (q : Claim) (p : Proof) (query_id commitment from_node key : String)
    → let hop = signed c n (hop_payload c n (some p) query_id commitment from_node) key in
      (verify_proof c q (some (wrapped c (some p) hop))).proven ≡ true
      → c.proof_hash (some p) ≡ c.proof_hash (some (chain p.match p.hops))
proven-rehashed c n q p query_id commitment from_node key h =
    let payload = hop_payload c n (some p) query_id commitment from_node in
    let hop = signed c n payload key in
    let linked =
      AllLinked-last c q p.match [] p.hops hop (proven-AllLinked c q (wrapped c (some p) hop) h) in
    let same = verified-signed_payload c n payload key linked.signature in
    cc (linked.committed, ap (λ (x : Payload). x.inner_hash) same)

-- `wrap_hop` hashes what it was handed with its entry `inner_hash`, which the walk of `verify_proof` leaves
-- out. So a proof that two or more nodes have relayed is never proven, whatever the question, unless the
-- hash of what the last of them was handed collides with the hash of the same without that entry.
pub second_relay_unproven :
    (c : Crypto) (m n : Node) (q : Claim) (inner : Option Proof) (p w : Proof)
    (query_id commitment before from_node : String)
    → wrap_hop c m inner query_id commitment before ≡ some p
    → wrap_hop c n (some p) query_id commitment from_node ≡ some w
    → (c.proof_hash (some p) ≡ c.proof_hash (some (chain p.match p.hops))
        → p ≡ chain p.match p.hops)
    → (verify_proof c q (some w)).proven ≡ false
second_relay_unproven c m n q inner p w query_id commitment before from_node e e' free =
    elim (Bool-cases (verify_proof c q (some w)).proven) [
      | inr unproven ↦ unproven
      | inl proven ↦
          let (key, made) = wrap_hop-wrapped c m inner query_id commitment before e in
          let (key', made') = wrap_hop-wrapped c n (some p) query_id commitment from_node e' in
          let same = free (
            proven-rehashed c n q p query_id commitment from_node key'
              (subst (λ x. (verify_proof c q (some x)).proven ≡ true) (sym made') proven)) in
          absurd (cc (ap (λ (x : Proof). x.inner_hash) same, ap (λ (x : Proof). x.inner_hash) made))
    ]
