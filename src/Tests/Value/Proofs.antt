-- ===== src/Tests/Value/Proofs.antt =====
-- Proofs of paths at concrete nodes, with a toy signature: the key itself.
use can_framework.Prelude.{
  ◌≡◌, refl, true, false, Option, none, some, List, [], ◌∷◌, String, str_eq, str_eq_iff, arith,
}
use can_framework.Value.Proofs.{
  Attestation, Proof, Node, Crypto, signed, match_payload, hop_payload, chain, wrapped,
  match_attestation, wrap_hop, new_proof,
}
use can_framework.Value.Proofs.Verify.{Claim, verify_proof}
use can_framework.Value.Proofs.Checks.{IsSound, proven-IsSound}
use can_framework.Value.Proofs.Relay.{
  with_key, claim, HasSignatures, honest_answers_proven, forged_match_proven, outer_hop_fixes_chain,
  second_relay_unproven,
}

abbrev hash_of : Option Proof → String
hash_of none = "empty"
hash_of (some p) = elim p.inner_hash [ none ↦ "bare" | some h ↦ "wrapped" ]

abbrev pub toy : Crypto
toy = record {
  public_key = λ key. key;
  sign = λ key p. key;
  verifies = λ key p value. str_eq key value;
  proof_hash = hash_of;
}

toy-HasSignatures : HasSignatures toy
toy-HasSignatures key p = (str_eq_iff key key).1 refl

abbrev holder : Node
holder = with_key "b" "kb"

abbrev relay : Node
relay = with_key "a" "ka"

abbrev second : Node
second = with_key "x" "kx"

abbrev direct : Proof
direct = chain (some (signed toy holder (match_payload holder "q" "c") "kb")) []

abbrev near : Claim
near = claim "q" "c" ("o" ∷ "b" ∷ []) holder "kb"

proven-IsSound_example : IsSound toy near direct "b"
unfolding verify_proof
proven-IsSound_example = proven-IsSound toy near direct "b" refl refl

honest_answers_proven_example :
    let answer = new_proof (match_attestation toy holder "q" "c") in
    let path : List String = "o" ∷ "b" ∷ [] in
    let far : List String = "o" ∷ "a" ∷ "b" ∷ [] in
    (verify_proof toy (claim "q" "c" path holder "kb") answer
      ≡ record { proven = true; problems = []; degree = some 1 })
    × (verify_proof toy (claim "q" "c" far relay "ka") (wrap_hop toy relay answer "q" "c" "b")
        ≡ record { proven = true; problems = []; degree = some 2 })
honest_answers_proven_example =
    honest_answers_proven toy "o" "a" "ka" "b" "kb" "q" "c" toy-HasSignatures

forged_match_proven_example :
    let path : List String = "o" ∷ "a" ∷ "v" ∷ [] in
    (p : Proof) × (forged : Attestation) × (p.match ≡ some forged)
    × (forged.node_id ≡ some "v")
    × (forged.public_key ≡ some "ka")
    × (verify_proof toy (claim "q" "c" path relay "ka") (some p)
        ≡ record { proven = true; problems = []; degree = some 2 })
forged_match_proven_example = forged_match_proven toy "o" "a" "ka" "v" "q" "c" toy-HasSignatures

abbrev hop : Attestation
hop = signed toy relay (hop_payload toy relay (some direct) "q" "c" "b") "ka"

abbrev once : Proof
once = wrapped toy (some direct) hop

abbrev far : Claim
far = claim "q" "c" ("o" ∷ "a" ∷ "b" ∷ []) relay "ka"

outer_hop_fixes_chain_example : (once.match ≡ once.match) × (once.hops ≡ once.hops)
unfolding verify_proof
outer_hop_fixes_chain_example =
    outer_hop_fixes_chain toy far far once once [] [] hop refl refl refl refl (λ e. refl)

abbrev twice : Proof
twice =
    wrapped toy (some once)
      (signed toy second (hop_payload toy second (some once) "q" "c" "a") "kx")

second_relay_unproven_example :
    (verify_proof toy (claim "q" "c" ("o" ∷ "x" ∷ "a" ∷ "b" ∷ []) second "kx") (some twice)).proven
    ≡ false
unfolding wrap_hop
second_relay_unproven_example =
    second_relay_unproven toy relay second (claim "q" "c" ("o" ∷ "x" ∷ "a" ∷ "b" ∷ []) second "kx")
      (some direct) once twice "q" "c" "b" "a" refl refl
      (λ e. absurd (ground (arith, str_eq_iff "wrapped" "bare")))
