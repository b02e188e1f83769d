-- ===== src/Value/Proofs/Checks.antt =====
-- What `verify_proof` and `wrap_hop` of backend/app/value/proofs.py promise.
use can_framework.Prelude.{
  ◌-◌, ◌≡◌, ◌≢◌, refl, ap, sym, ◌∙◌, true, false, Option, none, some, List, [], ◌∷◌, ◌++◌, String,
  str_eq_iff, arith, Option-cases, inl, inr,
}
use mathlib.Core.Path.{subst}
use can_framework.Prelude.Table.{length}
use can_framework.Value.Proofs.{Payload, Attestation, Proof, Crypto, chain, verified}
use can_framework.Value.Proofs.Verify.{
  Claim, Problem, is_text, same_text, last, answers, off_path, match_problems, hop_problem, walk,
  outermost, key_differs, outer_problems, anchor_problems, relay_problems, is_empty, problems_of,
  verify_proof,
}

is_empty-append :
    (xs ys : List Problem)
    → is_empty (xs ++ ys) ≡ true
    → (is_empty xs ≡ true) × (is_empty ys ≡ true)
is_empty-append [] ys h = (refl, h)
is_empty-append (x ∷ xs) ys h = absurd (ground arith)

-- A hop that the walk has passed answers the question and commits to the chain before it.
pub record IsLinked (c : Crypto) (q : Claim) (inner : Proof) (hop : Attestation) : Type 0 where
  pub payload : Payload
  pub signature : verified c hop ≡ some payload
  pub query : payload.query_id ≡ some q.query_id
  pub commitment : payload.commitment ≡ some q.commitment
  pub committed : payload.inner_hash ≡ some (c.proof_hash (some inner))
  pub signer : payload.node_id ≡ hop.node_id

is_text-eq : (s : Option String) (t : String) → is_text s t ≡ true → s ≡ some t
is_text-eq none t h = absurd (ground arith)
is_text-eq (some s) t h = ap some ((str_eq_iff s t).0 h)

same_text-eq : (s t : Option String) → same_text s t ≡ true → s ≡ t
same_text-eq none none h = refl
same_text-eq none (some t) h = absurd (ground arith)
same_text-eq (some s) none h = absurd (ground arith)
same_text-eq (some s) (some t) h = ap some ((str_eq_iff s t).0 h)

hop_problem-IsLinked :
    (c : Crypto) (q : Claim) (inner : Proof) (hop : Attestation)
    → hop_problem c q inner hop.node_id (verified c hop) ≡ none
    → IsLinked c q inner hop
hop_problem-IsLinked c q inner hop h = elim (Option-cases (verified c hop)) [
  | inl bad ↦ absurd (ground arith)
  | inr (p, signature) ↦ record {
    payload = p;
    signature = signature;
    query = is_text-eq p.query_id q.query_id (ground arith);
    commitment = is_text-eq p.commitment q.commitment (ground arith);
    committed = is_text-eq p.inner_hash (c.proof_hash (some inner)) (ground arith);
    signer = same_text-eq p.node_id hop.node_id (ground arith);
  }
]

-- Every hop of a chain is linked to what stands before it.
abbrev pub AllLinked :
    Crypto → Claim → Option Attestation → List Attestation → List Attestation → Type 0
AllLinked c q match passed [] = Unit
AllLinked c q match passed (hop ∷ hops) =
    IsLinked c q (chain match passed) hop × AllLinked c q match (passed ++ hop ∷ []) hops

walk-AllLinked :
    (c : Crypto) (q : Claim) (match : Option Attestation) (passed hops : List Attestation)
    → is_empty (walk c q match passed hops) ≡ true
    → AllLinked c q match passed hops
unfolding walk
walk-AllLinked c q match passed [] h = tt
walk-AllLinked c q match passed (hop ∷ hops) h =
    elim (Option-cases (hop_problem c q (chain match passed) hop.node_id (verified c hop))) [
      | inl fine ↦ (
        hop_problem-IsLinked c q (chain match passed) hop fine,
        walk-AllLinked c q match (passed ++ hop ∷ []) hops (ground arith),
      )
      | inr (problem, bad) ↦ absurd (ground arith)
    ]

end_of_path :
    (q : Claim) (p : Payload) {end : String}
    → last q.path ≡ some end
    → off_path q p ≡ false
    → p.node_id ≡ some end
end_of_path q p {end} e h = is_text-eq p.node_id end (ground arith)

-- What a proven answer rests on.
pub record IsSound (c : Crypto) (q : Claim) (p : Proof) (far : String) : Type 0 where
  pub match : Attestation
  pub held : p.match ≡ some match
  pub payload : Payload
  pub signature : verified c match ≡ some payload
  pub query : payload.query_id ≡ some q.query_id
  pub commitment : payload.commitment ≡ some q.commitment
  pub signer : match.node_id ≡ some far
  pub linked : AllLinked c q p.match [] p.hops
  pub relays : length p.hops ≡ length q.path - 2
  pub anchored :
      (anchor : String)
      → q.anchor_node ≡ some anchor
      → anchor ≢ ""
      → (outer : Attestation) × (outermost p.match p.hops ≡ some outer)
        × (outer.node_id ≡ some anchor)
        × ((key : String) → q.anchor_public_key ≡ some key → key ≢ "" → outer.public_key ≡ some key)

match_problems-held :
    (c : Crypto) (q : Claim) (match : Option Attestation)
    → is_empty (match_problems c q match) ≡ true
    → (a : Attestation) × (p : Payload) × (match ≡ some a) × (verified c a ≡ some p)
unfolding match_problems
match_problems-held c q none h = absurd (ground arith)
match_problems-held c q (some a) h = elim (Option-cases (verified c a)) [
  | inl bad ↦ absurd (ground arith)
  | inr (p, e) ↦ (a, p, refl, e)
]

match_problems-payload :
    (c : Crypto) (q : Claim) (a : Attestation) (p : Payload)
    → verified c a ≡ some p
    → is_empty (match_problems c q (some a)) ≡ true
    → (answers q p ≡ true) × (same_text p.node_id a.node_id ≡ true) × (off_path q p ≡ false)
unfolding match_problems
match_problems-payload c q a p e h = (ground arith, ground arith, ground arith)

relay_problems-relays :
    (path : List String) (hops : List Attestation) {far : String}
    → last path ≡ some far
    → is_empty (relay_problems path hops) ≡ true
    → length hops ≡ length path - 2
relay_problems-relays [] hops e h = absurd (ground arith)
relay_problems-relays (x ∷ path) hops e h = ground arith

key_differs-eq :
    (key : Option String) (public_key : Option String) (k : String)
    → key ≡ some k
    → k ≢ ""
    → key_differs key public_key ≡ false
    → public_key ≡ some k
key_differs-eq none public_key k e filled h = absurd (ground arith)
key_differs-eq (some key) public_key k e filled h =
    let same : key ≡ k = cc in is_text-eq public_key k (ground (arith, str_eq_iff key "", filled))

outer_problems-anchored :
    (anchor : String) (key : Option String) (outer : Option Attestation)
    → is_empty (outer_problems anchor key outer) ≡ true
    → (o : Attestation) × (outer ≡ some o)
      × (o.node_id ≡ some anchor)
      × (key_differs key o.public_key ≡ false)
outer_problems-anchored anchor key none h = absurd (ground arith)
outer_problems-anchored anchor key (some o) h =
    (o, refl, is_text-eq o.node_id anchor (ground arith), ground arith)

anchor_problems-outer :
    (q : Claim) (match : Option Attestation) (hops : List Attestation) (anchor : String)
    → q.anchor_node ≡ some anchor
    → anchor ≢ ""
    → is_empty (anchor_problems q match hops) ≡ true
    → is_empty (outer_problems anchor q.anchor_public_key (outermost match hops)) ≡ true
unfolding anchor_problems
anchor_problems-outer q match hops anchor e filled h = ground (arith, str_eq_iff anchor "", filled)

anchor_problems-anchored :
    (q : Claim) (match : Option Attestation) (hops : List Attestation)
    → is_empty (anchor_problems q match hops) ≡ true
    → (anchor : String) → q.anchor_node ≡ some anchor
    → anchor ≢ ""
    → (outer : Attestation) × (outermost match hops ≡ some outer)
      × (outer.node_id ≡ some anchor)
      × ((key : String) → q.anchor_public_key ≡ some key → key ≢ "" → outer.public_key ≡ some key)
anchor_problems-anchored q match hops h anchor e filled =
    let (o, found, node, key) =
      outer_problems-anchored anchor q.anchor_public_key (outermost match hops)
        (anchor_problems-outer q match hops anchor e filled h) in
    (
      o,
      found,
      node,
      λ k known some_key. key_differs-eq q.anchor_public_key o.public_key k known some_key key,
    )

pub proven-AllLinked :
    (c : Crypto) (q : Claim) (p : Proof)
    → (verify_proof c q (some p)).proven ≡ true
    → AllLinked c q p.match [] p.hops
unfolding verify_proof problems_of
proven-AllLinked c q p h =
    let (m, r) = is_empty-append (match_problems c q p.match) _ h in
    let (w, s) = is_empty-append (walk c q p.match [] p.hops) _ r in
    walk-AllLinked c q p.match [] p.hops w

-- What a proven answer shows where the path ends at a node: its match is an attestation for this question
-- that names that node, and its signature verifies with the key that the attestation itself brings along,
-- which need not be a key of that node. Every hop has a signature that verifies in the same way, answers
-- this question and commits to the hash of all that stands before it; there is one hop for each node
-- between the ends of the path. Only the outermost attestation is held against a known key: it names the
-- peer that the answer came from and has the key on file for it.
pub proven-IsSound :
    (c : Crypto) (q : Claim) (p : Proof) (far : String)
    → last q.path ≡ some far
    → (verify_proof c q (some p)).proven ≡ true
    → IsSound c q p far
unfolding verify_proof problems_of
proven-IsSound c q p far end h =
    let (m, r) = is_empty-append (match_problems c q p.match) _ h in
    let (w, s) = is_empty-append (walk c q p.match [] p.hops) _ r in
    let (a, k) = is_empty-append (anchor_problems q p.match p.hops) _ s in
    let (att, payload, held, signature) = match_problems-held c q p.match m in
    let (good, signer, on_path) =
      match_problems-payload c q att payload signature
        (subst (λ o. is_empty (match_problems c q o) ≡ true) held m) in
    record {
      match = att;
      held = held;
      payload = payload;
      signature = signature;
      query = is_text-eq payload.query_id q.query_id (ground arith);
      commitment = is_text-eq payload.commitment q.commitment (ground arith);
      signer =
          sym (same_text-eq payload.node_id att.node_id signer) ∙ end_of_path q payload end on_path;
      linked = walk-AllLinked c q p.match [] p.hops w;
      relays = relay_problems-relays q.path p.hops end k;
      anchored = anchor_problems-anchored q p.match p.hops a;
    }
