-- ===== src/Value/Proofs/Verify.antt =====
-- `verify_proof` of backend/app/value/proofs.py.
use can_framework.Prelude.{
  ℕ, ◌+◌, ◌-◌, ◌==◌, Bool, true, false, not, Option, none, some, List, [], ◌∷◌, ◌++◌, String,
  str_eq, ◌&&◌, if◌then◌else◌,
}
use can_framework.Prelude.Table.{length}
use can_framework.Value.Proofs.{Attestation, Crypto, Payload, Proof, chain, verified}

-- The problems of a report.
pub data Problem : Type 0 where
  no_proof match_unsigned match_other_question match_other_node match_off_path : Problem
  hop_unsigned hop_other_question chain_broken hop_other_node : Problem
  anchor_unsigned anchor_other_node anchor_other_key hops_miscounted : Problem

-- What `verify_proof` is told beside the proof.
pub record Claim : Type 0 where
  pub query_id : String
  pub commitment : String
  pub path : List String
  pub anchor_node : Option String
  pub anchor_public_key : Option String

pub record Report : Type 0 where
  pub proven : Bool
  pub problems : List Problem
  pub degree : Option ℕ

abbrev pub is_text : Option String → String → Bool
is_text none t = false
is_text (some s) t = str_eq s t

abbrev pub same_text : Option String → Option String → Bool
same_text none none = true
same_text (some s) (some t) = str_eq s t
same_text _ _ = false

abbrev pub last : List String → Option String
last [] = none
last (x ∷ []) = some x
last (x ∷ y ∷ xs) = last (y ∷ xs)

abbrev pub problem_if : Bool → Problem → List Problem
problem_if true p = p ∷ []
problem_if false p = []

abbrev pub answers : Claim → Payload → Bool
answers q p = is_text p.query_id q.query_id && is_text p.commitment q.commitment

-- `p.get("node_id") != path[-1]`, where there is a path.
abbrev pub off_path : Claim → Payload → Bool
off_path q p = elim (last q.path) [ none ↦ false | some end ↦ not (is_text p.node_id end) ]

abbrev pub payload_problems : Claim → Option String → Option Payload → List Problem
payload_problems q node_id none = Problem.match_unsigned ∷ []
payload_problems q node_id (some p) =
    problem_if (not (answers q p)) Problem.match_other_question
    ++ (problem_if (not (same_text p.node_id node_id)) Problem.match_other_node
        ++ problem_if (off_path q p) Problem.match_off_path)

unfoldable pub match_problems : Crypto → Claim → Option Attestation → List Problem
unfolding verified
match_problems c q none = Problem.match_unsigned ∷ []
match_problems c q (some match) = payload_problems q match.node_id (verified c match)

-- What the loop finds wrong with one hop, `none` where it goes on.
abbrev pub hop_problem : Crypto → Claim → Proof → Option String → Option Payload → Option Problem
hop_problem c q inner node_id none = some Problem.hop_unsigned
hop_problem c q inner node_id (some p) =
    if not (answers q p)
    then some Problem.hop_other_question
    else if not (is_text p.inner_hash (c.proof_hash (some inner)))
    then some Problem.chain_broken
    else if not (same_text p.node_id node_id)
    then some Problem.hop_other_node
    else none

-- The walk from the match outwards, behind the hops that it has passed.
unfoldable pub walk :
    Crypto → Claim → Option Attestation → List Attestation → List Attestation → List Problem
unfolding verified
walk c q match passed [] = []
walk c q match passed (hop ∷ hops) =
    let rest = walk c q match (passed ++ hop ∷ []) hops in
    elim (hop_problem c q (chain match passed) hop.node_id (verified c hop)) [
      | none ↦ rest
      | some problem ↦ problem ∷ []
    ]

abbrev pub outermost : Option Attestation → List Attestation → Option Attestation
outermost match [] = match
outermost match (hop ∷ hops) = outermost (some hop) hops

abbrev pub key_differs : Option String → Option String → Bool
key_differs none public_key = false
key_differs (some key) public_key = not (str_eq key "") && not (is_text public_key key)

abbrev pub outer_problems : String → Option String → Option Attestation → List Problem
outer_problems anchor key none = Problem.anchor_unsigned ∷ []
outer_problems anchor key (some outer) =
    if not (is_text outer.node_id anchor)
    then Problem.anchor_other_node ∷ []
    else problem_if (key_differs key outer.public_key) Problem.anchor_other_key

unfoldable pub anchor_problems : Claim → Option Attestation → List Attestation → List Problem
anchor_problems q match hops = elim q.anchor_node [
  | none ↦ []
  | some anchor ↦
      if str_eq anchor ""
      then []
      else outer_problems anchor q.anchor_public_key (outermost match hops)
]

abbrev pub relay_problems : List String → List Attestation → List Problem
relay_problems [] hops = []
relay_problems (x ∷ path) hops =
    problem_if (not (length hops == length (x ∷ path) - 2)) Problem.hops_miscounted

abbrev pub is_empty : List Problem → Bool
is_empty [] = true
is_empty (x ∷ xs) = false

-- Without a match or a path the degree is null.
abbrev pub degree_of : List String → Proof → Option ℕ
degree_of path p = elim p.match [
  | some _ ↦ some (length p.hops + 1)
  | none ↦ elim path [ [] ↦ none | x ∷ xs ↦ some (length xs) ]
]

unfoldable pub problems_of : Crypto → Claim → Proof → List Problem
unfolding match_problems walk anchor_problems
problems_of c q p =
    match_problems c q p.match
    ++ (walk c q p.match [] p.hops
        ++ (anchor_problems q p.match p.hops ++ relay_problems q.path p.hops))

unfoldable pub verify_proof : Crypto → Claim → Option Proof → Report
unfolding problems_of
verify_proof c q none = record { proven = false; problems = Problem.no_proof ∷ []; degree = none }
verify_proof c q (some p) = record {
  proven = is_empty (problems_of c q p);
  problems = problems_of c q p;
  degree = degree_of q.path p;
}
