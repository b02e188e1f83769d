-- ===== src/Value/Forwarding/Results.antt =====
-- What becomes of the results of a search: `seal_confidences` and `check_proofs` of
-- backend/app/value/forwarding.py.
use can_framework.Prelude.{Bool, Option, none, some, List, [], ◌∷◌, String}
use can_framework.Prelude.Table.{first}
use can_framework.Introductions.Records.{Peer}
use can_framework.Introductions.Peers.{peer_with}
use can_framework.Value.Proofs.{Crypto}
use can_framework.Value.Proofs.Verify.{Claim, Problem, verify_proof}
use can_framework.Value.Forwarding.{Hit, certain}

abbrev pub seal : Hit → Hit
seal r = record r { confidence = some (certain r.confidence) }

unfoldable pub seal_confidences : List Hit → List Hit
seal_confidences [] = []
seal_confidences (r ∷ rs) = seal r ∷ seal_confidences rs

-- What `check_proofs` adds to a result.
pub record CheckedHit : Type 0 where
  pub hit : Hit
  pub proven : Bool
  pub problems : List Problem

-- The peer that the question went to first.
abbrev pub anchor_of : List String → Option String
anchor_of (x ∷ y ∷ xs) = some y
anchor_of _ = none

abbrev pub anchor_key : List Peer → Option String → Option String
anchor_key peers none = none
anchor_key peers (some node_id) = elim (first (peer_with node_id) peers) [
  | none ↦ none
  | some p ↦ some p.public_key
]

abbrev pub claim_of : List Peer → String → String → Hit → Claim
claim_of peers query_id commitment r = record {
  query_id = query_id;
  commitment = commitment;
  path = r.path;
  anchor_node = anchor_of r.path;
  anchor_public_key = anchor_key peers (anchor_of r.path);
}

abbrev pub check_hit : Crypto → List Peer → String → String → Hit → CheckedHit
check_hit crypto peers query_id commitment r =
    let report = verify_proof crypto (claim_of peers query_id commitment r) r.proof in
    record { hit = r; proven = report.proven; problems = report.problems }

unfoldable pub check_proofs : Crypto → List Peer → String → String → List Hit → List CheckedHit
check_proofs crypto peers query_id commitment [] = []
check_proofs crypto peers query_id commitment (r ∷ rs) =
    check_hit crypto peers query_id commitment r ∷ check_proofs crypto peers query_id commitment rs
