-- ===== src/Value/Peering/Federated.antt =====
-- The federated query of backend/app/value/map_routes.py.
use can_framework.Prelude.{
  ℕ, Bool, true, false, not, Option, none, some, List, [], ◌∷◌, String, if◌then◌else◌,
}
use can_framework.Prelude.Int.{pos, leb_ℤ}
use can_framework.Prelude.Outcome.{Result, ok, err}
use can_framework.Prelude.Table.{select}
use can_framework.Money.{Amount}
use can_framework.Introductions.Records.{Peer}
use can_framework.Accounts.Roles.{Principal, Role, has_any_role}
use can_framework.Value.Records.{Direction, MapDb}
use can_framework.Value.Commitments.{Counter, check_rate}
use can_framework.Value.Forwarding.{Place, Query, Hit, Error, search}
use can_framework.Value.Forwarding.Results.{CheckedHit, seal_confidences, check_proofs}
use can_framework.Value.Peering.{MapState, Refusal, or_else}

-- FederatedQueryIn, with the commitment that it gives or that its attributes make, if any.
pub record FederatedQuery : Type 0 where
  pub target : Option String
  pub max_degree : Option ℕ
  pub min_confidence : Amount
  pub proven_only : Bool

abbrev pub sure_enough : Amount → CheckedHit → Bool
sure_enough least r = leb_ℤ least (elim r.hit.confidence [ none ↦ pos 0 | some a ↦ a ])

abbrev pub is_proven : CheckedHit → Bool
is_proven r = r.proven

abbrev pub shown : FederatedQuery → List CheckedHit → List CheckedHit
shown payload rs =
    let sure = select (sure_enough payload.min_confidence) rs in
    if payload.proven_only then select is_proven sure else sure

abbrev pub own_query : Place → FederatedQuery → String → String → Query
own_query c payload target query_id = record {
  commitment = target;
  ttl = pos (or_else payload.max_degree c.rules.max_degree_default);
  path = [];
  query_id = query_id;
}

abbrev pub shown_answer :
    Place
    → FederatedQuery
    → String
    → String
    → List Peer
    → Result Error (List Hit)
    → Result Refusal (List CheckedHit)
shown_answer c payload target query_id peers (err e) = err (Refusal.failed e)
shown_answer c payload target query_id peers (ok hits) =
    ok (shown payload (check_proofs c.crypto peers query_id target (seal_confidences hits)))

abbrev pub ask_all :
    Place
    → Principal
    → FederatedQuery
    → String
    → String
    → MapDb
    → Result Refusal (List CheckedHit) × MapDb
ask_all c who payload target query_id db =
    let (r, db') =
      search c (own_query c payload target query_id) Direction.local none (some who.sub) db in
    (shown_answer c payload target query_id db'.peers r, db')

abbrev pub rated_query :
    Place
    → Principal
    → FederatedQuery
    → String
    → String
    → Bool × List Counter
    → MapState
    → Result Refusal (List CheckedHit) × MapState
rated_query c who payload target query_id (false, counts) s =
    (err Refusal.too_many, record s { query_counts = counts })
rated_query c who payload target query_id (true, counts) s =
    let (r, db) = ask_all c who payload target query_id s.db in
    (r, record s { db = db; query_counts = counts })

unfoldable pub federated_query :
    Place
    → Principal
    → ℕ
    → String
    → FederatedQuery
    → MapState
    → Result Refusal (List CheckedHit) × MapState
federated_query c who hour query_id payload s =
    if not (has_any_role who (Role.user ∷ Role.agent ∷ Role.auditor ∷ []))
    then (err Refusal.insufficient_role, s)
    else elim payload.target [
      | none ↦ (err Refusal.unprocessable, s)
      | some target ↦
          rated_query c who payload target query_id (check_rate c.rules who.sub hour s.query_counts)
            s
    ]
