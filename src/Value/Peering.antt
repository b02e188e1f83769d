-- ===== src/Value/Peering.antt =====
-- The handlers of backend/app/value/map_routes.py for the peers of a node, and for a query of a peer.
pub mod Federated
pub mod Kept
pub mod Steps
pub mod Honest
pub mod Network
pub mod Answers
use can_framework.Prelude.{
  ℕ, zero, suc, ◌+◌, ◌-◌, Bool, true, false, not, Option, none, some, List, [], ◌∷◌, ◌++◌, String,
  str_eq, ltb, leb, ◌==◌, ◌&&◌, ◌||◌, if◌then◌else◌,
}
use can_framework.Prelude.Text
use can_framework.Prelude.Int.{ℤ, pos, leb_ℤ}
use can_framework.Prelude.Outcome.{Result, ok, err}
use can_framework.Prelude.Table.{length, first, select, adjust}
use can_framework.Money.{Amount, one}
use can_framework.Introductions.Records.{Peer, PeerStatus}
use can_framework.Introductions.Peers.{peer_with}
use can_framework.Accounts.Roles.{Principal, Role, has_any_role}
use can_framework.Value.Records.{Rules, Direction, MapDb}
use can_framework.Value.Commitments.{Counter, calls_of, one_more, check_rate}
use can_framework.Value.Forwarding.{Place, Query, Envelope, Hit, Error, mem, verify_request, search}
use can_framework.Value.Forwarding.Results.{CheckedHit, seal_confidences, check_proofs}

-- The tables of the map, and the counters that a process keeps beside them.
pub record MapState : Type 0 where
  pub db : MapDb
  pub query_counts : List Counter
  pub peer_counts : List Counter

pub data Refusal : Type 0 where
  insufficient_role not_found conflict unprocessable too_many not_yours : Refusal
  peer_refused : Error → Refusal
  failed : Error → Refusal

-- PeerIn, with its bounds on the weight and on the limit.
pub record PeerIn : Type 0 where
  pub node_id : String
  pub public_key : String
  pub base_url : Option String
  pub trust_weight : Amount
  pub max_queries_per_hour : Option ℕ

abbrev pub is_share : Amount → Bool
is_share w = leb_ℤ (pos 0) w && leb_ℤ w (pos one)

abbrev pub is_limit : Option ℕ → Bool
is_limit none = true
is_limit (some n) = leb 1 n && leb n 100_000

abbrev pub new_peer : PeerIn → Peer
new_peer p = record {
  node_id = p.node_id;
  base_url = p.base_url;
  public_key = p.public_key;
  trust_weight = p.trust_weight;
  status = PeerStatus.active;
  max_queries_per_hour = p.max_queries_per_hour;
  last_seen_at = none;
  carried_count = 0;
  connections_count = 0;
  missed_count = 0;
}

abbrev pub is_there : Option Peer → Bool
is_there none = false
is_there (some p) = true

unfoldable pub add_peer : Principal → String → PeerIn → MapDb → Result Refusal Peer × MapDb
add_peer who me payload db =
    if not (has_any_role who (Role.admin ∷ []))
    then (err Refusal.insufficient_role, db)
    else if not (is_share payload.trust_weight && is_limit payload.max_queries_per_hour)
    then (err Refusal.unprocessable, db)
    else if str_eq payload.node_id me
    then (err Refusal.unprocessable, db)
    else if is_there (first (peer_with payload.node_id) db.peers)
    then (err Refusal.conflict, db)
    else (ok (new_peer payload), record db { peers = db.peers ++ new_peer payload ∷ [] })

-- PeerUpdate: what is null is left as it is.
pub record PeerUpdate : Type 0 where
  pub trust_weight : Option Amount
  pub status : Option PeerStatus
  pub base_url : Option String
  pub max_queries_per_hour : Option ℕ

abbrev pub or_else {ℓ} : {A : Type ℓ} → Option A → A → A
or_else none a = a
or_else (some b) a = b

abbrev pub or_kept {ℓ} : {A : Type ℓ} → Option A → Option A → Option A
or_kept none a = a
or_kept (some b) a = some b

abbrev pub updated_peer : PeerUpdate → Peer → Peer
updated_peer u p = record p {
  trust_weight = or_else u.trust_weight p.trust_weight;
  status = or_else u.status p.status;
  base_url = or_kept u.base_url p.base_url;
  max_queries_per_hour = or_kept u.max_queries_per_hour p.max_queries_per_hour;
}

abbrev pub is_share? : Option Amount → Bool
is_share? none = true
is_share? (some w) = is_share w

-- A peer is addressed by its id, which stands for its node id: both are unique.
unfoldable pub update_peer :
    Principal → String → PeerUpdate → MapDb → Result Refusal (Unit {0}) × MapDb
update_peer who peer_id payload db =
    if not (has_any_role who (Role.admin ∷ []))
    then (err Refusal.insufficient_role, db)
    else if not (is_share? payload.trust_weight && is_limit payload.max_queries_per_hour)
    then (err Refusal.unprocessable, db)
    else if not (is_there (first (peer_with peer_id) db.peers))
    then (err Refusal.not_found, db)
    else (ok tt, record db { peers = adjust (peer_with peer_id) (updated_peer payload) db.peers })

abbrev pub without : String → Peer → Bool
without peer_id p = not (str_eq p.node_id peer_id)

unfoldable pub remove_peer : Principal → String → MapDb → Result Refusal (Unit {0}) × MapDb
remove_peer who peer_id db =
    if not (has_any_role who (Role.admin ∷ []))
    then (err Refusal.insufficient_role, db)
    else if not (is_there (first (peer_with peer_id) db.peers))
    then (err Refusal.not_found, db)
    else (ok tt, record db { peers = select (without peer_id) db.peers })

unfoldable pub list_peers : Principal → MapDb → Result Refusal (List Peer)
list_peers who db =
    if has_any_role who (Role.admin ∷ Role.auditor ∷ [])
    then ok db.peers
    else err Refusal.insufficient_role

-- The limit of a peer; one of 0 is none.
abbrev pub limit_of : Rules → Peer → ℕ
limit_of rules p = elim p.max_queries_per_hour [
  | none ↦ rules.peer_max_queries_per_hour
  | some n ↦ if n == 0 then rules.peer_max_queries_per_hour else n
]

-- Whether the call passes, and the counters after it.
unfoldable pub check_peer_rate : Rules → ℕ → Peer → List Counter → Bool × List Counter
check_peer_rate rules hour p counts =
    let counts' = one_more p.node_id hour counts in
    (leb (calls_of p.node_id hour counts') (limit_of rules p), counts')

-- The query that a peer sent; a body with no commitment has an empty one.
abbrev pub sealed_answer : Result Error (List Hit) → Result Refusal (List Hit)
sealed_answer (ok hits) = ok (seal_confidences hits)
sealed_answer (err e) = err (Refusal.failed e)

abbrev pub answered_with :
    Query
    → Peer
    → MapDb
    → String
    → Result Error (List Hit) × MapDb
    → Result Refusal (List Hit) × MapDb
answered_with q peer db me searched =
    if not (Text.length q.commitment == 64)
    then (err Refusal.unprocessable, db)
    else if mem me q.path
    then (ok [], db)
    else (sealed_answer searched.0, searched.1)

abbrev pub answer_peer : Place → Query → Peer → MapDb → Result Refusal (List Hit) × MapDb
answer_peer c q peer db =
    answered_with q peer db c.node.node_id
      (search c q Direction.inbound (some peer.node_id) none db)

abbrev pub rated_peer :
    Place → Query → Peer → Bool × List Counter → MapState → Result Refusal (List Hit) × MapState
rated_peer c q peer (false, counts) s =
    (err (Refusal.peer_refused Error.rate_limit), record s { peer_counts = counts })
rated_peer c q peer (true, counts) s =
    let (r, db) = answer_peer c q peer s.db in (r, record s { db = db; peer_counts = counts })

abbrev pub verified_peer :
    Place
    → ℕ
    → Envelope
    → Result Error Peer × MapDb
    → MapState
    → Result Refusal (List Hit) × MapState
verified_peer c hour e (err problem, db) s =
    (err (Refusal.peer_refused problem), record s { db = db })
verified_peer c hour e (ok peer, db) s =
    rated_peer c e.body peer (check_peer_rate c.rules hour peer s.peer_counts)
      (record s { db = db })

unfoldable pub peer_query :
    Place → ℕ → ℕ → Envelope → MapState → Result Refusal (List Hit) × MapState
unfolding check_peer_rate
peer_query c now hour e s = verified_peer c hour e (verify_request c now e s.db) s
