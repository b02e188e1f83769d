-- ===== src/Value/Peering/Steps.antt =====
-- The requests of backend/app/value/map_routes.py that touch the peers of a node, as steps, and what they keep.
use can_framework.Prelude.{
  ℕ, ◌≡◌, refl, Bool, true, false, Option, none, some, List, [], ◌∷◌, String, ◌==◌, Bool-cases,
  Option-cases, inl, inr,
}
use can_framework.Prelude.Text
use can_framework.Prelude.Outcome.{Result, ok, err}
use can_framework.Prelude.Table.{first}
use can_framework.Introductions.Records.{Peer}
use can_framework.Introductions.Peers.{peer_with}
use can_framework.Accounts.Roles.{Principal, Role, has_any_role}
use can_framework.Value.Records.{Direction, MapDb}
use can_framework.Value.Commitments.{Counter, check_rate}
use can_framework.Value.Forwarding.{
  Place, Query, Envelope, Hit, Error, mem, seen_at, seen_peer, known_peer, verify_request, found,
  logged, search,
}
use can_framework.Value.Peering.{
  PeerIn, PeerUpdate, add_peer, update_peer, remove_peer, MapState, answer_peer, rated_peer,
  verified_peer, check_peer_rate, peer_query,
}
use can_framework.Value.Peering.Federated.{FederatedQuery, own_query, rated_query, federated_query}
use can_framework.Value.Peering.Kept.{
  IsPeering, add_peer-IsPeering, adjust-IsPeering, remove_peer-IsPeering, update_peer-IsPeering,
}

logged-peers :
    (c : Place) (q : Query) (d : Direction) (peer by : Option String) (db : MapDb)
    (r : Result Error (List Hit))
    → (logged c q d peer by db r).1.peers ≡ db.peers
logged-peers c q d peer by db (err e) = refl
logged-peers c q d peer by db (ok hits) = refl

pub search-peers :
    (c : Place) (q : Query) (d : Direction) (peer by : Option String) (db : MapDb)
    → (search c q d peer by db).1.peers ≡ db.peers
unfolding search
search-peers c q d peer by db = logged-peers c q d peer by db (found c q db)

pub verified-IsPeering :
    (me : String) (now : ℕ) (e : Envelope) (db : MapDb) (r : Result Error Peer)
    → IsPeering me db.peers
    → IsPeering me (seen_peer now e db r).1.peers
verified-IsPeering me now e db (err problem) h = h
verified-IsPeering me now e db (ok p) h =
    adjust-IsPeering me (peer_with e.from_node) (seen_at now) db.peers (λ p. refl) (λ p w. w) h

answer_peer-IsPeering :
    (me : String) (c : Place) (q : Query) (peer : Peer) (db : MapDb)
    → IsPeering me db.peers
    → IsPeering me (answer_peer c q peer db).1.peers
answer_peer-IsPeering me c q peer db h = elim (Bool-cases (Text.length q.commitment == 64)) [
  | inr short ↦ rw short h
  | inl long ↦ rw long (elim (Bool-cases (mem c.node.node_id q.path)) [
    | inl visited ↦ rw visited h
    | inr new ↦ rw new (rw (search-peers c q Direction.inbound (some peer.node_id) none db) h)
  ])
]

rated_peer-IsPeering :
    (me : String) (c : Place) (q : Query) (peer : Peer) (rate : Bool × List Counter) (s : MapState)
    → IsPeering me s.db.peers
    → IsPeering me (rated_peer c q peer rate s).1.db.peers
rated_peer-IsPeering me c q peer (false, counts) s h = h
rated_peer-IsPeering me c q peer (true, counts) s h = answer_peer-IsPeering me c q peer s.db h

verified_peer-IsPeering :
    (me : String) (c : Place) (hour : ℕ) (e : Envelope) (r : Result Error Peer × MapDb)
    (s : MapState)
    → IsPeering me r.1.peers
    → IsPeering me (verified_peer c hour e r s).1.db.peers
verified_peer-IsPeering me c hour e (err problem, db) s h = h
verified_peer-IsPeering me c hour e (ok peer, db) s h =
    rated_peer-IsPeering me c e.body peer (check_peer_rate c.rules hour peer s.peer_counts)
      (record s { db = db }) h

rated_query-IsPeering :
    (me : String) (c : Place) (who : Principal) (payload : FederatedQuery)
    (target query_id : String) (rate : Bool × List Counter) (s : MapState)
    → IsPeering me s.db.peers
    → IsPeering me (rated_query c who payload target query_id rate s).1.db.peers
rated_query-IsPeering me c who payload target query_id (false, counts) s h = h
rated_query-IsPeering me c who payload target query_id (true, counts) s h =
    rw
      (search-peers c (own_query c payload target query_id) Direction.local none (some who.sub)
        s.db)
      h

-- The requests that touch the peers of a node.
pub data Step (c : Place) : MapState → MapState → Type 0 where
  added :
      (who : Principal) (payload : PeerIn) (s : MapState)
      → Step c s (record s { db = (add_peer who c.node.node_id payload s.db).1 })
  updated :
      (who : Principal) (peer_id : String) (payload : PeerUpdate) (s : MapState)
      → Step c s (record s { db = (update_peer who peer_id payload s.db).1 })
  removed :
      (who : Principal) (peer_id : String) (s : MapState)
      → Step c s (record s { db = (remove_peer who peer_id s.db).1 })
  queried : (now hour : ℕ) (e : Envelope) (s : MapState) → Step c s (peer_query c now hour e s).1
  asked :
      (who : Principal) (hour : ℕ) (query_id : String) (payload : FederatedQuery) (s : MapState)
      → Step c s (federated_query c who hour query_id payload s).1

federated-IsPeering :
    (me : String) (c : Place) (who : Principal) (hour : ℕ) (query_id : String)
    (payload : FederatedQuery) (s : MapState)
    → IsPeering me s.db.peers
    → IsPeering me (federated_query c who hour query_id payload s).1.db.peers
unfolding federated_query
federated-IsPeering me c who hour query_id payload s h =
    elim (Bool-cases (has_any_role who (Role.user ∷ Role.agent ∷ Role.auditor ∷ []))) [
      | inr stop ↦ rw stop h
      | inl may ↦ rw may (elim (Option-cases payload.target) [
        | inl missing ↦ rw missing h
        | inr (target, given) ↦ rw given (
            rated_query-IsPeering me c who payload target query_id
              (check_rate c.rules who.sub hour s.query_counts) s h)
      ])
    ]

-- Whatever request about peers comes, the weights stay between 0 and 1, no two peers get one node id, and
-- the node does not become its own peer.
pub Step-IsPeering :
    {c : Place} {s t : MapState}
    → Step c s t
    → IsPeering c.node.node_id s.db.peers
    → IsPeering c.node.node_id t.db.peers
unfolding peer_query verify_request
Step-IsPeering {c} (added who payload s) h = add_peer-IsPeering who c.node.node_id payload s.db h
Step-IsPeering {c} (updated who peer_id payload s) h =
    update_peer-IsPeering who c.node.node_id peer_id payload s.db h
Step-IsPeering {c} (removed who peer_id s) h =
    remove_peer-IsPeering who c.node.node_id peer_id s.db h
Step-IsPeering {c} (queried now hour e s) h =
    verified_peer-IsPeering c.node.node_id c hour e (verify_request c now e s.db) s (
      verified-IsPeering c.node.node_id now e s.db
        (known_peer c e (first (peer_with e.from_node) s.db.peers)) h)
Step-IsPeering {c} (asked who hour query_id payload s) h =
    federated-IsPeering c.node.node_id c who hour query_id payload s h
