-- ===== src/Value/Peering/Network.antt =====
-- Nodes that answer one another: `peer_query` of backend/app/value/map_routes.py at each of them, where
-- `PEER_CLIENT` hands a request to the node that it names. Every request finds the tables as they are.
use can_framework.Prelude.{
  ℕ, zero, suc, ◌≤◌, ◌<◌, ◌≡◌, refl, ap, Bool, true, false, not, Option, none, some, List, [], ◌∷◌,
  String, ltb, ◌||◌, if◌then◌else◌, arith,
}
use can_framework.Prelude.Int.{pos}
use can_framework.Prelude.Outcome.{Result, ok, err}
use can_framework.Prelude.Table.{select}
use can_framework.Introductions.Records.{Peer}
use can_framework.Value.Records.{Direction, MapDb}
use can_framework.Value.Commitments.{Counter, answer_query}
use can_framework.Value.Forwarding.{
  Place, Query, Envelope, Hit, Error, mem, sign_request, verify_request, capped, occurrences,
  relayed, take_hits, onward, has_url, answered, call, ask_peer, join, ask_peers, peers_asked,
  active, local_hits, found, search, logged,
}
use can_framework.Value.Peering.{
  MapState, Refusal, answered_with, answer_peer, rated_peer, verified_peer, check_peer_rate,
  peer_query,
}

abbrev pub Client : Type 0
Client = Peer → Envelope → Option (List Hit)

abbrev pub with_client : Place → Client → Place
with_client c k = record c { client = k }

pub record Site : Type 0 where
  pub place : Place
  pub state : MapState

-- An answer that is not 200 is no answer.
abbrev pub answer_of : Result Refusal (List Hit) → Option (List Hit)
answer_of (ok hits) = some hits
answer_of (err e) = none

abbrev pub at_site : Client → ℕ → ℕ → Envelope → Option Site → Option (List Hit)
at_site k now hour e none = none
at_site k now hour e (some s) = answer_of (peer_query (with_client s.place k) now hour e s.state).0

-- The network, cut off after so many calls of one node by another; what lies beyond does not answer.
unfoldable pub network : ℕ → (String → Option Site) → ℕ → ℕ → Client
network zero sites now hour p e = none
network (suc depth) sites now hour p e =
    at_site (network depth sites now hour) now hour e (sites p.node_id)

-- Two clients that give the same answers to requests of a time to live below `n`.
abbrev Agree : ℕ → Client → Client → Type 0
Agree n k l = (p : Peer) (e : Envelope) (m : ℕ) → e.body.ttl ≡ pos m → m < n → k p e ≡ l p e

module _ (c : Place) (k l : Client) where
  take_hits-client :
      (q : Query) (p : Peer) (hits : List Hit)
      → take_hits (with_client c k) q p hits ≡ take_hits (with_client c l) q p hits
  unfolding take_hits
  take_hits-client q p [] = refl
  take_hits-client q p (r ∷ rs) =
      ap
        (λ rest. if ltb 1 (occurrences c.node.node_id r.path) then rest else relayed c q p r ∷ rest)
        (take_hits-client q p rs)

  answered-client :
      (q : Query) (p : Peer) (a b : Option (List Hit))
      → a ≡ b
      → answered (with_client c k) q p a ≡ answered (with_client c l) q p b
  answered-client q p none b e = rw (← e) refl
  answered-client q p (some hits) b e = rw (← e) (take_hits-client q p hits)

  call-client :
      (n left : ℕ) (q : Query) (p : Peer) (r : Result Error Envelope)
      → Agree n k l
      → left < n
      → ((e : Envelope) → r ≡ ok e → e.body.ttl ≡ pos left)
      → call (with_client c k) q p r ≡ call (with_client c l) q p r
  call-client n left q p (err e) agree h ttl = refl
  call-client n left q p (ok e) agree h ttl =
      ap ok (answered-client q p (k p e) (l p e) (agree p e left (ttl e refl) h))

  signed_ttl :
      (q : Query) (left : ℕ) (e : Envelope)
      → sign_request (with_client c k) (onward c q left) ≡ ok e
      → e.body.ttl ≡ pos left
  unfolding sign_request
  signed_ttl q left e h = ground arith

  ask_peer-client :
      (n left : ℕ) (q : Query) (p : Peer)
      → Agree n k l
      → left < n
      → ask_peer (with_client c k) q left p ≡ ask_peer (with_client c l) q left p
  unfolding ask_peer
  ask_peer-client n left q p agree h =
      ap
        (λ r. if mem p.node_id (onward c q left).path || not (has_url p.base_url) then ok [] else r)
        (call-client n left q p (sign_request (with_client c k) (onward c q left)) agree h
          (signed_ttl q left))

  ask_peers-client :
      (n left : ℕ) (q : Query) (ps : List Peer)
      → Agree n k l
      → left < n
      → ask_peers (with_client c k) q left ps ≡ ask_peers (with_client c l) q left ps
  unfolding ask_peers
  ask_peers-client n left q [] agree h = refl
  ask_peers-client n left q (p ∷ ps) agree h =
      cc (ask_peer-client n left q p agree h, ask_peers-client n left q ps agree h)

  peers_asked-client :
      (n left : ℕ) (q : Query) (ps : List Peer)
      → Agree n k l
      → left ≤ n
      → peers_asked (with_client c k) q left ps ≡ peers_asked (with_client c l) q left ps
  peers_asked-client n zero q ps agree h = refl
  peers_asked-client n (suc left) q ps agree h = ask_peers-client n left q ps agree (omega arith)

  capped-le : (n limit : ℕ) → capped (pos n) limit ≤ n
  capped-le n limit = ground arith

  module _ (n : ℕ) (agree : Agree n k l) where
    found-client :
        (q : Query) (db : MapDb)
        → q.ttl ≡ pos n
        → found (with_client c k) q db ≡ found (with_client c l) q db
    unfolding found
    found-client q db e =
        ap
          (join (
            ok (
              local_hits (with_client c k) q
                (answer_query c.commit c.rules c.node.node_id db.items q.commitment))))
          (peers_asked-client n (capped q.ttl c.rules.max_degree_limit) q (select active db.peers)
            agree (rw e (capped-le n c.rules.max_degree_limit)))

    search-client :
        (q : Query) (d : Direction) (peer by : Option String) (db : MapDb)
        → q.ttl ≡ pos n
        → search (with_client c k) q d peer by db ≡ search (with_client c l) q d peer by db
    unfolding search
    search-client q d peer by db e = ap (logged c q d peer by db) (found-client q db e)

    answer_peer-client :
        (q : Query) (p : Peer) (db : MapDb)
        → q.ttl ≡ pos n
        → answer_peer (with_client c k) q p db ≡ answer_peer (with_client c l) q p db
    answer_peer-client q p db e =
        ap (answered_with q p db c.node.node_id)
          (search-client q Direction.inbound (some p.node_id) none db e)

    rated_peer-client :
        (q : Query) (p : Peer) (rate : Bool × List Counter) (s : MapState)
        → q.ttl ≡ pos n
        → rated_peer (with_client c k) q p rate s ≡ rated_peer (with_client c l) q p rate s
    rated_peer-client q p (false, counts) s e = refl
    rated_peer-client q p (true, counts) s e =
        ap
          (λ (a : Result Refusal (List Hit) × MapDb).
            (a.0, record s { db = a.1; peer_counts = counts }))
          (answer_peer-client q p s.db e)

    verified_peer-client :
        (hour : ℕ) (e : Envelope) (r : Result Error Peer × MapDb) (s : MapState)
        → e.body.ttl ≡ pos n
        → verified_peer (with_client c k) hour e r s ≡ verified_peer (with_client c l) hour e r s
    verified_peer-client hour e (err problem, db) s h = refl
    verified_peer-client hour e (ok peer, db) s h =
        rated_peer-client e.body peer (check_peer_rate c.rules hour peer s.peer_counts)
          (record s { db = db }) h

    peer_query-client :
        (now hour : ℕ) (e : Envelope) (s : MapState)
        → e.body.ttl ≡ pos n
        → peer_query (with_client c k) now hour e s ≡ peer_query (with_client c l) now hour e s
    unfolding peer_query verify_request
    peer_query-client now hour e s h = verified_peer-client hour e (verify_request c now e s.db) s h

at_site-client :
    (k l : Client) (n now hour : ℕ) (e : Envelope) (site : Option Site)
    → Agree n k l
    → e.body.ttl ≡ pos n
    → at_site k now hour e site ≡ at_site l now hour e site
at_site-client k l n now hour e none agree h = refl
at_site-client k l n now hour e (some s) agree h =
    ap (λ (r : Result Refusal (List Hit) × MapState). answer_of r.0)
      (peer_query-client s.place k l n agree now hour e s.state h)

-- A query comes to an end of itself: whatever the nodes, their tables and their peers, a request whose time
-- to live is less than the number of calls that the network lets through gets the answer that it gets
-- where one more call is let through.
pub network_terminates :
    (sites : String → Option Site) (now hour depth n : ℕ) (p : Peer) (e : Envelope)
    → e.body.ttl ≡ pos n
    → n < depth
    → network (suc depth) sites now hour p e ≡ network depth sites now hour p e
unfolding network
network_terminates sites now hour zero n p e ttl h = absurd (omega arith)
network_terminates sites now hour (suc depth) n p e ttl h =
    at_site-client (network (suc depth) sites now hour) (network depth sites now hour) n now hour e
      (sites p.node_id)
      (λ p' e' m ttl' below. network_terminates sites now hour depth m p' e' ttl' (omega arith)) ttl
