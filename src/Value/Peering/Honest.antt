-- ===== src/Value/Peering/Honest.antt =====
-- That nodes in order, which answer one another by `peer_query` of backend/app/value/map_routes.py, may count on
-- the answers of their peers.
use can_framework.Prelude.{
  ℕ, zero, suc, ◌≤◌, ◌≡◌, refl, Bool, true, false, Option, none, some, List, [], ◌∷◌, String, ◌==◌,
  arith, Bool-cases, inl, inr,
}
use mathlib.Core.Path.{subst}
use can_framework.Prelude.Text
use can_framework.Prelude.Int.{pos}
use can_framework.Prelude.All.{All}
use can_framework.Prelude.Outcome.{Result, ok, err}
use can_framework.Prelude.Table.{first}
use can_framework.Introductions.Records.{Peer}
use can_framework.Introductions.Peers.{peer_with}
use can_framework.Value.Records.{Direction, MapDb}
use can_framework.Value.Commitments.{Counter}
use can_framework.Value.Forwarding.{
  Place, Query, Envelope, Hit, Error, mem, known_peer, verify_request, capped, active, search,
}
use can_framework.Value.Forwarding.Results.{seal_confidences, seal}
use can_framework.Value.Forwarding.Sound.{search-IsSound}
use can_framework.Value.Forwarding.Paths.{
  IsShare, IsSimple, IsSound, IsHonest, Returned, All-select,
}
use can_framework.Value.Peering.{
  MapState, Refusal, sealed_answer, answer_peer, rated_peer, verified_peer, check_peer_rate,
  peer_query,
}
use can_framework.Value.Peering.Kept.{IsPeering}
use can_framework.Value.Peering.Steps.{verified-IsPeering}
use can_framework.Value.Peering.Network.{Client, with_client, Site, answer_of, at_site, network}

-- A node that can sign, discounts by a share and whose peers are in order.
pub record IsSite (node_id : String) (s : Site) : Type 0 where
  pub name : s.place.node.node_id ≡ node_id
  pub key : String
  pub signs : s.place.node.signing_key ≡ some key
  pub decay : IsShare s.place.rules.hop_decay
  pub peering : IsPeering s.place.node.node_id s.state.db.peers

-- Every result that comes back is of this sort.
abbrev pub AllBack : (Hit → Type 0) → Result Refusal (List Hit) → Type 0
AllBack P (ok hits) = All P hits
AllBack P (err e) = Unit

seal-IsSound :
    (me : String) (path : List String) (n m : ℕ) (r : Hit)
    → n ≤ m
    → IsSound me path n r
    → IsSound me path m (seal r)
seal-IsSound me path n m r h s = record {
  tail = s.tail;
  goes_on = s.goes_on;
  reach = omega (arith, s.reach);
  simple = s.simple;
  share = s.share;
}

pub sealed-IsSound :
    (me : String) (path : List String) (n m : ℕ) (hits : List Hit)
    → n ≤ m
    → All (IsSound me path n) hits
    → All (IsSound me path m) (seal_confidences hits)
unfolding seal_confidences
sealed-IsSound me path n m [] h s = tt
sealed-IsSound me path n m (r ∷ rs) h s =
    (seal-IsSound me path n m r h s.0, sealed-IsSound me path n m rs h s.1)

sealed_answer-AllBack :
    (me : String) (path : List String) (n m : ℕ) (r : Result Error (List Hit))
    → n ≤ m
    → Returned (IsSound me path n) r
    → AllBack (IsSound me path m) (sealed_answer r)
sealed_answer-AllBack me path n m (ok hits) h s = sealed-IsSound me path n m hits h s
sealed_answer-AllBack me path n m (err e) h s = tt

module _ (c : Place) (n : ℕ) (honest : IsHonest c) (key : String)
    (signs : c.node.signing_key ≡ some key) (decay : IsShare c.rules.hop_decay) where
  abbrev Fine : Query → Hit → Type 0
  Fine q = IsSound c.node.node_id q.path n

  capped-le : (q : Query) (limit : ℕ) → q.ttl ≡ pos n → capped q.ttl limit ≤ n
  capped-le q limit e = rw e (ground arith)

  answer_peer-Fine :
      (q : Query) (p : Peer) (db : MapDb)
      → q.ttl ≡ pos n
      → IsSimple q.path
      → IsPeering c.node.node_id db.peers
      → AllBack (Fine q) (answer_peer c q p db).0
  answer_peer-Fine q p db e simple h = elim (Bool-cases (Text.length q.commitment == 64)) [
    | inr short ↦ rw short tt
    | inl long ↦ rw long (elim (Bool-cases (mem c.node.node_id q.path)) [
      | inl visited ↦ rw visited tt
      | inr new ↦ rw new (
          sealed_answer-AllBack c.node.node_id q.path (capped q.ttl c.rules.max_degree_limit) n
            (search c q Direction.inbound (some p.node_id) none db).0
            (capped-le q c.rules.max_degree_limit e)
            (search-IsSound c q Direction.inbound (some p.node_id) none db honest (record {
              key = key;
              signs = signs;
              decay = decay;
              weights = All-select (λ (p : Peer). IsShare p.trust_weight) active db.peers h.weights;
              new = new;
              simple = simple;
            })))
    ])
  ]

  rated_peer-Fine :
      (q : Query) (p : Peer) (rate : Bool × List Counter) (s : MapState)
      → q.ttl ≡ pos n
      → IsSimple q.path
      → IsPeering c.node.node_id s.db.peers
      → AllBack (Fine q) (rated_peer c q p rate s).0
  rated_peer-Fine q p (false, counts) s e simple h = tt
  rated_peer-Fine q p (true, counts) s e simple h = answer_peer-Fine q p s.db e simple h

  verified_peer-Fine :
      (hour : ℕ) (e : Envelope) (r : Result Error Peer × MapDb) (s : MapState)
      → e.body.ttl ≡ pos n
      → IsSimple e.body.path
      → IsPeering c.node.node_id r.1.peers
      → AllBack (Fine e.body) (verified_peer c hour e r s).0
  verified_peer-Fine hour e (err problem, db) s ttl simple h = tt
  verified_peer-Fine hour e (ok peer, db) s ttl simple h =
      rated_peer-Fine e.body peer (check_peer_rate c.rules hour peer s.peer_counts)
        (record s { db = db }) ttl simple h

  peer_query-Fine :
      (now hour : ℕ) (e : Envelope) (s : MapState)
      → e.body.ttl ≡ pos n
      → IsSimple e.body.path
      → IsPeering c.node.node_id s.db.peers
      → AllBack (Fine e.body) (peer_query c now hour e s).0
  unfolding peer_query verify_request
  peer_query-Fine now hour e s ttl simple h =
      verified_peer-Fine hour e (verify_request c now e s.db) s ttl simple (
        verified-IsPeering c.node.node_id now e s.db
          (known_peer c e (first (peer_with e.from_node) s.db.peers)) h)

abbrev pub AllSites : (String → Option Site) → Type 0
AllSites sites = (node_id : String) (s : Site) → sites node_id ≡ some s → IsSite node_id s

AllBack-answer_of :
    (P : Hit → Type 0) (r : Result Refusal (List Hit)) {hits : List Hit}
    → AllBack P r
    → answer_of r ≡ some hits
    → All P hits
AllBack-answer_of P (ok rs) {hits} h e = let same : rs ≡ hits = cc in subst (All P) same h
AllBack-answer_of P (err x) h e = absurd (ground arith)

at_site-IsSound :
    (k : Client) (now hour n : ℕ) (node_id : String) (e : Envelope) (site : Option Site)
    {hits : List Hit}
    → ((c : Place) → IsHonest (with_client c k))
    → ((s : Site) → site ≡ some s → IsSite node_id s)
    → e.body.ttl ≡ pos n
    → IsSimple e.body.path
    → at_site k now hour e site ≡ some hits
    → All (IsSound node_id e.body.path n) hits
at_site-IsSound k now hour n node_id e none honest fine ttl simple h = absurd (ground arith)
at_site-IsSound k now hour n node_id e (some s) {hits} honest fine ttl simple h =
    let f = fine s refl in
    subst (λ (id : String). All (IsSound id e.body.path n) hits) f.name
      (AllBack-answer_of (IsSound s.place.node.node_id e.body.path n)
        (peer_query (with_client s.place k) now hour e s.state).0
        (peer_query-Fine (with_client s.place k) n (honest s.place) f.key f.signs f.decay now hour e
          s.state ttl simple f.peering)
        h)

-- In a network of such nodes, however deep, every node may count on the answers of its peers.
pub network-IsHonest :
    (sites : String → Option Site) (now hour depth : ℕ)
    → AllSites sites
    → (c : Place) → IsHonest (with_client c (network depth sites now hour))
unfolding network
network-IsHonest sites now hour zero fine c p e hits n answer ttl fresh simple =
    absurd (ground arith)
network-IsHonest sites now hour (suc depth) fine c p e hits n answer ttl fresh simple =
    at_site-IsSound (network depth sites now hour) now hour n p.node_id e (sites p.node_id)
      (network-IsHonest sites now hour depth fine) (fine p.node_id) ttl simple answer
