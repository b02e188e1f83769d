-- ===== src/Value/Forwarding/Sound.antt =====
-- What the search of backend/app/value/forwarding.py answers, when its peers answer soundly.
use can_framework.Prelude.{
  ℕ, zero, suc, ◌+◌, ◌≡◌, refl, Bool, true, false, not, Option, some, List, [], ◌∷◌, ◌++◌, String,
  ◌||◌, if◌then◌else◌, arith, Bool-cases, Option-cases, inl, inr,
}
use mathlib.Core.Path.{subst}
use can_framework.Prelude.All.{All, All-if}
use can_framework.Prelude.Outcome.{Result, ok, err}
use can_framework.Prelude.Table.{select}
use can_framework.Introductions.Records.{Peer}
use can_framework.Value.Records.{Direction, MapDb}
use can_framework.Value.Commitments.{answer_query}
use can_framework.Value.Forwarding.{
  Query, Envelope, Hit, Error, Place, sign_request, capped, mem, onward, has_url, answered,
  ask_peer, join, ask_peers, local_hit, local_hits, peers_asked, active, comes_before, insert_hit,
  sort_hits, logged, found, search,
}
use can_framework.Value.Forwarding.Paths.{
  IsHonest, IsShare, IsSimple, IsSimple-append_one, IsSound, Returned, Returned-join,
  take_hits-IsSound,
}

-- A node that can sign, a query that has not been here and comes over a simple path, and weights that are
-- shares.
pub record IsReady (c : Place) (q : Query) (peers : List Peer) : Type 0 where
  pub key : String
  pub signs : c.node.signing_key ≡ some key
  pub decay : IsShare c.rules.hop_decay
  pub weights : All (λ (p : Peer). IsShare p.trust_weight) peers
  pub new : mem c.node.node_id q.path ≡ false
  pub simple : IsSimple q.path

module _ (c : Place) (q : Query) (left : ℕ) (key : String) (signs : c.node.signing_key ≡ some key)
    (honest : IsHonest c) (decay : IsShare c.rules.hop_decay)
    (simple : IsSimple (q.path ++ c.node.node_id ∷ [])) where
  abbrev Fine : Hit → Type 0
  Fine = IsSound c.node.node_id q.path (left + 1)

  abbrev sent : Envelope
  sent = record {
    body = onward c q left;
    from_node = c.node.node_id;
    signature = c.sign_body key (onward c q left);
  }

  answered-Fine :
      (p : Peer)
      → mem p.node_id (onward c q left).path ≡ false
      → IsShare p.trust_weight
      → All Fine (answered c q p (c.client p sent))
  answered-Fine p fresh weight = elim (Option-cases (c.client p sent)) [
    | inl silent ↦ rw silent tt
    | inr (hits, there) ↦ rw there (
        take_hits-IsSound c q left p hits weight decay
          (honest p sent hits left there refl fresh simple))
  ]

  sign_request-sent : sign_request c (onward c q left) ≡ ok sent
  unfolding sign_request
  sign_request-sent = ground arith

  ask_peer-Fine : (p : Peer) → IsShare p.trust_weight → Returned Fine (ask_peer c q left p)
  unfolding ask_peer
  ask_peer-Fine p weight =
      elim (Bool-cases (mem p.node_id (onward c q left).path || not (has_url p.base_url))) [
        | inl skipped ↦ rw skipped tt
        | inr called ↦ rw called (rw sign_request-sent (answered-Fine p (ground arith) weight))
      ]

  ask_peers-Fine :
      (ps : List Peer)
      → All (λ (p : Peer). IsShare p.trust_weight) ps
      → Returned Fine (ask_peers c q left ps)
  unfolding ask_peers
  ask_peers-Fine [] h = tt
  ask_peers-Fine (p ∷ ps) h =
      Returned-join Fine (ask_peer c q left p) (ask_peers c q left ps) (ask_peer-Fine p h.0)
        (ask_peers-Fine ps h.1)

module _ (c : Place) (q : Query) (honest : IsHonest c) where
  peers_asked-Fine :
      (left : ℕ) (ps : List Peer)
      → IsReady c q ps
      → Returned (IsSound c.node.node_id q.path left) (peers_asked c q left ps)
  peers_asked-Fine zero ps h = tt
  peers_asked-Fine (suc left) ps h =
      let next : left + 1 ≡ suc left = omega arith in
      subst (λ n. Returned (IsSound c.node.node_id q.path n) (ask_peers c q left ps)) next
        (ask_peers-Fine c q left h.key h.signs honest h.decay
          (IsSimple-append_one c.node.node_id q.path h.new h.simple) ps h.weights)

  local_hits-Fine :
      (left : ℕ) (match : Bool) (ps : List Peer)
      → IsReady c q ps
      → All (IsSound c.node.node_id q.path left) (if match then local_hit c q ∷ [] else [])
  local_hits-Fine left false ps h = tt
  local_hits-Fine left true ps h = (
    record {
      tail = [];
      goes_on = refl;
      reach = omega arith;
      simple = IsSimple-append_one c.node.node_id q.path h.new h.simple;
      share = ground arith;
    },
    tt,
  )

insert_hit-All :
    (P : Hit → Type 0) (r : Hit) (rs : List Hit) → P r → All P rs → All P (insert_hit r rs)
insert_hit-All P r [] p h = (p, tt)
insert_hit-All P r (x ∷ xs) p h =
    All-if P (comes_before x r) (x ∷ insert_hit r xs) (r ∷ x ∷ xs)
      (h.0, insert_hit-All P r xs p h.1) (p, h)

sort_hits-All : (P : Hit → Type 0) (rs : List Hit) → All P rs → All P (sort_hits rs)
unfolding sort_hits
sort_hits-All P [] h = tt
sort_hits-All P (r ∷ rs) h = insert_hit-All P r (sort_hits rs) h.0 (sort_hits-All P rs h.1)

logged-All :
    (P : Hit → Type 0) (c : Place) (q : Query) (d : Direction) (peer by : Option String)
    (db : MapDb) (r : Result Error (List Hit))
    → Returned P r
    → Returned P (logged c q d peer by db r).0
logged-All P c q d peer by db (err e) h = absurd h
logged-All P c q d peer by db (ok hits) h = sort_hits-All P hits h

-- A node that can sign, whose active peers answer soundly and have weights between 0 and 1, answers a query
-- that comes over a simple path, and has not been here, with results and not with an error. Each result
-- goes on from this node for at most as many steps as the time to live of the query and the limit of
-- this node allow, visits no node twice, and has a confidence between 0 and 1.
pub search-IsSound :
    (c : Place) (q : Query) (d : Direction) (peer by : Option String) (db : MapDb)
    → IsHonest c
    → IsReady c q (select active db.peers)
    → Returned
        (IsSound c.node.node_id q.path (capped q.ttl c.rules.max_degree_limit))
        (search c q d peer by db).0
unfolding search found
search-IsSound c q d peer by db honest h =
    let left = capped q.ttl c.rules.max_degree_limit in
    let P = IsSound c.node.node_id q.path left in
    let here =
      local_hits c q (answer_query c.commit c.rules c.node.node_id db.items q.commitment) in
    logged-All P c q d peer by db (join (ok here) (peers_asked c q left (select active db.peers))) (
      Returned-join P (ok here) (peers_asked c q left (select active db.peers))
        (local_hits-Fine c q honest left _ (select active db.peers) h)
        (peers_asked-Fine c q honest left (select active db.peers) h))
