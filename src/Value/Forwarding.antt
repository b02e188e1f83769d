-- ===== src/Value/Forwarding.antt =====
-- backend/app/value/forwarding.py: a query that travels between peered nodes. The client that reaches a
-- peer, the signature of a request and the check of it are parameters; weights are decimals as in Money.
pub mod Results
pub mod Paths
pub mod Sound
use can_framework.Prelude.{
  ℕ, zero, suc, ◌+◌, ◌-◌, ◌*◌, Bool, true, false, not, Option, none, some, List, [], ◌∷◌, ◌++◌,
  String, str_eq, ltb, leb, ◌==◌, ◌&&◌, ◌||◌, if◌then◌else◌,
}
use can_framework.Prelude.Int.{ℤ, pos, negsuc, ◌-ℤ◌, ◌*ℤ◌, ltb_ℤ, leb_ℤ}
use can_framework.Prelude.Outcome.{Result, ok, err}
use can_framework.Prelude.Table.{length, first, select, adjust}
use can_framework.Money.{Amount, one, micro, quantise}
use can_framework.Introductions.Records.{Peer, PeerStatus}
use can_framework.Introductions.Peers.{is_active, peer_with}
use can_framework.Value.Records.{MapItem, Rules, QueryLog, Direction, MapDb}
use can_framework.Value.Commitments.{Commit, Answer, answer_query}
use can_framework.Value.Proofs.{Node, Crypto, Proof, match_attestation, new_proof, wrap_hop}
use can_framework.Value.Proofs.Verify.{Claim, Report, Problem, verify_proof}

-- The body of a request.
pub record Query : Type 0 where
  pub commitment : String
  pub ttl : ℤ
  pub path : List String
  pub query_id : String

pub record Envelope : Type 0 where
  pub body : Query
  pub from_node : String
  pub signature : String

-- A result: where a match is, how to get there, and what the way is worth.
pub record Hit : Type 0 where
  pub node_id : String
  pub path : List String
  pub degree : ℤ
  pub confidence : Option Amount
  pub proof : Option Proof

pub data Error : Type 0 where
  no_signing_key not_a_peer suspended bad_signature rate_limit : Error
  no_commitment : Error

-- The settings of a node, and what is outside: PyNaCl, the hash of the attributes, and `PEER_CLIENT`.
pub record Place : Type 0 where
  pub node : Node
  pub rules : Rules
  pub crypto : Crypto
  pub commit : Commit
  pub sign_body : String → Query → String
  pub verifies_body : String → Query → String → Bool
  pub client : Peer → Envelope → Option (List Hit)

unfoldable pub sign_request : Place → Query → Result Error Envelope
sign_request c body = elim c.node.signing_key [
  | none ↦ err Error.no_signing_key
  | some key ↦
      ok (record { body = body; from_node = c.node.node_id; signature = c.sign_body key body })
]

abbrev pub seen_at : ℕ → Peer → Peer
seen_at now p = record p { last_seen_at = some now }

abbrev pub known_peer : Place → Envelope → Option Peer → Result Error Peer
known_peer c e none = err Error.not_a_peer
known_peer c e (some p) =
    if not (is_active p.status)
    then err Error.suspended
    else if not (c.verifies_body p.public_key e.body e.signature)
    then err Error.bad_signature
    else ok p

-- The peer that a request comes from, and the tables, where its time of last contact is written.
abbrev pub seen_peer : ℕ → Envelope → MapDb → Result Error Peer → Result Error Peer × MapDb
seen_peer now e db (err problem) = (err problem, db)
seen_peer now e db (ok p) = (
  ok (seen_at now p),
  record db { peers = adjust (peer_with e.from_node) (seen_at now) db.peers },
)

unfoldable pub verify_request : Place → ℕ → Envelope → MapDb → Result Error Peer × MapDb
verify_request c now e db =
    seen_peer now e db (known_peer c e (first (peer_with e.from_node) db.peers))

-- `max(0, min(int(ttl), limit))`
abbrev pub capped : ℤ → ℕ → ℕ
capped (pos n) limit = if ltb limit n then limit else n
capped (negsuc n) limit = 0

-- `round(a * b * c, 6)`
unfoldable pub discounted : Amount → Amount → Amount → Amount
discounted a b c = quantise (a *ℤ b *ℤ c) (one * one * micro) micro

abbrev pub mem : String → List String → Bool
mem s [] = false
mem s (x ∷ xs) = str_eq x s || mem s xs

abbrev pub occurrences : String → List String → ℕ
occurrences s [] = 0
occurrences s (x ∷ xs) = (if str_eq x s then 1 else 0) + occurrences s xs

abbrev pub certain : Option Amount → Amount
certain none = pos one
certain (some a) = a

-- `len(r.path) - len(path) - 1`
abbrev pub degree_from : List String → List String → ℤ
degree_from path of = pos (length of) -ℤ pos (length path + 1)

-- Only a relay signs; the origin has an empty path.
abbrev pub relay_proof : Place → Query → Peer → Option Proof → Option Proof
relay_proof c q peer proof = elim q.path [
  | [] ↦ proof
  | x ∷ xs ↦ wrap_hop c.crypto c.node proof q.query_id q.commitment peer.node_id
]

abbrev pub relayed : Place → Query → Peer → Hit → Hit
relayed c q peer r = record r {
  confidence = some (discounted peer.trust_weight (certain r.confidence) c.rules.hop_decay);
  degree = degree_from q.path r.path;
  proof = relay_proof c q peer r.proof;
}

-- The loop over the results of a peer; a path that visits this node twice is dropped.
unfoldable pub take_hits : Place → Query → Peer → List Hit → List Hit
take_hits c q peer [] = []
take_hits c q peer (r ∷ rs) =
    let rest = take_hits c q peer rs in
    if ltb 1 (occurrences c.node.node_id r.path) then rest else relayed c q peer r ∷ rest

abbrev pub has_url : Option String → Bool
has_url none = false
has_url (some url) = not (str_eq url "")

abbrev pub onward : Place → Query → ℕ → Query
onward c q left = record q { ttl = pos left; path = q.path ++ c.node.node_id ∷ [] }

abbrev pub answered : Place → Query → Peer → Option (List Hit) → List Hit
answered c q peer none = []
answered c q peer (some hits) = take_hits c q peer hits

abbrev pub call : Place → Query → Peer → Result Error Envelope → Result Error (List Hit)
call c q peer (err e) = err e
call c q peer (ok envelope) = ok (answered c q peer (c.client peer envelope))

-- One round of the loop over the peers.
unfoldable pub ask_peer : Place → Query → ℕ → Peer → Result Error (List Hit)
unfolding sign_request
ask_peer c q left peer =
    if mem peer.node_id (onward c q left).path || not (has_url peer.base_url)
    then ok []
    else call c q peer (sign_request c (onward c q left))

abbrev pub join : Result Error (List Hit) → Result Error (List Hit) → Result Error (List Hit)
join (err e) more = err e
join (ok hits) (err e) = err e
join (ok hits) (ok more) = ok (hits ++ more)

unfoldable pub ask_peers : Place → Query → ℕ → List Peer → Result Error (List Hit)
ask_peers c q left [] = ok []
ask_peers c q left (p ∷ ps) = join (ask_peer c q left p) (ask_peers c q left ps)

abbrev pub local_hit : Place → Query → Hit
local_hit c q = record {
  node_id = c.node.node_id;
  path = q.path ++ c.node.node_id ∷ [];
  degree = pos (length q.path);
  confidence = if length q.path == 0 then some (pos one) else none;
  proof = new_proof (match_attestation c.crypto c.node q.query_id q.commitment);
}

abbrev pub local_hits : Place → Query → Answer → List Hit
local_hits c q local = if local.match then local_hit c q ∷ [] else []

abbrev pub peers_asked : Place → Query → ℕ → List Peer → Result Error (List Hit)
peers_asked c q zero peers = ok []
peers_asked c q (suc left) peers = ask_peers c q left peers

abbrev pub active : Peer → Bool
active p = is_active p.status

-- The order of the results: the surest first, then the nearest.
abbrev pub rating : Hit → Amount
rating r = elim r.confidence [ none ↦ pos 0 | some a ↦ a ]

abbrev pub comes_before : Hit → Hit → Bool
comes_before a b =
    ltb_ℤ (rating b) (rating a) || (leb_ℤ (rating b) (rating a) && ltb_ℤ a.degree b.degree)

abbrev pub insert_hit : Hit → List Hit → List Hit
insert_hit r [] = r ∷ []
insert_hit r (x ∷ xs) = if comes_before x r then x ∷ insert_hit r xs else r ∷ x ∷ xs

unfoldable pub sort_hits : List Hit → List Hit
sort_hits [] = []
sort_hits (r ∷ rs) = insert_hit r (sort_hits rs)

unfoldable pub found : Place → Query → MapDb → Result Error (List Hit)
found c q db =
    join (ok (local_hits c q (answer_query c.commit c.rules c.node.node_id db.items q.commitment)))
      (peers_asked c q (capped q.ttl c.rules.max_degree_limit) (select active db.peers))

abbrev pub log_query : Place → Query → Direction → Option String → Option String → ℕ → MapDb → MapDb
log_query c q direction peer asked_by results db = record db {
  query_log =
      db.query_log
      ++ record {
        direction = direction;
        peer_node_id = peer;
        asked_by = asked_by;
        commitment = q.commitment;
        ttl = capped q.ttl c.rules.max_degree_limit;
        path = q.path;
        matched = not (results == 0);
        results = results;
      }
        ∷ [];
}

abbrev pub logged :
    Place
    → Query
    → Direction
    → Option String
    → Option String
    → MapDb
    → Result Error (List Hit)
    → Result Error (List Hit) × MapDb
logged c q direction peer asked_by db (err e) = (err e, db)
logged c q direction peer asked_by db (ok hits) =
    (ok (sort_hits hits), log_query c q direction peer asked_by (length hits) db)

unfoldable pub search :
    Place
    → Query
    → Direction
    → Option String
    → Option String
    → MapDb
    → Result Error (List Hit) × MapDb
unfolding found sort_hits
search c q direction peer asked_by db = logged c q direction peer asked_by db (found c q db)
