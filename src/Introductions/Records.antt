-- ===== src/Introductions/Records.antt =====
-- The rows of backend/app/value/introductions.py and of Peer in backend/app/value/peer_models.py, the
-- messages between nodes, and what the code takes from its settings and from outside.
use can_framework.Prelude.{ℕ, Bool, Option, List, String}
use can_framework.Prelude.Outcome.{Result}
use can_framework.Money.{Amount}

-- STATUSES; a reply may carry any other word.
pub data Status : Type 0 where
  pending forwarded accepted declined expired : Status
  other : String → Status

pub data Role : Type 0 where
  origin relay destination : Role

pub data CommitStatus : Type 0 where
  offered committed : CommitStatus

-- An entry of `routes`.
pub record Route : Type 0 where
  pub path : List String
  pub status : Status
  pub blocked_by : Option String
  pub note : Option String

pub record Introduction : Type 0 where
  pub id : ℕ
  pub correlation_id : ℕ
  pub role : Role
  pub commitment : String
  pub path : List String
  pub hop_index : ℕ
  pub message : String
  pub requested_by : Option String
  pub from_node : Option String
  pub status : Status
  pub expires_at : ℕ
  pub decided_by : Option String
  pub decided_at : Option ℕ
  pub decision_note : Option String
  pub reply_contact : Option String
  pub reply_slice : Option String
  pub candidate_items : Option (List ℕ)
  pub offer : String
  pub blocked_by : Option String
  pub commit_status : CommitStatus
  pub requester_contact : Option String
  pub routes : Option (List Route)

pub data PeerStatus : Type 0 where
  active suspended : PeerStatus

pub record Peer : Type 0 where
  pub node_id : String
  pub base_url : Option String
  pub public_key : String
  pub trust_weight : Amount
  pub status : PeerStatus
  pub max_queries_per_hour : Option ℕ
  pub last_seen_at : Option ℕ
  pub carried_count : ℕ
  pub connections_count : ℕ
  pub missed_count : ℕ

-- The bodies of the requests to the peers, by their address: `/map/peer/introduction`, `…/reply` and
-- `…/commit`.
pub record OfferBody : Type 0 where
  pub correlation_id : ℕ
  pub commitment : String
  pub path : List String
  pub hop_index : ℕ
  pub message : String
  pub offer : String

pub record ReplyBody : Type 0 where
  pub correlation_id : ℕ
  pub status : Status
  pub decision_note : Option String
  pub reply_contact : Option String
  pub reply_slice : Option String
  pub from_hop : ℕ
  pub blocked_by : Option String

pub record CommitBody : Type 0 where
  pub correlation_id : ℕ
  pub requester_contact : Option String
  pub note : Option String
  pub path : List String

pub data Body : Type 0 where
  offer_of : OfferBody → Body
  reply_of : ReplyBody → Body
  commit_of : CommitBody → Body

pub record Envelope : Type 0 where
  pub body : Body
  pub from_node : String
  pub signature : String

pub record Message : Type 0 where
  pub peer : String
  pub envelope : Envelope

-- The tables of a node, and the messages that have left it.
pub record Db : Type 0 where
  pub introductions : List Introduction
  pub peers : List Peer
  pub sent : List Message
  pub fresh : ℕ

pub data Error : Type 0 where
  short_path wrong_start visits_twice same_route no_route message_too_long too_many_open : Error
  not_at_position not_previous already_decided has_expired no_contact : Error
  unknown_route not_next not_the_origin nothing_to_commit already_committed : Error
  no_signing_key : Error

-- `introduction_rules`, NODE_ID, the clock, and what is outside: the signature of the node (`sign_request`
-- raises without a key), the client that hands an envelope to a peer (PEER_CLIENT, `true` for an
-- answer that is not empty), and the open items on the map that match a commitment.
pub record Setting : Type 0 where
  pub node_id : String
  pub ttl : ℕ
  pub max_message_chars : ℕ
  pub max_open_per_caller : ℕ
  pub auto_relay : Bool
  pub connection_weight_gain : Amount
  pub now : ℕ
  pub sign : Body → Result Error String
  pub client : Peer → Envelope → Bool
  pub matching_items : String → List ℕ
