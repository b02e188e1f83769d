-- ===== src/Introductions/Peers.antt =====
-- The peers of a node: the weight and the counts of backend/app/value/introductions.py, and
-- `sign_request` and `call_peer` of backend/app/value/forwarding.py.
use can_framework.Prelude.{
  ◌+◌, Bool, true, false, Option, none, some, [], ◌∷◌, ◌++◌, String, str_eq, ◌&&◌, if◌then◌else◌,
}
use can_framework.Prelude.Int.{pos, ◌+ℤ◌, leb_ℤ}
use can_framework.Prelude.Table.{first, adjust}
use can_framework.Prelude.Handler.{Handler, pure, gets, lift, modify, commit, transmit, ◌>>=◌, ◌>>◌}
use can_framework.Money.{Amount, one, round_micro}
use can_framework.Introductions.Records.{
  Peer, PeerStatus, Body, Envelope, Message, Db, Error, Setting,
}

abbrev pub Request : Type 0 → Type 0
Request = Handler Db Error

abbrev pub peer_with : String → Peer → Bool
peer_with node_id p = str_eq p.node_id node_id

abbrev pub is_active : PeerStatus → Bool
is_active PeerStatus.active = true
is_active PeerStatus.suspended = false

abbrev pub active_peer : String → Peer → Bool
active_peer node_id p = str_eq p.node_id node_id && is_active p.status

abbrev pub send : Message → Db → Db
send m db = record db { sent = db.sent ++ m ∷ [] }

unfoldable pub hand_over : Setting → Envelope → Option Peer → Request Bool
hand_over c envelope none = pure false
hand_over c envelope (some p) = do
  transmit (send (record { peer = p.node_id; envelope = envelope }))
  pure (c.client p envelope)

-- `call_peer` with the envelope that `sign_request` makes: whether an answer came.
unfoldable pub call_peer : Setting → String → Body → Request Bool
call_peer c node_id body = do
  signature ← lift (c.sign body)
  peer ← gets (λ db. first (active_peer node_id) db.peers)
  hand_over c (record { body = body; from_node = c.node_id; signature = signature }) peer

abbrev pub with_peer : (Peer → Peer) → String → Db → Db
with_peer f node_id db = record db { peers = adjust (peer_with node_id) f db.peers }

abbrev pub missed : Peer → Peer
missed p = record p { missed_count = p.missed_count + 1 }

unfoldable pub write_peer : (Peer → Peer) → String → Option Peer → Request (Unit {0})
write_peer f node_id none = pure tt
write_peer f node_id (some p) = do modify (with_peer f node_id); commit

unfoldable pub update_peer : (Peer → Peer) → Option String → Request (Unit {0})
unfolding write_peer
update_peer f none = pure tt
update_peer f (some node_id) =
    if str_eq node_id ""
    then pure tt
    else (do found ← gets (λ db. first (peer_with node_id) db.peers); write_peer f node_id found)

unfoldable pub record_missed : Option String → Request (Unit {0})
record_missed node_id = update_peer missed node_id

abbrev pub min_ℤ : Amount → Amount → Amount
min_ℤ a b = if leb_ℤ a b then a else b

abbrev pub connected_once : Amount → Peer → Peer
connected_once gain p = record p {
  connections_count = p.connections_count + 1;
  trust_weight = min_ℤ (pos one) (round_micro (p.trust_weight +ℤ gain));
}

-- Both callers pass `carried=True`.
abbrev pub carried : Setting → Bool → Peer → Peer
carried c connected p =
    let q : Peer = record p { carried_count = p.carried_count + 1 } in
    if connected then connected_once c.connection_weight_gain q else q

unfoldable pub credit_connection : Setting → Option String → Bool → Request (Unit {0})
credit_connection c node_id connected = update_peer (carried c connected) node_id
