-- ===== src/Value/Peering/Kept.antt =====
-- What the handlers of peers keep, and what a federated query therefore answers.
use can_framework.Prelude.{
  ◌≡◌, refl, ap, Bool, true, false, Option, none, some, List, [], ◌∷◌, ◌++◌, String, str_eq,
  str_eq_iff, ◌&&◌, ◌||◌, arith, Bool-cases, inl, inr,
}
use can_framework.Prelude.All.{All, All-append, All-adjust}
use can_framework.Prelude.Table.{first, select, adjust}
use can_framework.Money.{Amount}
use can_framework.Introductions.Records.{Peer}
use can_framework.Introductions.Peers.{peer_with}
use can_framework.Accounts.Roles.{Principal, Role, has_any_role}
use can_framework.Value.Records.{MapDb}
use can_framework.Value.Forwarding.{mem}
use can_framework.Value.Forwarding.Paths.{IsShare, IsSimple, All-select}
use can_framework.Value.Peering.{
  PeerIn, PeerUpdate, new_peer, add_peer, update_peer, remove_peer, updated_peer, is_share,
  is_share?, is_limit, is_there, without, or_else,
}

abbrev pub names : List Peer → List String
names [] = []
names (p ∷ ps) = p.node_id ∷ names ps

-- The peers of a node: each weight is between 0 and 1, no two have one node id, and none is the node.
pub record IsPeering (me : String) (peers : List Peer) : Type 0 where
  pub weights : All (λ (p : Peer). IsShare p.trust_weight) peers
  pub distinct : IsSimple (names peers)
  pub others : mem me (names peers) ≡ false

names-adjust :
    (q : Peer → Bool) (f : Peer → Peer) (ps : List Peer)
    → ((p : Peer) → (f p).node_id ≡ p.node_id)
    → names (adjust q f ps) ≡ names ps
names-adjust q f [] h = refl
names-adjust q f (p ∷ ps) h = elim (Bool-cases (q p)) [
  | inl here ↦ rw here (ap (λ n. n ∷ names ps) (h p))
  | inr past ↦ rw past (ap (λ ns. p.node_id ∷ ns) (names-adjust q f ps h))
]

mem-first :
    (node_id : String) (ps : List Peer)
    → is_there (first (peer_with node_id) ps) ≡ false
    → mem node_id (names ps) ≡ false
mem-first node_id [] h = refl
mem-first node_id (p ∷ ps) h = ground (arith, mem-first node_id ps)

mem-names_append :
    (x : String) (ps : List Peer) (p : Peer)
    → mem x (names (ps ++ p ∷ [])) ≡ (mem x (names ps) || str_eq p.node_id x)
mem-names_append x [] p = ground arith
mem-names_append x (r ∷ ps) p = ground (arith, mem-names_append x ps p)

IsSimple-names_append :
    (ps : List Peer) (p : Peer)
    → mem p.node_id (names ps) ≡ false
    → IsSimple (names ps)
    → IsSimple (names (ps ++ p ∷ []))
IsSimple-names_append [] p new h = (refl, tt)
IsSimple-names_append (r ∷ ps) p new h = (
  rw (mem-names_append r.node_id ps p)
      (ground (arith, str_eq_iff r.node_id p.node_id, str_eq_iff p.node_id r.node_id)),
  IsSimple-names_append ps p (ground arith) h.1,
)

mem-without :
    (x node_id : String) (ps : List Peer)
    → mem x (names ps) ≡ false
    → mem x (names (select (without node_id) ps)) ≡ false
mem-without x node_id [] h = h
mem-without x node_id (p ∷ ps) h = ground (arith, mem-without x node_id ps)

IsSimple-without :
    (node_id : String) (ps : List Peer)
    → IsSimple (names ps)
    → IsSimple (names (select (without node_id) ps))
IsSimple-without node_id [] h = tt
IsSimple-without node_id (p ∷ ps) h = elim (Bool-cases (without node_id p)) [
  | inl kept ↦ rw kept (mem-without p.node_id node_id ps h.0, IsSimple-without node_id ps h.1)
  | inr gone ↦ rw gone (IsSimple-without node_id ps h.1)
]

pub adjust-IsPeering :
    (me : String) (q : Peer → Bool) (f : Peer → Peer) (ps : List Peer)
    → ((p : Peer) → (f p).node_id ≡ p.node_id)
    → ((p : Peer) → IsShare p.trust_weight → IsShare (f p).trust_weight)
    → IsPeering me ps
    → IsPeering me (adjust q f ps)
adjust-IsPeering me q f ps same weight h = record {
  weights = All-adjust (λ (p : Peer). IsShare p.trust_weight) q f ps weight h.weights;
  distinct = rw (names-adjust q f ps same) h.distinct;
  others = rw (names-adjust q f ps same) h.others;
}

append-IsPeering :
    (me : String) (ps : List Peer) (p : Peer)
    → IsShare p.trust_weight
    → is_there (first (peer_with p.node_id) ps) ≡ false
    → str_eq p.node_id me ≡ false
    → IsPeering me ps
    → IsPeering me (ps ++ p ∷ [])
append-IsPeering me ps p weight new other h = record {
  weights = All-append (λ (p : Peer). IsShare p.trust_weight) ps p h.weights weight;
  distinct = IsSimple-names_append ps p (mem-first p.node_id ps new) h.distinct;
  others = rw (mem-names_append me ps p) (ground arith);
}

without-IsPeering :
    (me peer_id : String) (ps : List Peer)
    → IsPeering me ps
    → IsPeering me (select (without peer_id) ps)
without-IsPeering me peer_id ps h = record {
  weights = All-select (λ (p : Peer). IsShare p.trust_weight) (without peer_id) ps h.weights;
  distinct = IsSimple-without peer_id ps h.distinct;
  others = mem-without me peer_id ps h.others;
}

pub add_peer-IsPeering :
    (who : Principal) (me : String) (payload : PeerIn) (db : MapDb)
    → IsPeering me db.peers
    → IsPeering me (add_peer who me payload db).1.peers
unfolding add_peer
add_peer-IsPeering who me payload db h = elim (Bool-cases (has_any_role who (Role.admin ∷ []))) [
  | inr stop ↦ rw stop h
  | inl admin ↦
      rw admin
        (elim (Bool-cases
          (is_share payload.trust_weight && is_limit payload.max_queries_per_hour)) [
            | inr stop ↦ rw stop h
            | inl valid ↦ rw valid (elim (Bool-cases (str_eq payload.node_id me)) [
              | inl stop ↦ rw stop h
              | inr other ↦
                  rw other
                    (elim (Bool-cases (is_there (first (peer_with payload.node_id) db.peers))) [
                      | inl stop ↦ rw stop h
                      | inr new ↦ rw new (
                          append-IsPeering me db.peers (new_peer payload) (ground arith) new other
                            h)
                    ])
            ])
          ])
]

or_else-IsShare :
    (w : Option Amount) (old : Amount) → IsShare old → is_share? w ≡ true → IsShare (or_else w old)
or_else-IsShare none old h k = h
or_else-IsShare (some w) old h k = ground arith

pub update_peer-IsPeering :
    (who : Principal) (me peer_id : String) (payload : PeerUpdate) (db : MapDb)
    → IsPeering me db.peers
    → IsPeering me (update_peer who peer_id payload db).1.peers
unfolding update_peer
update_peer-IsPeering who me peer_id payload db h =
    elim (Bool-cases (has_any_role who (Role.admin ∷ []))) [
      | inr stop ↦ rw stop h
      | inl admin ↦
          rw admin
            (elim (Bool-cases
              (is_share? payload.trust_weight && is_limit payload.max_queries_per_hour)) [
                | inr stop ↦ rw stop h
                | inl valid ↦
                    rw valid (elim (Bool-cases (is_there (first (peer_with peer_id) db.peers))) [
                      | inr stop ↦ rw stop h
                      | inl there ↦ rw there (
                          adjust-IsPeering me (peer_with peer_id) (updated_peer payload) db.peers
                            (λ p. refl)
                            (λ p w.
                              or_else-IsShare payload.trust_weight p.trust_weight w (ground arith))
                            h)
                    ])
              ])
    ]

pub remove_peer-IsPeering :
    (who : Principal) (me peer_id : String) (db : MapDb)
    → IsPeering me db.peers
    → IsPeering me (remove_peer who peer_id db).1.peers
unfolding remove_peer
remove_peer-IsPeering who me peer_id db h = elim (Bool-cases (has_any_role who (Role.admin ∷ []))) [
  | inr stop ↦ rw stop h
  | inl admin ↦ rw admin (elim (Bool-cases (is_there (first (peer_with peer_id) db.peers))) [
    | inr stop ↦ rw stop h
    | inl there ↦ rw there (without-IsPeering me peer_id db.peers h)
  ])
]
