-- ===== src/Introductions/Growth.antt =====
-- The weights and the counts of peers in backend/app/value/introductions.py only grow.
use can_framework.Prelude.{
  ◌≤◌, ◌≡◌, refl, sym, ap, ◌∙◌, inl, inr, Bool, true, false, Option, some, String, arith,
  Bool-cases, str_eq, str_eq_iff,
}
use can_framework.Prelude.Int.{pos, ◌+ℤ◌, ◌≤ℤ◌, leb_ℤ, int_laws, le_trans_ℤ}
use can_framework.Prelude.Table.{first, first-adjust_ne, first-adjust_self}
use can_framework.Prelude.Handler.Keeps.{Keeps-request}
use can_framework.Money.{Amount, one, round_micro}
use can_framework.Money.Rounding.{round_micro_near}
use can_framework.Introductions.Records.{Introduction, Peer, Db, Setting}
use can_framework.Introductions.Peers.{peer_with, with_peer, missed, carried, min_ℤ}
use can_framework.Introductions.Steps.{Step, starts, receives, decides, replies, commits, seals}
use can_framework.Introductions.Steps.Keeps.{
  Allows, start-Keeps, receive-Keeps, decide-Keeps, receive_reply-Keeps, commit_offer-Keeps,
  receive_commit-Keeps,
}

abbrev pub peer_at : String → Db → Option Peer
peer_at n db = first (peer_with n) db.peers

-- What may become of a peer: its weight and its counts are not less, and the weight stays up to 1.
pub record Grown (p q : Peer) : Type 0 where
  pub same_node : q.node_id ≡ p.node_id
  pub weight : p.trust_weight ≤ℤ q.trust_weight
  pub at_most_one : p.trust_weight ≤ℤ pos one → q.trust_weight ≤ℤ pos one
  pub carried_more : p.carried_count ≤ q.carried_count
  pub connected_more : p.connections_count ≤ q.connections_count
  pub missed_more : p.missed_count ≤ q.missed_count

-- Every peer of `a` is in `b`, grown.
abbrev pub NothingDeducted : Db → Db → Type 0
NothingDeducted a b =
    (n : String) (p : Peer)
    → peer_at n a ≡ some p
    → p.trust_weight ≤ℤ pos one
    → (q : Peer) × (peer_at n b ≡ some q) × Grown p q

abbrev Grows : (Peer → Peer) → Type 0
Grows f = (p : Peer) → p.trust_weight ≤ℤ pos one → Grown p (f p)

Grown-trans : {p q r : Peer} → Grown p q → Grown q r → Grown p r
Grown-trans {p} {q} {r} g h = record {
  same_node = h.same_node ∙ g.same_node;
  weight = le_trans_ℤ p.trust_weight q.trust_weight r.trust_weight g.weight h.weight;
  at_most_one = λ le. h.at_most_one (g.at_most_one le);
  carried_more = omega (arith, g.carried_more, h.carried_more);
  connected_more = omega (arith, g.connected_more, h.connected_more);
  missed_more = omega (arith, g.missed_more, h.missed_more);
}

missed-Grown : Grows missed
missed-Grown p le = record {
  same_node = refl;
  weight = omega arith;
  at_most_one = λ h. h;
  carried_more = omega arith;
  connected_more = omega arith;
  missed_more = omega arith;
}

gained :
    (w gain : Amount)
    → pos 500 ≤ℤ gain
    → w ≤ℤ pos one
    → w ≤ℤ min_ℤ (pos one) (round_micro (w +ℤ gain))
gained w gain enough le = elim (Bool-cases (leb_ℤ (pos one) (round_micro (w +ℤ gain)))) [
  | inl capped ↦ rw capped le
  | inr below ↦ rw below (omega (int_laws, (round_micro_near (w +ℤ gain)).0, enough))
]

capped_at_one : (x : Amount) → min_ℤ (pos one) x ≤ℤ pos one
capped_at_one x = elim (Bool-cases (leb_ℤ (pos one) x)) [
  | inl above ↦ rw above (omega arith)
  | inr below ↦ rw below (ground arith)
]

carried-Grown : (c : Setting) (b : Bool) → pos 500 ≤ℤ c.connection_weight_gain → Grows (carried c b)
carried-Grown c true enough p le = record {
  same_node = refl;
  weight = gained p.trust_weight c.connection_weight_gain enough le;
  at_most_one = λ h. capped_at_one (round_micro (p.trust_weight +ℤ c.connection_weight_gain));
  carried_more = omega arith;
  connected_more = omega arith;
  missed_more = omega arith;
}
carried-Grown c false enough p le = record {
  same_node = refl;
  weight = omega arith;
  at_most_one = λ h. h;
  carried_more = omega arith;
  connected_more = omega arith;
  missed_more = omega arith;
}

other_peer : (k n node : String) → str_eq n k ≡ false → str_eq node n ≡ true → str_eq node k ≡ false
other_peer k n node apart e = elim (Bool-cases (str_eq node k)) [
  | inl same ↦
      let both : n ≡ k = sym ((str_eq_iff node n).0 e) ∙ (str_eq_iff node k).0 same in
      absurd (cc (apart, (str_eq_iff n k).1 both))
  | inr other ↦ other
]

module _ (a : Db) (f : Peer → Peer) (named : (p : Peer) → (f p).node_id ≡ p.node_id)
    (grows : Grows f) where
  peer_at-written :
      (k : String) (d : Db) (q : Peer)
      → peer_at k d ≡ some q
      → peer_at k (with_peer f k d) ≡ some (f q)
  peer_at-written k d q here =
      first-adjust_self (peer_with k) f d.peers q (λ y e. ap (λ z. str_eq z k) (named y) ∙ e) here

  peer_at-apart :
      (k n : String) (d : Db) → str_eq n k ≡ false → peer_at k (with_peer f n d) ≡ peer_at k d
  peer_at-apart k n d apart =
      first-adjust_ne (peer_with k) (peer_with n) f d.peers
        (λ x e. other_peer k n x.node_id apart e)
        (λ x e. ap (λ z. str_eq z k) (named x) ∙ other_peer k n x.node_id apart e)

  with_peer_deducts_nothing :
      (n : String) (d : Db) → NothingDeducted a d → NothingDeducted a (with_peer f n d)
  with_peer_deducts_nothing n d h k p e le =
      let (q, here, g) = h k p e le in
      elim (Bool-cases (str_eq n k)) [
        | inl same ↦
            let at_n : peer_at n d ≡ some q =
              ap (λ z. peer_at z d) ((str_eq_iff n k).0 same) ∙ here in
            (
              f q,
              ap (λ z. peer_at z (with_peer f n d)) (sym ((str_eq_iff n k).0 same))
                  ∙ peer_at-written n d q at_n,
              Grown-trans g (grows q (g.at_most_one le)),
            )
        | inr apart ↦ (q, peer_at-apart k n d apart ∙ here, g)
      ]

carried-node_id : (c : Setting) (b : Bool) (p : Peer) → (carried c b p).node_id ≡ p.node_id
carried-node_id c true p = refl
carried-node_id c false p = refl

module _ (c : Setting) (enough : pos 500 ≤ℤ c.connection_weight_gain) where
  AnyRow : Introduction → Type 0
  AnyRow i = Unit

  grows-Allows : (a : Db) → Allows c (NothingDeducted a) AnyRow
  unfolding AnyRow
  grows-Allows a = record {
    sends = λ m d h. h;
    misses = with_peer_deducts_nothing a missed (λ p. refl) missed-Grown;
    carries = λ b.
        with_peer_deducts_nothing a (carried c b) (carried-node_id c b) (carried-Grown c b enough);
    writes = λ i p d h. h;
    inserts = λ i p d h. h;
    finds = λ d h q i e. tt;
    bare = λ i b. tt;
    unchanged = λ i j p s r. tt;
    unanswered = λ i j p s r. tt;
    accepts = λ i e. tt;
  }

  start_from : (a : Db) → NothingDeducted a a
  start_from a n p e le = (
    p,
    e,
    record {
      same_node = refl;
      weight = omega arith;
      at_most_one = λ h. h;
      carried_more = omega arith;
      connected_more = omega arith;
      missed_more = omega arith;
    },
  )

  Step-NothingDeducted : {a b : Db} → Step c a b → NothingDeducted a b
  unfolding AnyRow
  Step-NothingDeducted {a} (starts paths commitment message offer subject id) =
      Keeps-request
        (start-Keeps c _ AnyRow (grows-Allows a) paths commitment message offer subject id) a
        (start_from a)
  Step-NothingDeducted {a} (receives b sender) =
      Keeps-request (receive-Keeps c _ AnyRow (grows-Allows a) b sender) a (start_from a)
  Step-NothingDeducted {a} (decides x i here) =
      Keeps-request (decide-Keeps c _ AnyRow (grows-Allows a) x i tt) a (start_from a)
  Step-NothingDeducted {a} (replies b sender) =
      Keeps-request
        (receive_reply-Keeps c _ AnyRow (grows-Allows a) b sender
          (λ d h i e. record { at_hop = tt; rerouted = λ rs. tt; at_origin = λ rs r here. tt }))
        a (start_from a)
  Step-NothingDeducted {a} (commits i contact words here) =
      Keeps-request (commit_offer-Keeps c _ AnyRow (grows-Allows a) i contact words tt) a
        (start_from a)
  Step-NothingDeducted {a} (seals b sender) =
      Keeps-request (receive_commit-Keeps c _ AnyRow (grows-Allows a) b sender) a (start_from a)

  -- With a gain of at least half a millionth, a request about introductions deducts nothing from a peer
  -- whose weight is at most 1: its weight and its three counts are not less than before, and the weight
  -- is still at most 1.
  pub Step-deducts_nothing :
      {a b : Db} (n : String) (p : Peer)
      → Step c a b
      → peer_at n a ≡ some p
      → p.trust_weight ≤ℤ pos one
      → (q : Peer) × (peer_at n b ≡ some q) × Grown p q × (q.trust_weight ≤ℤ pos one)
  Step-deducts_nothing n p step here le =
      let (q, there, g) = Step-NothingDeducted step n p here le in (q, there, g, g.at_most_one le)
