-- ===== src/Value/Forwarding/Paths.antt =====
-- Shares and paths in what `search` of backend/app/value/forwarding.py takes from its peers.
use can_framework.Prelude.{
  ℕ, ◌+◌, ◌*◌, ◌≤◌, ◌≡◌, refl, ◌∙◌, Bool, false, some, List, [], ◌∷◌, ◌++◌, String, str_eq,
  str_eq_iff, ltb, arith,
}
use mathlib.Core.List.{append_assoc}
use native.Mathlib.Nat.{mul-le-mul}
use can_framework.Prelude.Int.{pos, negsuc, ◌*ℤ◌, ◌≤ℤ◌}
use can_framework.Prelude.All.{All, All-if}
use can_framework.Prelude.Outcome.{Result, ok, err}
use can_framework.Prelude.Table.{length, select}
use can_framework.Money.{Amount, one, micro, nearest}
use can_framework.Introductions.Records.{Peer}
use can_framework.Value.Forwarding.{
  Query, Envelope, Hit, Error, Place, discounted, mem, certain, relayed, occurrences, take_hits,
  join,
}

-- A weight or a confidence: between 0 and 1.
abbrev pub IsShare : Amount → Type 0
IsShare a = (pos 0 ≤ℤ a) × (a ≤ℤ pos one)

product_bound : (a b c : ℕ) → a ≤ one → b ≤ one → c ≤ one → a * b * c ≤ one * one * one
product_bound a b c h k l = mul-le-mul (mul-le-mul h k) l

nearest_bound : (n : ℕ) → n ≤ one * one * one → nearest n (one * one * micro) * micro ≤ one
nearest_bound n h = ground arith

pos-mul : (a b : ℕ) → pos a *ℤ pos b ≡ pos (a * b)
unfolding ◌*ℤ◌
pos-mul a b = ground arith

pub discounted-IsShare :
    (a b c : Amount) → IsShare a → IsShare b → IsShare c → IsShare (discounted a b c)
unfolding discounted
discounted-IsShare (pos a) (pos b) (pos c) h k l = rw (pos-mul a b) (
    rw (pos-mul (a * b) c) (
      omega arith,
      let bound = product_bound a b c (omega arith) (omega arith) (omega arith) in
          omega (arith, nearest_bound (a * b * c) bound),
    ))
discounted-IsShare (negsuc a) b c h k l = absurd (omega arith)
discounted-IsShare a (negsuc b) c h k l = absurd (omega arith)
discounted-IsShare a b (negsuc c) h k l = absurd (omega arith)

-- No node stands in a path twice.
abbrev pub IsSimple : List String → Type 0
IsSimple [] = Unit
IsSimple (x ∷ xs) = (mem x xs ≡ false) × IsSimple xs

-- A result of a node for a query: its path goes on from that node, for at most so many further steps and
-- without visiting a node twice, and its confidence is a share.
pub record IsSound (me : String) (path : List String) (left : ℕ) (r : Hit) : Type 0 where
  pub tail : List String
  pub goes_on : r.path ≡ path ++ me ∷ tail
  pub reach : length tail ≤ left
  pub simple : IsSimple r.path
  pub share : IsShare (certain r.confidence)

-- What a node may expect of the peers that it calls.
abbrev pub IsHonest : Place → Type 0
IsHonest c =
    (p : Peer) (e : Envelope) (hits : List Hit) (left : ℕ)
    → c.client p e ≡ some hits
    → e.body.ttl ≡ pos left
    → mem p.node_id e.body.path ≡ false
    → IsSimple e.body.path
    → All (IsSound p.node_id e.body.path left) hits

str_eq_swap : (s t : String) → str_eq s t ≡ false → str_eq t s ≡ false
str_eq_swap s t h = ground (arith, str_eq_iff s t, str_eq_iff t s)

mem-append_one :
    (x y : String) (xs : List String)
    → mem x xs ≡ false
    → str_eq y x ≡ false
    → mem x (xs ++ y ∷ []) ≡ false
mem-append_one x y [] h k = ground arith
mem-append_one x y (z ∷ xs) h k = ground (arith, mem-append_one x y xs)

pub IsSimple-append_one :
    (me : String) (xs : List String) → mem me xs ≡ false → IsSimple xs → IsSimple (xs ++ me ∷ [])
IsSimple-append_one me [] h s = (refl, tt)
IsSimple-append_one me (x ∷ xs) h s = (
  mem-append_one x me xs s.0 (str_eq_swap x me (ground arith)),
  IsSimple-append_one me xs (ground arith) s.1,
)

module _ (c : Place) (q : Query) (left : ℕ) where
  relayed-IsSound :
      (p : Peer) (r : Hit)
      → IsShare p.trust_weight
      → IsShare c.rules.hop_decay
      → IsSound p.node_id (q.path ++ c.node.node_id ∷ []) left r
      → IsSound c.node.node_id q.path (left + 1) (relayed c q p r)
  relayed-IsSound p r weight decay s = record {
    tail = p.node_id ∷ s.tail;
    goes_on = s.goes_on ∙ append_assoc q.path (c.node.node_id ∷ []) (p.node_id ∷ s.tail);
    reach = omega (arith, s.reach);
    simple = s.simple;
    share =
        discounted-IsShare p.trust_weight (certain r.confidence) c.rules.hop_decay weight s.share
          decay;
  }

  pub take_hits-IsSound :
      (p : Peer) (hits : List Hit)
      → IsShare p.trust_weight
      → IsShare c.rules.hop_decay
      → All (IsSound p.node_id (q.path ++ c.node.node_id ∷ []) left) hits
      → All (IsSound c.node.node_id q.path (left + 1)) (take_hits c q p hits)
  unfolding take_hits
  take_hits-IsSound p [] weight decay h = tt
  take_hits-IsSound p (r ∷ rs) weight decay h =
      let rest = take_hits-IsSound p rs weight decay h.1 in
      All-if (IsSound c.node.node_id q.path (left + 1)) (ltb 1 (occurrences c.node.node_id r.path))
        (take_hits c q p rs) (relayed c q p r ∷ take_hits c q p rs) rest
        (relayed-IsSound p r weight decay h.0, rest)

-- A result of this sort is returned, and no error.
abbrev pub Returned : (Hit → Type 0) → Result Error (List Hit) → Type 0
Returned P (ok hits) = All P hits
Returned P (err e) = ⊥

All-join : (P : Hit → Type 0) (xs ys : List Hit) → All P xs → All P ys → All P (xs ++ ys)
All-join P [] ys h k = k
All-join P (x ∷ xs) ys h k = (h.0, All-join P xs ys h.1 k)

pub Returned-join :
    (P : Hit → Type 0) (a b : Result Error (List Hit))
    → Returned P a
    → Returned P b
    → Returned P (join a b)
Returned-join P (err e) b h k = absurd h
Returned-join P (ok xs) (err e) h k = absurd k
Returned-join P (ok xs) (ok ys) h k = All-join P xs ys h k

pub All-select :
    {A : Type 0} (P : A → Type 0) (p : A → Bool) (xs : List A) → All P xs → All P (select p xs)
All-select P p [] h = tt
All-select P p (x ∷ xs) h =
    let rest = All-select P p xs h.1 in
    All-if P (p x) (x ∷ select p xs) (select p xs) (h.0, rest) rest
