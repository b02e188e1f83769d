-- ===== src/Value/Peering/Answers.antt =====
-- What the answers of a network of honest nodes are worth: the queries of backend/app/value/map_routes.py.
use can_framework.Prelude.{
  ℕ, ◌≤◌, ◌≡◌, refl, Bool, true, false, Option, none, some, List, [], ◌∷◌, String, if◌then◌else◌,
  arith, Bool-cases, Option-cases, inl, inr,
}
use mathlib.Core.Path.{subst}
use can_framework.Prelude.Int.{◌≤ℤ◌}
use can_framework.Prelude.All.{All, All-map}
use can_framework.Prelude.Outcome.{Result, ok, err}
use can_framework.Prelude.Table.{select}
use can_framework.Money.{Amount}
use can_framework.Introductions.Records.{Peer}
use can_framework.Value.Records.{Direction, MapDb}
use can_framework.Value.Commitments.{Counter, check_rate}
use can_framework.Value.Forwarding.{Place, Hit, Error, capped, certain, active, search}
use can_framework.Value.Forwarding.Results.{seal_confidences, CheckedHit, check_proofs}
use can_framework.Value.Forwarding.Sound.{search-IsSound}
use can_framework.Value.Forwarding.Paths.{IsShare, IsSound, IsHonest, Returned, All-select}
use can_framework.Accounts.Roles.{Principal, Role, has_any_role}
use can_framework.Value.Proofs.{Crypto}
use can_framework.Value.Peering.{MapState, Refusal, or_else}
use can_framework.Value.Peering.Federated.{
  FederatedQuery, sure_enough, is_proven, shown, shown_answer, own_query, ask_all, rated_query,
  federated_query,
}
use can_framework.Value.Peering.Kept.{IsPeering}
use can_framework.Value.Peering.Network.{with_client, Site, network}
use can_framework.Value.Peering.Honest.{AllSites, network-IsHonest, sealed-IsSound}

-- A result as the one who asked gets it: it goes out from this node, in not more steps than the degree asked
-- for, it is as sure as asked for, and proven where only proven ones were wanted.
pub record IsAnswer (me : String) (most : ℕ) (least : Amount) (only : Bool) (r : CheckedHit)
    : Type 0 where
  pub sound : IsSound me [] most r.hit
  pub sure : least ≤ℤ certain r.hit.confidence
  pub proven : only ≡ true → r.proven ≡ true

All-select_kept :
    {A : Type 0} (P Q : A → Type 0) (p : A → Bool) (xs : List A)
    → ((x : A) → P x → p x ≡ true → Q x)
    → All P xs
    → All Q (select p xs)
All-select_kept P Q p [] f h = tt
All-select_kept P Q p (x ∷ xs) f h = elim (Bool-cases (p x)) [
  | inl holds ↦ rw holds (f x h.0 holds, All-select_kept P Q p xs f h.1)
  | inr fails ↦ rw fails (All-select_kept P Q p xs f h.1)
]

check_proofs-IsSound :
    (crypto : Crypto) (peers : List Peer) (query_id target me : String) (most : ℕ) (hits : List Hit)
    → All (IsSound me [] most) hits
    → All
        (λ (r : CheckedHit). IsSound me [] most r.hit)
        (check_proofs crypto peers query_id target hits)
unfolding check_proofs
check_proofs-IsSound crypto peers query_id target me most [] h = tt
check_proofs-IsSound crypto peers query_id target me most (r ∷ rs) h =
    (h.0, check_proofs-IsSound crypto peers query_id target me most rs h.1)

-- A confidence of null counts as 0 here; a sealed result has none.
abbrev IsSure : Amount → String → ℕ → CheckedHit → Type 0
IsSure least me most r = IsSound me [] most r.hit × (least ≤ℤ certain r.hit.confidence)

sure_enough-le :
    (least : Amount) (r : CheckedHit)
    → sure_enough least r ≡ true
    → least ≤ℤ certain r.hit.confidence
sure_enough-le least r h = elim (Option-cases r.hit.confidence) [
  | inl missing ↦ rw missing (ground arith)
  | inr (a, there) ↦ rw there (ground arith)
]

picked-IsAnswer :
    (me : String) (most : ℕ) (least : Amount) (only : Bool) (rs : List CheckedHit)
    → All (IsSure least me most) rs
    → All (IsAnswer me most least only) (if only then select is_proven rs else rs)
picked-IsAnswer me most least true rs h =
    All-select_kept (IsSure least me most) (IsAnswer me most least true) is_proven rs
      (λ r s e. record { sound = s.0; sure = s.1; proven = λ _. e }) h
picked-IsAnswer me most least false rs h =
    All-map (IsSure least me most) (IsAnswer me most least false) rs
      (λ r s. record { sound = s.0; sure = s.1; proven = λ w. absurd (ground arith) }) h

shown-IsAnswer :
    (me : String) (most : ℕ) (payload : FederatedQuery) (rs : List CheckedHit)
    → All (λ (r : CheckedHit). IsSound me [] most r.hit) rs
    → All (IsAnswer me most payload.min_confidence payload.proven_only) (shown payload rs)
shown-IsAnswer me most payload rs h =
    picked-IsAnswer me most payload.min_confidence payload.proven_only
      (select (sure_enough payload.min_confidence) rs)
      (All-select_kept (λ (r : CheckedHit). IsSound me [] most r.hit)
        (IsSure payload.min_confidence me most) (sure_enough payload.min_confidence) rs
        (λ r s e. (s, sure_enough-le payload.min_confidence r e)) h)

abbrev pub AllShown : (CheckedHit → Type 0) → Result Refusal (List CheckedHit) → Type 0
AllShown P (ok rs) = All P rs
AllShown P (err e) = Unit

module _ (c : Place) (who : Principal) (payload : FederatedQuery) (target query_id : String)
    (honest : IsHonest c) (key : String) (signs : c.node.signing_key ≡ some key)
    (decay : IsShare c.rules.hop_decay) where
  abbrev most : ℕ
  most = or_else payload.max_degree c.rules.max_degree_default

  answers_shown :
      (peers : List Peer) (r : Result Error (List Hit)) (n : ℕ)
      → n ≤ most
      → Returned (IsSound c.node.node_id [] n) r
      → AllShown
          (IsAnswer c.node.node_id most payload.min_confidence payload.proven_only)
          (shown_answer c payload target query_id peers r)
  answers_shown peers (err e) n h s = tt
  answers_shown peers (ok hits) n h s =
      shown-IsAnswer c.node.node_id most payload
        (check_proofs c.crypto peers query_id target (seal_confidences hits))
        (check_proofs-IsSound c.crypto peers query_id target c.node.node_id most
          (seal_confidences hits) (sealed-IsSound c.node.node_id [] n most hits h s))

  ask_all-IsAnswer :
      (db : MapDb)
      → IsPeering c.node.node_id db.peers
      → AllShown
          (IsAnswer c.node.node_id most payload.min_confidence payload.proven_only)
          (ask_all c who payload target query_id db).0
  ask_all-IsAnswer db h =
      let q = own_query c payload target query_id in
      answers_shown (search c q Direction.local none (some who.sub) db).1.peers
        (search c q Direction.local none (some who.sub) db).0
        (capped q.ttl c.rules.max_degree_limit) (ground arith)
        (search-IsSound c q Direction.local none (some who.sub) db honest (record {
          key = key;
          signs = signs;
          decay = decay;
          weights = All-select (λ (p : Peer). IsShare p.trust_weight) active db.peers h.weights;
          new = refl;
          simple = tt;
        }))

  rated_query-IsAnswer :
      (rate : Bool × List Counter) (s : MapState)
      → IsPeering c.node.node_id s.db.peers
      → AllShown
          (IsAnswer c.node.node_id most payload.min_confidence payload.proven_only)
          (rated_query c who payload target query_id rate s).0
  rated_query-IsAnswer (false, counts) s h = tt
  rated_query-IsAnswer (true, counts) s h = ask_all-IsAnswer s.db h

-- Where all nodes of a network can sign, discount by a share and keep their peers in order, every result that
-- a federated query shows goes out from the node that was asked, over a path of at most as many steps as
-- the degree asked for (or the node's own default) that visits no node twice; its confidence is between 0
-- and 1 and at least as asked for; and it is proven where only proven results were wanted.
pub federated_query_sound :
    (sites : String → Option Site) (now hour depth : ℕ) (me : String) (s : Site) (who : Principal)
    (query_id : String) (payload : FederatedQuery)
    → AllSites sites
    → sites me ≡ some s
    → AllShown
        (IsAnswer me
          (or_else payload.max_degree s.place.rules.max_degree_default)
          payload.min_confidence
          payload.proven_only)
        (federated_query
          (with_client s.place (network depth sites now hour))
          who
          hour
          query_id
          payload
          s.state).0
unfolding federated_query
federated_query_sound sites now hour depth me s who query_id payload fine there =
    let c = with_client s.place (network depth sites now hour) in
    let f = fine me s there in
    let P = λ (id : String).
      IsAnswer id (or_else payload.max_degree s.place.rules.max_degree_default)
        payload.min_confidence payload.proven_only in
    elim (Bool-cases (has_any_role who (Role.user ∷ Role.agent ∷ Role.auditor ∷ []))) [
      | inr stop ↦ rw stop tt
      | inl may ↦ rw may (elim (Option-cases payload.target) [
        | inl missing ↦ rw missing tt
        | inr (target, given) ↦ rw given (
            subst
              (λ (id : String).
                AllShown (P id)
                  (rated_query c who payload target query_id
                    (check_rate s.place.rules who.sub hour s.state.query_counts) s.state).0)
              f.name
              (rated_query-IsAnswer c who payload target query_id
                (network-IsHonest sites now hour depth fine s.place) f.key f.signs f.decay
                (check_rate s.place.rules who.sub hour s.state.query_counts) s.state f.peering))
      ])
    ]
