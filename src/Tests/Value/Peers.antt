-- ===== src/Tests/Value/Peers.antt =====
-- Two nodes of the value map that peer with each other, and requests that they get.
use can_framework.Prelude.{
  ◌≤◌, ◌≡◌, refl, sym, false, Option, none, some, [], ◌∷◌, String, str_eq, str_eq_iff,
  if◌then◌else◌, arith, Bool-cases, inl, inr,
}
use mathlib.Core.Path.{subst}
use can_framework.Prelude.Int.{pos}
use can_framework.Money.{one}
use can_framework.Introductions.Records.{Peer, PeerStatus}
use can_framework.Accounts.Roles.{Principal, Role, User}
use can_framework.Value.Records.{Rules}
use can_framework.Value.Commitments.Rate.{Call, passes, rate_bounded}
use can_framework.Value.Forwarding.{Place, Envelope}
use can_framework.Value.Peering.{MapState, PeerIn, add_peer}
use can_framework.Value.Peering.Federated.{FederatedQuery, federated_query}
use can_framework.Value.Peering.Kept.{IsPeering}
use can_framework.Value.Peering.Steps.{added, Step-IsPeering}
use can_framework.Value.Peering.Network.{Site, Client, with_client, network, network_terminates}
use can_framework.Value.Peering.Answers.{IsAnswer, AllShown, federated_query_sound}
use can_framework.Value.Peering.Honest.{IsSite, AllSites}
use can_framework.Value.Access.{Asset, AssetShare, AccessDb, Access, access_to, visible_assets}
use can_framework.Value.Access.Stewards.{visible_exact}
use can_framework.Tests.Value.Proofs.{toy}

abbrev rules : Rules
rules = record {
  k_anonymity = 1;
  max_queries_per_hour = 1;
  max_degree_limit = 4;
  max_degree_default = 2;
  hop_decay = pos 900_000_000;
  peer_max_queries_per_hour = 60;
}

abbrev ask : Call
ask = record { subject = "alice"; hour = 7 }

rate_bounded_example :
    passes rules "alice" 7 (ask ∷ ask ∷ record { subject = "bob"; hour = 9 } ∷ []) [] ≤ 1
rate_bounded_example =
    rate_bounded rules "alice" 7 7 (ask ∷ ask ∷ record { subject = "bob"; hour = 9 } ∷ [])
      (ground arith, (ground arith, (ground arith, tt)))

abbrev peer : String → Peer
peer id = record {
  node_id = id;
  base_url = some "https://peer";
  public_key = id;
  trust_weight = pos one;
  status = PeerStatus.active;
  max_queries_per_hour = none;
  last_seen_at = none;
  carried_count = 0;
  connections_count = 0;
  missed_count = 0;
}

abbrev silent : Client
silent p e = none

abbrev place : String → Place
place id = record {
  node = record { node_id = id; signing_key = some id };
  rules = rules;
  crypto = toy;
  commit = λ kind class region period. class;
  sign_body = λ key q. key;
  verifies_body = λ key q value. str_eq key value;
  client = silent;
}

abbrev tables : String → MapState
tables other = record {
  db = record { items = []; peers = peer other ∷ []; query_log = []; fresh = 1 };
  query_counts = [];
  peer_counts = [];
}

abbrev site_a : Site
site_a = record { place = place "a"; state = tables "b" }

abbrev sites : String → Option Site
sites id = if str_eq id "a" then some site_a else none

abbrev admin : Principal
admin = record { sub = "root"; roles = Role.admin ∷ [] }

abbrev newcomer : PeerIn
newcomer = record {
  node_id = "c";
  public_key = "kc";
  base_url = none;
  trust_weight = pos one;
  max_queries_per_hour = some 5;
}

site_a-IsPeering : IsPeering "a" site_a.state.db.peers
site_a-IsPeering = record {
  weights = ((ground arith, ground arith), tt);
  distinct = (refl, tt);
  others = refl;
}

Step-IsPeering_example : IsPeering "a" (add_peer admin "a" newcomer (tables "b").db).1.peers
Step-IsPeering_example =
    Step-IsPeering {c = place "a"} (added admin newcomer (tables "b")) site_a-IsPeering

abbrev envelope : Envelope
envelope = record {
  body = record { commitment = "c"; ttl = pos 1; path = "b" ∷ []; query_id = "q" };
  from_node = "b";
  signature = "b";
}

network_terminates_example :
    network 3 sites 0 0 (peer "a") envelope ≡ network 2 sites 0 0 (peer "a") envelope
network_terminates_example =
    network_terminates sites 0 0 2 1 (peer "a") envelope refl (ground arith)

site_a-IsSite : IsSite "a" site_a
site_a-IsSite = record {
  name = refl;
  key = "a";
  signs = refl;
  decay = (ground arith, ground arith);
  peering = site_a-IsPeering;
}

sites-AllSites : AllSites sites
sites-AllSites id s h = elim (Bool-cases (str_eq id "a")) [
  | inl here ↦
      let same : site_a ≡ s = ground arith in
      let name : "a" ≡ id = sym ((str_eq_iff id "a").0 here) in
      subst (λ n. IsSite n s) name (subst (IsSite "a") same site_a-IsSite)
  | inr past ↦ absurd (ground arith)
]

abbrev person : Principal
person = record { sub = "alice"; roles = Role.user ∷ [] }

abbrev wanted : FederatedQuery
wanted = record {
  target = some "c";
  max_degree = some 2;
  min_confidence = pos 1;
  proven_only = false;
}

federated_query_sound_example :
    AllShown
      (IsAnswer "a" 2 (pos 1) false)
      (federated_query
        (with_client site_a.place (network 3 sites 0 0))
        person
        0
        "q"
        wanted
        site_a.state).0
federated_query_sound_example =
    federated_query_sound sites 0 0 3 "a" site_a person "q" wanted sites-AllSites refl

abbrev pub asset : Asset
asset = record {
  id = 1;
  holder_user_id = 5;
  name = "field";
  kind = "land";
  description = none;
  currency = "USD";
}

abbrev share : AssetShare
share = record { asset_id = 1; grantee_user_id = 6; categories = "valuation" ∷ [] }

abbrev grantee : User
grantee = record { id = 6; subject = "alice" }

abbrev access_db : AccessDb
access_db = record { users = grantee ∷ []; agents = []; assets = asset ∷ []; shares = share ∷ [] }

visible_exact_example :
    access_to 1 (visible_assets access_db person) ≡ some (Access.only ("valuation" ∷ []))
visible_exact_example = (visible_exact access_db person 1).0 grantee refl refl refl
