-- ===== src/Tests/Introductions.antt =====
-- A node with one peer and one offer, for backend/app/value/introductions.py.
use can_framework.Prelude.{
  ◌≡◌, refl, ◌⊎◌, inl, inr, true, Option, none, some, [], ◌∷◌, String, arith,
}
use can_framework.Prelude.Int.{pos, ◌≤ℤ◌}
use can_framework.Prelude.Outcome.{ok, err}
use can_framework.Prelude.Handler.{request}
use can_framework.Introductions.Records.{
  Status, Role, CommitStatus, Introduction, Route, Peer, PeerStatus, ReplyBody, Db, Error, Setting,
}
use can_framework.Introductions.Replies.{receive_reply, commit_offer}
use can_framework.Introductions.Steps.{replies}
use can_framework.Introductions.Growth.{peer_at, Grown, Step-deducts_nothing}
use can_framework.Introductions.Discretion.{AllDiscreet, Step-AllDiscreet}
use can_framework.Introductions.Commitment.{Committable, row_at, commit_offer_exact}

abbrev setting : Setting
setting = record {
  node_id = "a";
  ttl = 72;
  max_message_chars = 500;
  max_open_per_caller = 20;
  auto_relay = true;
  connection_weight_gain = pos 50_000_000;
  now = 5;
  sign = λ b. ok "signature";
  client = λ p e. true;
  matching_items = λ s. [];
}

abbrev peer : Peer
peer = record {
  node_id = "b";
  base_url = some "https://b.example";
  public_key = "b-public";
  trust_weight = pos 500_000_000;
  max_queries_per_hour = none;
  last_seen_at = none;
  status = PeerStatus.active;
  carried_count = 0;
  connections_count = 0;
  missed_count = 0;
}

abbrev route : Route
route = record { path = "a" ∷ "b" ∷ []; status = Status.forwarded; blocked_by = none; note = none }

abbrev offer : Status → Option String → Introduction
offer status contact = record {
  id = 1;
  correlation_id = 7;
  role = Role.origin;
  commitment = "c";
  path = "a" ∷ "b" ∷ [];
  hop_index = 0;
  message = "hello";
  requested_by = some "me";
  from_node = none;
  status = status;
  expires_at = 90;
  decided_by = none;
  decided_at = none;
  decision_note = none;
  reply_contact = contact;
  reply_slice = none;
  candidate_items = none;
  offer = "help";
  blocked_by = none;
  commit_status = CommitStatus.offered;
  requester_contact = none;
  routes = some (route ∷ []);
}

abbrev tables : Introduction → Db
tables i = record { introductions = i ∷ []; peers = peer ∷ []; sent = []; fresh = 2 }

abbrev sent_out : Db
sent_out = tables (offer Status.forwarded none)

abbrev yes_reply : ReplyBody
yes_reply = record {
  correlation_id = 7;
  status = Status.accepted;
  decision_note = none;
  reply_contact = some "far@end";
  reply_slice = none;
  from_hop = 1;
  blocked_by = none;
}

abbrev answered_tables : Db
answered_tables = (request (receive_reply setting yes_reply "b") sent_out).1

Step-deducts_nothing_example :
    (q : Peer) × (peer_at "b" answered_tables ≡ some q)
    × Grown peer q
    × (q.trust_weight ≤ℤ pos 1_000_000_000)
Step-deducts_nothing_example =
    Step-deducts_nothing setting (omega arith) "b" peer (replies yes_reply "b") refl (omega arith)

Step-AllDiscreet_example : AllDiscreet answered_tables
Step-AllDiscreet_example =
    Step-AllDiscreet {a = sent_out} (replies yes_reply "b") (inl refl, λ i e. ground arith)
      (inr (refl, refl), tt)

abbrev accepted_row : Introduction
accepted_row = offer Status.accepted (some "far@end")

commit_offer_exact_example :
    (Committable accepted_row
      × (row_at 1
            (request
              (commit_offer setting accepted_row "me@here" (some "welcome"))
              (tables accepted_row)).1
          ≡ some (record accepted_row {
            commit_status = CommitStatus.committed;
            requester_contact = some "me@here";
            decision_note = some "welcome";
          })))
    ⊎ (¬ Committable accepted_row
        × ((e : Error) × (request
                (commit_offer setting accepted_row "me@here" (some "welcome"))
                (tables accepted_row)
              ≡ (err e, tables accepted_row))))
commit_offer_exact_example =
    commit_offer_exact setting accepted_row "me@here" (some "welcome") (tables accepted_row) refl
