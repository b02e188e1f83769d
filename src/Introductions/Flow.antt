-- ===== src/Introductions/Flow.antt =====
-- The flow of backend/app/value/introductions.py towards the far end: `start`, `receive` and `decide`.
use Prim.Native.String.{◌++◌ as concat}
use can_framework.Prelude.{
  ℕ, ◌+◌, Bool, false, Option, none, some, List, [], ◌∷◌, ◌++◌, String, ◌==◌, ◌&&◌, ltb, leb,
  if◌then◌else◌,
}
use can_framework.Prelude.Text
use can_framework.Prelude.Table.{length, select, adjust, get_elem?}
use can_framework.Prelude.Handler.{
  pure, raise, gets, or_raise, modify, commit, raise_if, save, ◌>>=◌, ◌>>◌,
}
use can_framework.Introductions.Records.{
  Status, Role, CommitStatus, Route, Introduction, Body, offer_of, reply_of, Db, Error, same_route,
  message_too_long, too_many_open, no_route, Setting,
}
use can_framework.Introductions.Peers.{Request, call_peer, record_missed}
use can_framework.Introductions.Paths.{
  same_text?, is_open, is_declined, next_hop, previous_hop, validate_path, repeats_path,
  route_status, blocked_by_all,
}

abbrev pub introduction_with : ℕ → Introduction → Bool
introduction_with id i = i.id == id

-- What is written to an introduction that the session holds.
abbrev pub write_row : Introduction → Db → Db
write_row i db = record db {
  introductions = adjust (introduction_with i.id) (λ _. i) db.introductions;
}

abbrev pub put : Introduction → Request (Unit {0})
put i = modify (write_row i)

abbrev pub offer_body : Introduction → Body
offer_body i = offer_of (record {
  correlation_id = i.correlation_id;
  commitment = i.commitment;
  path = i.path;
  hop_index = i.hop_index + 1;
  message = i.message;
  offer = i.offer;
})

abbrev pub reply_body : Introduction → Body
reply_body i = reply_of (record {
  correlation_id = i.correlation_id;
  status = i.status;
  decision_note = i.decision_note;
  reply_contact = i.reply_contact;
  reply_slice = i.reply_slice;
  from_hop = i.hop_index;
  blocked_by = i.blocked_by;
})

unfoldable pub hand_to : Setting → Body → Option String → Request Bool
hand_to c body none = pure false
hand_to c body (some node) = call_peer c node body

-- `_forward` and `_reply_back`
unfoldable pub forward : Setting → Introduction → Request Bool
forward c i = hand_to c (offer_body i) (next_hop i)

unfoldable pub reply_back : Setting → Introduction → Request Bool
reply_back c i = hand_to c (reply_body i) (previous_hop i)

-- The first reason to refuse one of the paths.
unfoldable pub first_fault : String → List (List String) → Option Error
first_fault node [] = none
first_fault node (p ∷ ps) = elim (validate_path node p) [
  | some e ↦ some e
  | none ↦ first_fault node ps
]

unfoldable pub refuse_with : Option Error → Request (Unit {0})
refuse_with none = pure tt
refuse_with (some e) = raise e

abbrev pub open_for : String → Introduction → Bool
open_for subject i = same_text? i.requested_by (some subject) && is_open i.status

abbrev pub open_count : String → Db → ℕ
open_count subject db = length (select (open_for subject) db.introductions)

abbrev pub new_offer :
    Setting → List String → String → String → String → String → ℕ → ℕ → Introduction
new_offer c path commitment message offer requested_by correlation_id id = record {
  id = id;
  correlation_id = correlation_id;
  role = Role.origin;
  commitment = commitment;
  path = path;
  hop_index = 0;
  message = message;
  requested_by = some requested_by;
  from_node = none;
  status = Status.pending;
  expires_at = c.now + c.ttl;
  decided_by = none;
  decided_at = none;
  decision_note = none;
  reply_contact = none;
  reply_slice = none;
  candidate_items = none;
  offer = offer;
  blocked_by = none;
  commit_status = CommitStatus.offered;
  requester_contact = none;
  routes = none;
}

abbrev pub insert : (ℕ → Introduction) → Db → Introduction × Db
insert i db = (
  i db.fresh,
  record db { introductions = db.introductions ++ i db.fresh ∷ []; fresh = db.fresh + 1 },
)

abbrev pub or_nobody : Option String → String
or_nobody none = ""
or_nobody (some s) = s

-- `path[1]`, which a valid path has
abbrev pub second : List String → String
second path = or_nobody (get_elem? path 1)

abbrev pub sent_route : List String → Route
sent_route path = record { path = path; status = Status.forwarded; blocked_by = none; note = none }

abbrev pub lost_route : List String → Route
lost_route path = record {
  path = path;
  status = Status.declined;
  blocked_by = some (second path);
  note = some (concat (second path) " could not be reached or is not a peer");
}

-- One turn of the loop over the paths.
unfoldable pub send_along : Setting → Introduction → List String → Request Route
send_along c i path = do
  put (record i { path = path })
  answered ← forward c (record i { path = path })
  if answered
      then pure (sent_route path)
      else (do record_missed (some (second path)); pure (lost_route path))

unfoldable pub send_all : Setting → Introduction → List (List String) → Request (List Route)
send_all c i [] = pure []
send_all c i (p ∷ ps) = do r ← send_along c i p; rs ← send_all c i ps; pure (r ∷ rs)

-- What the introduction is once its routes are known.
abbrev pub with_routes : Setting → Introduction → List Route → Introduction
with_routes c i routes =
    let status = route_status routes in
    if is_declined status
    then record i {
      routes = some routes;
      status = status;
      decided_at = some c.now;
      blocked_by = some (blocked_by_all routes);
      decision_note = some "every route refused or was unreachable";
    }
    else record i { routes = some routes; status = status }

-- `correlation_id` is the `uuid4()` of the code.
unfoldable pub start :
    Setting → List (List String) → String → String → String → String → ℕ → Request Introduction
start c paths commitment message offer requested_by correlation_id = do
  refuse_with (first_fault c.node_id paths)
  raise_if (repeats_path paths) same_route
  raise_if (ltb c.max_message_chars (Text.length message)) message_too_long
  open_now ← gets (open_count requested_by)
  raise_if (leb c.max_open_per_caller open_now) too_many_open
  path ← or_raise (get_elem? paths 0) no_route
  i ← save (insert (new_offer c path commitment message offer requested_by correlation_id))
  routes ← send_all c i paths
  put (with_routes c i routes)
  commit
  pure (with_routes c i routes)
