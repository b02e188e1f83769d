-- ===== src/Introductions/Hops.antt =====
-- A hop of an introduction, in backend/app/value/introductions.py: `receive` takes an offer in and
-- `decide` answers it.
use Prim.Native.String.{◌++◌ as concat}
use can_framework.Prelude.{
  ℕ, ◌+◌, Bool, true, false, not, Option, none, some, List, [], ◌∷◌, String, ◌==◌, ◌||◌, ◌&&◌, leb,
  if◌then◌else◌,
}
use can_framework.Prelude.Text
use can_framework.Prelude.Table.{length, first, get_elem?}
use can_framework.Prelude.Handler.{pure, raise, gets, commit, raise_if, save, ◌>>=◌, ◌>>◌}
use can_framework.Introductions.Records.{
  Status, CommitStatus, Introduction, OfferBody, not_at_position, not_previous, already_decided,
  has_expired, no_contact, Setting,
}
use can_framework.Introductions.Peers.{Request, record_missed}
use can_framework.Introductions.Paths.{
  same_text?, truthy, is_pending, is_relay, is_destination, is_expired, role_for, next_hop,
  previous_hop_of,
}
use can_framework.Introductions.Flow.{put, insert, forward, reply_back}

abbrev pub correlated : ℕ → Introduction → Bool
correlated id i = i.correlation_id == id

-- `f"the next node ({next_hop(intro)}) could not be reached"`
abbrev pub unreachable : Introduction → String
unreachable i =
    concat "the next node ("
      (concat (elim (next_hop i) [ none ↦ "None" | some n ↦ n ]) ") could not be reached")

unfoldable pub arrows : List String → String
arrows [] = ""
arrows (a ∷ []) = a
arrows (a ∷ b ∷ rest) = concat a (concat " → " (arrows (b ∷ rest)))

-- The note of an offer that arrives by another route, after the note that is there.
abbrev pub also_reached : List String → Introduction → Introduction
also_reached path i =
    let note = concat "also reached here by " (arrows path) in
    record i {
      decision_note = some (elim (truthy i.decision_note) [
        | none ↦ note
        | some old ↦ concat old (concat "; " note)
      ]);
    }

abbrev pub received_offer : Setting → OfferBody → String → ℕ → Introduction
received_offer c b sender id = record {
  id = id;
  correlation_id = b.correlation_id;
  role = role_for b.path b.hop_index;
  commitment = b.commitment;
  path = b.path;
  hop_index = b.hop_index;
  message = Text.take c.max_message_chars b.message;
  requested_by = none;
  from_node = some sender;
  status = Status.pending;
  expires_at = c.now + c.ttl;
  decided_by = none;
  decided_at = none;
  decision_note = none;
  reply_contact = none;
  reply_slice = none;
  candidate_items =
      if is_destination (role_for b.path b.hop_index)
      then some (c.matching_items b.commitment)
      else none;
  offer = Text.take c.max_message_chars b.offer;
  blocked_by = none;
  commit_status = CommitStatus.offered;
  requester_contact = none;
  routes = none;
}

abbrev pub carried_on : Introduction → Introduction
carried_on i = record i {
  status = Status.forwarded;
  decision_note = some "carried automatically: relays do not gate offers here";
}

abbrev pub cut_off : Introduction → Introduction
cut_off i = record i {
  status = Status.declined;
  blocked_by = next_hop i;
  decision_note = some (unreachable i);
}

-- A relay carries an offer by itself, unless its operator reviews each one.
unfoldable pub carry : Setting → Introduction → Request Introduction
carry c i = do
  answered ← forward c i
  if answered then (do put (carried_on i); commit; pure (carried_on i)) else (do
    put (cut_off i)
    record_missed (next_hop i)
    commit
    reply_back c (cut_off i)
    commit
    pure (cut_off i))

unfoldable pub take_in : Setting → OfferBody → String → Option Introduction → Request Introduction
take_in c b sender (some i) = do put (also_reached b.path i); commit; pure (also_reached b.path i)
take_in c b sender none = do
  i ← save (insert (received_offer c b sender))
  if is_relay i.role && c.auto_relay then carry c i else pure i

-- A negative `hop_index` is refused as 0 is: it has no previous node.
unfoldable pub receive : Setting → OfferBody → String → Request Introduction
receive c b sender = do
  raise_if
      (leb (length b.path) b.hop_index
        || not (same_text? (get_elem? b.path b.hop_index) (some c.node_id)))
      not_at_position
  raise_if (not (same_text? (previous_hop_of b.path b.hop_index) (some sender))) not_previous
  existing ← gets (λ db. first (correlated b.correlation_id) db.introductions)
  take_in c b sender existing

-- A hop's answer: what the body of the request to `decide` says.
pub record Answer : Type 0 where
  pub accept : Bool
  pub note : Option String
  pub decided_by : String
  pub reply_contact : Option String
  pub reply_slice : Option String

abbrev pub answered : Setting → Answer → Introduction → Introduction
answered c a i = record i {
  decided_by = some a.decided_by;
  decided_at = some c.now;
  decision_note = a.note;
}

-- A relay that refuses says so in its own name.
abbrev pub declined_by : Setting → Introduction → Introduction
declined_by c i = record i {
  status = Status.declined;
  blocked_by = if is_relay i.role then some c.node_id else i.blocked_by;
}

abbrev pub not_reached : Introduction → Introduction
not_reached i = record i { status = Status.declined; decision_note = some (unreachable i) }

abbrev pub accepted_with : Answer → Introduction → Introduction
accepted_with a i = record i {
  status = Status.accepted;
  reply_contact = a.reply_contact;
  reply_slice = a.reply_slice;
}

abbrev pub is_text : Option String → Bool
is_text s = elim (truthy s) [ none ↦ false | some _ ↦ true ]

unfoldable pub decline : Setting → Introduction → Request Introduction
decline c i = do
  put (declined_by c i)
  commit
  reply_back c (declined_by c i)
  pure (declined_by c i)

unfoldable pub pass_on : Setting → Introduction → Request Introduction
pass_on c i = do
  reached ← forward c i
  if reached
      then (do
        put (record i { status = Status.forwarded })
        commit
        pure (record i { status = Status.forwarded }))
      else (do
        put (not_reached i)
        commit
        reply_back c (not_reached i)
        commit
        pure (not_reached i))

unfoldable pub accept_offer : Setting → Answer → Introduction → Request Introduction
accept_offer c a i = do
  raise_if (not (is_text a.reply_contact)) no_contact
  put (accepted_with a i)
  commit
  reply_back c (accepted_with a i)
  commit
  pure (accepted_with a i)

unfoldable pub decide : Setting → Answer → Introduction → Request Introduction
decide c a i = do
  raise_if (not (is_pending i.status)) already_decided
  if is_expired c.now i
      then (do put (record i { status = Status.expired }); commit; raise has_expired)
      else if not a.accept
      then decline c (answered c a i)
      else if is_relay i.role
      then pass_on c (answered c a i)
      else accept_offer c a (answered c a i)
