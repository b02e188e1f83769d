-- ===== src/Introductions/Replies.antt =====
-- What travels back and what seals an introduction, in backend/app/value/introductions.py:
-- `receive_reply`, `commit_offer` and `receive_commit`.
use can_framework.Prelude.{
  ltb, Bool, true, false, not, Option, none, some, List, [], ◌∷◌, String, ◌&&◌, if◌then◌else◌,
}
use can_framework.Prelude.Table.{length, first, get_elem?}
use can_framework.Prelude.Handler.{pure, gets, commit, raise_if, or_raise, ◌>>=◌, ◌>>◌}
use can_framework.Introductions.Records.{
  Route, CommitStatus, Introduction, ReplyBody, CommitBody, Body, commit_of, unknown_route,
  not_next, not_previous, not_the_origin, nothing_to_commit, already_committed, Setting,
}
use can_framework.Introductions.Peers.{Request, call_peer, record_missed, credit_connection}
use can_framework.Introductions.Paths.{
  same_text?, truthy, is_accepted, is_declined, is_origin, next_hop, previous_hop, route_status,
  blocked_by_all,
}
use can_framework.Introductions.Flow.{put, reply_back, second, hand_to}
use can_framework.Introductions.Hops.{correlated}

abbrev pub goes_through : String → Route → Bool
goes_through node r = ltb 1 (length r.path) && same_text? (get_elem? r.path 1) (some node)

abbrev pub routed : ReplyBody → Route → Route
routed b r = record r { status = b.status; blocked_by = b.blocked_by; note = b.decision_note }

-- The first route through a node gets the reply.
unfoldable pub mark_route : String → ReplyBody → List Route → List Route
mark_route node b [] = []
mark_route node b (r ∷ rs) =
    if goes_through node r then routed b r ∷ rs else r ∷ mark_route node b rs

abbrev pub reroute : List Route → Introduction → Introduction
reroute routes i = record i { routes = some routes; status = route_status routes }

abbrev pub through : ReplyBody → Route → Introduction → Introduction
through b r i = record i {
  reply_contact = b.reply_contact;
  reply_slice = b.reply_slice;
  path = r.path;
  decision_note = b.decision_note;
}

abbrev pub stopped : List Route → Introduction → Introduction
stopped routes i = record i {
  decision_note = some "every route refused";
  blocked_by = some (blocked_by_all routes);
}

-- The introduction after a reply by one of its routes.
abbrev pub concluded : ReplyBody → Route → List Route → Introduction → Introduction
concluded b r routes i =
    if is_accepted b.status
    then through b r (reroute routes i)
    else if is_declined (route_status routes)
    then stopped routes (reroute routes i)
    else reroute routes i

unfoldable pub reply_to_origin :
    Setting → ReplyBody → String → List Route → Introduction → Request Introduction
reply_to_origin c b sender routes i = do
  r ← or_raise (first (goes_through sender) routes) unknown_route
  put (reroute (mark_route sender b routes) i)
  credit_connection c (some sender) (is_accepted b.status)
  put (concluded b r (mark_route sender b routes) i)
  record_missed b.blocked_by
  commit
  pure (concluded b r (mark_route sender b routes) i)

abbrev pub replied : ReplyBody → Introduction → Introduction
replied b i = record i {
  status = b.status;
  decision_note = b.decision_note;
  reply_contact = b.reply_contact;
  reply_slice = b.reply_slice;
  blocked_by = b.blocked_by;
}

unfoldable pub reply_to_hop : Setting → ReplyBody → String → Introduction → Request Introduction
reply_to_hop c b sender i = do
  raise_if (not (same_text? (next_hop i) (some sender))) not_next
  credit_connection c (some sender) (is_accepted b.status)
  put (replied b i)
  commit
  reply_back c (replied b i)
  pure (replied b i)

-- The routes of an origin that has some.
abbrev pub routes_of : Introduction → List Route
routes_of i = if is_origin i.role then elim i.routes [ none ↦ [] | some rs ↦ rs ] else []

unfoldable pub reply_by :
    Setting → ReplyBody → String → Introduction → List Route → Request Introduction
reply_by c b sender i [] = reply_to_hop c b sender i
reply_by c b sender i (r ∷ rs) = reply_to_origin c b sender (r ∷ rs) i

unfoldable pub reply_for :
    Setting → ReplyBody → String → Option Introduction → Request (Option Introduction)
reply_for c b sender none = pure none
reply_for c b sender (some i) = do after ← reply_by c b sender i (routes_of i); pure (some after)

unfoldable pub receive_reply : Setting → ReplyBody → String → Request (Option Introduction)
receive_reply c b sender = do
  found ← gets (λ db. first (correlated b.correlation_id) db.introductions)
  reply_for c b sender found

abbrev pub is_committed : CommitStatus → Bool
is_committed CommitStatus.committed = true
is_committed CommitStatus.offered = false

abbrev pub committed_with : String → Option String → Introduction → Introduction
committed_with contact note i = record i {
  commit_status = CommitStatus.committed;
  requester_contact = some contact;
  decision_note = elim (truthy note) [ some n ↦ some n | none ↦ i.decision_note ];
}

abbrev pub commit_body : String → Option String → Introduction → Body
commit_body contact note i = commit_of (record {
  correlation_id = i.correlation_id;
  requester_contact = some contact;
  note = note;
  path = i.path;
})

unfoldable pub commit_offer : Setting → Introduction → String → Option String → Request Introduction
commit_offer c i contact note = do
  raise_if (not (is_origin i.role)) not_the_origin
  raise_if (not (is_accepted i.status)) nothing_to_commit
  raise_if (is_committed i.commit_status) already_committed
  put (committed_with contact note i)
  commit
  call_peer c (second i.path) (commit_body contact note i)
  pure (committed_with contact note i)

abbrev pub sealed : CommitBody → Introduction → Introduction
sealed b i = record i {
  commit_status = CommitStatus.committed;
  requester_contact = b.requester_contact;
}

unfoldable pub commit_for :
    Setting → CommitBody → String → Option Introduction → Request (Option Introduction)
commit_for c b sender none = pure none
commit_for c b sender (some i) = do
  raise_if (not (same_text? (previous_hop i) (some sender))) not_previous
  put (sealed b i)
  commit
  hand_to c (commit_of b) (truthy (next_hop i))
  pure (some (sealed b i))

unfoldable pub receive_commit : Setting → CommitBody → String → Request (Option Introduction)
receive_commit c b sender = do
  found ← gets (λ db. first (correlated b.correlation_id) db.introductions)
  commit_for c b sender found
