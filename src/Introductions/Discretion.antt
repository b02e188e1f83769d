-- ===== src/Introductions/Discretion.antt =====
-- Who learns how to reach the far end, in backend/app/value/introductions.py: the contact and the slice
-- of the map that a reply brings stand in a row only where it is accepted.
use can_framework.Prelude.{
  ◌≡◌, ap, ◌∙◌, ◌⊎◌, inl, inr, true, false, none, some, List, [], ◌∷◌, String, arith, Bool-cases,
}
use can_framework.Prelude.Table.{first}
use can_framework.Prelude.All.{All, All-append, All-adjust, first-All}
use can_framework.Prelude.Handler.{request}
use can_framework.Prelude.Handler.Keeps.{Keeps-request, request-gets}
use can_framework.Introductions.Records.{Status, Introduction, Route, ReplyBody, Db, Setting}
use can_framework.Introductions.Paths.{
  is_accepted, is_declined, is_pending, any_status, route_status,
}
use can_framework.Introductions.Flow.{introduction_with}
use can_framework.Introductions.Hops.{correlated}
use can_framework.Introductions.Replies.{
  goes_through, mark_route, concluded, replied, reply_for, receive_reply,
}
use can_framework.Introductions.Steps.{Step, starts, receives, decides, replies, commits, seals}
use can_framework.Introductions.Steps.Keeps.{
  Allows, Bare, SameReply, start-Keeps, receive-Keeps, decide-Keeps, reply_for-Keeps,
  commit_offer-Keeps, receive_commit-Keeps,
}

-- The contact and the slice of the map that a reply brings are there only in an acceptance.
abbrev pub Discreet : Introduction → Type 0
Discreet i = (i.status ≡ Status.accepted) ⊎ Bare i

abbrev pub AllDiscreet : Db → Type 0
AllDiscreet db = All Discreet db.introductions

unchanged-Discreet :
    (i j : Introduction) → Discreet i → j.status ≡ i.status → SameReply i j → Discreet j
unchanged-Discreet i j (inl e) s r = inl (s ∙ e)
unchanged-Discreet i j (inr b) s r = inr (r.0 ∙ b.0, r.1 ∙ b.1)

not_accepted-Bare : (i : Introduction) → Discreet i → is_accepted i.status ≡ false → Bare i
not_accepted-Bare i (inl e) s = absurd (cc (s, ap is_accepted e))
not_accepted-Bare i (inr b) s = b

pending_not_accepted : (s : Status) → is_pending s ≡ true → is_accepted s ≡ false
pending_not_accepted s e = ground arith

unanswered-Discreet :
    (i j : Introduction) → Discreet i → is_pending i.status ≡ true → SameReply i j → Discreet j
unanswered-Discreet i j p e r =
    let b = not_accepted-Bare i p (pending_not_accepted i.status e) in inr (r.0 ∙ b.0, r.1 ∙ b.1)

Discreet-Allows : (c : Setting) → Allows c AllDiscreet Discreet
Discreet-Allows c = record {
  sends = λ m d h. h;
  misses = λ n d h. h;
  carries = λ b n d h. h;
  writes =
      λ i p d h. All-adjust Discreet (introduction_with i.id) (λ _. i) d.introductions (λ x q. p) h;
  inserts = λ i p d h. All-append Discreet d.introductions (i d.fresh) h (p d.fresh);
  finds = λ d h q i e. first-All Discreet q d.introductions i h e;
  bare = λ i b. inr b;
  unchanged = unchanged-Discreet;
  unanswered = unanswered-Discreet;
  accepts = λ i e. inl e;
}

-- A reply as a node of this kind sends it: contact details only with an acceptance.
abbrev pub Honest : ReplyBody → Type 0
Honest b = (b.status ≡ Status.accepted) ⊎ ((b.reply_contact ≡ none) × (b.reply_slice ≡ none))

mark_route_accepts :
    (b : ReplyBody) (sender : String) (rs : List Route) (r : Route)
    → is_accepted b.status ≡ true
    → first (goes_through sender) rs ≡ some r
    → any_status is_accepted (mark_route sender b rs) ≡ true
unfolding mark_route any_status
mark_route_accepts b sender [] r e here = absurd (ground arith)
mark_route_accepts b sender (q ∷ qs) r e here = elim (Bool-cases (goes_through sender q)) [
  | inl this ↦ rw this (rw e)
  | inr later ↦
      let rest = mark_route_accepts b sender qs r e (ground arith) in rw later (ground arith)
]

route_status_accepted :
    (rs : List Route) → any_status is_accepted rs ≡ true → route_status rs ≡ Status.accepted
unfolding route_status
route_status_accepted rs e = rw e

concluded-Discreet :
    (b : ReplyBody) (sender : String) (i : Introduction) (rs : List Route) (r : Route)
    → Bare i
    → first (goes_through sender) rs ≡ some r
    → Discreet (concluded b r (mark_route sender b rs) i)
concluded-Discreet b sender i rs r bare here = elim (Bool-cases (is_accepted b.status)) [
  | inl said ↦ rw said (
      inl (
        route_status_accepted (mark_route sender b rs)
          (mark_route_accepts b sender rs r said here)))
  | inr refused ↦
      rw refused (elim (Bool-cases (is_declined (route_status (mark_route sender b rs)))) [
        | inl ends ↦ rw ends (inr bare)
        | inr lives ↦ rw lives (inr bare)
      ])
]

replied-Discreet : (b : ReplyBody) (i : Introduction) → Honest b → Discreet (replied b i)
replied-Discreet b i (inl e) = inl e
replied-Discreet b i (inr bare) = inr bare

-- What a step is trusted with: a reply is honest, and does not answer a row that is accepted already.
abbrev pub Trusted : {c : Setting} {a b : Db} → Step c a b → Type 0
Trusted {a = a} (replies b sender) =
    Honest b
    × ((i : Introduction)
        → first (correlated b.correlation_id) a.introductions ≡ some i
        → is_accepted i.status ≡ false)
Trusted _ = Unit

reply-AllDiscreet :
    (c : Setting) (a : Db) (b : ReplyBody) (sender : String)
    → Honest b
    → ((i : Introduction)
        → first (correlated b.correlation_id) a.introductions ≡ some i
        → is_accepted i.status ≡ false)
    → AllDiscreet a
    → AllDiscreet (request (receive_reply c b sender) a).1
unfolding receive_reply
reply-AllDiscreet c a b sender honest open_yet h =
    rw
      (request-gets (λ (db : Db). first (correlated b.correlation_id) db.introductions)
        (reply_for c b sender) a)
      (Keeps-request
        (reply_for-Keeps c AllDiscreet Discreet (Discreet-Allows c) b sender
          (first (correlated b.correlation_id) a.introductions)
          (λ i e.
            let bare =
              not_accepted-Bare i
                (first-All Discreet (correlated b.correlation_id) a.introductions i h e)
                (open_yet i e) in
            record {
              at_hop = replied-Discreet b i honest;
              rerouted = λ rs. inr bare;
              at_origin = λ rs r here. concluded-Discreet b sender i rs r bare here;
            }))
        a h)

-- Where the contact of the far end and its slice of the map, which replies bring, stand only in accepted
-- rows, they still do after a request about introductions, if a reply that comes in is honest itself and
-- does not answer a row that is accepted already. The contact of the requester, which a commitment
-- brings, is not part of this.
pub Step-AllDiscreet :
    {c : Setting} {a b : Db} (step : Step c a b) → Trusted step → AllDiscreet a → AllDiscreet b
Step-AllDiscreet {c} {a} (starts paths commitment message offer subject id) t h =
    Keeps-request
      (start-Keeps c _ Discreet (Discreet-Allows c) paths commitment message offer subject id) a h
Step-AllDiscreet {c} {a} (receives b sender) t h =
    Keeps-request (receive-Keeps c _ Discreet (Discreet-Allows c) b sender) a h
Step-AllDiscreet {c} {a} (decides x i here) t h =
    Keeps-request
      (decide-Keeps c _ Discreet (Discreet-Allows c) x i
        (first-All Discreet _ a.introductions i h here))
      a h
Step-AllDiscreet {c} {a} (replies b sender) t h = reply-AllDiscreet c a b sender t.0 t.1 h
Step-AllDiscreet {c} {a} (commits i contact words here) t h =
    Keeps-request
      (commit_offer-Keeps c _ Discreet (Discreet-Allows c) i contact words
        (first-All Discreet _ a.introductions i h here))
      a h
Step-AllDiscreet {c} {a} (seals b sender) t h =
    Keeps-request (receive_commit-Keeps c _ Discreet (Discreet-Allows c) b sender) a h
