-- ===== src/Introductions/Steps/Keeps.antt =====
-- Invariants of the tables of a node that its handlers keep: one that allows messages to leave, the
-- counts of peers to be written, and rows with a property to be written, is kept by each handler.
use can_framework.Prelude.{
  ℕ, arith, ◌≡◌, refl, inl, inr, Bool-cases, Bool, true, not, Option, none, some, List, [], ◌∷◌,
  String, str_eq, ◌&&◌,
}
use can_framework.Prelude.Table.{first}
use can_framework.Prelude.Handler.{modify}
use can_framework.Prelude.Handler.Keeps.{
  Keeps, Keeps-saved, Keeps-found, Keeps-bind, Keeps-then, Keeps-pure, Keeps-or_raise, Keeps-raise,
  Keeps-commit, Keeps-modify, Keeps-gets, Keeps-if, Keeps-guard,
}
use can_framework.Introductions.Records.{
  Status, Introduction, Route, OfferBody, ReplyBody, CommitBody, Peer, Message, Db, Error, Setting,
}
use can_framework.Introductions.Peers.{
  send, with_peer, update_peer, write_peer, missed, record_missed, carried, credit_connection,
}
use can_framework.Introductions.Paths.{
  is_pending, is_relay, is_expired, role_for, is_declined, route_status,
}
use can_framework.Introductions.Flow.{
  write_row, forward, reply_back, refuse_with, insert, new_offer, send_along, send_all, with_routes,
  start,
}
use can_framework.Introductions.Hops.{
  correlated, also_reached, carry, take_in, receive, Answer, declined_by, not_reached, decline,
  pass_on, accept_offer, decide,
}
use can_framework.Introductions.Replies.{
  goes_through, mark_route, reroute, concluded, reply_to_origin, replied, reply_to_hop, reply_by,
  reply_for, receive_reply, commit_offer, commit_for, receive_commit,
}
use can_framework.Introductions.Steps.Calls.{call_peer-Keeps, hand_to-Keeps}

-- Nothing of the far end is in the row.
abbrev pub Bare : Introduction → Type 0
Bare i = (i.reply_contact ≡ none) × (i.reply_slice ≡ none)

abbrev pub SameReply : Introduction → Introduction → Type 0
SameReply i j = (j.reply_contact ≡ i.reply_contact) × (j.reply_slice ≡ i.reply_slice)

-- What an invariant `I` of the tables allows: to send, to count, and to write rows with `P`.
pub record Allows (c : Setting) (I : Db → Type 0) (P : Introduction → Type 0) : Type 0 where
  pub sends : (m : Message) (d : Db) → I d → I (send m d)
  pub misses : (n : String) (d : Db) → I d → I (with_peer missed n d)
  pub carries : (b : Bool) (n : String) (d : Db) → I d → I (with_peer (carried c b) n d)
  pub writes : (i : Introduction) → P i → (d : Db) → I d → I (write_row i d)
  pub inserts : (i : ℕ → Introduction) → ((id : ℕ) → P (i id)) → (d : Db) → I d → I (insert i d).1
  pub finds :
      (d : Db)
      → I d
      → (q : Introduction → Bool) (i : Introduction) → first q d.introductions ≡ some i
      → P i
  pub bare : (i : Introduction) → Bare i → P i
  pub unchanged : (i j : Introduction) → P i → j.status ≡ i.status → SameReply i j → P j
  pub unanswered : (i j : Introduction) → P i → is_pending i.status ≡ true → SameReply i j → P j
  pub accepts : (i : Introduction) → i.status ≡ Status.accepted → P i

-- The writes of a reply to the introduction that it is about.
pub record Accepts (P : Introduction → Type 0) (b : ReplyBody) (sender : String) (i : Introduction)
    : Type 0 where
  pub at_hop : P (replied b i)
  pub rerouted : (rs : List Route) → P (reroute rs i)
  pub at_origin :
      (rs : List Route) (r : Route)
      → first (goes_through sender) rs ≡ some r
      → P (concluded b r (mark_route sender b rs) i)

module _ (c : Setting) (I : Db → Type 0) (P : Introduction → Type 0) (w : Allows c I P) where
  forward-Keeps : (i : Introduction) → Keeps I (forward c i)
  unfolding forward
  forward-Keeps i = hand_to-Keeps c I w.sends _ _

  reply_back-Keeps : (i : Introduction) → Keeps I (reply_back c i)
  unfolding reply_back
  reply_back-Keeps i = hand_to-Keeps c I w.sends _ _

  write_peer-Keeps :
      (f : Peer → Peer)
      → ((n : String) (d : Db) → I d → I (with_peer f n d))
      → (n : String) (p : Option Peer) → Keeps I (write_peer f n p)
  unfolding write_peer
  write_peer-Keeps f k n none = Keeps-pure _
  write_peer-Keeps f k n (some p) = Keeps-then (Keeps-modify _ (k n)) Keeps-commit

  update_peer-Keeps :
      (f : Peer → Peer)
      → ((n : String) (d : Db) → I d → I (with_peer f n d))
      → (n : Option String) → Keeps I (update_peer f n)
  unfolding update_peer
  update_peer-Keeps f k none = Keeps-pure _
  update_peer-Keeps f k (some n) =
      Keeps-if (str_eq n "") (λ _. Keeps-pure _)
        (λ _. Keeps-gets _ _ (λ d h. write_peer-Keeps f k n _))

  record_missed-Keeps : (n : Option String) → Keeps I (record_missed n)
  unfolding record_missed
  record_missed-Keeps n = update_peer-Keeps missed w.misses n

  credit_connection-Keeps : (n : Option String) (b : Bool) → Keeps I (credit_connection c n b)
  unfolding credit_connection
  credit_connection-Keeps n b = update_peer-Keeps (carried c b) (w.carries b) n

  abbrev put-Keeps : (i : Introduction) → P i → Keeps {E = Error} I (modify (write_row i))
  put-Keeps i p = Keeps-modify _ (w.writes i p)

  send_along-Keeps :
      (i : Introduction) (path : List String) → Bare i → Keeps I (send_along c i path)
  unfolding send_along
  send_along-Keeps i path b = Keeps-then (put-Keeps _ (w.bare _ b)) (
      Keeps-bind (forward-Keeps _) (λ reached.
        Keeps-if reached (λ _. Keeps-pure _)
          (λ _. Keeps-then (record_missed-Keeps _) (Keeps-pure _))))

  send_all-Keeps :
      (i : Introduction) (paths : List (List String)) → Bare i → Keeps I (send_all c i paths)
  unfolding send_all
  send_all-Keeps i [] b = Keeps-pure _
  send_all-Keeps i (q ∷ qs) b =
      Keeps-bind (send_along-Keeps i q b)
        (λ r. Keeps-bind (send_all-Keeps i qs b) (λ rs. Keeps-pure _))

  with_routes-Bare :
      (i : Introduction) (routes : List Route) → Bare i → Bare (with_routes c i routes)
  with_routes-Bare i routes b = elim (Bool-cases (is_declined (route_status routes))) [
    | inl ends ↦ rw ends b
    | inr lives ↦ rw lives b
  ]

  refuse_with-Keeps : (o : Option Error) → Keeps I (refuse_with o)
  unfolding refuse_with
  refuse_with-Keeps none = Keeps-pure _
  refuse_with-Keeps (some e) = Keeps-raise _

  pub start-Keeps :
      (paths : List (List String)) (commitment message offer requested_by : String)
      (correlation_id : ℕ)
      → Keeps I (start c paths commitment message offer requested_by correlation_id)
  unfolding start
  start-Keeps paths commitment message offer requested_by correlation_id =
      Keeps-then (refuse_with-Keeps _) (
        Keeps-guard _ _ _ (λ _. Keeps-guard _ _ _ (λ _. Keeps-gets _ _ (λ d h.
          Keeps-guard _ _ _ (λ _. Keeps-bind (Keeps-or_raise _ _) (λ path.
            Keeps-saved _ _ (w.inserts _ (λ id. w.bare _ (refl, refl))) (λ d h.
              let i =
                new_offer c path commitment message offer requested_by correlation_id d.fresh in
              Keeps-bind (send_all-Keeps i paths (refl, refl)) (λ routes.
                Keeps-then
                  (put-Keeps (with_routes c i routes)
                    (w.bare _ (with_routes-Bare i routes (refl, refl))))
                  (Keeps-then Keeps-commit (Keeps-pure _))))))))))

  carry-Keeps : (i : Introduction) → Bare i → Keeps I (carry c i)
  unfolding carry
  carry-Keeps i b = Keeps-bind (forward-Keeps i) (λ reached.
      Keeps-if reached
        (λ _. Keeps-then (put-Keeps _ (w.bare _ b)) (Keeps-then Keeps-commit (Keeps-pure _)))
        (λ _. Keeps-then (put-Keeps _ (w.bare _ b)) (
          Keeps-then (record_missed-Keeps _) (
            Keeps-then Keeps-commit
              (Keeps-then (reply_back-Keeps _) (Keeps-then Keeps-commit (Keeps-pure _)))))))

  take_in-Keeps :
      (b : OfferBody) (sender : String) (o : Option Introduction)
      → ((i : Introduction) → o ≡ some i → P i)
      → Keeps I (take_in c b sender o)
  unfolding take_in
  take_in-Keeps b sender none p =
      Keeps-saved _ _ (w.inserts _ (λ id. w.bare _ (refl, refl))) (λ d h.
        Keeps-if (is_relay (role_for b.path b.hop_index) && c.auto_relay)
          (λ _. carry-Keeps _ (refl, refl)) (λ _. Keeps-pure _))
  take_in-Keeps b sender (some i) p =
      Keeps-then (put-Keeps (also_reached b.path i) (w.unchanged i _ (p i refl) refl (refl, refl)))
        (Keeps-then Keeps-commit (Keeps-pure _))

  pub receive-Keeps : (b : OfferBody) (sender : String) → Keeps I (receive c b sender)
  unfolding receive
  receive-Keeps b sender = Keeps-guard _ _ _ (λ _.
      Keeps-guard _ _ _ (λ _. Keeps-gets _ _ (λ d h. take_in-Keeps b sender _ (w.finds d h _))))

  decline-Keeps : (i : Introduction) → P (declined_by c i) → Keeps I (decline c i)
  unfolding decline
  decline-Keeps i p =
      Keeps-then (put-Keeps _ p)
        (Keeps-then Keeps-commit (Keeps-then (reply_back-Keeps _) (Keeps-pure _)))

  pass_on-Keeps :
      (i : Introduction)
      → P (record i { status = Status.forwarded })
      → P (not_reached i)
      → Keeps I (pass_on c i)
  unfolding pass_on
  pass_on-Keeps i p q = Keeps-bind (forward-Keeps i) (λ reached.
      Keeps-if reached (λ _. Keeps-then (put-Keeps _ p) (Keeps-then Keeps-commit (Keeps-pure _)))
        (λ _. Keeps-then (put-Keeps _ q) (
          Keeps-then Keeps-commit
            (Keeps-then (reply_back-Keeps _) (Keeps-then Keeps-commit (Keeps-pure _))))))

  accept_offer-Keeps : (a : Answer) (i : Introduction) → Keeps I (accept_offer c a i)
  unfolding accept_offer
  accept_offer-Keeps a i = Keeps-guard _ _ _ (λ _. Keeps-then (put-Keeps _ (w.accepts _ refl)) (
      Keeps-then Keeps-commit
        (Keeps-then (reply_back-Keeps _) (Keeps-then Keeps-commit (Keeps-pure _)))))

  pub decide-Keeps : (a : Answer) (i : Introduction) → P i → Keeps I (decide c a i)
  unfolding decide
  decide-Keeps a i p = Keeps-guard _ _ _ (λ closed.
      let open_yet : is_pending i.status ≡ true = ground arith in
      Keeps-if (is_expired c.now i)
        (λ _.
          Keeps-then (put-Keeps _ (w.unanswered i _ p open_yet (refl, refl)))
            (Keeps-then Keeps-commit (Keeps-raise _)))
        (λ _.
          Keeps-if (not a.accept) (λ _. decline-Keeps _ (w.unanswered i _ p open_yet (refl, refl)))
            (λ _.
              Keeps-if (is_relay i.role)
                (λ _.
                  pass_on-Keeps _ (w.unanswered i _ p open_yet (refl, refl))
                    (w.unanswered i _ p open_yet (refl, refl)))
                (λ _. accept_offer-Keeps a _))))

  pub commit_offer-Keeps :
      (i : Introduction) (contact : String) (words : Option String)
      → P i
      → Keeps I (commit_offer c i contact words)
  unfolding commit_offer
  commit_offer-Keeps i contact words p = Keeps-guard _ _ _ (λ _. Keeps-guard _ _ _ (λ _.
      Keeps-guard _ _ _ (λ _.
        Keeps-then (put-Keeps _ (w.unchanged i _ p refl (refl, refl)))
          (Keeps-then Keeps-commit (Keeps-then (call_peer-Keeps c I w.sends _ _) (Keeps-pure _))))))

  commit_for-Keeps :
      (b : CommitBody) (sender : String) (o : Option Introduction)
      → ((i : Introduction) → o ≡ some i → P i)
      → Keeps I (commit_for c b sender o)
  unfolding commit_for
  commit_for-Keeps b sender none p = Keeps-pure _
  commit_for-Keeps b sender (some i) p = Keeps-guard _ _ _ (λ _.
      Keeps-then (put-Keeps _ (w.unchanged i _ (p i refl) refl (refl, refl)))
        (Keeps-then Keeps-commit (Keeps-then (hand_to-Keeps c I w.sends _ _) (Keeps-pure _))))

  pub receive_commit-Keeps :
      (b : CommitBody) (sender : String) → Keeps I (receive_commit c b sender)
  unfolding receive_commit
  receive_commit-Keeps b sender =
      Keeps-gets _ _ (λ d h. commit_for-Keeps b sender _ (w.finds d h _))

  module _ (b : ReplyBody) (sender : String) where
    reply_to_origin-Keeps :
        (rs : List Route) (i : Introduction)
        → Accepts P b sender i
        → Keeps I (reply_to_origin c b sender rs i)
    unfolding reply_to_origin
    reply_to_origin-Keeps rs i ok = Keeps-found _ _ _ (λ r here.
        Keeps-then
          (put-Keeps (reroute (mark_route sender b rs) i) (ok.rerouted (mark_route sender b rs)))
          (Keeps-then (credit_connection-Keeps _ _) (
            Keeps-then
              (put-Keeps (concluded b r (mark_route sender b rs) i) (ok.at_origin rs r here))
              (Keeps-then (record_missed-Keeps _) (Keeps-then Keeps-commit (Keeps-pure _))))))

    reply_to_hop-Keeps :
        (i : Introduction) → Accepts P b sender i → Keeps I (reply_to_hop c b sender i)
    unfolding reply_to_hop
    reply_to_hop-Keeps i ok = Keeps-guard _ _ _ (λ _. Keeps-then (credit_connection-Keeps _ _) (
        Keeps-then (put-Keeps (replied b i) ok.at_hop)
          (Keeps-then Keeps-commit (Keeps-then (reply_back-Keeps _) (Keeps-pure _)))))

    reply_by-Keeps :
        (i : Introduction) (rs : List Route)
        → Accepts P b sender i
        → Keeps I (reply_by c b sender i rs)
    unfolding reply_by
    reply_by-Keeps i [] ok = reply_to_hop-Keeps i ok
    reply_by-Keeps i (r ∷ rs) ok = reply_to_origin-Keeps (r ∷ rs) i ok

    pub reply_for-Keeps :
        (o : Option Introduction)
        → ((i : Introduction) → o ≡ some i → Accepts P b sender i)
        → Keeps I (reply_for c b sender o)
    unfolding reply_for
    reply_for-Keeps none ok = Keeps-pure _
    reply_for-Keeps (some i) ok =
        Keeps-bind (reply_by-Keeps i _ (ok i refl)) (λ after. Keeps-pure _)

    pub receive_reply-Keeps :
        ((d : Db)
          → I d
          → (i : Introduction) → first (correlated b.correlation_id) d.introductions ≡ some i
          → Accepts P b sender i)
        → Keeps I (receive_reply c b sender)
    unfolding receive_reply
    receive_reply-Keeps ok = Keeps-gets _ _ (λ d h. reply_for-Keeps _ (ok d h))
