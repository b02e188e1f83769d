-- ===== src/Introductions/Commitment.antt =====
-- The commitment to an offer in backend/app/value/introductions.py: `commit_offer`.
use can_framework.Prelude.{
  ℕ, ◌≡◌, refl, ◌⊎◌, inl, inr, true, false, Option, none, some, String, ==_iff, str_eq, Bool-cases,
  if◌then◌else◌, sym,
}
use can_framework.Prelude.Table.{first, first-adjust_self}
use can_framework.Prelude.Outcome.{err, Session}
use can_framework.Prelude.Handler.{request, pure, ◌>>◌, raise_if, modify, commit}
use can_framework.Prelude.Handler.Keeps.{Keeps-then, Keeps-pure}
use can_framework.Introductions.Records.{
  CommitStatus, Introduction, Db, Error, not_the_origin, nothing_to_commit, already_committed,
  Setting,
}
use can_framework.Introductions.Peers.{Request, call_peer}
use can_framework.Introductions.Paths.{is_accepted, is_origin, truthy}
use can_framework.Introductions.Flow.{introduction_with, write_row, second}
use can_framework.Introductions.Replies.{committed_with, commit_body, is_committed, commit_offer}
use can_framework.Introductions.Steps.{Stored}
use can_framework.Introductions.Steps.Calls.{call_peer-Keeps}

abbrev pub row_at : ℕ → Db → Option Introduction
row_at id db = first (introduction_with id) db.introductions

-- The offer was made here, the far end has accepted it, and it is not committed to yet.
abbrev pub Committable : Introduction → Type 0
Committable i =
    (is_origin i.role ≡ true)
    × (is_accepted i.status ≡ true)
    × (is_committed i.commit_status ≡ false)

module _ (c : Setting) (i : Introduction) (contact : String) (words : Option String) (db : Db) where
  abbrev after_commit : Db
  after_commit = write_row (committed_with contact words i) db

  abbrev written : Session Db
  written = record { committed = after_commit; working = after_commit }

  abbrev tell : Request Introduction
  tell = do
    call_peer c (second i.path) (commit_body contact words i)
    pure (committed_with contact words i)

  abbrev Written : Db → Type 0
  Written d = row_at i.id d ≡ some (committed_with contact words i)

  Written-here : Stored i db → Written after_commit
  Written-here here =
      first-adjust_self (introduction_with i.id) (λ _. committed_with contact words i)
        db.introductions i (λ y e. (==_iff i.id i.id).1 refl) here

  tell-Written : Stored i db → Written (tell.run written).1.committed
  tell-Written here =
      ((Keeps-then
          (call_peer-Keeps c Written (λ m d h. h) (second i.path) (commit_body contact words i))
          (Keeps-pure (committed_with contact words i))).after
        written (Written-here here, Written-here here)).0

  -- The words replace the note where they say anything.
  note_after :
      (s : Option String)
      → elim (truthy s) [ some n ↦ some n | none ↦ i.decision_note ] ≡ elim s [
        | none ↦ i.decision_note
        | some t ↦ if str_eq t "" then i.decision_note else some t
      ]
  note_after none = refl
  note_after (some t) = elim (Bool-cases (str_eq t "")) [ inl e ↦ rw e refl | inr n ↦ rw n refl ]

  -- An offer is committed to exactly when it was made here, is accepted and is not committed to yet;
  -- the stored row then is the offer with the commitment, the contact and, where there are words, the
  -- words in place of its note, whether or not the next node hears of it. Else the request raises and
  -- changes nothing.
  pub commit_offer_exact :
      Stored i db
      → (Committable i
          × (row_at i.id (request (commit_offer c i contact words) db).1
              ≡ some (record i {
                commit_status = CommitStatus.committed;
                requester_contact = some contact;
                decision_note = elim words [
                  | none ↦ i.decision_note
                  | some s ↦ if str_eq s "" then i.decision_note else some s
                ];
              })))
        ⊎ (¬ Committable i
            × ((e : Error) × (request (commit_offer c i contact words) db ≡ (err e, db))))
  unfolding commit_offer request ◌>>◌ raise_if modify commit
  commit_offer_exact here = elim (Bool-cases (is_origin i.role)) [
    | inr away ↦ inr ((λ q. cc (away, q.0)), (not_the_origin, rw away))
    | inl mine ↦ elim (Bool-cases (is_accepted i.status)) [
      | inr waiting ↦ inr ((λ q. cc (waiting, q.1)), (nothing_to_commit, rw (mine, waiting)))
      | inl accepted ↦ elim (Bool-cases (is_committed i.commit_status)) [
        | inl again ↦ inr ((λ q. cc (again, q.2)), (already_committed, rw (mine, accepted, again)))
        | inr first_time ↦ inl (
          (mine, accepted, first_time),
          rw (mine, accepted, first_time, sym (note_after words)) (tell-Written here),
        )
      ]
    ]
  ]
