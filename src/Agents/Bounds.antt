-- ===== src/Agents/Bounds.antt =====
-- The queues of backend/app/agents/service.py stay within their ceilings: what waits for review never
-- exceeds what a steward can review.
use can_framework.Prelude.{
  ℕ, ◌+◌, ◌≤◌, ◌≡◌, refl, ap, ◌∙◌, inl, inr, Bool, true, false, Option, none, some, List, [], ◌∷◌,
  String, arith, leb, ◌==◌, ==_iff, Bool-cases, if◌then◌else◌,
}
use can_framework.Prelude.Table.{adjust}
use can_framework.Prelude.All.{All, All-map}
use can_framework.Prelude.Count.{count-append, count-adjust}
use can_framework.Prelude.Outcome.{request}
use can_framework.Agents.Records.{Agent, DerivedRecord, Db, Rules, Error}
use can_framework.Agents.Queue.{
  Draft, is_unreviewed, waits_for, waits_for_steward, unreviewed_count, steward_unreviewed_count,
  ceiling_for, stewards, check_record, new_record, record_checked, record_derived,
}
use can_framework.Agents.Review.{
  record_with, reviewed, review_record, recomputed, matches, rerun, rerun_unless, recompute, is_did,
  agent_did,
}
use can_framework.Agents.Steps.{Step, derives, reviews, recomputes, OnlyRow}

-- What waits for review is at most what the rules allow, for each steward and for each agent.
pub record IsBounded (rules : Rules) (db : Db) : Type 0 where
  pub of_steward :
      (steward : ℕ) → steward_unreviewed_count steward db ≤ rules.max_unreviewed_per_steward
  pub of_agent : All (λ x. unreviewed_count x.id db ≤ ceiling_for rules x) db.agents

only_steward :
    (a : Agent) (steward : ℕ) (agents : List Agent)
    → All (λ x. (x.id == a.id) ≡ true → x ≡ a) agents
    → (a.steward_user_id == steward) ≡ false
    → stewards steward a.id agents ≡ false
unfolding stewards
only_steward a steward [] h apart = refl
only_steward a steward (x ∷ xs) h apart = elim (Bool-cases (x.id == a.id)) [
  | inl same ↦
      rw (ap (λ y. y.steward_user_id == steward) (h.0 same) ∙ apart)
        (only_steward a steward xs h.1 apart)
  | inr other ↦ let rest = only_steward a steward xs h.1 apart in ground arith
]

-- Past the check, there is room in both queues.
room_in_queues :
    (rules : Rules) (a : Agent) (draft : Draft) (db : Db)
    → check_record rules a draft db ≡ none
    → (leb (ceiling_for rules a) (unreviewed_count a.id db) ≡ false)
      × (leb rules.max_unreviewed_per_steward (steward_unreviewed_count a.steward_user_id db)
          ≡ false)
unfolding check_record
room_in_queues rules a draft db e = (ground arith, ground arith)

add_one : (n m : ℕ) (b : Bool) → n + 1 ≤ m → n + (if b then 1 else 0) ≤ m
add_one n m true h = h
add_one n m false h = omega (arith, h)

All-and :
    {A : Type 0} (P Q R : A → Type 0) (xs : List A)
    → ((x : A) → P x → Q x → R x)
    → All P xs
    → All Q xs
    → All R xs
All-and P Q R [] f h k = tt
All-and P Q R (x ∷ xs) f h k = (f x h.0 k.0, All-and P Q R xs f h.1 k.1)

module _ (rules : Rules) (a : Agent) (draft : Draft) (db : Db) where
  abbrev made : DerivedRecord
  made = (new_record rules a draft db).0

  count-steward :
      (steward : ℕ)
      → steward_unreviewed_count steward (new_record rules a draft db).1
        ≡ steward_unreviewed_count steward db
          + (if waits_for_steward db.agents steward made then 1 else 0)
  unfolding steward_unreviewed_count
  count-steward steward = count-append (waits_for_steward db.agents steward) db.records made

  count-agent :
      (id : ℕ)
      → unreviewed_count id (new_record rules a draft db).1
        ≡ unreviewed_count id db + (if waits_for id made then 1 else 0)
  unfolding unreviewed_count
  count-agent id = count-append (waits_for id) db.records made

  steward_stays :
      OnlyRow a db
      → check_record rules a draft db ≡ none
      → IsBounded rules db
      → (steward : ℕ)
      → steward_unreviewed_count steward (new_record rules a draft db).1
        ≤ rules.max_unreviewed_per_steward
  steward_stays only e h steward =
      rw (count-steward steward) (elim (Bool-cases (a.steward_user_id == steward)) [
        | inr apart ↦
            rw (only_steward a steward db.agents only apart) (omega (arith, h.of_steward steward))
        | inl same ↦
            let room = (room_in_queues rules a draft db e).1 in
            let mine : steward_unreviewed_count a.steward_user_id db
                ≡ steward_unreviewed_count steward db =
              ap (λ z. steward_unreviewed_count z db) ((==_iff a.steward_user_id steward).0 same) in
            add_one _ _ (waits_for_steward db.agents steward made) (ground arith)
      ])

  agent_stays :
      check_record rules a draft db ≡ none
      → (x : Agent) → ((x.id == a.id) ≡ true → x ≡ a)
      → unreviewed_count x.id db ≤ ceiling_for rules x
      → unreviewed_count x.id (new_record rules a draft db).1 ≤ ceiling_for rules x
  agent_stays e x only h = rw (count-agent x.id) (elim (Bool-cases (x.id == a.id)) [
    | inl same ↦
        let room = (room_in_queues rules a draft db e).0 in
        rw (only same) (add_one _ _ (waits_for a.id made) (ground arith))
    | inr other ↦
        let skipped : waits_for x.id made ≡ false = ground arith in rw skipped (omega (arith, h))
  ])

  new_record-IsBounded :
      OnlyRow a db
      → check_record rules a draft db ≡ none
      → IsBounded rules db
      → IsBounded rules (new_record rules a draft db).1
  new_record-IsBounded only e h = record {
    of_steward = steward_stays only e h;
    of_agent = All-and _ _ _ db.agents (agent_stays e) only h.of_agent;
  }

  record_checked-IsBounded :
      (o : Option Error)
      → (o ≡ none → IsBounded rules (new_record rules a draft db).1)
      → IsBounded rules db
      → IsBounded rules (request (record_checked rules a draft o) db).1
  record_checked-IsBounded none made_it h = made_it refl
  record_checked-IsBounded (some e) made_it h = h

  record_derived-IsBounded :
      OnlyRow a db
      → IsBounded rules db
      → IsBounded rules (request (record_derived rules a draft) db).1
  unfolding record_derived
  record_derived-IsBounded only h =
      record_checked-IsBounded (check_record rules a draft db)
        (λ clear. new_record-IsBounded only clear h) h

-- Writes that put no record into a queue keep the bounds.
module _ (rules : Rules) (db : Db) (q : DerivedRecord → Bool) (f : DerivedRecord → DerivedRecord)
    (owner : (r : DerivedRecord) → (f r).agent_id ≡ r.agent_id)
    (waits : (r : DerivedRecord)
      → is_unreviewed (f r).status ≡ true
      → is_unreviewed r.status ≡ true) where
  abbrev written : Db
  written = record db { records = adjust q f db.records }

  written-IsBounded : IsBounded rules db → IsBounded rules written
  unfolding steward_unreviewed_count unreviewed_count
  written-IsBounded h = record {
    of_steward = λ steward.
        let fewer =
          count-adjust (waits_for_steward db.agents steward) q f db.records
            (λ r e. ground (arith, owner r, waits r)) in
        omega (arith, fewer, h.of_steward steward);
    of_agent =
        All-map _ _ db.agents
          (λ x le.
            let fewer =
              count-adjust (waits_for x.id) q f db.records
                (λ r e. ground (arith, owner r, waits r)) in
            omega (arith, fewer, le))
          h.of_agent;
  }

reviewed_waits :
    (rules : Rules) (accept : Bool) (words reviewer : String) (r : DerivedRecord)
    → is_unreviewed (reviewed rules accept words reviewer r).status ≡ true
    → is_unreviewed r.status ≡ true
reviewed_waits rules true words reviewer r e = absurd (ground arith)
reviewed_waits rules false words reviewer r e = absurd (ground arith)

recomputed_waits :
    (rules : Rules) (matched : Bool) (r : DerivedRecord)
    → is_unreviewed (recomputed rules matched r).status ≡ true
    → is_unreviewed r.status ≡ true
recomputed_waits rules matched r e = ground arith

module _ (rules : Rules) (r : DerivedRecord) (db : Db) where
  review_record-IsBounded :
      (accept : Bool) (words reviewer : String)
      → IsBounded rules db
      → IsBounded rules (request (review_record rules r accept words reviewer) db).1
  unfolding review_record
  review_record-IsBounded accept words reviewer h = elim (Bool-cases (is_unreviewed r.status)) [
    | inr closed ↦ rw closed h
    | inl waits ↦ rw waits (
        written-IsBounded rules db (record_with r.id) (reviewed rules accept words reviewer)
          (λ x. refl) (reviewed_waits rules accept words reviewer) h)
  ]

  rerun-IsBounded :
      (output method subject : String) (words : Option String)
      → IsBounded rules db
      → IsBounded rules (rerun rules r output method subject words db).1
  unfolding steward_unreviewed_count unreviewed_count
  rerun-IsBounded output method subject words h =
      let w =
        written-IsBounded rules db (record_with r.id) (recomputed rules (matches rules output r))
          (λ x. refl) (recomputed_waits rules (matches rules output r)) h in
      record { of_steward = w.of_steward; of_agent = w.of_agent }

  rerun_unless-IsBounded :
      (own : Bool) (output method subject : String) (words : Option String)
      → IsBounded rules db
      → IsBounded rules (request (rerun_unless own rules r output method subject words) db).1
  rerun_unless-IsBounded true output method subject words h = h
  rerun_unless-IsBounded false output method subject words h =
      rerun-IsBounded output method subject words h

  recompute-IsBounded :
      (output method subject : String) (words : Option String)
      → IsBounded rules db
      → IsBounded rules (request (recompute rules r output method subject words) db).1
  unfolding recompute
  recompute-IsBounded output method subject words h =
      rerun_unless-IsBounded (is_did subject (agent_did r db)) output method subject words h

-- What waits for review stays at most what the rules allow, for each steward and for each agent, with
-- every record that is derived, reviewed or recomputed, whether the request goes through or not.
pub Step-IsBounded :
    {rules : Rules} {a b : Db} → Step rules a b → IsBounded rules a → IsBounded rules b
Step-IsBounded {rules} {a} (derives x draft only) h =
    record_derived-IsBounded rules x draft a only h
Step-IsBounded {rules} {a} (reviews r accept words reviewer here) h =
    review_record-IsBounded rules r a accept words reviewer h
Step-IsBounded {rules} {a} (recomputes r output method subject words here) h =
    recompute-IsBounded rules r a output method subject words h
