-- ===== src/Agents/History.antt =====
-- What may become of a derived record, in backend/app/agents/service.py: what was derived stays, and
-- its status moves one way.
use can_framework.Prelude.{
  ℕ, ◌≡◌, refl, sym, ap, ◌∙◌, inl, inr, Bool, true, false, Option, none, some, List, String, arith,
  ◌==◌, ==_iff, Bool-cases, if◌then◌else◌,
}
use mathlib.Core.Path.{subst}
use can_framework.Prelude.Table.{
  first, adjust, first-append_found, first-adjust_ne, first-adjust_self,
}
use can_framework.Prelude.Outcome.{request}
use can_framework.Agents.Records.{Agent, DerivedRecord, RecordStatus, Db, Rules, Error}
use can_framework.Agents.Queue.{
  Draft, is_unreviewed, new_record, record_checked, check_record, record_derived,
}
use can_framework.Agents.Review.{
  record_with, reviewed, review_record, recomputed, matches, supersedes, rerun_unless, recompute,
  is_did, agent_did,
}
use can_framework.Agents.Steps.{Step, derives, reviews, recomputes, record_at}

-- The moves of a status: one that waits is decided, and any is superseded.
pub data Moves : RecordStatus → RecordStatus → Type 0 where
  stays : {s : RecordStatus} → Moves s s
  confirms : Moves RecordStatus.unreviewed RecordStatus.confirmed
  rejects : Moves RecordStatus.unreviewed RecordStatus.rejected
  supersedes_it : {s : RecordStatus} → Moves s RecordStatus.superseded

-- A record after a request: the same derivation by the same agent, and a status that has moved so.
pub record Follows (r s : DerivedRecord) : Type 0 where
  pub same_agent : s.agent_id ≡ r.agent_id
  pub same_time : s.created_at ≡ r.created_at
  pub same_derivation : s.derivation ≡ r.derivation
  pub moved : Moves r.status s.status

abbrev Kept : ℕ → DerivedRecord → Db → Type 0
Kept id r db = (s : DerivedRecord) × (record_at id db ≡ some s) × Follows r s

unmoved : (r : DerivedRecord) → Follows r r
unmoved r = record { same_agent = refl; same_time = refl; same_derivation = refl; moved = stays }

unreviewed_sound : (s : RecordStatus) → is_unreviewed s ≡ true → s ≡ RecordStatus.unreviewed
unreviewed_sound s e = ground arith

decided :
    (s : RecordStatus) (accept : Bool)
    → s ≡ RecordStatus.unreviewed
    → Moves s (if accept then RecordStatus.confirmed else RecordStatus.rejected)
decided s true e = rw e confirms
decided s false e = rw e rejects

reviewed-Follows :
    (rules : Rules) (accept : Bool) (words reviewer : String) (r : DerivedRecord)
    → is_unreviewed r.status ≡ true
    → Follows r (reviewed rules accept words reviewer r)
reviewed-Follows rules accept words reviewer r e = record {
  same_agent = refl;
  same_time = refl;
  same_derivation = refl;
  moved = decided r.status accept (unreviewed_sound r.status e);
}

overtaken : (s : RecordStatus) (b : Bool) → Moves s (if b then RecordStatus.superseded else s)
overtaken s true = supersedes_it
overtaken s false = stays

recomputed-Follows :
    (rules : Rules) (matched : Bool) (r : DerivedRecord) → Follows r (recomputed rules matched r)
recomputed-Follows rules matched r = record {
  same_agent = refl;
  same_time = refl;
  same_derivation = refl;
  moved = overtaken r.status (supersedes rules matched);
}

-- A write to the row with an id, of a kind that the row follows, keeps every record.
adjusted :
    (id : ℕ) (f : DerivedRecord → DerivedRecord) (xs : List DerivedRecord) (x : DerivedRecord)
    (k : ℕ) (r : DerivedRecord)
    → ((y : DerivedRecord) → (f y).id ≡ y.id)
    → first (record_with id) xs ≡ some x
    → Follows x (f x)
    → first (record_with k) xs ≡ some r
    → (s : DerivedRecord) × (first (record_with k) (adjust (record_with id) f xs) ≡ some s)
      × Follows r s
adjusted id f xs x k r same here step e = elim (Bool-cases (id == k)) [
  | inl mine ↦
      let at_k = ap (λ j. first (record_with j) xs) ((==_iff id k).0 mine) in
      let is_x : x ≡ r = cc (here, at_k, e) in
      let written =
        first-adjust_self (record_with id) f xs x (λ y q. ap (λ z. z == id) (same y) ∙ q) here in
      (
        f x,
        ap (λ j. first (record_with j) (adjust (record_with id) f xs)) (sym ((==_iff id k).0 mine))
            ∙ written,
        subst (λ z. Follows z (f x)) is_x step,
      )
  | inr other ↦ (
    r,
    first-adjust_ne (record_with k) (record_with id) f xs (λ y q. ground arith)
          (λ y q. ground (arith, same y))
        ∙ e,
    unmoved r,
  )
]

module _ (rules : Rules) (db : Db) (k : ℕ) (r : DerivedRecord)
    (here : record_at k db ≡ some r) where
  derives-Kept :
      (a : Agent) (draft : Draft) (o : Option Error)
      → Kept k r (request (record_checked rules a draft o) db).1
  derives-Kept a draft (some e) = (r, here, unmoved r)
  derives-Kept a draft none = (
    r,
    first-append_found (record_with k) db.records (new_record rules a draft db).0 r here,
    unmoved r,
  )

  reviews-Kept :
      (x : DerivedRecord) (accept : Bool) (words reviewer : String)
      → record_at x.id db ≡ some x
      → Kept k r (request (review_record rules x accept words reviewer) db).1
  unfolding review_record
  reviews-Kept x accept words reviewer there = elim (Bool-cases (is_unreviewed x.status)) [
    | inr closed ↦ rw closed (r, here, unmoved r)
    | inl waits ↦ rw waits (
        adjusted x.id (reviewed rules accept words reviewer) db.records x k r (λ y. refl) there
          (reviewed-Follows rules accept words reviewer x waits) here)
  ]

  recomputes-Kept :
      (own : Bool) (x : DerivedRecord) (output method subject : String) (words : Option String)
      → record_at x.id db ≡ some x
      → Kept k r (request (rerun_unless own rules x output method subject words) db).1
  recomputes-Kept true x output method subject words there = (r, here, unmoved r)
  recomputes-Kept false x output method subject words there =
      adjusted x.id (recomputed rules (matches rules output x)) db.records x k r (λ y. refl) there
        (recomputed-Follows rules (matches rules output x) x) here

-- A record that is there is still there after a request, with the same derivation, hashes included, by
-- the same agent, and its status has stayed, has been decided once, or has been superseded.
pub Step-keeps_derivations :
    {rules : Rules} {a b : Db} (k : ℕ) (r : DerivedRecord)
    → Step rules a b
    → record_at k a ≡ some r
    → (s : DerivedRecord) × (record_at k b ≡ some s) × Follows r s
unfolding record_derived recompute
Step-keeps_derivations {rules} {a} k r (derives x draft only) e =
    derives-Kept rules a k r e x draft (check_record rules x draft a)
Step-keeps_derivations {rules} {a} k r (reviews x accept words reviewer there) e =
    reviews-Kept rules a k r e x accept words reviewer there
Step-keeps_derivations {rules} {a} k r (recomputes x output method subject words there) e =
    recomputes-Kept rules a k r e (is_did subject (agent_did x a)) x output method subject words
      there
