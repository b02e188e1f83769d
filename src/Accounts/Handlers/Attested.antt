-- ===== src/Accounts/Handlers/Attested.antt =====
-- Who stands behind an entry that `add_entry` of backend/app/api/routes/ledger.py records.
use can_framework.Prelude.{
  ℕ, ◌≡◌, refl, ap, true, false, not, Option, none, some, List, [], ◌∷◌, ◌++◌, ◌&&◌, arith,
  Bool-cases, inl, inr,
}
use mathlib.Core.Path.{subst}
use can_framework.Prelude.Outcome.{Result, ok}
use can_framework.Prelude.Table.{first}
use can_framework.Accounts.Roles.{Role, Principal, User, has_any_role, has_subject, is_self}
use can_framework.Accounts.Ledgers.{
  LedgerType, LedgerEntry, RecordDb, LedgerDef, Draft, has_text, has_consent, new_entry,
  create_ledger_entry,
}
use can_framework.Accounts.Handlers.{
  Problem, LedgerEntryCreate, target_of, user_with, is_there, says, refused_if, check_entry,
  draft_of, add_checked, add_about, add_entry,
}

-- What may be relied on about an entry that was recorded.
pub record IsVouched (ledgers : LedgerType → LedgerDef) (who : Principal) (users : List User)
    (before : RecordDb) (e : LedgerEntry) : Type 0 where
  pub person : is_there (first (user_with e.user_id) users) ≡ true
  pub by : e.attester_subject ≡ some who.sub
  pub own : e.self_reported ≡ is_self (first (has_subject who.sub) users) e.user_id
  pub attester :
      e.self_reported ≡ false
      → (has_any_role who (Role.attester ∷ []) ≡ true) × (says e.evidence_ref ≡ true)
  pub known : has_text e.metric (ledgers e.ledger_type).metrics ≡ true
  pub consented :
      has_text e.metric (ledgers e.ledger_type).opt_in_required ≡ true
      → has_consent e.user_id e.metric before.consents ≡ true

-- What `create_ledger_entry` has checked when it returns.
record IsRecorded (ledgers : LedgerType → LedgerDef) (d : Draft) (before after : RecordDb)
    (e : LedgerEntry) : Type 0 where
  new : new_entry before.fresh d ≡ e
  kept : after.entries ≡ before.entries ++ e ∷ []
  known : has_text d.metric (ledgers d.ledger_type).metrics ≡ true
  consented :
      has_text d.metric (ledgers d.ledger_type).opt_in_required ≡ true
      → has_consent d.user_id d.metric before.consents ≡ true

create_ledger_entry-IsRecorded :
    (ledgers : LedgerType → LedgerDef) (d : Draft) (db : RecordDb) (e : LedgerEntry)
    → (refused_if (create_ledger_entry ledgers d db)).0 ≡ ok e
    → IsRecorded ledgers d db (refused_if (create_ledger_entry ledgers d db)).1 e
unfolding create_ledger_entry
create_ledger_entry-IsRecorded ledgers d db e h =
    elim (Bool-cases (has_text d.metric (ledgers d.ledger_type).metrics)) [
      | inr unknown ↦ absurd (ground arith)
      | inl known ↦
          elim (Bool-cases (
            has_text d.metric (ledgers d.ledger_type).opt_in_required
            && not (has_consent d.user_id d.metric db.consents))) [
              | inl stop ↦ absurd (ground arith)
              | inr free ↦
                  let same : new_entry db.fresh d ≡ e = ground arith in
                  record {
                    new = same;
                    kept = rw (known, free) (ap (λ x. db.entries ++ x ∷ []) same);
                    known = known;
                    consented = λ needs. ground arith;
                  }
            ]
    ]

-- What holds of an answer that went through.
abbrev pub Recorded :
    (LedgerType → LedgerDef)
    → Principal
    → List User
    → RecordDb
    → Result Problem LedgerEntry × RecordDb
    → LedgerEntry
    → Type 0
Recorded ledgers who users before answer e =
    IsVouched ledgers who users before e × (answer.1.entries ≡ before.entries ++ e ∷ [])

add_checked-Recorded :
    (ledgers : LedgerType → LedgerDef) (who : Principal) (users : List User) (target : ℕ)
    (payload : LedgerEntryCreate) (o : Option Problem) (db : RecordDb) (e : LedgerEntry)
    → let me = first (has_subject who.sub) users in
      let answer = add_checked ledgers (draft_of who me target payload) o db in
      check_entry who users me target payload.evidence_ref ≡ o
      → answer.0 ≡ ok e
      → Recorded ledgers who users db answer e
unfolding check_entry
add_checked-Recorded ledgers who users target payload (some p) db e checked h =
    absurd (ground arith)
add_checked-Recorded ledgers who users target payload none db e checked h =
    let me = first (has_subject who.sub) users in
    let d = draft_of who me target payload in
    let r = create_ledger_entry-IsRecorded ledgers d db e h in
    let person : is_there (first (user_with target) users) ≡ true = ground arith in
    let vouched : IsVouched ledgers who users db (new_entry db.fresh d) = record {
      person = person;
      by = refl;
      own = refl;
      attester = λ other. (ground arith, ground arith);
      known = r.known;
      consented = r.consented;
    } in
    (subst (IsVouched ledgers who users db) r.new vouched, r.kept)

add_about-Recorded :
    (ledgers : LedgerType → LedgerDef) (who : Principal) (users : List User)
    (payload : LedgerEntryCreate) (target : Option ℕ) (db : RecordDb) (e : LedgerEntry)
    → let me = first (has_subject who.sub) users in
      (add_about ledgers who users me payload target db).0 ≡ ok e
      → Recorded ledgers who users db (add_about ledgers who users me payload target db) e
add_about-Recorded ledgers who users payload none db e h = absurd (ground arith)
add_about-Recorded ledgers who users payload (some target) db e h =
    let me = first (has_subject who.sub) users in
    add_checked-Recorded ledgers who users target payload
      (check_entry who users me target payload.evidence_ref) db e refl h

-- An entry that a request records is about a person that there is, under the name of the one who asked, and
-- stands after the others; it counts as self-reported exactly where it is about the one who asked, and
-- else they are an attester and have given evidence; its metric is known, and where it needs consent, the
-- person had consented.
pub add_entry-IsVouched :
    (ledgers : LedgerType → LedgerDef) (who : Principal) (users : List User)
    (payload : LedgerEntryCreate) (db : RecordDb) (e : LedgerEntry)
    → let answer = add_entry ledgers who users payload db in
      answer.0 ≡ ok e → IsVouched ledgers who users db e × (answer.1.entries ≡ db.entries ++ e ∷ [])
unfolding add_entry
add_entry-IsVouched ledgers who users payload db e h =
    elim (Bool-cases (has_any_role who (Role.user ∷ Role.attester ∷ []))) [
      | inr stop ↦ absurd (ground arith)
      | inl may ↦ rw may (
          add_about-Recorded ledgers who users payload
            (target_of payload.user_id (first (has_subject who.sub) users)) db e (ground arith))
    ]
