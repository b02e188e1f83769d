-- ===== src/Accounts/Handlers.antt =====
-- The handlers of backend/app/api/routes/ledger.py: entries about people, and disputes about them. The
-- people that there are, in `users`, do not change here.
pub mod Attested
use can_framework.Prelude.{
  ℕ, Bool, true, false, not, Option, none, some, List, [], ◌∷◌, String, str_eq, ◌==◌, ◌&&◌, ◌||◌,
  if◌then◌else◌,
}
use can_framework.Prelude.Outcome.{Result, ok, err}
use can_framework.Prelude.Table.{first, select}
use can_framework.Money.{Amount}
use can_framework.Accounts.Roles.{
  Role, Principal, User, has_any_role, has_subject, is_self, can_view_user, is_reviewer,
}
use can_framework.Accounts.Ledgers.{
  LedgerType, LedgerEntry, EntryDispute, DisputeStatus, RecordDb, LedgerDef, RecordError, Draft,
  create_ledger_entry,
}
use can_framework.Accounts.Corrections.{
  entry_with, dispute_with, Outcome, Resolution, Labels, open_dispute, resolve_dispute,
  delete_self_reported,
}

-- What a request is answered with that does not go through.
pub data Problem : Type 0 where
  insufficient_role no_profile not_found needs_attester needs_evidence not_allowed : Problem
  refused : RecordError → Problem

pub record LedgerEntryCreate : Type 0 where
  pub user_id : Option ℕ
  pub ledger_type : LedgerType
  pub metric : String
  pub value : Amount
  pub evidence_ref : Option String

-- `payload.user_id or (me.id if me else None)`
abbrev pub target_of : Option ℕ → Option User → Option ℕ
target_of (some id) me = some id
target_of none none = none
target_of none (some u) = some u.id

abbrev pub user_with : ℕ → User → Bool
user_with id u = u.id == id

abbrev pub is_there : Option User → Bool
is_there none = false
is_there (some u) = true

abbrev pub says : Option String → Bool
says none = false
says (some s) = not (str_eq s "")

abbrev pub refused_if : {A : Type 0} → Result RecordError A × RecordDb → Result Problem A × RecordDb
refused_if (ok a, db) = (ok a, db)
refused_if (err e, db) = (err (refused e), db)

-- The guards of `add_entry` about the person that the entry is about.
unfoldable pub check_entry :
    Principal → List User → Option User → ℕ → Option String → Option Problem
check_entry who users me target evidence =
    if not (is_there (first (user_with target) users))
    then some not_found
    else if is_self me target
    then none
    else if not (has_any_role who (Role.attester ∷ []))
    then some needs_attester
    else if not (says evidence)
    then some needs_evidence
    else none

abbrev pub draft_of : Principal → Option User → ℕ → LedgerEntryCreate → Draft
draft_of who me target payload = record {
  user_id = target;
  ledger_type = payload.ledger_type;
  metric = payload.metric;
  value = payload.value;
  evidence_ref = payload.evidence_ref;
  attester_subject = who.sub;
  self_reported = is_self me target;
}

abbrev pub add_checked :
    (LedgerType → LedgerDef)
    → Draft
    → Option Problem
    → RecordDb
    → Result Problem LedgerEntry × RecordDb
add_checked ledgers d (some p) db = (err p, db)
add_checked ledgers d none db = refused_if (create_ledger_entry ledgers d db)

abbrev pub add_about :
    (LedgerType → LedgerDef)
    → Principal
    → List User
    → Option User
    → LedgerEntryCreate
    → Option ℕ
    → RecordDb
    → Result Problem LedgerEntry × RecordDb
add_about ledgers who users me payload none db = (err no_profile, db)
add_about ledgers who users me payload (some target) db =
    add_checked ledgers (draft_of who me target payload)
      (check_entry who users me target payload.evidence_ref) db

unfoldable pub add_entry :
    (LedgerType → LedgerDef)
    → Principal
    → List User
    → LedgerEntryCreate
    → RecordDb
    → Result Problem LedgerEntry × RecordDb
unfolding check_entry
add_entry ledgers who users payload db =
    let me = first (has_subject who.sub) users in
    if not (has_any_role who (Role.user ∷ Role.attester ∷ []))
    then (err insufficient_role, db)
    else add_about ledgers who users me payload (target_of payload.user_id me) db

-- `me` is the person who asks, whose profile `get_current_user` has found.
unfoldable pub delete_entry : ℕ → ℕ → RecordDb → Result Problem (Unit {0}) × RecordDb
delete_entry entry_id me db = elim (first (entry_with entry_id) db.entries) [
  | none ↦ (err not_found, db)
  | some entry ↦ refused_if (delete_self_reported entry me db)
]

unfoldable pub dispute_entry :
    ℕ → ℕ → String → Option Amount → RecordDb → Result Problem EntryDispute × RecordDb
dispute_entry entry_id me reason proposed_value db = elim (first (entry_with entry_id) db.entries) [
  | none ↦ (err not_found, db)
  | some entry ↦ refused_if (open_dispute entry me reason proposed_value db)
]

abbrev pub same_status : DisputeStatus → DisputeStatus → Bool
same_status DisputeStatus.open_dispute DisputeStatus.open_dispute = true
same_status DisputeStatus.corrected DisputeStatus.corrected = true
same_status DisputeStatus.removed DisputeStatus.removed = true
same_status DisputeStatus.rejected DisputeStatus.rejected = true
same_status _ _ = false

abbrev pub has_status : Option DisputeStatus → EntryDispute → Bool
has_status none d = true
has_status (some s) d = same_status d.status s

unfoldable pub list_disputes :
    Principal → Option DisputeStatus → RecordDb → Result Problem (List EntryDispute)
list_disputes who status db =
    if has_any_role who (Role.reviewer ∷ Role.admin ∷ Role.auditor ∷ [])
    then ok (select (has_status status) db.disputes)
    else err insufficient_role

abbrev pub dispute_for : Principal → Option User → Option EntryDispute → Result Problem EntryDispute
dispute_for who me none = err not_found
dispute_for who me (some d) = if can_view_user who me d.user_id then ok d else err not_allowed

unfoldable pub get_dispute : Principal → List User → ℕ → RecordDb → Result Problem EntryDispute
get_dispute who users dispute_id db =
    if not (has_any_role who (Role.user ∷ Role.attester ∷ []))
    then err insufficient_role
    else dispute_for who (first (has_subject who.sub) users)
        (first (dispute_with dispute_id) db.disputes)

-- DisputeResolveIn
pub record DisputeResolveIn : Type 0 where
  pub outcome : Outcome
  pub note : String
  pub corrected_value : Option Amount

abbrev pub id_of : Option User → Option ℕ
id_of none = none
id_of (some u) = some u.id

abbrev pub resolution : Principal → Option User → DisputeResolveIn → Resolution
resolution who me payload = record {
  outcome = payload.outcome;
  note = payload.note;
  corrected_value = payload.corrected_value;
  reviewer_subject = who.sub;
  reviewer_user_id = id_of me;
}

unfoldable pub resolve :
    Labels
    → ℕ
    → Principal
    → List User
    → ℕ
    → DisputeResolveIn
    → RecordDb
    → Result Problem (Unit {0}) × RecordDb
resolve l now who users dispute_id payload db =
    if not (is_reviewer who)
    then (err insufficient_role, db)
    else elim (first (dispute_with dispute_id) db.disputes) [
      | none ↦ (err not_found, db)
      | some d ↦
          refused_if (
            resolve_dispute l now (resolution who (first (has_subject who.sub) users) payload) d db)
    ]

abbrev pub is_about : ℕ → LedgerEntry → Bool
is_about user_id e = e.user_id == user_id

unfoldable pub list_entries :
    Principal → List User → ℕ → RecordDb → Result Problem (List LedgerEntry)
list_entries who users user_id db =
    if not (has_any_role who (Role.user ∷ Role.attester ∷ []))
    then err insufficient_role
    else if can_view_user who (first (has_subject who.sub) users) user_id
    then ok (select (is_about user_id) db.entries)
    else err not_allowed
