-- ===== src/Accounts/Corrections.antt =====
-- backend/app/services/corrections.py: disputes about entries of a person's record.
pub mod History
pub mod OneOpen
use can_framework.Prelude.{
  ℕ, suc, Bool, true, false, not, Option, none, some, List, [], ◌∷◌, ◌++◌, String, str_eq, ◌==◌,
  ◌&&◌, ◌||◌, if◌then◌else◌,
}
use can_framework.Prelude.Outcome.{Result, ok, err}
use can_framework.Prelude.Table.{first, select, adjust, delete}
use can_framework.Money.{Amount}
use can_framework.Accounts.Ledgers.{
  LedgerEntry, EntryDispute, DisputeStatus, RecordDb, RecordError, is_null,
}

abbrev pub entry_with : ℕ → LedgerEntry → Bool
entry_with id e = e.id == id

abbrev pub is_open : DisputeStatus → Bool
is_open DisputeStatus.open_dispute = true
is_open _ = false

abbrev pub open_about : ℕ → EntryDispute → Bool
open_about entry_id d = d.entry_id == entry_id && is_open d.status

abbrev pub is_there : Option EntryDispute → Bool
is_there none = false
is_there (some d) = true

abbrev pub new_dispute : ℕ → LedgerEntry → ℕ → String → Option Amount → EntryDispute
new_dispute id entry me reason proposed_value = record {
  id = id;
  entry_id = entry.id;
  user_id = me;
  reason = reason;
  proposed_value = proposed_value;
  status = DisputeStatus.open_dispute;
  resolved_by = none;
  resolved_at = none;
  resolution_note = none;
  corrected_entry_id = none;
}

-- The guards of `open_dispute`, in their order; `none` where it goes on.
unfoldable pub check_dispute : LedgerEntry → ℕ → List EntryDispute → Option RecordError
check_dispute entry me disputes =
    if not (entry.user_id == me)
    then some RecordError.not_yours
    else if not (is_null entry.superseded_at)
    then some RecordError.superseded
    else if entry.self_reported
    then some RecordError.self_reported
    else if is_there (first (open_about entry.id) disputes)
    then some RecordError.already_open
    else none

abbrev pub add_dispute : EntryDispute → RecordDb → RecordDb
add_dispute d db = record db { disputes = db.disputes ++ d ∷ []; fresh = suc db.fresh }

abbrev pub open_checked :
    EntryDispute → Option RecordError → RecordDb → Result RecordError EntryDispute × RecordDb
open_checked d (some e) db = (err e, db)
open_checked d none db = (ok d, add_dispute d db)

-- `entry` is the row that the handler found.
unfoldable pub open_dispute :
    LedgerEntry → ℕ → String → Option Amount → RecordDb → Result RecordError EntryDispute × RecordDb
unfolding check_dispute
open_dispute entry me reason proposed_value db =
    open_checked (new_dispute db.fresh entry me reason proposed_value)
      (check_dispute entry me db.disputes) db

-- OUTCOMES; any other word is refused.
pub data Outcome : Type 0 where
  corrected removed rejected : Outcome
  unknown : Outcome

pub record Resolution : Type 0 where
  pub outcome : Outcome
  pub note : String
  pub corrected_value : Option Amount
  pub reviewer_subject : String
  pub reviewer_user_id : Option ℕ

abbrev pub is_person : Option ℕ → ℕ → Bool
is_person none id = false
is_person (some me) id = me == id

abbrev pub attested_by : String → Option LedgerEntry → Bool
attested_by subject none = false
attested_by subject (some e) = elim e.attester_subject [ none ↦ false | some s ↦ str_eq s subject ]

abbrev pub is_unknown : Outcome → Bool
is_unknown Outcome.unknown = true
is_unknown _ = false

abbrev pub lacks_value : Outcome → Option Amount → Bool
lacks_value Outcome.corrected none = true
lacks_value _ _ = false

-- The guards of `resolve_dispute`, in their order; `none` where it goes on.
unfoldable pub check_resolution :
    Resolution → EntryDispute → Option LedgerEntry → Option RecordError
check_resolution r d entry =
    if is_unknown r.outcome
    then some RecordError.bad_outcome
    else if not (is_open d.status)
    then some RecordError.already_resolved
    else if is_person r.reviewer_user_id d.user_id
    then some RecordError.own_dispute
    else if attested_by r.reviewer_subject entry
    then some RecordError.own_attestation
    else if lacks_value r.outcome r.corrected_value
    then some RecordError.no_value
    else none

abbrev pub superseded : ℕ → String → LedgerEntry → LedgerEntry
superseded now reason e = record e { superseded_at = some now; superseded_reason = some reason }

abbrev pub fixed_entry : ℕ → LedgerEntry → Amount → String → String → LedgerEntry
fixed_entry id e corrected_value reviewer ref = record {
  id = id;
  user_id = e.user_id;
  ledger_type = e.ledger_type;
  metric = e.metric;
  value = corrected_value;
  evidence_ref = some ref;
  attester_subject = some reviewer;
  self_reported = false;
  superseded_at = none;
  superseded_reason = none;
  supersedes_id = some e.id;
}

-- The texts that the code makes of the id of a dispute: the reason, and the reference of a correction.
pub record Labels : Type 0 where
  pub reason : Outcome → ℕ → String
  pub correction : ℕ → String

abbrev pub supersede : Labels → ℕ → Outcome → ℕ → LedgerEntry → RecordDb → RecordDb
supersede l now outcome dispute_id e db = record db {
  entries = adjust (entry_with e.id) (superseded now (l.reason outcome dispute_id)) db.entries;
}

abbrev pub add_fixed : Labels → Resolution → ℕ → LedgerEntry → Amount → RecordDb → RecordDb
add_fixed l r dispute_id e value db = record db {
  entries =
      db.entries ++ fixed_entry db.fresh e value r.reviewer_subject (l.correction dispute_id) ∷ [];
  fresh = suc db.fresh;
}

-- What becomes of the entry: the tables, and the id of the corrected entry.
abbrev pub amend :
    Labels
    → ℕ
    → Resolution
    → ℕ
    → Outcome
    → Option LedgerEntry
    → Option Amount
    → RecordDb
    → Option ℕ × RecordDb
amend l now r dispute_id Outcome.corrected (some e) (some value) db = (
  some db.fresh,
  add_fixed l r dispute_id e value (supersede l now Outcome.corrected dispute_id e db),
)
amend l now r dispute_id Outcome.removed (some e) value db =
    (none, supersede l now Outcome.removed dispute_id e db)
amend l now r dispute_id outcome entry value db = (none, db)

abbrev pub status_of : Outcome → DisputeStatus
status_of Outcome.corrected = DisputeStatus.corrected
status_of Outcome.removed = DisputeStatus.removed
status_of Outcome.rejected = DisputeStatus.rejected
status_of Outcome.unknown = DisputeStatus.open_dispute

abbrev pub or_kept : Option ℕ → Option ℕ → Option ℕ
or_kept none old = old
or_kept (some id) old = some id

abbrev pub resolved : ℕ → Resolution → Option ℕ → EntryDispute → EntryDispute
resolved now r fixed d = record d {
  status = status_of r.outcome;
  resolution_note = some r.note;
  resolved_by = some r.reviewer_subject;
  resolved_at = some now;
  corrected_entry_id = or_kept fixed d.corrected_entry_id;
}

abbrev pub dispute_with : ℕ → EntryDispute → Bool
dispute_with id d = d.id == id

abbrev pub close_dispute : ℕ → Resolution → ℕ → Option ℕ × RecordDb → RecordDb
close_dispute now r dispute_id (fixed, db) = record db {
  disputes = adjust (dispute_with dispute_id) (resolved now r fixed) db.disputes;
}

abbrev pub resolve_checked :
    Labels
    → ℕ
    → Resolution
    → EntryDispute
    → Option LedgerEntry
    → Option RecordError
    → RecordDb
    → Result RecordError (Unit {0}) × RecordDb
resolve_checked l now r d entry (some e) db = (err e, db)
resolve_checked l now r d entry none db =
    (ok tt, close_dispute now r d.id (amend l now r d.id r.outcome entry r.corrected_value db))

-- `dispute` is the row that the handler found.
unfoldable pub resolve_dispute :
    Labels → ℕ → Resolution → EntryDispute → RecordDb → Result RecordError (Unit {0}) × RecordDb
unfolding check_resolution
resolve_dispute l now r d db =
    let entry = first (entry_with d.entry_id) db.entries in
    resolve_checked l now r d entry (check_resolution r d entry) db

-- The guards of `delete_self_reported`.
unfoldable pub check_deletion : LedgerEntry → ℕ → Option RecordError
check_deletion entry me =
    if not (entry.user_id == me)
    then some RecordError.not_yours
    else if not entry.self_reported
    then some RecordError.attested
    else none

abbrev pub delete_checked :
    ℕ → Option RecordError → RecordDb → Result RecordError (Unit {0}) × RecordDb
delete_checked id (some e) db = (err e, db)
delete_checked id none db = (ok tt, record db { entries = delete (entry_with id) db.entries })

unfoldable pub delete_self_reported :
    LedgerEntry → ℕ → RecordDb → Result RecordError (Unit {0}) × RecordDb
unfolding check_deletion
delete_self_reported entry me db = delete_checked entry.id (check_deletion entry me) db
