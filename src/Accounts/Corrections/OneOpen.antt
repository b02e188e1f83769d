-- ===== src/Accounts/Corrections/OneOpen.antt =====
-- That an entry has one open dispute at most.
use can_framework.Prelude.{
  ℕ, ◌≤◌, ◌≡◌, refl, sym, Bool, false, Option, none, some, List, [], ◌∷◌, String, ◌==◌, arith,
  Bool-cases, inl, inr,
}
use mathlib.Core.Path.{subst}
use native.Mathlib.Nat.{le_trans}
use can_framework.Prelude.Table.{first}
use can_framework.Prelude.Count.{count, count-append, count-adjust}
use can_framework.Money.{Amount}
use can_framework.Accounts.Ledgers.{LedgerEntry, EntryDispute, RecordDb, RecordError}
use can_framework.Accounts.Corrections.{
  entry_with, is_open, open_about, is_there, new_dispute, check_dispute, open_checked, open_dispute,
  Outcome, Resolution, check_resolution, Labels, amend, status_of, resolved, dispute_with,
  resolve_checked, resolve_dispute, check_deletion, delete_checked, delete_self_reported,
}
use can_framework.Accounts.Corrections.History.{Step, opened, settled, withdrawn}

-- An entry has one open dispute at most.
abbrev pub OneOpen : RecordDb → Type 0
OneOpen db = (entry_id : ℕ) → count (open_about entry_id) db.disputes ≤ 1

count-none :
    (p : EntryDispute → Bool) (ds : List EntryDispute)
    → is_there (first p ds) ≡ false
    → count p ds ≡ 0
count-none p [] h = refl
count-none p (d ∷ ds) h = ground (arith, count-none p ds)

check_dispute-new :
    (entry : LedgerEntry) (me : ℕ) (ds : List EntryDispute)
    → check_dispute entry me ds ≡ none
    → is_there (first (open_about entry.id) ds) ≡ false
unfolding check_dispute
check_dispute-new entry me ds h = ground arith

open_checked-OneOpen :
    (entry : LedgerEntry) (me id : ℕ) (reason : String) (proposed : Option Amount)
    (o : Option RecordError) (db : RecordDb)
    → check_dispute entry me db.disputes ≡ o
    → OneOpen db
    → OneOpen (open_checked (new_dispute id entry me reason proposed) o db).1
open_checked-OneOpen entry me id reason proposed (some e) db h one entry_id = one entry_id
open_checked-OneOpen entry me id reason proposed none db h one entry_id =
    let d = new_dispute id entry me reason proposed in
    let more = count-append (open_about entry_id) db.disputes d in
    let new =
      count-none (open_about entry.id) db.disputes (check_dispute-new entry me db.disputes h) in
    elim (Bool-cases (entry.id == entry_id)) [
      | inl mine ↦
          let same : entry.id ≡ entry_id = ground arith in
          let before : count (open_about entry_id) db.disputes ≡ 0 =
            subst (λ (i : ℕ). count (open_about i) db.disputes ≡ 0) same new in
          rw more (ground arith)
      | inr other ↦ rw more (ground (arith, one entry_id))
    ]

check_resolution-closes :
    (r : Resolution) (d : EntryDispute) (entry : Option LedgerEntry)
    → check_resolution r d entry ≡ none
    → is_open (status_of r.outcome) ≡ false
unfolding check_resolution
check_resolution-closes r d entry h = ground arith

amend-disputes :
    (l : Labels) (now : ℕ) (r : Resolution) (id : ℕ) (o : Outcome) (entry : Option LedgerEntry)
    (value : Option Amount) (db : RecordDb)
    → (amend l now r id o entry value db).1.disputes ≡ db.disputes
amend-disputes l now r id Outcome.corrected (some e) (some value) db = refl
amend-disputes l now r id Outcome.corrected (some e) none db = refl
amend-disputes l now r id Outcome.corrected none value db = refl
amend-disputes l now r id Outcome.removed (some e) value db = refl
amend-disputes l now r id Outcome.removed none value db = refl
amend-disputes l now r id Outcome.rejected entry value db = refl
amend-disputes l now r id Outcome.unknown entry value db = refl

resolve_checked-OneOpen :
    (l : Labels) (now : ℕ) (r : Resolution) (d : EntryDispute) (entry : Option LedgerEntry)
    (o : Option RecordError) (db : RecordDb)
    → check_resolution r d entry ≡ o
    → OneOpen db
    → OneOpen (resolve_checked l now r d entry o db).1
resolve_checked-OneOpen l now r d entry (some e) db h one entry_id = one entry_id
resolve_checked-OneOpen l now r d entry none db h one entry_id =
    let amended = amend l now r d.id r.outcome entry r.corrected_value db in
    let closed = check_resolution-closes r d entry h in
    let fewer =
      count-adjust (open_about entry_id) (dispute_with d.id) (resolved now r amended.0)
        amended.1.disputes (λ x still. ground arith) in
    le_trans fewer (
      subst (λ ds. count (open_about entry_id) ds ≤ 1)
        (sym (amend-disputes l now r d.id r.outcome entry r.corrected_value db)) (one entry_id))

delete_checked-OneOpen :
    (id : ℕ) (o : Option RecordError) (db : RecordDb)
    → OneOpen db
    → OneOpen (delete_checked id o db).1
delete_checked-OneOpen id (some e) db one = one
delete_checked-OneOpen id none db one = one

-- Where no entry has more than one open dispute, none has after any request about disputes.
pub Step-OneOpen : {db db' : RecordDb} → Step db db' → OneOpen db → OneOpen db'
unfolding open_dispute resolve_dispute delete_self_reported
Step-OneOpen (opened entry me reason proposed db) one =
    open_checked-OneOpen entry me db.fresh reason proposed (check_dispute entry me db.disputes) db
      refl one
Step-OneOpen (settled l now r d db) one =
    resolve_checked-OneOpen l now r d (first (entry_with d.entry_id) db.entries)
      (check_resolution r d (first (entry_with d.entry_id) db.entries)) db refl one
Step-OneOpen (withdrawn entry me db found) one =
    delete_checked-OneOpen entry.id (check_deletion entry me) db one
