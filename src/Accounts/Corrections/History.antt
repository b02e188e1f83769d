-- ===== src/Accounts/Corrections/History.antt =====
-- That corrections never overwrite history, and that an entry has one open dispute at most.
use can_framework.Prelude.{
  ℕ, ◌≡◌, refl, ap, sym, ◌∙◌, Bool, true, false, Option, none, some, List, [], ◌∷◌, ◌++◌, String,
  arith, Bool-cases, inl, inr,
}
use mathlib.Core.List.{append-nil}
use can_framework.Prelude.Table.{first, adjust, delete}
use can_framework.Money.{Amount}
use can_framework.Accounts.Ledgers.{LedgerEntry, EntryDispute, RecordDb, RecordError}
use can_framework.Accounts.Corrections.{
  entry_with, new_dispute, check_dispute, add_dispute, open_checked, open_dispute, Outcome,
  Resolution, check_resolution, superseded, fixed_entry, Labels, supersede, amend, resolve_checked,
  resolve_dispute, check_deletion, delete_checked, delete_self_reported,
}

-- The requests about disputes, on rows that the handlers have found.
pub data Step : RecordDb → RecordDb → Type 0 where
  opened :
      (entry : LedgerEntry) (me : ℕ) (reason : String) (proposed : Option Amount) (db : RecordDb)
      → Step db (open_dispute entry me reason proposed db).1
  settled :
      (l : Labels) (now : ℕ) (r : Resolution) (d : EntryDispute) (db : RecordDb)
      → Step db (resolve_dispute l now r d db).1
  withdrawn :
      (entry : LedgerEntry) (me : ℕ) (db : RecordDb)
      → first (entry_with entry.id) db.entries ≡ some entry
      → Step db (delete_self_reported entry me db).1

-- What an entry says, whether or not it still counts.
abbrev pub said : LedgerEntry → LedgerEntry
said e = record e { superseded_at = none; superseded_reason = none }

abbrev pub unless_own : Bool → LedgerEntry → List LedgerEntry → List LedgerEntry
unless_own true e es = es
unless_own false e es = e ∷ es

-- The record as others have attested it.
abbrev pub history : List LedgerEntry → List LedgerEntry
history [] = []
history (e ∷ es) = unless_own e.self_reported (said e) (history es)

unless_own-append :
    (own : Bool) (e : LedgerEntry) (xs ys : List LedgerEntry)
    → unless_own own e (xs ++ ys) ≡ unless_own own e xs ++ ys
unless_own-append true e xs ys = refl
unless_own-append false e xs ys = refl

history-append :
    (es : List LedgerEntry) (e : LedgerEntry)
    → e.self_reported ≡ false
    → history (es ++ e ∷ []) ≡ history es ++ said e ∷ []
history-append [] e h = ap (λ own. unless_own own (said e) []) h
history-append (x ∷ es) e h =
    ap (unless_own x.self_reported (said x)) (history-append es e h)
    ∙ unless_own-append x.self_reported (said x) (history es) (said e ∷ [])

history-adjust :
    (p : LedgerEntry → Bool) (now : ℕ) (reason : String) (es : List LedgerEntry)
    → history (adjust p (superseded now reason) es) ≡ history es
history-adjust p now reason [] = refl
history-adjust p now reason (x ∷ es) = elim (Bool-cases (p x)) [
  | inl here ↦ rw here refl
  | inr past ↦ rw past (ap (unless_own x.self_reported (said x)) (history-adjust p now reason es))
]

history-delete :
    (p : LedgerEntry → Bool) (es : List LedgerEntry) (e : LedgerEntry)
    → first p es ≡ some e
    → e.self_reported ≡ true
    → history (delete p es) ≡ history es
history-delete p [] e h own = refl
history-delete p (x ∷ es) e h own = elim (Bool-cases (p x)) [
  | inl here ↦
      let same : x ≡ e = ground arith in
      let mine : x.self_reported ≡ true = ap (λ (y : LedgerEntry). y.self_reported) same ∙ own in
      rw here (ap (λ b. unless_own b (said x) (history es)) (sym mine))
  | inr past ↦
      rw past (ap (unless_own x.self_reported (said x)) (history-delete p es e (ground arith) own))
]

-- The tables after a request: the history goes on from the history before.
abbrev pub GoesOn : RecordDb → RecordDb → Type 0
GoesOn db db' = (more : List LedgerEntry) × (history db'.entries ≡ history db.entries ++ more)

unchanged : (db db' : RecordDb) → history db'.entries ≡ history db.entries → GoesOn db db'
unchanged db db' e = ([], e ∙ sym (append-nil (history db.entries)))

amend-history :
    (l : Labels) (now : ℕ) (r : Resolution) (id : ℕ) (o : Outcome) (entry : Option LedgerEntry)
    (value : Option Amount) (db : RecordDb)
    → GoesOn db (amend l now r id o entry value db).1
amend-history l now r id Outcome.corrected (some e) (some value) db =
    let old =
      adjust (entry_with e.id) (superseded now (l.reason Outcome.corrected id)) db.entries in
    let new = fixed_entry db.fresh e value r.reviewer_subject (l.correction id) in
    (
      said new ∷ [],
      history-append old new refl
          ∙ ap (λ h. h ++ said new ∷ [])
              (history-adjust (entry_with e.id) now (l.reason Outcome.corrected id) db.entries),
    )
amend-history l now r id Outcome.corrected (some e) none db = unchanged db db refl
amend-history l now r id Outcome.corrected none value db = unchanged db db refl
amend-history l now r id Outcome.removed (some e) value db =
    unchanged db (supersede l now Outcome.removed id e db)
      (history-adjust (entry_with e.id) now (l.reason Outcome.removed id) db.entries)
amend-history l now r id Outcome.removed none value db = unchanged db db refl
amend-history l now r id Outcome.rejected entry value db = unchanged db db refl
amend-history l now r id Outcome.unknown entry value db = unchanged db db refl

resolve_checked-history :
    (l : Labels) (now : ℕ) (r : Resolution) (d : EntryDispute) (entry : Option LedgerEntry)
    (o : Option RecordError) (db : RecordDb)
    → GoesOn db (resolve_checked l now r d entry o db).1
resolve_checked-history l now r d entry (some e) db = unchanged db db refl
resolve_checked-history l now r d entry none db =
    amend-history l now r d.id r.outcome entry r.corrected_value db

open_checked-history :
    (d : EntryDispute) (o : Option RecordError) (db : RecordDb) → GoesOn db (open_checked d o db).1
open_checked-history d (some e) db = unchanged db db refl
open_checked-history d none db = unchanged db (add_dispute d db) refl

check_deletion-own :
    (entry : LedgerEntry) (me : ℕ) → check_deletion entry me ≡ none → entry.self_reported ≡ true
unfolding check_deletion
check_deletion-own entry me h = ground arith

delete_checked-history :
    (entry : LedgerEntry) (me : ℕ) (o : Option RecordError) (db : RecordDb)
    → check_deletion entry me ≡ o
    → first (entry_with entry.id) db.entries ≡ some entry
    → GoesOn db (delete_checked entry.id o db).1
delete_checked-history entry me (some e) db h found = unchanged db db refl
delete_checked-history entry me none db h found =
    unchanged db (record db { entries = delete (entry_with entry.id) db.entries })
      (history-delete (entry_with entry.id) db.entries entry found (check_deletion-own entry me h))

-- Whatever request about disputes comes, what others have attested of people is never changed or removed: the
-- entries that are attested are, but for the mark that they no longer count, those there were, in their
-- order, followed by new ones at most.
pub Step-GoesOn : {db db' : RecordDb} → Step db db' → GoesOn db db'
unfolding open_dispute resolve_dispute delete_self_reported
Step-GoesOn (opened entry me reason proposed db) =
    open_checked-history (new_dispute db.fresh entry me reason proposed)
      (check_dispute entry me db.disputes) db
Step-GoesOn (settled l now r d db) =
    resolve_checked-history l now r d (first (entry_with d.entry_id) db.entries)
      (check_resolution r d (first (entry_with d.entry_id) db.entries)) db
Step-GoesOn (withdrawn entry me db found) =
    delete_checked-history entry me (check_deletion entry me) db refl found
