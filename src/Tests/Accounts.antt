-- ===== src/Tests/Accounts.antt =====
-- A person's record with one attested entry: requests about disputes, and about consent.
use can_framework.Prelude.{◌≡◌, refl, true, false, none, some, [], ◌∷◌, ◌++◌, arith}
use can_framework.Money.{one}
use can_framework.Prelude.Int.{pos}
use can_framework.Accounts.Ledgers.{
  LedgerType, LedgerEntry, RecordDb, LedgerDef, has_consent, create_ledger_entry,
}
use can_framework.Accounts.Roles.{Role, Principal, User}
use can_framework.Accounts.Appeals.{AllocationRequest, RequestStatus, DecisionDb, create_appeal}
use can_framework.Accounts.Appeals.Independence.{IsIndependent, appealed, Step-IsIndependent}
use can_framework.Accounts.Handlers.{LedgerEntryCreate, add_entry}
use can_framework.Accounts.Handlers.Attested.{IsVouched, add_entry-IsVouched}
use can_framework.Accounts.Corrections.{open_dispute}
use can_framework.Accounts.Corrections.History.{opened, GoesOn, Step-GoesOn}
use can_framework.Accounts.Consent.{set_care_consent}
use can_framework.Accounts.Consent.Exact.{set_care_consent_exact}

abbrev entry : LedgerEntry
entry = record {
  id = 1;
  user_id = 5;
  ledger_type = LedgerType.care;
  metric = "dependents";
  value = pos one;
  evidence_ref = none;
  attester_subject = some "coop";
  self_reported = false;
  superseded_at = none;
  superseded_reason = none;
  supersedes_id = none;
}

abbrev db : RecordDb
db = record { entries = entry ∷ []; disputes = []; consents = []; fresh = 2 }

abbrev disputed : RecordDb
disputed = (open_dispute entry 5 "not so" (some (pos 0)) db).1

Step-GoesOn_example : GoesOn db disputed
Step-GoesOn_example = Step-GoesOn (opened entry 5 "not so" (some (pos 0)) db)

abbrev consented : RecordDb
consented = (set_care_consent ("dependents" ∷ []) 5 1 ("dependents" ∷ []) db).1

-- Consent that is given counts.
set_care_consent_exact_example : has_consent 5 "dependents" consented.consents ≡ true
set_care_consent_exact_example =
    ((set_care_consent_exact ("dependents" ∷ []) 5 1 ("dependents" ∷ []) db).1 refl).0 "dependents"

abbrev declined : AllocationRequest
declined = record {
  id = 3;
  user_id = 5;
  pool = "housing";
  description = "a room";
  status = RequestStatus.declined;
  priority_score = some (pos one);
  score_snapshot_id = some 1;
  decided_by = some "reviewer";
  decided_at = some 2;
  decision_reason = some "full";
}

abbrev ann : User
ann = record { id = 5; subject = "ann" }

abbrev decisions : DecisionDb
decisions = record { users = ann ∷ []; requests = declined ∷ []; appeals = []; fresh = 4 }

decisions-IsIndependent : IsIndependent decisions
decisions-IsIndependent = record {
  requests = (refl, tt);
  appeals = tt;
  one_open = λ request_id. ground arith;
}

Step-IsIndependent_example : IsIndependent (create_appeal 5 3 "there is room" decisions).1
Step-IsIndependent_example =
    Step-IsIndependent (appealed 5 3 "there is room" decisions) decisions-IsIndependent

abbrev ledgers : LedgerType → LedgerDef
ledgers t = record { metrics = "hours" ∷ []; opt_in_required = [] }

abbrev payload : LedgerEntryCreate
payload = record {
  user_id = none;
  ledger_type = LedgerType.contribution;
  metric = "hours";
  value = pos one;
  evidence_ref = none;
}

abbrev person : Principal
person = record { sub = "ann"; roles = Role.user ∷ [] }

abbrev own_entry : LedgerEntry
own_entry = record {
  id = 2;
  user_id = 5;
  ledger_type = LedgerType.contribution;
  metric = "hours";
  value = pos one;
  evidence_ref = none;
  attester_subject = some "ann";
  self_reported = true;
  superseded_at = none;
  superseded_reason = none;
  supersedes_id = none;
}

add_entry-IsVouched_example :
    IsVouched ledgers person (ann ∷ []) db own_entry
    × ((add_entry ledgers person (ann ∷ []) payload db).1.entries ≡ db.entries ++ own_entry ∷ [])
unfolding add_entry create_ledger_entry
add_entry-IsVouched_example =
    add_entry-IsVouched ledgers person (ann ∷ []) payload db own_entry refl
