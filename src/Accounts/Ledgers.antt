-- ===== src/Accounts/Ledgers.antt =====
-- The rows of backend/app/db/models.py about a person's record, and `create_ledger_entry` of
-- backend/app/services/ledger.py.
use can_framework.Prelude.{
  ℕ, suc, Bool, true, false, not, Option, none, some, List, [], ◌∷◌, ◌++◌, String, str_eq, ◌==◌,
  ◌&&◌, ◌||◌, if◌then◌else◌,
}
use can_framework.Prelude.Outcome.{Result, ok, err}
use can_framework.Money.{Amount}

pub data LedgerType : Type 0 where
  contribution reliability care : LedgerType

pub record LedgerEntry : Type 0 where
  pub id : ℕ
  pub user_id : ℕ
  pub ledger_type : LedgerType
  pub metric : String
  pub value : Amount
  pub evidence_ref : Option String
  pub attester_subject : Option String
  pub self_reported : Bool
  pub superseded_at : Option ℕ
  pub superseded_reason : Option String
  pub supersedes_id : Option ℕ

pub data DisputeStatus : Type 0 where
  open_dispute corrected removed rejected : DisputeStatus

pub record EntryDispute : Type 0 where
  pub id : ℕ
  pub entry_id : ℕ
  pub user_id : ℕ
  pub reason : String
  pub proposed_value : Option Amount
  pub status : DisputeStatus
  pub resolved_by : Option String
  pub resolved_at : Option ℕ
  pub resolution_note : Option String
  pub corrected_entry_id : Option ℕ

pub record CareConsent : Type 0 where
  pub user_id : ℕ
  pub factor : String
  pub granted_at : ℕ
  pub revoked_at : Option ℕ

pub record RecordDb : Type 0 where
  pub entries : List LedgerEntry
  pub disputes : List EntryDispute
  pub consents : List CareConsent
  pub fresh : ℕ

-- A ledger of the configuration: its metrics, and those that need consent.
pub record LedgerDef : Type 0 where
  pub metrics : List String
  pub opt_in_required : List String

abbrev pub has_text : String → List String → Bool
has_text s [] = false
has_text s (x ∷ xs) = str_eq x s || has_text s xs

abbrev pub is_null : Option ℕ → Bool
is_null none = true
is_null (some t) = false

abbrev pub consents_to : ℕ → String → CareConsent → Bool
consents_to user_id factor c =
    c.user_id == user_id && str_eq c.factor factor && is_null c.revoked_at

-- Whether a factor is in `active_consented_factors`.
unfoldable pub has_consent : ℕ → String → List CareConsent → Bool
has_consent user_id factor [] = false
has_consent user_id factor (c ∷ cs) = consents_to user_id factor c || has_consent user_id factor cs

pub data RecordError : Type 0 where
  unknown_metric consent_required : RecordError
  not_yours superseded self_reported already_open : RecordError
  bad_outcome already_resolved own_dispute own_attestation no_value attested : RecordError
  unknown_factor : RecordError

pub record Draft : Type 0 where
  pub user_id : ℕ
  pub ledger_type : LedgerType
  pub metric : String
  pub value : Amount
  pub evidence_ref : Option String
  pub attester_subject : String
  pub self_reported : Bool

abbrev pub new_entry : ℕ → Draft → LedgerEntry
new_entry id d = record {
  id = id;
  user_id = d.user_id;
  ledger_type = d.ledger_type;
  metric = d.metric;
  value = d.value;
  evidence_ref = d.evidence_ref;
  attester_subject = some d.attester_subject;
  self_reported = d.self_reported;
  superseded_at = none;
  superseded_reason = none;
  supersedes_id = none;
}

unfoldable pub create_ledger_entry :
    (LedgerType → LedgerDef) → Draft → RecordDb → Result RecordError LedgerEntry × RecordDb
unfolding has_consent
create_ledger_entry ledgers d db =
    let ledger = ledgers d.ledger_type in
    if not (has_text d.metric ledger.metrics)
    then (err RecordError.unknown_metric, db)
    else if has_text d.metric ledger.opt_in_required
        && not (has_consent d.user_id d.metric db.consents)
    then (err RecordError.consent_required, db)
    else (
      ok (new_entry db.fresh d),
      record db { entries = db.entries ++ new_entry db.fresh d ∷ []; fresh = suc db.fresh },
    )
