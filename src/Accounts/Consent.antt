-- ===== src/Accounts/Consent.antt =====
-- backend/app/services/care_consent.py: explicit, revocable consent to sensitive factors of care.
pub mod Exact
use can_framework.Prelude.{
  ℕ, suc, ◌+◌, ◌-◌, Bool, true, false, not, Option, none, some, List, [], ◌∷◌, ◌++◌, String, str_eq,
  ◌==◌, ◌&&◌, ◌||◌, if◌then◌else◌,
}
use can_framework.Prelude.Outcome.{Result, ok, err}
use can_framework.Prelude.Table.{length, select}
use can_framework.Accounts.Ledgers.{
  LedgerType, LedgerEntry, EntryDispute, CareConsent, RecordDb, RecordError, has_text, is_null,
}

abbrev pub all_known : List String → List String → Bool
all_known known [] = true
all_known known (f ∷ fs) = has_text f known && all_known known fs

abbrev pub about : ℕ → String → CareConsent → Bool
about user_id factor c = c.user_id == user_id && str_eq c.factor factor

abbrev pub granted : ℕ → CareConsent → CareConsent
granted now c = if is_null c.revoked_at then c else record c { revoked_at = none; granted_at = now }

-- One round of the loop over the factors: a new row, or the row there is, in force again.
unfoldable pub grant : ℕ → ℕ → String → List CareConsent → List CareConsent
grant user_id now factor [] =
    record { user_id = user_id; factor = factor; granted_at = now; revoked_at = none } ∷ []
grant user_id now factor (c ∷ cs) =
    if about user_id factor c then granted now c ∷ cs else c ∷ grant user_id now factor cs

unfoldable pub grant_all : ℕ → ℕ → List String → List CareConsent → List CareConsent
grant_all user_id now [] cs = cs
grant_all user_id now (f ∷ fs) cs = grant_all user_id now fs (grant user_id now f cs)

-- A row in force of which the factor is not wanted any more.
abbrev pub ends : ℕ → List String → CareConsent → Bool
ends user_id factors c =
    c.user_id == user_id && (not (has_text c.factor factors) && is_null c.revoked_at)

abbrev pub ended : ℕ → ℕ → List String → CareConsent → CareConsent
ended user_id now factors c =
    if ends user_id factors c then record c { revoked_at = some now } else c

unfoldable pub revoke_all : ℕ → ℕ → List String → List CareConsent → List CareConsent
revoke_all user_id now factors [] = []
revoke_all user_id now factors (c ∷ cs) =
    ended user_id now factors c ∷ revoke_all user_id now factors cs

abbrev pub revoked_factors : ℕ → List String → List CareConsent → List String
revoked_factors user_id factors [] = []
revoked_factors user_id factors (c ∷ cs) =
    let rest = revoked_factors user_id factors cs in
    if ends user_id factors c then c.factor ∷ rest else rest

abbrev pub is_care : LedgerType → Bool
is_care LedgerType.care = true
is_care _ = false

-- An entry about a factor that is revoked.
abbrev pub falls : ℕ → List String → LedgerEntry → Bool
falls user_id revoked e =
    e.user_id == user_id && (is_care e.ledger_type && has_text e.metric revoked)

abbrev pub stays : ℕ → List String → LedgerEntry → Bool
stays user_id revoked e = not (falls user_id revoked e)

abbrev pub has_id : ℕ → List LedgerEntry → Bool
has_id id [] = false
has_id id (e ∷ es) = e.id == id || has_id id es

-- A dispute about an entry that is kept.
abbrev pub still_about : List LedgerEntry → EntryDispute → Bool
still_about fallen d = not (has_id d.entry_id fallen)

pub record ConsentAnswer : Type 0 where
  pub revoked : List String
  pub entries_deleted : ℕ

abbrev pub with_consents : ℕ → ℕ → List String → List String → RecordDb → RecordDb
with_consents user_id now factors revoked db = record db {
  consents = revoke_all user_id now factors (grant_all user_id now factors db.consents);
  entries = select (stays user_id revoked) db.entries;
  disputes = select (still_about (select (falls user_id revoked) db.entries)) db.disputes;
}

-- `known` are the factors of care that need consent.
unfoldable pub set_care_consent :
    List String → ℕ → ℕ → List String → RecordDb → Result RecordError ConsentAnswer × RecordDb
unfolding grant_all revoke_all
set_care_consent known user_id now factors db =
    let revoked = revoked_factors user_id factors db.consents in
    if not (all_known known factors) then (err RecordError.unknown_factor, db) else (
      ok (record {
        revoked = revoked;
        entries_deleted = length (select (falls user_id revoked) db.entries);
      }),
      with_consents user_id now factors revoked db,
    )
