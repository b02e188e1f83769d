-- ===== src/Bridge/Mandates.antt =====
-- The handlers of mandates and of payments by agents in backend/app/bridge/routes.py.
pub mod Revocation
use can_framework.Prelude.{
  ℕ, ◌+◌, ◌*◌, Bool, true, false, not, Option, none, some, List, [], ◌∷◌, ◌++◌, String, ◌==◌,
  if◌then◌else◌,
}
use can_framework.Prelude.Int.{pos}
use can_framework.Prelude.Table.{first, adjust}
use can_framework.Prelude.Outcome.{
  Result, ok, err, Action, pure, raise, gets, or_raise, raise_if, save, ◌>>=◌, ◌>>◌,
}
use can_framework.Money.{Amount}
use can_framework.Agents.Records.{Agent, AgentStatus}
use can_framework.Agents.Review.{agent_with}
use can_framework.Bridge.Records.{
  PaymentMandate, MandateStatus, AgentPayment, PaymentStatus, Refusal, TransactionBody, Db, Error,
}
use can_framework.Bridge.Payments.{Order, mandate_with, mem_id, pay}

-- The status codes of the answers, with what they say; `raised` is an error that no handler catches.
pub data HttpError : Type 0 where
  agent_not_found agent_not_active no_steward mandate_not_found payee_not_found : HttpError
  payment_required : Option Refusal → HttpError
  raised : Error → HttpError

-- The tables of agents and users, which these handlers only read.
pub record Directory : Type 0 where
  pub agents : List Agent
  pub users : List ℕ

pub record MandateCreate : Type 0 where
  pub agent_id : ℕ
  pub purposes : List String
  pub currency : String
  pub max_per_payment : Amount
  pub max_total : Amount
  pub payee_user_ids : Option (List ℕ)
  pub requires_evidence : Bool
  pub hours : ℕ

abbrev pub is_standing : AgentStatus → Bool
is_standing AgentStatus.active = true
is_standing _ = false

abbrev pub granted : MandateCreate → ℕ → ℕ → ℕ → ℕ → PaymentMandate
granted p me now hour id = record {
  id = id;
  agent_id = p.agent_id;
  granted_by_user_id = me;
  purposes = p.purposes;
  currency = p.currency;
  max_per_payment = p.max_per_payment;
  max_total = p.max_total;
  spent_total = pos 0;
  payee_user_ids = p.payee_user_ids;
  requires_evidence = p.requires_evidence;
  expires_at = now + p.hours * hour;
  status = MandateStatus.active;
  revoked_at = none;
  revoked_reason = none;
}

abbrev pub add_mandate : (ℕ → PaymentMandate) → Db → PaymentMandate × Db
add_mandate m db =
    (m db.fresh, record db { mandates = db.mandates ++ m db.fresh ∷ []; fresh = db.fresh + 1 })

-- `hour` is the length of an hour on the clock.
unfoldable pub grant_mandate :
    Directory → MandateCreate → ℕ → ℕ → ℕ → Action Db HttpError PaymentMandate
grant_mandate dir p me now hour = do
  agent ← or_raise (first (agent_with p.agent_id) dir.agents) agent_not_found
  raise_if (not (is_standing agent.status)) agent_not_active
  raise_if (not (mem_id agent.steward_user_id dir.users)) no_steward
  save (add_mandate (granted p me now hour))

abbrev pub revoke : Option String → ℕ → PaymentMandate → PaymentMandate
revoke reason now m = record m {
  status = MandateStatus.revoked;
  revoked_at = some now;
  revoked_reason = reason;
}

abbrev pub with_revoked : ℕ → Option String → ℕ → Db → Db
with_revoked id reason now db = record db {
  mandates = adjust (mandate_with id) (revoke reason now) db.mandates;
}

-- A mandate is revoked by the user who granted it; for others it is not found.
abbrev pub revoke_owned :
    Bool → PaymentMandate → Option String → ℕ → Action Db HttpError PaymentMandate
revoke_owned false m reason now = raise mandate_not_found
revoke_owned true m reason now = save (λ db. (revoke reason now m, with_revoked m.id reason now db))

abbrev pub revoke_found :
    Option String → ℕ → ℕ → Option PaymentMandate → Action Db HttpError PaymentMandate
revoke_found reason me now none = raise mandate_not_found
revoke_found reason me now (some m) = revoke_owned (m.granted_by_user_id == me) m reason now

unfoldable pub revoke_mandate : ℕ → Option String → ℕ → ℕ → Action Db HttpError PaymentMandate
revoke_mandate id reason me now = do
  found ← gets (λ db. first (mandate_with id) db.mandates)
  revoke_found reason me now found

pub record AgentPaymentIn : Type 0 where
  pub mandate_id : ℕ
  pub payee_user_id : ℕ
  pub amount : Amount
  pub currency : String
  pub purpose : String
  pub evidence_ref : Option String
  pub rail : Option String

abbrev pub order_of : Agent → AgentPaymentIn → Order
order_of a p = record {
  agent_id = a.id;
  agent_did = a.did;
  steward_user_id = a.steward_user_id;
  payee_user_id = p.payee_user_id;
  amount = p.amount;
  currency = p.currency;
  purpose = p.purpose;
  evidence_ref = p.evidence_ref;
  rail_name = p.rail;
}

-- 402: the payer's own rules refused it, not the server.
abbrev pub answer : Result Error AgentPayment → Result HttpError AgentPayment
answer (err e) = err (raised e)
answer (ok p) = elim p.status [
  | PaymentStatus.settled ↦ ok p
  | PaymentStatus.refused ↦ err (payment_required p.refusal_reason)
]

abbrev pub answered : Action Db Error AgentPayment → Action Db HttpError AgentPayment
answered m s = let (r, s') = m s in (answer r, s')

module _ (sign : TransactionBody → Result Error (Option String)) (dir : Directory) where
  abbrev pub pay_found :
      Agent
      → AgentPaymentIn
      → ℕ
      → String
      → Bool
      → Option PaymentMandate
      → Action Db HttpError AgentPayment
  pay_found a p now token known none = raise mandate_not_found
  pay_found a p now token false (some m) = raise payee_not_found
  pay_found a p now token true (some m) = answered (pay sign m (order_of a p) now token)

  unfoldable pub agent_pay : Agent → AgentPaymentIn → ℕ → String → Action Db HttpError AgentPayment
  agent_pay a p now token = do
    found ← gets (λ db. first (mandate_with p.mandate_id) db.mandates)
    pay_found a p now token (mem_id p.payee_user_id dir.users) found
