-- ===== src/Bridge/Payments.antt =====
-- backend/app/bridge/agent_payments.py: payments by an agent under a mandate, and the grant and the
-- revocation of mandates in backend/app/bridge/routes.py.
pub mod Spending
pub mod Outcomes
pub mod Conservation
pub mod Limits
pub mod Metering
pub mod Faults
pub mod Unsigned
use can_framework.Prelude.{
  ℕ, ◌+◌, Bool, true, false, not, Option, none, some, List, [], ◌∷◌, ◌++◌, String, str_eq, ◌==◌,
  ◌&&◌, ltb, if◌then◌else◌,
}
use can_framework.Prelude.Int.{pos, ◌+ℤ◌, ◌-ℤ◌, ltb_ℤ, leb_ℤ}
use can_framework.Prelude.Table.{first, adjust, sum_of}
use can_framework.Prelude.Outcome.{Result, ok, err, pure, lift, modify, save, gets, ◌>>=◌, ◌>>◌}
use can_framework.Money.{Amount, round_cents, round_micro}
use can_framework.Bridge.Records.{
  Wallet, Holding, Pledge, PaymentMandate, MandateStatus, AgentPayment, PaymentStatus, Refusal,
  TransactionBody, Db, Error,
}
use can_framework.Bridge.Rails.{SettlementResult, settle, get_rail}
use can_framework.Bridge.Wallet.{
  Request, Credit, credit, get_or_create_wallet, pledged_amount, text_eq?,
}
use can_framework.Bridge.Pledges.{truthy}

-- What an agent asks for.
pub record Order : Type 0 where
  pub agent_id : ℕ
  pub agent_did : String
  pub steward_user_id : ℕ
  pub payee_user_id : ℕ
  pub amount : Amount
  pub currency : String
  pub purpose : String
  pub evidence_ref : Option String
  pub rail_name : Option String

abbrev pub mem_text : String → List String → Bool
mem_text s [] = false
mem_text s (t ∷ ts) = if str_eq s t then true else mem_text s ts

abbrev pub mem_id : ℕ → List ℕ → Bool
mem_id k [] = false
mem_id k (j ∷ js) = if k == j then true else mem_id k js

abbrev pub is_active : MandateStatus → Bool
is_active MandateStatus.active = true
is_active MandateStatus.revoked = false
is_active MandateStatus.exhausted = false

abbrev pub payee_allowed : Option (List ℕ) → ℕ → Bool
payee_allowed none payee = true
payee_allowed (some payees) payee = mem_id payee payees

abbrev pub has_evidence : Option String → Bool
has_evidence e = elim (truthy e) [ none ↦ false | some _ ↦ true ]

-- `none` lets the payment through; else the first reason that applies.
unfoldable pub check_mandate : PaymentMandate → ℕ → Order → Option Refusal
check_mandate m now o =
    if not (m.agent_id == o.agent_id)
    then some Refusal.other_agent
    else if not (is_active m.status)
    then some Refusal.not_active
    else if ltb m.expires_at now
    then some Refusal.expired
    else if not (str_eq o.currency m.currency)
    then some Refusal.wrong_currency
    else if not (mem_text o.purpose m.purposes)
    then some Refusal.wrong_purpose
    else if not (payee_allowed m.payee_user_ids o.payee_user_id)
    then some Refusal.wrong_payee
    else if ltb_ℤ m.max_per_payment o.amount
    then some Refusal.above_per_payment
    else if ltb_ℤ m.max_total (round_micro (m.spent_total +ℤ o.amount))
    then some Refusal.above_total
    else if m.requires_evidence && not (has_evidence o.evidence_ref)
    then some Refusal.no_evidence
    else none

-- The filter of both loops over the payer's cash.
unfoldable pub is_cash_of : ℕ → String → Holding → Bool
is_cash_of wallet_id currency h =
    h.wallet_id == wallet_id && (str_eq h.kind "cash" && text_eq? h.currency (some currency))

abbrev pub free_of : List Pledge → Holding → Amount
free_of pledges h = h.amount -ℤ pledged_amount h.id pledges

abbrev pub free_cash : List Pledge → (Holding → Bool) → Holding → Amount
free_cash pledges mine h = if mine h then free_of pledges h else pos 0

unfoldable pub available_cash : ℕ → String → Db → Amount
available_cash wallet_id currency db =
    round_cents (sum_of (free_cash db.pledges (is_cash_of wallet_id currency)) db.holdings)

abbrev pub min_ℤ : Amount → Amount → Amount
min_ℤ a b = if leb_ℤ a b then a else b

abbrev pub taken : Amount → Holding → Holding
taken take h = record h { amount = round_cents (h.amount -ℤ take) }

-- The loop that takes the amount from the payer's cash, row by row, until nothing remains.
unfoldable pub spend : List Pledge → (Holding → Bool) → Amount → List Holding → List Holding
spend pledges mine remaining [] = []
spend pledges mine remaining (h ∷ hs) =
    let take = min_ℤ (free_of pledges h) remaining in
    let left = round_cents (remaining -ℤ take) in
    let skip = h ∷ spend pledges mine remaining hs in
    let more = taken take h ∷ spend pledges mine left hs in
    if mine h then (if leb_ℤ left (pos 0) then taken take h ∷ hs else more) else skip

abbrev pub payment_credit : Order → Credit
payment_credit o = record {
  kind = "cash";
  amount = o.amount;
  currency = some o.currency;
  project_id = none;
  description = some "Paid by an agent under mandate";
  terms = none;
  evidence_ref = o.evidence_ref;
}

abbrev pub mandate_with : ℕ → PaymentMandate → Bool
mandate_with id m = m.id == id

-- `spent_total` grows, and a mandate that has reached its total is exhausted.
abbrev pub charge : Amount → PaymentMandate → PaymentMandate
charge amount m =
    let spent = round_cents (m.spent_total +ℤ amount) in
    record m {
      spent_total = spent;
      status = if leb_ℤ m.max_total spent then MandateStatus.exhausted else m.status;
    }

abbrev pub refused_payment : PaymentMandate → Order → Refusal → ℕ → AgentPayment
refused_payment m o reason id = record {
  id = id;
  mandate_id = m.id;
  agent_id = o.agent_id;
  payer_user_id = m.granted_by_user_id;
  payee_user_id = o.payee_user_id;
  amount = o.amount;
  currency = o.currency;
  purpose = o.purpose;
  evidence_ref = o.evidence_ref;
  status = PaymentStatus.refused;
  refusal_reason = some reason;
  rail = none;
  settlement_ref = none;
  transaction_object = none;
}

abbrev pub transaction_body : PaymentMandate → Order → SettlementResult → ℕ → TransactionBody
transaction_body m o result id = record {
  payment_id = id;
  payer = m.granted_by_user_id;
  payee = o.payee_user_id;
  agent = o.agent_did;
  agent_steward = o.steward_user_id;
  mandate_id = m.id;
  granted_by = m.granted_by_user_id;
  purposes = m.purposes;
  max_per_payment = m.max_per_payment;
  max_total = m.max_total;
  expires_at = m.expires_at;
  requires_evidence = m.requires_evidence;
  purpose = o.purpose;
  amount = o.amount;
  currency = o.currency;
  evidence_ref = o.evidence_ref;
  settlement_rail = result.rail;
  settlement_reference = result.external_ref;
  settlement_status = result.status;
}

abbrev pub settled_payment :
    PaymentMandate → Order → SettlementResult → Option String → ℕ → AgentPayment
settled_payment m o result signature id = record {
  id = id;
  mandate_id = m.id;
  agent_id = o.agent_id;
  payer_user_id = m.granted_by_user_id;
  payee_user_id = o.payee_user_id;
  amount = o.amount;
  currency = o.currency;
  purpose = o.purpose;
  evidence_ref = o.evidence_ref;
  status = PaymentStatus.settled;
  refusal_reason = none;
  rail = some result.rail;
  settlement_ref = some result.external_ref;
  transaction_object =
      some (record { body = transaction_body m o result id; signature = signature });
}

abbrev pub add_payment : (ℕ → AgentPayment) → Db → AgentPayment × Db
add_payment p db =
    (p db.fresh, record db { payments = db.payments ++ p db.fresh ∷ []; fresh = db.fresh + 1 })

abbrev refuse : PaymentMandate → Order → Refusal → Request AgentPayment
refuse m o reason = save (add_payment (refused_payment m o reason))

abbrev pub spend_from : ℕ → Order → Db → Db
spend_from wallet_id o db = record db {
  holdings = spend db.pledges (is_cash_of wallet_id o.currency) o.amount db.holdings;
}

abbrev pub charge_mandate : PaymentMandate → Order → Db → Db
charge_mandate m o db = record db {
  mandates = adjust (mandate_with m.id) (charge o.amount) db.mandates;
}

-- `sign` stands for `document_root` and the signature of the node over it: PyNaCl, `hashlib`, `json`
-- and the setting NODE_SIGNING_KEY. It returns `none` where the node has no key, and raises where the
-- key does not decode. `token` is the `uuid4()` of the simulated rail.
module _ (sign : TransactionBody → Result Error (Option String)) where
  -- Once the payee's wallet is at hand: the credit, the charge, the record and its signature.
  record_payment : PaymentMandate → Order → SettlementResult → Wallet → Request AgentPayment
  record_payment m o result payee = do
    credit payee (payment_credit o)
    modify (charge_mandate m o)
    id ← gets (λ db. db.fresh)
    signature ← lift (sign (transaction_body (charge o.amount m) o result id))
    save (add_payment (settled_payment (charge o.amount m) o result signature))

  move_money : PaymentMandate → Order → ℕ → SettlementResult → Request AgentPayment
  move_money m o payer_wallet result = do
    modify (spend_from payer_wallet o)
    payee ← get_or_create_wallet o.payee_user_id
    record_payment m o result payee

  settle_payment : PaymentMandate → Order → ℕ → String → Request AgentPayment
  unfolding move_money record_payment
  settle_payment m o payer_wallet token = do
    rail ← lift (get_rail o.rail_name)
    result ← lift (settle token rail)
    move_money m o payer_wallet result

  pay_checked : PaymentMandate → Order → ℕ → String → Option Refusal → Request AgentPayment
  pay_checked m o payer_wallet token (some reason) = refuse m o reason
  pay_checked m o payer_wallet token none = do
    available ← gets (available_cash payer_wallet o.currency)
    if ltb_ℤ available o.amount
        then refuse m o Refusal.short_of_cash
        else settle_payment m o payer_wallet token

  unfoldable pub pay : PaymentMandate → Order → ℕ → String → Request AgentPayment
  unfolding pay_checked settle_payment
  pay m o now token = do
    payer ← get_or_create_wallet m.granted_by_user_id
    pay_checked m o payer.id token (check_mandate m now o)
