-- ===== src/Bridge/Records.antt =====
-- The rows of backend/app/bridge/models.py and backend/app/bridge/mandate_models.py.
-- Ids are numbers: the code only compares them. A column that holds one of a few words is a data
-- type. `created_at` is the order of the rows in their table.
use can_framework.Prelude.{ℕ, Bool, Option, none, some, List, String, str_eq, if◌then◌else◌, ◌||◌}
use can_framework.Money.{Amount}

pub data Layer : Type 0 where
  fiat modernised_fiat direct_value : Layer

-- HOLDING_KINDS
unfoldable pub holding_layer : String → Option Layer
holding_layer kind =
    if str_eq kind "cash"
    then some Layer.fiat
    else if str_eq kind "tokenised_deposit" || str_eq kind "offline_value"
    then some Layer.modernised_fiat
    else if str_eq kind "participation_unit"
        || str_eq kind "access_right"
        || str_eq kind "claim"
        || str_eq kind "entitlement"
        || str_eq kind "credit"
    then some Layer.direct_value
    else none

-- SETTLEABLE_KINDS
unfoldable pub is_settleable : String → Bool
is_settleable kind = str_eq kind "participation_unit" || str_eq kind "claim" || str_eq kind "credit"

-- SOURCE_TYPES
pub data SourceType : Type 0 where
  capital participation_units in_kind pre_committed_use community : SourceType

pub record Wallet : Type 0 where
  pub id : ℕ
  pub user_id : ℕ

-- The entries of `terms` that the code reads, and the others.
pub record Terms : Type 0 where
  pub unit_value : Option Amount
  pub currency : Option String
  pub rest : List (String × String)

pub record Holding : Type 0 where
  pub id : ℕ
  pub wallet_id : ℕ
  pub layer : Layer
  pub kind : String
  pub amount : Amount
  pub currency : Option String
  pub project_id : Option ℕ
  pub description : Option String
  pub terms : Option Terms
  pub evidence_ref : Option String

pub data ProjectStatus : Type 0 where
  funding funded delivering operating closed : ProjectStatus

pub record Project : Type 0 where
  pub id : ℕ
  pub sponsor_user_id : ℕ
  pub name : String
  pub currency : String
  pub target_amount : Amount
  pub unit_value : Amount
  pub status : ProjectStatus
  pub asset_id : Option ℕ

pub data Wants : Type 0 where
  participation access both : Wants

pub data ContributionStatus : Type 0 where
  proposed accepted rejected withdrawn : ContributionStatus

pub record Contribution : Type 0 where
  pub id : ℕ
  pub project_id : ℕ
  pub contributor_user_id : ℕ
  pub source_type : SourceType
  pub description : String
  pub offered_value : Amount
  pub accepted_value : Option Amount
  pub valuation_basis : Option String
  pub wants : Wants
  pub access_terms : Option Terms
  pub status : ContributionStatus
  pub decided_by : Option String
  pub decided_at : Option ℕ
  pub decision_note : Option String

pub data SupplierAnswer : Type 0 where
  pending accepted declined : SupplierAnswer

pub record SupplierAgreement : Type 0 where
  pub id : ℕ
  pub project_id : ℕ
  pub supplier_user_id : ℕ
  pub scope : String
  pub cash_share : Amount
  pub participation_share : Amount
  pub accepted_by_supplier : SupplierAnswer

pub data InvoiceStatus : Type 0 where
  submitted verified paid rejected : InvoiceStatus

pub record SupplierInvoice : Type 0 where
  pub id : ℕ
  pub agreement_id : ℕ
  pub amount : Amount
  pub description : String
  pub delivery_evidence_ref : Option String
  pub status : InvoiceStatus
  pub verified_by : Option String
  pub verified_at : Option ℕ
  pub paid_at : Option ℕ
  pub settlement_ref : Option String

pub data PledgeStatus : Type 0 where
  active released : PledgeStatus

pub record Pledge : Type 0 where
  pub id : ℕ
  pub holding_id : ℕ
  pub lender_user_id : Option ℕ
  pub amount : Amount
  pub note : Option String
  pub status : PledgeStatus
  pub released_at : Option ℕ

pub data Direction : Type 0 where
  settle_down convert pledge_up : Direction

pub data TransferStatus : Type 0 where
  settled pending failed : TransferStatus

pub record BridgeTransfer : Type 0 where
  pub id : ℕ
  pub wallet_id : ℕ
  pub direction : Direction
  pub from_layer : Layer
  pub to_layer : Layer
  pub holding_id : Option ℕ
  pub amount : Amount
  pub currency : Option String
  pub rail : String
  pub external_ref : Option String
  pub status : TransferStatus

pub data MandateStatus : Type 0 where
  active revoked exhausted : MandateStatus

pub record PaymentMandate : Type 0 where
  pub id : ℕ
  pub agent_id : ℕ
  pub granted_by_user_id : ℕ
  pub purposes : List String
  pub currency : String
  pub max_per_payment : Amount
  pub max_total : Amount
  pub spent_total : Amount
  pub payee_user_ids : Option (List ℕ)
  pub requires_evidence : Bool
  pub expires_at : ℕ
  pub status : MandateStatus
  pub revoked_at : Option ℕ
  pub revoked_reason : Option String

pub data PaymentStatus : Type 0 where
  settled refused : PaymentStatus

-- Why a payment is refused, one constructor for each message of `check_mandate` and `pay`.
pub data Refusal : Type 0 where
  other_agent not_active expired wrong_currency wrong_purpose wrong_payee : Refusal
  above_per_payment above_total no_evidence short_of_cash : Refusal

-- What travels with the money: the body of `build_transaction_object` and its signature. `header` and
-- `items` hold no more than what identifies the document.
pub record TransactionBody : Type 0 where
  pub payment_id : ℕ
  pub payer : ℕ
  pub payee : ℕ
  pub agent : String
  pub agent_steward : ℕ
  pub mandate_id : ℕ
  pub granted_by : ℕ
  pub purposes : List String
  pub max_per_payment : Amount
  pub max_total : Amount
  pub expires_at : ℕ
  pub requires_evidence : Bool
  pub purpose : String
  pub amount : Amount
  pub currency : String
  pub evidence_ref : Option String
  pub settlement_rail : String
  pub settlement_reference : String
  pub settlement_status : TransferStatus

pub record TransactionObject : Type 0 where
  pub body : TransactionBody
  pub signature : Option String

pub record AgentPayment : Type 0 where
  pub id : ℕ
  pub mandate_id : ℕ
  pub agent_id : ℕ
  pub payer_user_id : ℕ
  pub payee_user_id : ℕ
  pub amount : Amount
  pub currency : String
  pub purpose : String
  pub evidence_ref : Option String
  pub status : PaymentStatus
  pub refusal_reason : Option Refusal
  pub rail : Option String
  pub settlement_ref : Option String
  pub transaction_object : Option TransactionObject

-- The tables. `fresh` is the next id, in place of `uuid4()`.
pub record Db : Type 0 where
  pub wallets : List Wallet
  pub holdings : List Holding
  pub projects : List Project
  pub contributions : List Contribution
  pub agreements : List SupplierAgreement
  pub invoices : List SupplierInvoice
  pub pledges : List Pledge
  pub transfers : List BridgeTransfer
  pub mandates : List PaymentMandate
  pub payments : List AgentPayment
  pub fresh : ℕ

-- `BridgeError`, `KeyError`, `NotImplementedError`, `ZeroDivisionError` and a signing key that does
-- not decode.
pub data Error : Type 0 where
  unknown_kind negative_amount not_open already_decided value_not_positive : Error
  not_verified not_direct pledge_not_positive over_pledged already_released : Error
  already_money not_settleable not_free : Error
  unknown_rail not_implemented zero_division bad_key : Error
