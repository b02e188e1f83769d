-- ===== src/Bridge/Suppliers.antt =====
-- Suppliers: `pay_invoice` of backend/app/bridge/service.py, payment with proof.
pub mod Kept
pub mod Gains
pub mod Invoices
use can_framework.Prelude.{
  ℕ, ◌+◌, Bool, true, false, not, Option, none, some, List, [], ◌∷◌, ◌++◌, String, str_eq, ◌==◌,
  ◌&&◌, ◌||◌, if◌then◌else◌,
}
use can_framework.Prelude.Int.{pos, ◌-ℤ◌, ltb_ℤ}
use can_framework.Prelude.Table.{first, adjust}
use can_framework.Prelude.Outcome.{Action}
use can_framework.Prelude.Handler.{
  Handler, pure, raise, gets, or_raise, lift, modify, commit, raise_if, save, ◌>>=◌, ◌>>◌,
}
use can_framework.Money.{Amount, one, round_cents, round_micro, times_cents, over_micro}
use can_framework.Bridge.Records.{
  Layer, Wallet, Terms, Holding, Project, SupplierAgreement, SupplierAnswer, SupplierInvoice,
  InvoiceStatus, BridgeTransfer, Direction, Db, Error, not_verified, zero_division,
}
use can_framework.Bridge.Rails.{SettlementResult, settle, get_rail}
use can_framework.Bridge.Wallet.{Credit, credit, get_or_create_wallet}
use can_framework.Bridge.Pledges.{add_transfer, truthy}

abbrev pub Request : Type 0 → Type 0
Request = Handler Db Error

-- A step of the wallet in a handler here.
abbrev pub act : {A : Type 0} → Action Db Error A → Request A
act m = record { run = m }

abbrev pub is_verified : InvoiceStatus → Bool
is_verified InvoiceStatus.verified = true
is_verified _ = false

abbrev pub cash_part : SupplierInvoice → SupplierAgreement → Amount
cash_part i a = times_cents i.amount a.cash_share

abbrev pub stake_part : SupplierInvoice → SupplierAgreement → Amount
stake_part i a = round_cents (i.amount -ℤ cash_part i a)

abbrev pub invoice_cash : SupplierInvoice → SupplierAgreement → Project → Credit
invoice_cash i a p = record {
  kind = "cash";
  amount = cash_part i a;
  currency = some p.currency;
  project_id = none;
  description = some "Invoice payment";
  terms = none;
  evidence_ref = i.delivery_evidence_ref;
}

abbrev pub invoice_stake : SupplierInvoice → Project → Amount → Credit
invoice_stake i p units = record {
  kind = "participation_unit";
  amount = units;
  currency = none;
  project_id = some p.id;
  description = some "Future-proofed profit";
  terms = some (record {
    unit_value = some p.unit_value;
    currency = some p.currency;
    rest = ("source", "supplier margin") ∷ [];
  });
  evidence_ref = i.delivery_evidence_ref;
}

abbrev pub invoice_transfer :
    Wallet → SupplierInvoice → SupplierAgreement → Project → SettlementResult → ℕ → BridgeTransfer
invoice_transfer w i a p result id = record {
  id = id;
  wallet_id = w.id;
  direction = Direction.settle_down;
  from_layer = Layer.direct_value;
  to_layer = Layer.fiat;
  holding_id = none;
  amount = cash_part i a;
  currency = some p.currency;
  rail = result.rail;
  external_ref = some result.external_ref;
  status = result.status;
}

abbrev pub write_transfer : (ℕ → BridgeTransfer) → Db → Db
write_transfer t db = (add_transfer t db).1

unfoldable pub pay_cash :
    SupplierInvoice
    → SupplierAgreement
    → Project
    → Wallet
    → SettlementResult
    → Request (List Holding)
pay_cash i a p w result =
    if ltb_ℤ (pos 0) (cash_part i a)
    then (do
      h ← act (credit w (invoice_cash i a p))
      modify (write_transfer (invoice_transfer w i a p result))
      pure (h ∷ []))
    else pure []

unfoldable pub pay_stake :
    SupplierInvoice → SupplierAgreement → Project → Wallet → Request (List Holding)
pay_stake i a p w =
    if ltb_ℤ (pos 0) (stake_part i a)
    then (do
      units ← or_raise (over_micro (stake_part i a) p.unit_value) zero_division
      h ← act (credit w (invoice_stake i p units))
      pure (h ∷ []))
    else pure []

abbrev pub invoice_with : ℕ → SupplierInvoice → Bool
invoice_with id i = i.id == id

abbrev pub mark_paid : SettlementResult → ℕ → SupplierInvoice → SupplierInvoice
mark_paid result now i = record i {
  status = InvoiceStatus.paid;
  paid_at = some now;
  settlement_ref = some result.external_ref;
}

abbrev pub write_invoice : ℕ → (SupplierInvoice → SupplierInvoice) → Db → Db
write_invoice id f db = record db { invoices = adjust (invoice_with id) f db.invoices }

pub record InvoicePaid : Type 0 where
  pub invoice : SupplierInvoice
  pub cash_paid : Amount
  pub stake_value : Amount
  pub credited : List Holding
  pub settlement : SettlementResult

abbrev pub invoice_paid :
    SupplierInvoice → SupplierAgreement → List Holding → SettlementResult → ℕ → InvoicePaid
invoice_paid i a credited result now = record {
  invoice = mark_paid result now i;
  cash_paid = cash_part i a;
  stake_value = stake_part i a;
  credited = credited;
  settlement = result;
}

-- Payment with proof: only what has been verified is paid, in cash and in participation.
unfoldable pub pay_invoice :
    SupplierInvoice → SupplierAgreement → Project → Option String → String → ℕ → Request InvoicePaid
pay_invoice i a p rail_name token now = do
  raise_if (not (is_verified i.status)) not_verified
  w ← act (get_or_create_wallet a.supplier_user_id)
  rail ← lift (get_rail rail_name)
  result ← lift (settle token rail)
  cash ← pay_cash i a p w result
  stake ← pay_stake i a p w
  modify (write_invoice i.id (mark_paid result now))
  commit
  pure (invoice_paid i a (cash ++ stake) result now)
