-- ===== src/Tests/Bridge/Suppliers.antt =====
-- The theorem on invoices of backend/app/bridge/service.py at concrete tables.
use can_framework.Prelude.{suc, none, some, [], ◌∷◌}
use can_framework.Prelude.Int.{pos}
use can_framework.Prelude.Handler
use can_framework.Bridge.Records.{
  Layer, Wallet, Project, ProjectStatus, SupplierAgreement, SupplierAnswer, SupplierInvoice,
  InvoiceStatus, Db,
}
use can_framework.Bridge.Rails.{simulated_result}
use can_framework.Bridge.Wallet.{new_holding}
use can_framework.Bridge.Suppliers.{InvoicePaid, invoice_paid, invoice_cash, invoice_stake}
use can_framework.Tests.Bridge.{shop, tables}

abbrev project : Project
project = record {
  id = 300;
  sponsor_user_id = 1;
  name = "Mill";
  currency = "USD";
  target_amount = pos 1_000_000_000_000;
  unit_value = pos 8_000_000_000;
  status = ProjectStatus.funding;
  asset_id = none;
}

abbrev agreement : SupplierAgreement
agreement = record {
  id = 301;
  project_id = 300;
  supplier_user_id = 2;
  scope = "wheel";
  cash_share = pos 600_000_000;
  participation_share = pos 400_000_000;
  accepted_by_supplier = SupplierAnswer.accepted;
}

abbrev invoice : SupplierInvoice
invoice = record {
  id = 302;
  agreement_id = 301;
  amount = pos 100_000_000_000;
  description = "wheel";
  delivery_evidence_ref = some "photo";
  status = InvoiceStatus.verified;
  verified_by = none;
  verified_at = none;
  paid_at = none;
  settlement_ref = none;
}

abbrev with_invoice : Db
with_invoice = record tables { invoices = invoice ∷ [] }

abbrev done : InvoicePaid
done =
    invoice_paid invoice agreement
      (new_holding shop (invoice_cash invoice agreement project) Layer.fiat with_invoice.fresh
        ∷ new_holding shop (invoice_stake invoice project (pos 5_000_000_000)) Layer.direct_value
            (suc (suc with_invoice.fresh))
        ∷ [])
      (simulated_result "t") 9
