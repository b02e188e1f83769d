-- ===== src/Bridge/Suppliers/Invoices.antt =====
-- What the payment of an invoice of backend/app/bridge/service.py credits, and that it is paid once.
use can_framework.Prelude.{ℕ, ◌≡◌, Option, some, List, String}
use can_framework.Prelude.Int.{◌-ℤ◌}
use can_framework.Prelude.Table.{first}
use can_framework.Prelude.Handler.Keeps.{Keeps}
use can_framework.Money.Rounding.{IsCents}
use can_framework.Bridge.Records.{
  Wallet, Project, SupplierAgreement, SupplierInvoice, InvoiceStatus, Db,
}
use can_framework.Money.{times_cents}
use can_framework.Bridge.Suppliers.{invoice_with, InvoicePaid}

abbrev pub invoice_at : ℕ → Db → Option SupplierInvoice
invoice_at id db = first (invoice_with id) db.invoices

module _ (P : List SupplierInvoice → Type 0) where
  abbrev I : Db → Type 0
  I d = P d.invoices

-- The stored invoice is paid, and what the payment says that it paid are the two parts.
abbrev pub IsPaid : SupplierInvoice → SupplierAgreement → InvoicePaid → Db → Type 0
IsPaid i a done d =
    (j : SupplierInvoice) × (invoice_at i.id d ≡ some j)
    × (j.status ≡ InvoiceStatus.paid)
    × (done.cash_paid ≡ times_cents i.amount a.cash_share)
    × (done.stake_value ≡ i.amount -ℤ times_cents i.amount a.cash_share)

module _ (i : SupplierInvoice) (a : SupplierAgreement) (p : Project) (rail_name : Option String)
    (token : String) (now : ℕ) (cents : IsCents i.amount) where
  abbrev AtHand : List SupplierInvoice → Type 0
  AtHand rows = first (invoice_with i.id) rows ≡ some i
