-- ===== src/Bridge/Handlers.antt =====
-- The handlers of projects, contributions, suppliers, invoices, pledges and settlements in
-- backend/app/bridge/routes.py.
pub mod Sponsor
use can_framework.Prelude.{
  ℕ, ◌+◌, Bool, true, false, not, Option, none, some, List, [], ◌∷◌, ◌++◌, String, ◌==◌, ◌&&◌, ◌||◌,
  if◌then◌else◌,
}
use can_framework.Prelude.Int.{pos, ◌-ℤ◌}
use can_framework.Prelude.Table.{first, adjust}
use can_framework.Prelude.Outcome.{Result, ok, err, Action}
use can_framework.Prelude.Handler.{
  Handler, pure, raise, gets, or_raise, modify, commit, raise_if, save, ◌>>=◌, ◌>>◌,
}
use can_framework.Money.{Amount, one, round_micro}
use can_framework.Bridge.Records.{
  Wallet, Holding, Project, ProjectStatus, Contribution, SupplierAgreement, SupplierAnswer,
  SupplierInvoice, InvoiceStatus, Pledge, BridgeTransfer, Db, Error,
}
use can_framework.Bridge.Wallet.{get_or_create_wallet}
use can_framework.Bridge.Pledges.{
  holding_with, pledge_with, create_pledge, release_pledge, settle_down, truthy,
}
use can_framework.Bridge.Payments.{mem_id}
use can_framework.Bridge.Suppliers.{InvoicePaid, invoice_with, write_invoice, pay_invoice}
use can_framework.Bridge.Funding.{
  Proposal, Decision, Decided, contribution_with, propose_contribution, decide_contribution,
}

-- 404, 403, 409 by the code itself, and an error of the service: 409, or one that no handler catches.
pub data HttpError : Type 0 where
  not_found forbidden conflict : HttpError
  raised : Error → HttpError

abbrev pub Reply : Type 0 → Type 0
Reply = Handler Db HttpError

abbrev pub as_http : {A : Type 0} → Result Error A → Result HttpError A
as_http (ok a) = ok a
as_http (err e) = err (raised e)

-- `_wrap`
unfoldable pub wrap : {A : Type 0} → Action Db Error A → Reply A
wrap m = record { run = λ s. let (r, s') = m s in (as_http r, s') }

abbrev pub project_with : ℕ → Project → Bool
project_with id p = p.id == id

-- `_project`
unfoldable pub project_or_404 : ℕ → Reply Project
project_or_404 id = do
  found ← gets (λ db. first (project_with id) db.projects)
  or_raise found not_found

-- `_holding`: the wallet is made where there is none, also when the holding is not there.
unfoldable pub holding_or_404 : ℕ → ℕ → Reply Holding
holding_or_404 id me = do
  found ← gets (λ db. first (holding_with id) db.holdings)
  w ← wrap (get_or_create_wallet me)
  h ← or_raise found not_found
  raise_if (not (h.wallet_id == w.id)) not_found
  pure h

-- `_sponsor_only`
unfoldable pub sponsor_only : Project → ℕ → Reply (Unit {0})
sponsor_only p me = raise_if (not (p.sponsor_user_id == me)) forbidden

pub record ProjectCreate : Type 0 where
  pub name : String
  pub currency : String
  pub target_amount : Amount
  pub unit_value : Amount
  pub asset_id : Option ℕ

abbrev pub new_project : ProjectCreate → ℕ → Db → Project × Db
new_project b me db =
    let p : Project = record {
      id = db.fresh;
      sponsor_user_id = me;
      name = b.name;
      currency = b.currency;
      target_amount = b.target_amount;
      unit_value = b.unit_value;
      status = ProjectStatus.funding;
      asset_id = b.asset_id;
    } in
    (p, record db { projects = db.projects ++ p ∷ []; fresh = db.fresh + 1 })

unfoldable pub create_project : ProjectCreate → ℕ → Reply Project
create_project b me = save (new_project b me)

abbrev pub with_status : ProjectStatus → Project → Project
with_status status p = record p { status = status }

unfoldable pub set_status : ℕ → ProjectStatus → ℕ → Reply Project
set_status id status me = do
  p ← project_or_404 id
  sponsor_only p me
  save (λ db. (
    with_status status p,
    record db { projects = adjust (project_with id) (with_status status) db.projects },
  ))

unfoldable pub contribute : ℕ → Proposal → ℕ → Reply Contribution
contribute project_id o me = do
  p ← project_or_404 project_id
  wrap (propose_contribution p me o).run

unfoldable pub decide : ℕ → Decision → ℕ → ℕ → Reply Decided
decide contribution_id d me now = do
  found ← gets (λ db. first (contribution_with contribution_id) db.contributions)
  c ← or_raise found not_found
  p ← project_or_404 c.project_id
  sponsor_only p me
  wrap (decide_contribution c p d now).run

pub record AgreementCreate : Type 0 where
  pub supplier_user_id : ℕ
  pub scope : String
  pub cash_share : Amount

abbrev pub new_agreement : AgreementCreate → ℕ → Db → SupplierAgreement × Db
new_agreement b project_id db =
    let a : SupplierAgreement = record {
      id = db.fresh;
      project_id = project_id;
      supplier_user_id = b.supplier_user_id;
      scope = b.scope;
      cash_share = b.cash_share;
      participation_share = round_micro (pos one -ℤ b.cash_share);
      accepted_by_supplier = SupplierAnswer.pending;
    } in
    (a, record db { agreements = db.agreements ++ a ∷ []; fresh = db.fresh + 1 })

-- `users` are the ids in the table of users.
unfoldable pub add_supplier : List ℕ → ℕ → AgreementCreate → ℕ → Reply SupplierAgreement
add_supplier users project_id b me = do
  p ← project_or_404 project_id
  sponsor_only p me
  raise_if (not (mem_id b.supplier_user_id users)) not_found
  save (new_agreement b p.id)

abbrev pub agreement_with : ℕ → SupplierAgreement → Bool
agreement_with id a = a.id == id

unfoldable pub agreement_or_404 : ℕ → Reply SupplierAgreement
agreement_or_404 id = do
  found ← gets (λ db. first (agreement_with id) db.agreements)
  or_raise found not_found

-- Declining means all cash, paid faster.
abbrev pub responded : Bool → SupplierAgreement → SupplierAgreement
responded true a = record a { accepted_by_supplier = SupplierAnswer.accepted }
responded false a = record a {
  accepted_by_supplier = SupplierAnswer.declined;
  cash_share = pos one;
  participation_share = pos 0;
}

unfoldable pub respond_to_agreement : ℕ → Bool → ℕ → Reply SupplierAgreement
respond_to_agreement id accept me = do
  a ← agreement_or_404 id
  raise_if (not (a.supplier_user_id == me)) forbidden
  save (λ db. (
    responded accept a,
    record db { agreements = adjust (agreement_with id) (responded accept) db.agreements },
  ))

pub record InvoiceCreate : Type 0 where
  pub amount : Amount
  pub description : String
  pub delivery_evidence_ref : Option String

abbrev pub new_invoice : InvoiceCreate → ℕ → Db → SupplierInvoice × Db
new_invoice b agreement_id db =
    let i : SupplierInvoice = record {
      id = db.fresh;
      agreement_id = agreement_id;
      amount = b.amount;
      description = b.description;
      delivery_evidence_ref = b.delivery_evidence_ref;
      status = InvoiceStatus.submitted;
      verified_by = none;
      verified_at = none;
      paid_at = none;
      settlement_ref = none;
    } in
    (i, record db { invoices = db.invoices ++ i ∷ []; fresh = db.fresh + 1 })

unfoldable pub submit_invoice : ℕ → InvoiceCreate → ℕ → Reply SupplierInvoice
submit_invoice agreement_id b me = do
  a ← agreement_or_404 agreement_id
  raise_if (not (a.supplier_user_id == me)) forbidden
  save (new_invoice b a.id)

unfoldable pub invoice_or_404 : ℕ → Reply SupplierInvoice
invoice_or_404 id = do
  found ← gets (λ db. first (invoice_with id) db.invoices)
  or_raise found not_found

abbrev pub can_be_verified : InvoiceStatus → Bool
can_be_verified InvoiceStatus.submitted = true
can_be_verified InvoiceStatus.verified = true
can_be_verified _ = false

abbrev pub verified_as : Bool → String → ℕ → Option String → SupplierInvoice → SupplierInvoice
verified_as approve subject now evidence i = record i {
  status = if approve then InvoiceStatus.verified else InvoiceStatus.rejected;
  verified_by = some subject;
  verified_at = some now;
  delivery_evidence_ref = elim (truthy evidence) [
    | some e ↦ some e
    | none ↦ i.delivery_evidence_ref
  ];
}

-- `reviewer` says that the principal has the role of a reviewer or of an administrator.
unfoldable pub verify_invoice :
    ℕ → Bool → Option String → ℕ → Bool → String → ℕ → Reply SupplierInvoice
verify_invoice id approve evidence me reviewer subject now = do
  i ← invoice_or_404 id
  a ← agreement_or_404 i.agreement_id
  p ← project_or_404 a.project_id
  raise_if (not (p.sponsor_user_id == me) && not reviewer) forbidden
  raise_if (not (can_be_verified i.status)) conflict
  save (λ db. (
    verified_as approve subject now evidence i,
    write_invoice id (verified_as approve subject now evidence) db,
  ))

unfoldable pub pay_verified : ℕ → Option String → ℕ → String → ℕ → Reply InvoicePaid
pay_verified id rail me token now = do
  i ← invoice_or_404 id
  a ← agreement_or_404 i.agreement_id
  p ← project_or_404 a.project_id
  sponsor_only p me
  wrap (pay_invoice i a p rail token now).run

unfoldable pub pledge : ℕ → Amount → Option ℕ → Option String → ℕ → Reply Pledge
pledge holding_id amount lender words me = do
  h ← holding_or_404 holding_id me
  wrap (create_pledge h amount lender words)

unfoldable pub release : ℕ → ℕ → ℕ → Reply Pledge
release pledge_id me now = do
  found ← gets (λ db. first (pledge_with pledge_id) db.pledges)
  p ← or_raise found not_found
  holding_or_404 p.holding_id me
  wrap (release_pledge p now)

unfoldable pub settle : ℕ → Amount → Option String → ℕ → String → Reply BridgeTransfer
settle holding_id amount rail me token = do
  h ← holding_or_404 holding_id me
  w ← wrap (get_or_create_wallet me)
  wrap (settle_down w h amount rail token)
