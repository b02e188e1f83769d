-- ===== src/Bridge/Views/Pages.antt =====
-- The pages of one project, one agreement, one holding and one wallet in backend/app/bridge/routes.py.
use can_framework.Prelude.{ℕ, Bool, not, List, ◌==◌, ◌&&◌, ◌||◌}
use can_framework.Prelude.Table.{select}
use can_framework.Prelude.Handler.{gets, raise_if, ◌>>=◌, ◌>>◌}
use can_framework.Bridge.Records.{
  Pledge, Project, Contribution, SupplierAgreement, SupplierInvoice, BridgeTransfer, Db,
}
use can_framework.Bridge.Wallet.{get_or_create_wallet}
use can_framework.Bridge.Funding.{FundingMix, funding_mix, is_accepted}
use can_framework.Bridge.Handlers.{
  Reply, forbidden, wrap, project_or_404, agreement_or_404, holding_or_404,
}
use can_framework.Bridge.Views.{WalletView, wallet_view, newest_first}

unfoldable pub wallet : ℕ → Reply WalletView
wallet me = do w ← wrap (get_or_create_wallet me); gets (wallet_view w)

-- All transfers of the wallet, the newest first.
unfoldable pub transfers : ℕ → Reply (List BridgeTransfer)
transfers me = do
  w ← wrap (get_or_create_wallet me)
  gets (λ db. newest_first (select (λ t. t.wallet_id == w.id) db.transfers))

pub record ProjectPage : Type 0 where
  pub project : Project
  pub is_sponsor : Bool
  pub mix : FundingMix
  pub contributions : List Contribution
  pub supplier_agreements : List SupplierAgreement

-- Others than the sponsor see their own contributions and the accepted ones, and their own agreements.
abbrev pub shown_contribution : Project → ℕ → Contribution → Bool
shown_contribution p me c =
    c.project_id == p.id
    && (p.sponsor_user_id == me || (c.contributor_user_id == me || is_accepted c.status))

abbrev pub shown_agreement : Project → ℕ → SupplierAgreement → Bool
shown_agreement p me a =
    a.project_id == p.id && (p.sponsor_user_id == me || a.supplier_user_id == me)

abbrev pub project_page : Project → ℕ → Db → ProjectPage
project_page p me db = record {
  project = p;
  is_sponsor = p.sponsor_user_id == me;
  mix = funding_mix p db;
  contributions = select (shown_contribution p me) db.contributions;
  supplier_agreements = select (shown_agreement p me) db.agreements;
}

unfoldable pub get_project : ℕ → ℕ → Reply ProjectPage
get_project project_id me = do p ← project_or_404 project_id; gets (project_page p me)

unfoldable pub list_invoices : ℕ → ℕ → Reply (List SupplierInvoice)
list_invoices agreement_id me = do
  a ← agreement_or_404 agreement_id
  p ← project_or_404 a.project_id
  raise_if (not (a.supplier_user_id == me) && not (p.sponsor_user_id == me)) forbidden
  gets (λ db. select (λ i. i.agreement_id == a.id) db.invoices)

unfoldable pub list_pledges : ℕ → ℕ → Reply (List Pledge)
list_pledges holding_id me = do
  h ← holding_or_404 holding_id me
  gets (λ db. select (λ p. p.holding_id == h.id) db.pledges)
