-- ===== src/Bridge/Views.antt =====
-- The readers of backend/app/bridge: `wallet_view` of backend/app/bridge/service.py, and the lists of
-- mandates, payments and projects of backend/app/bridge/routes.py.
pub mod Pages
pub mod Privacy
use can_framework.Prelude.{
  ℕ, zero, suc, ◌+◌, Bool, true, false, not, Option, none, some, List, [], ◌∷◌, ◌++◌, String,
  str_eq, ◌==◌, ◌&&◌, ◌||◌, if◌then◌else◌,
}
use can_framework.Prelude.Int.{pos, ◌+ℤ◌, ◌-ℤ◌}
use can_framework.Prelude.Table.{first, select, sum_of, newest_first, limit}
use can_framework.Prelude.Count.{count}
use can_framework.Money.{Amount, round_micro}
use can_framework.Bridge.Records.{
  Layer, Wallet, Holding, Pledge, Project, Contribution, SupplierAgreement, SupplierInvoice,
  PaymentMandate, AgentPayment, PaymentStatus, Db,
}
use can_framework.Bridge.Wallet.{pledged_amount}

-- An entry of `holdings` in the view of a wallet: the holding, what is pledged of it and what is free.
pub record HoldingView : Type 0 where
  pub holding : Holding
  pub pledged : Amount
  pub free : Amount

abbrev pub view_holding : List Pledge → Holding → HoldingView
view_holding pledges h = record {
  holding = h;
  pledged = pledged_amount h.id pledges;
  free = round_micro (h.amount -ℤ pledged_amount h.id pledges);
}

abbrev pub view_all : List Pledge → List Holding → List HoldingView
view_all pledges [] = []
view_all pledges (h ∷ hs) = view_holding pledges h ∷ view_all pledges hs

abbrev pub same_layer : Layer → Layer → Bool
same_layer Layer.fiat Layer.fiat = true
same_layer Layer.modernised_fiat Layer.modernised_fiat = true
same_layer Layer.direct_value Layer.direct_value = true
same_layer _ _ = false

abbrev pub in_wallet : ℕ → Holding → Bool
in_wallet wallet_id h = h.wallet_id == wallet_id

abbrev pub of_kind : Layer → String → Holding → Bool
of_kind layer kind h = same_layer h.layer layer && str_eq h.kind kind

-- The running total of a kind, rounded at each step.
abbrev pub kind_total : Layer → String → Amount → List Holding → Amount
kind_total layer kind sum [] = sum
kind_total layer kind sum (h ∷ hs) =
    let next = if of_kind layer kind h then round_micro (sum +ℤ h.amount) else sum in
    kind_total layer kind next hs

pub record WalletView : Type 0 where
  pub wallet_id : ℕ
  pub layer_count : Layer → ℕ
  pub layer_by_kind : Layer → String → Amount
  pub holdings : List HoldingView

unfoldable pub wallet_view : Wallet → Db → WalletView
wallet_view w db =
    let mine = select (in_wallet w.id) db.holdings in
    record {
      wallet_id = w.id;
      layer_count = λ layer. count (λ h. same_layer h.layer layer) mine;
      layer_by_kind = λ layer kind. kind_total layer kind (pos 0) mine;
      holdings = view_all db.pledges mine;
    }

-- Who asks: an agent by its id (`none` for one that is not known), an auditor or an administrator, or a
-- person by the id of the profile.
pub data Viewer : Type 0 where
  as_agent : Option ℕ → Viewer
  as_auditor : Viewer
  as_person : Option ℕ → Viewer

abbrev pub is_settled : PaymentStatus → Bool
is_settled PaymentStatus.settled = true
is_settled PaymentStatus.refused = false

-- The payer sees everything their agent tried. A payee sees only what actually settled.
unfoldable pub may_see : Viewer → AgentPayment → Bool
may_see (as_agent none) p = false
may_see (as_agent (some id)) p = p.agent_id == id
may_see as_auditor p = true
may_see (as_person none) p = false
may_see (as_person (some me)) p =
    p.payer_user_id == me || (p.payee_user_id == me && is_settled p.status)

abbrev pub has_status : Option Bool → AgentPayment → Bool
has_status none p = true
has_status (some true) p = is_settled p.status
has_status (some false) p = not (is_settled p.status)

-- `status` is `some true` for settled and `some false` for refused.
unfoldable pub list_agent_payments : Viewer → Option Bool → Db → List AgentPayment
list_agent_payments viewer status db =
    limit 200 (newest_first (select (λ p. may_see viewer p && has_status status p) db.payments))

abbrev pub granted_to : Viewer → PaymentMandate → Bool
granted_to (as_agent (some id)) m = m.agent_id == id
granted_to (as_person (some me)) m = m.granted_by_user_id == me
granted_to _ m = false

unfoldable pub list_mandates : Viewer → Db → List PaymentMandate
list_mandates viewer db = select (granted_to viewer) db.mandates

abbrev pub takes_part : ℕ → Db → Project → Bool
takes_part me db p =
    let gave = first (λ c. c.contributor_user_id == me && c.project_id == p.id) db.contributions in
    let supplies = first (λ a. a.supplier_user_id == me && a.project_id == p.id) db.agreements in
    elim gave [ some _ ↦ true | none ↦ elim supplies [ some _ ↦ true | none ↦ false ] ]

pub record ProjectLists : Type 0 where
  pub sponsored : List Project
  pub participating : List Project

unfoldable pub list_projects : ℕ → Db → ProjectLists
list_projects me db = record {
  sponsored = select (λ p. p.sponsor_user_id == me) db.projects;
  participating = select (λ p. takes_part me db p && not (p.sponsor_user_id == me)) db.projects;
}
