-- ===== src/Tests/Bridge.antt =====
-- Tables for backend/app/bridge, and the theorems on payments at them.
mod Pledges
mod Faults
mod Mandates
mod Suppliers
mod Funding
mod Sponsor
mod Views
use can_framework.Prelude.{
  ◌≡◌, refl, true, false, none, some, [], ◌∷◌, String, Option, ◌↔◌, ◌⊎◌, arith, Bool, if◌then◌else◌,
  ◌==◌,
}
use mathlib.Core.Path.{subst}
use can_framework.Prelude.Int.{pos, ◌+ℤ◌, ◌-ℤ◌, ◌≤ℤ◌}
use can_framework.Prelude.Table.{first}
use can_framework.Prelude.Outcome.{Result, ok, err, request}
use can_framework.Money.{Amount, round_cents, round_micro}
use can_framework.Money.Rounding.{IsCents}
use can_framework.Bridge.Records.{
  Layer, Wallet, Holding, Pledge, PledgeStatus, PaymentMandate, MandateStatus, Refusal,
  TransactionBody, AgentPayment, PaymentStatus, Db, Error, bad_key, holding_layer,
}
use can_framework.Bridge.Rails.{Rail, get_rail, settle}
use can_framework.Bridge.Wallet.{place, credit, pledged_amount, same_position, is_fungible}
use can_framework.Bridge.Wallet.Credits.{total}
use can_framework.Bridge.Wallet.Opening.{open_wallet}
use can_framework.Bridge.Payments.{Order, check_mandate, pay, is_cash_of, available_cash, spend}
use can_framework.Bridge.Payments.Outcomes.{start}
use can_framework.Bridge.Payments.Conservation.{DrawsOn, in_currency, pay_conserves_cash}
use can_framework.Bridge.Payments.Limits.{Permits, check_mandate_exact, pay-refused}
use can_framework.Bridge.Payments.Metering.{IsMetered, pay-IsMetered}

abbrev payer : Wallet
payer = record { id = 10; user_id = 1 }

abbrev shop : Wallet
shop = record { id = 20; user_id = 2 }

abbrev cash_row : Holding
cash_row = record {
  id = 100;
  wallet_id = 10;
  layer = Layer.fiat;
  kind = "cash";
  amount = pos 100_000_000_000;
  currency = some "USD";
  project_id = none;
  description = none;
  terms = none;
  evidence_ref = none;
}

abbrev unit_row : Holding
unit_row = record {
  id = 101;
  wallet_id = 10;
  layer = Layer.direct_value;
  kind = "participation_unit";
  amount = pos 5_000_000_000;
  currency = none;
  project_id = some 7;
  description = none;
  terms =
      some (record { unit_value = some (pos 1_000_000_000_000); currency = some "USD"; rest = [] });
  evidence_ref = none;
}

abbrev unit_pledge : Pledge
unit_pledge = record {
  id = 102;
  holding_id = 101;
  lender_user_id = none;
  amount = pos 2_000_000_000;
  note = none;
  status = PledgeStatus.active;
  released_at = none;
}

abbrev mandate : PaymentMandate
mandate = record {
  id = 500;
  agent_id = 9;
  granted_by_user_id = 1;
  purposes = "supplies" ∷ [];
  currency = "USD";
  max_per_payment = pos 40_000_000_000;
  max_total = pos 60_000_000_000;
  spent_total = pos 0;
  payee_user_ids = none;
  requires_evidence = true;
  expires_at = 1000;
  status = MandateStatus.active;
  revoked_at = none;
  revoked_reason = none;
}

abbrev tables : Db
tables = record {
  wallets = payer ∷ shop ∷ [];
  holdings = cash_row ∷ unit_row ∷ [];
  projects = [];
  contributions = [];
  agreements = [];
  invoices = [];
  pledges = unit_pledge ∷ [];
  transfers = [];
  mandates = mandate ∷ [];
  payments = [];
  fresh = 600;
}

abbrev order : Amount → Order
order amount = record {
  agent_id = 9;
  agent_did = "did:key:z9";
  steward_user_id = 3;
  payee_user_id = 2;
  amount = amount;
  currency = "USD";
  purpose = "supplies";
  evidence_ref = some "invoice:1";
  rail_name = none;
}

abbrev signed : TransactionBody → Result Error (Option String)
signed body = ok (some "signature")

abbrev unsigned : TransactionBody → Result Error (Option String)
unsigned body = err bad_key

-- A run: the second payment would pass the total, and is refused.
two_payments :
    let (_, after) = request (pay signed mandate (order (pos 35_000_000_000)) 5 "t") tables in
    (first (λ (h : Holding). true) after.holdings
      ≡ some (record cash_row { amount = pos 65_000_000_000 }))
unfolding pay check_mandate get_rail settle credit holding_layer place is_fungible same_position
    is_cash_of available_cash spend pledged_amount round_cents round_micro
    can_framework.Bridge.Wallet.get_or_create_wallet ◌+ℤ◌ ◌-ℤ◌
two_payments = refl

draws : (amount : Amount) → DrawsOn mandate (order amount) tables
unfolding is_cash_of pledged_amount open_wallet ◌+ℤ◌
draws amount = ((λ _. ((refl, refl), omega arith, refl)), ((λ e. cc), tt))

pay_conserves_cash_example :
    total
      (in_currency "USD")
      (request (pay signed mandate (order (pos 25_000_000_000)) 5 "t") tables).1.holdings
    ≡ total (in_currency "USD") tables.holdings
pay_conserves_cash_example =
    pay_conserves_cash mandate (order (pos 25_000_000_000)) tables (draws (pos 25_000_000_000))
      (omega arith) signed 5 "t" (omega arith)

check_mandate_exact_example :
    (check_mandate mandate 5 (order (pos 25_000_000_000)) ≡ none)
    ↔ Permits mandate 5 (order (pos 25_000_000_000))
check_mandate_exact_example = check_mandate_exact mandate 5 (order (pos 25_000_000_000))

too_much : check_mandate mandate 5 (order (pos 45_000_000_000)) ≡ some Refusal.above_per_payment
unfolding check_mandate
too_much = refl

pay-refused_example :
    let (r, after) = request (pay signed mandate (order (pos 45_000_000_000)) 5 "t") tables in
    let p : AgentPayment = record {
      id = (start mandate tables).fresh;
      mandate_id = mandate.id;
      agent_id = (order (pos 45_000_000_000)).agent_id;
      payer_user_id = mandate.granted_by_user_id;
      payee_user_id = (order (pos 45_000_000_000)).payee_user_id;
      amount = pos 45_000_000_000;
      currency = "USD";
      purpose = (order (pos 45_000_000_000)).purpose;
      evidence_ref = (order (pos 45_000_000_000)).evidence_ref;
      status = PaymentStatus.refused;
      refusal_reason = some Refusal.above_per_payment;
      rail = none;
      settlement_ref = none;
      transaction_object = none;
    } in
    (r ≡ ok p)
    × (after.payments ≡ p ∷ [])
    × (after.holdings ≡ tables.holdings)
    × (after.mandates ≡ tables.mandates)
pay-refused_example = pay-refused signed mandate (order (pos 45_000_000_000)) 5 "t" tables too_much

one_row : {A : Type 0} (b : Bool) {x y : A} → (if b then some x else none) ≡ some y → x ≡ y
one_row true e = cc
one_row false e = cc

tables-IsMetered : IsMetered tables
tables-IsMetered = record {
  at_mandate = λ k m e.
      subst
        (λ (n : PaymentMandate).
          (pos 0 ≡ n.spent_total) × IsCents n.spent_total × (n.spent_total ≤ℤ n.max_total))
        (one_row (500 == k) e) (refl, (refl, refl), omega arith);
}

pay-IsMetered_example :
    IsMetered (request (pay signed mandate (order (pos 25_000_000_000)) 5 "t") tables).1
pay-IsMetered_example =
    pay-IsMetered signed mandate (order (pos 25_000_000_000)) 5 "t" tables (refl, refl) refl
      tables-IsMetered

default_rail : get_rail none ≡ ok Rail.simulated
unfolding get_rail
default_rail = refl
