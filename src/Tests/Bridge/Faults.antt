-- ===== src/Tests/Bridge/Faults.antt =====
-- The theorems on credits, and on the faults of payments, of backend/app/bridge at concrete tables.
use can_framework.Prelude.{◌≡◌, refl, none, some, arith}
use can_framework.Prelude.Int.{pos, ◌+ℤ◌}
use can_framework.Prelude.Outcome.{Result, ok, request}
use can_framework.Money.{Amount}
use can_framework.Bridge.Records.{Layer, Wallet, AgentPayment, Db, Error, holding_layer}
use can_framework.Bridge.Wallet.{
  Credit, place, existing, credit, position_for, same_position, is_fungible,
}
use can_framework.Bridge.Wallet.Credits.{total, share, total-credit}
use can_framework.Bridge.Payments.{Order, pay}
use can_framework.Bridge.Payments.Conservation.{in_currency}
use can_framework.Tests.Bridge.{payer, mandate, tables, order, signed}

abbrev gift : Amount → Credit
gift amount = record {
  kind = "cash";
  amount = amount;
  currency = some "USD";
  project_id = none;
  description = none;
  terms = none;
  evidence_ref = none;
}

cash_layer : holding_layer "cash" ≡ some Layer.fiat
unfolding holding_layer
cash_layer = refl

total-credit_example :
    let (r, db') = request (credit payer (gift (pos 5))) tables in
    (r ≡ ok (place payer (gift (pos 5)) Layer.fiat (existing payer (gift (pos 5)) tables) tables).0)
    × (total (in_currency "USD") db'.holdings
        ≡ total (in_currency "USD") tables.holdings
          +ℤ share (in_currency "USD") (position_for payer (gift (pos 5))) (pos 5))
total-credit_example =
    total-credit (in_currency "USD") payer (gift (pos 5)) tables cash_layer (omega arith)

-- Four tenths of a cent.
abbrev crumb : Order
crumb = order (pos 4_000_000)

abbrev crumb_end : Result Error AgentPayment × Db
crumb_end = request (pay signed mandate crumb 5 "t") tables
