-- ===== src/Bridge/Payments/Unsigned.antt =====
-- A fault of `pay` in backend/app/bridge/agent_payments.py: a node that cannot sign has moved the money
-- without a record of it.
use can_framework.Prelude.{ℕ, ◌≡◌, Bool, Option, String}
use can_framework.Prelude.Outcome.{Result, ok, err}
use can_framework.Money.{Amount}
use can_framework.Money.Rounding.{IsCents}
use can_framework.Bridge.Records.{Wallet, PaymentMandate, AgentPayment, TransactionBody, Db, Error}
use can_framework.Bridge.Rails.{Rail, get_rail}
use can_framework.Bridge.Wallet.{Position}
use can_framework.Bridge.Wallet.Credits.{share}
use can_framework.Bridge.Payments.{Order}
use can_framework.Bridge.Payments.Outcomes.{payer_wallet, start, payee, paid, Allowed}
use can_framework.Bridge.Payments.Conservation.{DrawsOn}
use can_framework.Bridge.Payments.Faults.{cash_at}

module _ (sign : TransactionBody → Result Error (Option String)) (m : PaymentMandate) (o : Order)
    (now : ℕ) (token : String) (db : Db) {e : Error} (plain : DrawsOn m o db)
    (cents : IsCents o.amount) (fails : (body : TransactionBody) → sign body ≡ err e)
    (rail : get_rail o.rail_name ≡ ok Rail.simulated) (able : Allowed sign m o now token db) where
  abbrev Moved : Result Error AgentPayment × Db → Type 0
  Moved (r, after) =
      (r ≡ err e)
      × (after.payments ≡ db.payments)
      × (after.mandates ≡ db.mandates)
      × (after.holdings ≡ (paid o (start m db) (payer_wallet m db)).holdings)

  abbrev gain : (Position → Bool) → Amount
  gain t = share t (cash_at (payee o (start m db) (payer_wallet m db)) o) o.amount
