-- ===== src/Bridge/Payments/Faults.antt =====
-- A fault of `pay` in backend/app/bridge/agent_payments.py: an amount below half a cent is paid and never
-- taken or charged.
use can_framework.Prelude.All.{All}
use can_framework.Bridge.Records.{Wallet, PaymentMandate, Db}
use can_framework.Bridge.Wallet.{Position, position_for}
use can_framework.Bridge.Payments.{Order, payment_credit}
use can_framework.Bridge.Payments.Outcomes.{payer_wallet, start, spent}

-- The payee's cash in the currency of an order.
abbrev pub cash_at : Wallet → Order → Position
cash_at w o = position_for w (payment_credit o)

-- The tables once the payer's cash is taken.
abbrev pub spent_by : PaymentMandate → Order → Db → Db
spent_by m o db = spent o (start m db) (payer_wallet m db)
