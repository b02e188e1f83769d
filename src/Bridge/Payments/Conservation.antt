-- ===== src/Bridge/Payments/Conservation.antt =====
-- Payments of backend/app/bridge/agent_payments.py move cash and make none.
use text.Mathlib.TextPositions.{eq_refl}
use can_framework.Prelude.{
  ℕ, ◌≡◌, ap, ◌∙◌, inl, inr, Bool, true, Option, some, List, [], ◌∷◌, String, arith, str_eq, ◌&&◌,
  Bool-cases,
}
use can_framework.Prelude.Int.{pos, ◌+ℤ◌, ◌≤ℤ◌}
use can_framework.Prelude.All.{All}
use can_framework.Prelude.Table.{sum_of}
use can_framework.Prelude.Outcome.{Result, request}
use can_framework.Money.Rounding.{IsCents, add-IsCents, round_cents-eq}
use can_framework.Bridge.Records.{
  Layer, Holding, Pledge, PaymentMandate, AgentPayment, TransactionBody, Db, Error,
}
use can_framework.Bridge.Wallet.{Position, position_of, position_for, text_eq?}
use can_framework.Bridge.Wallet.Credits.{total, share, total-place}
use can_framework.Bridge.Wallet.Opening.{SameBut, open_wallet-same}
use can_framework.Bridge.Payments.{
  Order, is_cash_of, free_cash, available_cash, payment_credit, pay,
}
use can_framework.Bridge.Payments.Spending.{Plain, total-spend, free_of-Plain}
use can_framework.Bridge.Payments.Outcomes.{
  Broken, before_moving, before_credit, unsigned, PayEnds, refused, broken, settled, pay_outcome,
  payer_wallet, start, spent, paid, payee, opened,
}

-- The positions that hold cash in a currency.
abbrev pub in_currency : String → Position → Bool
in_currency currency p = str_eq p.kind "cash" && text_eq? p.currency (some currency)

cash-in_currency :
    (w : ℕ) (currency : String) (h : Holding)
    → is_cash_of w currency h ≡ true
    → in_currency currency (position_of h) ≡ true
unfolding is_cash_of
cash-in_currency w currency h e = ground arith

-- Free cash of plain rows is whole cents, so that rounding the sum changes nothing.
free_cash-IsCents :
    (pledges : List Pledge) (mine : Holding → Bool) (rows : List Holding)
    → All (λ h. mine h ≡ true → Plain pledges h) rows
    → IsCents (sum_of (free_cash pledges mine) rows)
free_cash-IsCents pledges mine [] p = omega arith
free_cash-IsCents pledges mine (h ∷ hs) p =
    add-IsCents (free_cash pledges mine h) (sum_of (free_cash pledges mine) hs)
      (elim (Bool-cases (mine h)) [
        | inl own ↦ rw (own, free_of-Plain pledges h (p.0 own)) (p.0 own).0
        | inr other ↦ rw other (omega arith)
      ])
      (free_cash-IsCents pledges mine hs p.1)

-- The cash that `pay` may draw on for this order: whole cents, not below zero, not pledged.
abbrev pub DrawsOn : PaymentMandate → Order → Db → Type 0
DrawsOn m o db =
    All (λ h. is_cash_of (payer_wallet m db) o.currency h ≡ true → Plain db.pledges h) db.holdings

module _ (m : PaymentMandate) (o : Order) (db : Db) where
  -- The credit to the payee raises every total by the amount, if the payee's cash counts in it.
  pub total-paid :
      (t : Position → Bool)
      → total t (paid o (start m db) (payer_wallet m db)).holdings
        ≡ total t (spent o (start m db) (payer_wallet m db)).holdings
          +ℤ share t
              (position_for (payee o (start m db) (payer_wallet m db)) (payment_credit o))
              o.amount
  total-paid t =
      total-place t (payee o (start m db) (payer_wallet m db)) (payment_credit o) Layer.fiat
        (opened o (start m db) (payer_wallet m db))
      ∙ rw (open_wallet-same o.payee_user_id (spent o (start m db) (payer_wallet m db))).holdings

  pub cash_counts :
      share
        (in_currency o.currency)
        (position_for (payee o (start m db) (payer_wallet m db)) (payment_credit o))
        o.amount
      ≡ o.amount
  cash_counts = rw (eq_refl o.currency)

module _ (m : PaymentMandate) (o : Order) (db : Db) (plain : DrawsOn m o db)
    (cents : IsCents o.amount) where
  abbrev mine : Holding → Bool
  mine = is_cash_of (payer_wallet m db) o.currency

  abbrev same : SameBut (start m db) db
  same = open_wallet-same m.granted_by_user_id db

  enough_cash :
      o.amount ≤ℤ available_cash (payer_wallet m db) o.currency (start m db)
      → o.amount ≤ℤ sum_of (free_cash db.pledges mine) db.holdings
  unfolding available_cash
  enough_cash h =
      rw
        (
          same.pledges,
          same.holdings,
          round_cents-eq (sum_of (free_cash db.pledges mine) db.holdings)
              (free_cash-IsCents db.pledges mine db.holdings plain),
        )
        at h

  -- The payer's rows lose the amount from every total that counts them.
  pub total-spent :
      (t : Position → Bool)
      → ((h : Holding) → mine h ≡ true → t (position_of h) ≡ true)
      → o.amount ≤ℤ available_cash (payer_wallet m db) o.currency (start m db)
      → pos 0 ≤ℤ o.amount
      → total t (spent o (start m db) (payer_wallet m db)).holdings +ℤ o.amount
        ≡ total t db.holdings
  total-spent t counted enough nonneg =
      rw (same.pledges, same.holdings)
        (total-spend db.pledges mine t counted db.holdings o.amount plain cents nonneg
          (enough_cash enough))

  abbrev W : ℕ
  W = payer_wallet m db

  abbrev d : Db
  d = start m db

  total-conserved :
      o.amount ≤ℤ available_cash W o.currency d
      → pos 0 ≤ℤ o.amount
      → total (in_currency o.currency) (paid o d W).holdings
        ≡ total (in_currency o.currency) db.holdings
  total-conserved enough nonneg =
      total-paid m o db (in_currency o.currency)
      ∙ ap (λ z. total (in_currency o.currency) (spent o d W).holdings +ℤ z) (cash_counts m o db)
      ∙ total-spent (in_currency o.currency) (cash-in_currency W o.currency) enough nonneg

  module _ (sign : TransactionBody → Result Error (Option String)) (now : ℕ) (token : String)
      (nonneg : pos 0 ≤ℤ o.amount) where
    abbrev Conserved : Result Error AgentPayment × Db → Type 0
    Conserved (r, after) =
        total (in_currency o.currency) after.holdings ≡ total (in_currency o.currency) db.holdings

    broken-Conserved :
        (e : Error) (after : Db)
        → o.amount ≤ℤ available_cash W o.currency d
        → Broken sign m o token d W e after
        → total (in_currency o.currency) after.holdings ≡ total (in_currency o.currency) db.holdings
    broken-Conserved e after enough (before_moving _ _) = rw same.holdings
    broken-Conserved e after enough (before_credit _ negative) = absurd (omega arith)
    broken-Conserved e after enough (unsigned _ result failed) = total-conserved enough nonneg

    ends-Conserved :
        (x : Result Error AgentPayment × Db) → PayEnds sign m o now token db x → Conserved x
    ends-Conserved x (refused reason why) = rw same.holdings
    ends-Conserved x (broken e after able how) = broken-Conserved e after able.1 how
    ends-Conserved x (settled result signature able sealed) = total-conserved able.0.1 nonneg

    -- Where the payer's cash in the currency is whole cents, not below zero and not pledged, an order
    -- of whole cents keeps the total of cash in that currency over all wallets, however `pay` ends.
    pub pay_conserves_cash :
        total (in_currency o.currency) (request (pay sign m o now token) db).1.holdings
        ≡ total (in_currency o.currency) db.holdings
    pay_conserves_cash = ends-Conserved _ (pay_outcome sign m o now token db)
