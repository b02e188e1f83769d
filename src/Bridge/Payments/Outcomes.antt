-- ===== src/Bridge/Payments/Outcomes.antt =====
-- How `pay` of backend/app/bridge/agent_payments.py ends: refused, broken off, or settled.
use mathlib.Core.Path.{subst}
use can_framework.Prelude.{
  ℕ, ◌≡◌, refl, sym, ◌⊎◌, inl, inr, Option, none, some, String, arith, Bool-cases,
}
use can_framework.Prelude.Int.{pos, ◌≤ℤ◌, ◌<ℤ◌, ltb_ℤ}
use can_framework.Prelude.Outcome.{
  Result, ok, err, Session, request, request_from, Result-cases, bind-ok,
}
use can_framework.Bridge.Records.{
  Layer, holding_layer, Wallet, PaymentMandate, AgentPayment, Refusal, TransactionBody, Db, Error,
  negative_amount,
}
use can_framework.Bridge.Rails.{Rail, SettlementResult, simulated_result, get_rail, settle}
use can_framework.Bridge.Wallet.{existing, place, credit, get_or_create_wallet}
use can_framework.Bridge.Wallet.Opening.{
  clean, open_wallet, get_or_create-clean, get_or_create-dirty,
}
use can_framework.Bridge.Payments.{
  Order, check_mandate, available_cash, payment_credit, charge, refused_payment, transaction_body,
  settled_payment, add_payment, spend_from, charge_mandate, record_payment, move_money,
  settle_payment, pay_checked, pay,
}

module _ (o : Order) (d : Db) (payer : ℕ) where
  abbrev pub spent : Db
  spent = spend_from payer o d

  abbrev pub payee : Wallet
  payee = (open_wallet o.payee_user_id spent).0

  abbrev pub opened : Db
  opened = (open_wallet o.payee_user_id spent).1

  abbrev pub paid : Db
  paid =
      (place payee (payment_credit o) Layer.fiat (existing payee (payment_credit o) opened)
        opened).1

module _ (m : PaymentMandate) (o : Order) (d : Db) (payer : ℕ) where
  abbrev pub charged : Db
  charged = charge_mandate m o (paid o d payer)

  abbrev pub body_of : SettlementResult → TransactionBody
  body_of result = transaction_body (charge o.amount m) o result charged.fresh

  abbrev pub recorded : SettlementResult → Option String → AgentPayment × Db
  recorded result signature =
      add_payment (settled_payment (charge o.amount m) o result signature) charged

module _ (sign : TransactionBody → Result Error (Option String)) (m : PaymentMandate) (o : Order)
    (token : String) (d : Db) (payer : ℕ) where
  -- The rail is there and the amount can be credited.
  abbrev pub Working : Type 0
  Working = (get_rail o.rail_name ≡ ok Rail.simulated) × (pos 0 ≤ℤ o.amount)

  not_working_rail :
      (rail : Rail) (e : Error)
      → get_rail o.rail_name ≡ ok rail
      → settle token rail ≡ err e
      → ¬ Working
  unfolding settle
  not_working_rail Rail.simulated e found failed q = cc
  not_working_rail Rail.instant_payment e found failed q = cc (found, q.0)
  not_working_rail Rail.tokenised_deposit e found failed q = cc (found, q.0)
  not_working_rail Rail.offline_value e found failed q = cc (found, q.0)

  -- What a settlement that breaks off has committed.
  pub data Broken : Error → Db → Type 0 where
    before_moving : (e : Error) → ¬ Working → Broken e d
    before_credit : (e : Error) → o.amount <ℤ pos 0 → Broken e (opened o d payer)
    unsigned :
        (e : Error) (result : SettlementResult)
        → sign (body_of m o d payer result) ≡ err e
        → Broken e (paid o d payer)

  at_credit :
      (c : Db) → o.amount <ℤ pos 0 → (c ≡ d) ⊎ (c ≡ (opened o d payer)) → Broken negative_amount c
  at_credit c neg (inl e) = rw e (before_moving negative_amount (λ q. absurd (omega (arith, q.1))))
  at_credit c neg (inr e) = rw e (before_credit negative_amount neg)

  abbrev Settled : SettlementResult → Option String → Type 0
  Settled result signature =
      (pos 0 ≤ℤ o.amount) × (sign (body_of m o d payer result) ≡ ok signature)

  -- How an action on the session ends: broken off, or settled by `result`.
  abbrev Ends : SettlementResult → Result Error AgentPayment × Session Db → Type 0
  Ends result (r, s) =
      ((e : Error) × (s' : Session Db) × (◌≡◌ {A = Result Error AgentPayment × Session Db} (r, s)
          (err e, s'))
        × Broken e s'.committed)
      ⊎ ((signature : Option String) × Settled result signature
          × (◌≡◌ {A = Result Error AgentPayment × Session Db} (r, s)
              (
                ok (recorded m o d payer result signature).0,
                clean (recorded m o d payer result signature).1,
              )))

  abbrev no_answer : SettlementResult
  no_answer = simulated_result token

  -- The payment from the opened wallet on.
  record_payment_outcome :
      (result : SettlementResult) (c : Db)
      → (c ≡ d) ⊎ (c ≡ (opened o d payer))
      → Ends result (
          record_payment sign m o result
            (payee o d payer)
            (record { committed = c; working = (opened o d payer) }))
  unfolding record_payment credit holding_layer
  record_payment_outcome result c committed = elim (Bool-cases (ltb_ℤ o.amount (pos 0))) [
    | inl negative ↦ inl (
      negative_amount,
      record { committed = c; working = (opened o d payer) },
      rw negative,
      at_credit c (ground arith) committed,
    )
    | inr nonneg ↦ elim (Result-cases (sign (body_of m o d payer result))) [
      | inr (e, unsealed) ↦ inl (
        e,
        record { committed = (paid o d payer); working = (charged m o d payer) },
        rw (nonneg, unsealed),
        unsigned e result unsealed,
      )
      | inl (signature, sealed) ↦ inr (signature, (ground arith, sealed), rw (nonneg, sealed))
    ]
  ]

  move_money_outcome :
      (result : SettlementResult) → Ends result (move_money sign m o payer result (clean d))
  unfolding move_money
  move_money_outcome result =
      let (c, step, committed) = get_or_create-dirty o.payee_user_id d (spent o d payer) in
      rw (bind-ok (get_or_create_wallet o.payee_user_id) (record_payment sign m o result) step)
        (record_payment_outcome result c committed)

  settle_payment_outcome :
      (result : SettlementResult) × Ends result (settle_payment sign m o payer token (clean d))
  unfolding settle_payment
  settle_payment_outcome = elim (Result-cases (get_rail o.rail_name)) [
    | inr (e, no_rail) ↦
        (no_answer, inl (e, clean d, rw no_rail, before_moving e (λ q. cc (no_rail, q.0))))
    | inl (rail, found) ↦ elim (Result-cases (settle token rail)) [
      | inr (e, failed) ↦ (
        no_answer,
        inl (
          e,
          clean d,
          rw (found, failed),
          before_moving e (not_working_rail rail e found failed),
        ),
      )
      | inl (result, answered) ↦ (result, rw (found, answered) (move_money_outcome result))
    ]
  ]

-- The payer's wallet, and the tables once it is open.
abbrev pub payer_wallet : PaymentMandate → Db → ℕ
payer_wallet m db = (open_wallet m.granted_by_user_id db).0.id

abbrev pub start : PaymentMandate → Db → Db
start m db = (open_wallet m.granted_by_user_id db).1

module _ (sign : TransactionBody → Result Error (Option String)) (m : PaymentMandate) (o : Order)
    (now : ℕ) (token : String) (db : Db) where
  -- Why a payment does not go through.
  abbrev pub Refused : Refusal → Type 0
  Refused reason =
      (check_mandate m now o ≡ some reason)
      ⊎ ((check_mandate m now o ≡ none)
          × (reason ≡ Refusal.short_of_cash)
          × (available_cash (payer_wallet m db) o.currency (start m db) <ℤ o.amount))

  abbrev pub Affordable : Type 0
  Affordable =
      (check_mandate m now o ≡ none)
      × (o.amount ≤ℤ available_cash (payer_wallet m db) o.currency (start m db))

  abbrev pub Allowed : Type 0
  Allowed = Affordable × (pos 0 ≤ℤ o.amount)

  pub data PayEnds : Result Error AgentPayment × Db → Type 0 where
    refused :
        (reason : Refusal)
        → Refused reason
        → PayEnds (
          ok (add_payment (refused_payment m o reason) (start m db)).0,
          (add_payment (refused_payment m o reason) (start m db)).1,
        )
    broken :
        (e : Error) (after : Db)
        → Affordable
        → Broken sign m o token (start m db) (payer_wallet m db) e after
        → PayEnds (err e, after)
    settled :
        (result : SettlementResult) (signature : Option String)
        → Allowed
        → sign (body_of m o (start m db) (payer_wallet m db) result) ≡ ok signature
        → PayEnds (
          ok (recorded m o (start m db) (payer_wallet m db) result signature).0,
          (recorded m o (start m db) (payer_wallet m db) result signature).1,
        )

  ended :
      {r : Result Error AgentPayment} {s : Session Db} {x : Result Error AgentPayment × Session Db}
      → x ≡ (r, s)
      → PayEnds (r, s.committed)
      → PayEnds (x.0, x.1.committed)
  ended e h = rw e h

  pay_checked_outcome :
      (found : Option Refusal)
      → check_mandate m now o ≡ found
      → PayEnds
          (request_from (pay_checked sign m o (payer_wallet m db) token found) (clean (start m db)))
  unfolding pay_checked
  pay_checked_outcome (some reason) e = refused reason (inl e)
  pay_checked_outcome none e =
      elim (Bool-cases
        (ltb_ℤ (available_cash (payer_wallet m db) o.currency (start m db)) o.amount)) [
          | inl short ↦ rw short (refused Refusal.short_of_cash (inr (e, refl, ground arith)))
          | inr enough ↦ rw enough (
              let (result, how) =
                settle_payment_outcome sign m o token (start m db) (payer_wallet m db) in
              elim how [
                | inl (x, s, eq, b) ↦ ended eq (broken x s.committed (e, ground arith) b)
                | inr (signature, (nonneg, sealed), eq) ↦
                    ended eq (settled result signature ((e, ground arith), nonneg) sealed)
              ])
        ]

  -- Every way in which a call of `pay` ends.
  pub pay_outcome : PayEnds (request (pay sign m o now token) db)
  unfolding pay
  pay_outcome =
      subst (λ x. PayEnds (x.0, x.1.committed))
        (sym (
          bind-ok (get_or_create_wallet m.granted_by_user_id)
            (λ payer. pay_checked sign m o payer.id token (check_mandate m now o))
            (get_or_create-clean m.granted_by_user_id db)))
        (pay_checked_outcome (check_mandate m now o) refl)
