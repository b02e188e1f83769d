-- ===== src/Bridge/Payments/Limits.antt =====
-- The limits of a mandate in backend/app/bridge/agent_payments.py: what `check_mandate` lets through,
-- and what a refused payment leaves.
use can_framework.Prelude.{
  ℕ, ◌≡◌, refl, ◌⊎◌, inl, inr, ◌↔◌, ◌≤◌, true, Option, none, some, [], ◌∷◌, ◌++◌, String, arith,
  str_eq_iff,
}
use can_framework.Prelude.Int.{◌+ℤ◌, ◌≤ℤ◌}
use can_framework.Prelude.Outcome.{Result, ok, request}
use can_framework.Money.{round_micro}
use can_framework.Bridge.Records.{
  PaymentMandate, MandateStatus, AgentPayment, PaymentStatus, Refusal, TransactionBody, Db, Error,
}
use can_framework.Bridge.Wallet.Opening.{open_wallet-same}
use can_framework.Bridge.Payments.{
  Order, check_mandate, mem_text, is_active, payee_allowed, has_evidence, refused_payment, pay,
}
use can_framework.Bridge.Payments.Outcomes.{refused, broken, settled, pay_outcome, start}

-- What a mandate allows: every limit that the person who granted it set.
pub record Permits (m : PaymentMandate) (now : ℕ) (o : Order) : Type 0 where
  pub agent : m.agent_id ≡ o.agent_id
  pub active : m.status ≡ MandateStatus.active
  pub in_time : now ≤ m.expires_at
  pub currency : o.currency ≡ m.currency
  pub purpose : mem_text o.purpose m.purposes ≡ true
  pub payee : payee_allowed m.payee_user_ids o.payee_user_id ≡ true
  pub per_payment : o.amount ≤ℤ m.max_per_payment
  pub in_total : round_micro (m.spent_total +ℤ o.amount) ≤ℤ m.max_total
  pub evidence : m.requires_evidence ≡ true → has_evidence o.evidence_ref ≡ true

is_active_sound : (s : MandateStatus) → is_active s ≡ true → s ≡ MandateStatus.active
is_active_sound s e = ground arith

pub check_mandate_sound :
    (m : PaymentMandate) (now : ℕ) (o : Order) → check_mandate m now o ≡ none → Permits m now o
unfolding check_mandate
check_mandate_sound m now o e = record {
  agent = ground arith;
  active = ground arith;
  in_time = ground arith;
  currency = ground (arith, str_eq_iff o.currency m.currency);
  purpose = ground arith;
  payee = ground arith;
  per_payment = ground arith;
  in_total = ground arith;
  evidence = λ need. ground arith;
}

check_mandate_complete :
    (m : PaymentMandate) (now : ℕ) (o : Order) → Permits m now o → check_mandate m now o ≡ none
unfolding check_mandate
check_mandate_complete m now o p = ground (arith, str_eq_iff o.currency m.currency)

-- `check_mandate` raises nothing exactly when the order stays within every limit of the mandate.
pub check_mandate_exact :
    (m : PaymentMandate) (now : ℕ) (o : Order) → (check_mandate m now o ≡ none) ↔ Permits m now o
check_mandate_exact m now o = (check_mandate_sound m now o, check_mandate_complete m now o)

only_reason :
    (m : PaymentMandate) (now : ℕ) (o : Order) {reason other : Refusal} {Short : Type 0}
    → check_mandate m now o ≡ some reason
    → (check_mandate m now o ≡ some other) ⊎ ((check_mandate m now o ≡ none) × Short)
    → other ≡ reason
only_reason m now o e (inl f) = cc
only_reason m now o e (inr (f, _)) = cc

-- A payment that the mandate does not permit is recorded: one new row after the others says who asked
-- to pay whom, how much and for what, that the payment is refused, and the reason that the check gives;
-- no rail, reference or signed object is in it. No holding and no mandate changes.
pub pay-refused :
    (sign : TransactionBody → Result Error (Option String)) (m : PaymentMandate) (o : Order)
    (now : ℕ) (token : String) (db : Db) {reason : Refusal}
    → check_mandate m now o ≡ some reason
    → let (r, after) = request (pay sign m o now token) db in
      let p : AgentPayment = record {
        id = (start m db).fresh;
        mandate_id = m.id;
        agent_id = o.agent_id;
        payer_user_id = m.granted_by_user_id;
        payee_user_id = o.payee_user_id;
        amount = o.amount;
        currency = o.currency;
        purpose = o.purpose;
        evidence_ref = o.evidence_ref;
        status = PaymentStatus.refused;
        refusal_reason = some reason;
        rail = none;
        settlement_ref = none;
        transaction_object = none;
      } in
      (r ≡ ok p)
      × (after.payments ≡ db.payments ++ p ∷ [])
      × (after.holdings ≡ db.holdings)
      × (after.mandates ≡ db.mandates)
pay-refused sign m o now token db {reason} e =
    elim (pay_outcome sign m o now token db)
      as (λ x how.
        (x.0 ≡ ok (refused_payment m o reason (start m db).fresh))
        × (x.1.payments ≡ db.payments ++ refused_payment m o reason (start m db).fresh ∷ [])
        × (x.1.holdings ≡ db.holdings)
        × (x.1.mandates ≡ db.mandates)) [
          | refused other why ↦
              let same = open_wallet-same m.granted_by_user_id db in
              let why' : (check_mandate m now o ≡ some other)
                  ⊎ ((check_mandate m now o ≡ none) × Unit {0}) =
                elim why [ inl p ↦ inl p | inr p ↦ inr (p.0, tt) ] in
              rw (only_reason m now o e why') (refl, rw same.payments, same.holdings, same.mandates)
          | broken x after able how ↦ cc (e, able.0)
          | settled result signature able sealed ↦ cc (e, able.0.0)
        ]
