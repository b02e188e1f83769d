-- ===== src/Bridge/Payments/Metering.antt =====
-- Metering in backend/app/bridge/agent_payments.py: the payments on record add up to what a mandate has
-- spent, and stay within its total.
use mathlib.Core.Path.{subst₂}
use can_framework.Prelude.{
  ℕ, ◌≡◌, refl, sym, ap, ◌∙◌, inl, inr, false, Option, none, some, List, [], ◌∷◌, ◌++◌, String,
  arith, ◌==◌, ==_iff, if◌then◌else◌, Bool-cases,
}
use can_framework.Prelude.Int.{pos, ◌+ℤ◌, ◌≤ℤ◌, int_laws}
use can_framework.Prelude.Table.{
  first, adjust, sum_of, sum_of-append, first-adjust_self, first-adjust_ne,
}
use can_framework.Prelude.Outcome.{Result, request}
use can_framework.Money.{Amount, round_micro}
use can_framework.Money.Rounding.{IsCents, add-IsCents, round_cents-eq, round_micro-eq}
use can_framework.Bridge.Rails.{SettlementResult}
use can_framework.Bridge.Wallet.{Credit, place, existing}
use can_framework.Bridge.Records.{
  Wallet, Holding, Layer, PaymentMandate, AgentPayment, PaymentStatus, Refusal, TransactionBody, Db,
  Error,
}
use can_framework.Bridge.Wallet.Opening.{open_wallet-same}
use can_framework.Bridge.Payments.{
  Order, mandate_with, charge, add_payment, payment_credit, refused_payment, pay,
}
use can_framework.Bridge.Payments.Limits.{check_mandate_sound}
use can_framework.Bridge.Payments.Outcomes.{
  Broken, before_moving, before_credit, unsigned, PayEnds, refused, broken, settled, pay_outcome,
  payer_wallet, start, spent, payee, opened, paid, recorded,
}

-- What a payment adds to the settled total of a mandate.
abbrev pub settled_under : ℕ → AgentPayment → Amount
settled_under id p =
    if p.mandate_id == id
    then elim p.status [ PaymentStatus.settled ↦ p.amount | PaymentStatus.refused ↦ pos 0 ]
    else pos 0

-- Every mandate has spent, in whole cents, the sum of its settled payments, and no more than its total.
pub record IsMetered (db : Db) : Type 0 where
  pub at_mandate :
      (k : ℕ) (m : PaymentMandate)
      → first (mandate_with k) db.mandates ≡ some m
      → (sum_of (settled_under k) db.payments ≡ m.spent_total)
        × IsCents m.spent_total
        × (m.spent_total ≤ℤ m.max_total)

place_keeps :
    (w : Wallet) (c : Credit) (layer : Layer) (db : Db) (x : Option Holding)
    → ((place w c layer x db).1.mandates ≡ db.mandates)
      × ((place w c layer x db).1.payments ≡ db.payments)
unfolding place
place_keeps w c layer db none = (refl, refl)
place_keeps w c layer db (some h) = (refl, refl)

-- The invariant depends on two tables only.
same_tables :
    {a b : Db} → a.mandates ≡ b.mandates → a.payments ≡ b.payments → IsMetered b → IsMetered a
same_tables p q h = record { at_mandate = λ k m e. rw q (h.at_mandate k m (rw p at e)) }

no_charge :
    (k : ℕ) (m : PaymentMandate) (o : Order) (reason : Refusal) (id : ℕ)
    → settled_under k (refused_payment m o reason id) ≡ pos 0
no_charge k m o reason id = ground arith

module _ (m : PaymentMandate) (o : Order) (db : Db) where
  abbrev W : ℕ
  W = payer_wallet m db

  abbrev d : Db
  d = start m db

  pub paid_keeps : ((paid o d W).mandates ≡ db.mandates) × ((paid o d W).payments ≡ db.payments)
  paid_keeps =
      let keep =
        place_keeps (payee o d W) (payment_credit o) Layer.fiat (opened o d W)
          (existing (payee o d W) (payment_credit o) (opened o d W)) in
      let opening = open_wallet-same o.payee_user_id (spent o d W) in
      let begin = open_wallet-same m.granted_by_user_id db in
      (keep.0 ∙ opening.mandates ∙ begin.mandates, keep.1 ∙ opening.payments ∙ begin.payments)

  refused-IsMetered :
      (reason : Refusal) → IsMetered db → IsMetered (add_payment (refused_payment m o reason) d).1
  refused-IsMetered reason h =
      let begin = open_wallet-same m.granted_by_user_id db in
      record {
        at_mandate = λ k n e.
            let old = h.at_mandate k n (rw begin.mandates at e) in
            (
              rw (begin.payments, sum_of-append (settled_under k))
                  (rw (old.0, no_charge k m o reason d.fresh) (omega int_laws)),
              old.1,
              old.2,
            );
      }

  module _ (cents : IsCents o.amount)
      (within : round_micro (m.spent_total +ℤ o.amount) ≤ℤ m.max_total)
      (here : first (mandate_with m.id) db.mandates ≡ some m) (h : IsMetered db) where
    before :
        (sum_of (settled_under m.id) db.payments ≡ m.spent_total)
        × IsCents m.spent_total
        × (m.spent_total ≤ℤ m.max_total)
    before = h.at_mandate m.id m here

    sum-IsCents : IsCents (m.spent_total +ℤ o.amount)
    sum-IsCents = add-IsCents m.spent_total o.amount before.1 cents

    -- A settled order of whole cents is charged in full, and the mandate stays within its total.
    pub charge_exact :
        ((charge o.amount m).spent_total ≡ m.spent_total +ℤ o.amount)
        × ((charge o.amount m).spent_total ≤ℤ m.max_total)
    charge_exact =
        let exact = round_cents-eq (m.spent_total +ℤ o.amount) sum-IsCents in
        (exact, rw exact (rw (round_micro-eq (m.spent_total +ℤ o.amount) sum-IsCents) at within))

    abbrev Row : ℕ → PaymentMandate → List AgentPayment → Type 0
    Row k n payments =
        (sum_of (settled_under k) payments ≡ n.spent_total)
        × IsCents n.spent_total
        × (n.spent_total ≤ℤ n.max_total)

    module _ (result : SettlementResult) (signature : Option String) where
      abbrev p : AgentPayment
      p = (recorded m o d W result signature).0

      charged_sum : sum_of (settled_under m.id) (db.payments ++ p ∷ []) ≡ m.spent_total +ℤ o.amount
      charged_sum =
          sum_of-append (settled_under m.id) db.payments p
          ∙ rw (before.0, (==_iff m.id m.id).1 refl)

      other_sum :
          (k : ℕ)
          → (m.id == k) ≡ false
          → sum_of (settled_under k) (db.payments ++ p ∷ []) ≡ sum_of (settled_under k) db.payments
      other_sum k ne = sum_of-append (settled_under k) db.payments p ∙ rw ne (omega int_laws)

      settled-Row :
          (k : ℕ) (n : PaymentMandate)
          → first (mandate_with k) (adjust (mandate_with m.id) (charge o.amount) db.mandates)
            ≡ some n
          → Row k n (db.payments ++ p ∷ [])
      settled-Row k n e = elim (Bool-cases (m.id == k)) [
        | inl same ↦
            let id = (==_iff m.id k).0 same in
            let written : first (mandate_with m.id)
                  (adjust (mandate_with m.id) (charge o.amount) db.mandates)
                ≡ some (charge o.amount m) =
              first-adjust_self (mandate_with m.id) (charge o.amount) db.mandates m (λ y q. q)
                here in
            let row : some (charge o.amount m) ≡ some n =
              sym written
              ∙ ap
                  (λ j.
                    first (mandate_with j)
                      (adjust (mandate_with m.id) (charge o.amount) db.mandates))
                  id
              ∙ e in
            let found : charge o.amount m ≡ n = cc in
            subst₂ (λ j r. Row j r (db.payments ++ p ∷ [])) id found
              (charged_sum ∙ sym charge_exact.0, rw charge_exact.0 sum-IsCents, charge_exact.1)
        | inr other ↦
            let old = h.at_mandate k n (
              sym (
                first-adjust_ne (mandate_with k) (mandate_with m.id) (charge o.amount) db.mandates
                  (λ x q. ground arith) (λ x q. ground arith))
              ∙ e) in
            (other_sum k other ∙ old.0, old.1, old.2)
      ]

      settled-IsMetered : IsMetered (recorded m o d W result signature).1
      settled-IsMetered = record {
        at_mandate = λ k n e. rw paid_keeps.1 (settled-Row k n (rw paid_keeps.0 at e));
      }

module _ (sign : TransactionBody → Result Error (Option String)) (m : PaymentMandate) (o : Order)
    (now : ℕ) (token : String) (db : Db) (cents : IsCents o.amount)
    (here : first (mandate_with m.id) db.mandates ≡ some m) where
  broken-IsMetered :
      (e : Error) (after : Db)
      → Broken sign m o token (start m db) (payer_wallet m db) e after
      → IsMetered db
      → IsMetered after
  broken-IsMetered e after (before_moving _ _) h =
      let begin = open_wallet-same m.granted_by_user_id db in
      same_tables begin.mandates begin.payments h
  broken-IsMetered e after (before_credit _ _) h =
      let opening = open_wallet-same o.payee_user_id (spent o (start m db) (payer_wallet m db)) in
      let begin = open_wallet-same m.granted_by_user_id db in
      same_tables (opening.mandates ∙ begin.mandates) (opening.payments ∙ begin.payments) h
  broken-IsMetered e after (unsigned _ _ _) h =
      same_tables (paid_keeps m o db).0 (paid_keeps m o db).1 h

  ends-IsMetered :
      (x : Result Error AgentPayment × Db)
      → PayEnds sign m o now token db x
      → IsMetered db
      → IsMetered x.1
  ends-IsMetered x (refused reason why) h = refused-IsMetered m o db reason h
  ends-IsMetered x (broken e after able how) h = broken-IsMetered e after how h
  ends-IsMetered x (settled result signature able sealed) h =
      settled-IsMetered m o db cents (check_mandate_sound m now o able.0.0).in_total here h result
        signature

  -- Orders of whole cents keep the metering, however `pay` ends: each mandate has spent the sum of its
  -- settled payments on record, and no more than its total.
  pub pay-IsMetered : IsMetered db → IsMetered (request (pay sign m o now token) db).1
  pay-IsMetered h = ends-IsMetered _ (pay_outcome sign m o now token db) h
