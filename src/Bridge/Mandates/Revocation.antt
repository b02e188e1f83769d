-- ===== src/Bridge/Mandates/Revocation.antt =====
-- A revoked mandate pays no more, in backend/app/bridge/routes.py.
use can_framework.Prelude.{
  ℕ, ◌≡◌, refl, sym, ap, ◌∙◌, inl, inr, Bool, true, false, Option, some, String, arith, ◌==◌,
  ==_iff, Bool-cases,
}
use mathlib.Core.Path.{subst}
use can_framework.Prelude.Table.{first, first-adjust_self, first_sound}
use can_framework.Prelude.Outcome.{Result, ok, err, request}
use can_framework.Agents.Records.{Agent}
use can_framework.Bridge.Records.{
  PaymentMandate, MandateStatus, AgentPayment, Refusal, TransactionBody, Db, Error,
}
use can_framework.Bridge.Payments.{Order, mandate_with, mem_id, check_mandate}
use can_framework.Bridge.Payments.Limits.{pay-refused}
use can_framework.Bridge.Mandates.{
  HttpError, payment_required, Directory, AgentPaymentIn, order_of, revoke, with_revoked,
  revoke_owned, revoke_found, revoke_mandate, answer, pay_found, payee_not_found, agent_pay,
}

revoked_refuses :
    (m : PaymentMandate) (now : ℕ) (o : Order)
    → m.status ≡ MandateStatus.revoked
    → (reason : Refusal) × (check_mandate m now o ≡ some reason)
unfolding check_mandate
revoked_refuses m now o e = elim (Bool-cases (m.agent_id == o.agent_id)) [
  | inl same ↦ (Refusal.not_active, ground arith)
  | inr other ↦ (Refusal.other_agent, ground arith)
]

revoke_mandate_done :
    (id : ℕ) (m : PaymentMandate) (reason : Option String) (at : ℕ) (db : Db)
    → first (mandate_with id) db.mandates ≡ some m
    → request (revoke_mandate id reason m.granted_by_user_id at) db
      ≡ (ok (revoke reason at m), with_revoked m.id reason at db)
unfolding revoke_mandate
revoke_mandate_done id m reason at db here =
    let mine : (m.granted_by_user_id == m.granted_by_user_id) ≡ true =
      (==_iff m.granted_by_user_id m.granted_by_user_id).1 refl in
    ap (λ o. request (revoke_found reason m.granted_by_user_id at o) db) here
    ∙ ap (λ b. request (revoke_owned b m reason at) db) mine

module _ (sign : TransactionBody → Result Error (Option String)) (dir : Directory) (a : Agent)
    (p : AgentPaymentIn) (now : ℕ) (token : String) where
  -- Nothing is paid: the request fails, and no holding and no mandate changes.
  abbrev FailsIdly : Db → Result HttpError AgentPayment × Db → Type 0
  FailsIdly db (r, after) =
      ((e : HttpError) × (r ≡ err e))
      × (after.holdings ≡ db.holdings)
      × (after.mandates ≡ db.mandates)

  abbrev pub PaysNothing : Db → Type 0
  PaysNothing db = FailsIdly db (request (agent_pay sign dir a p now token) db)

  found_fails :
      (m : PaymentMandate) (known : Bool) (db : Db)
      → m.status ≡ MandateStatus.revoked
      → FailsIdly db (request (pay_found sign dir a p now token known (some m)) db)
  found_fails m false db e = ((payee_not_found, refl), refl, refl)
  found_fails m true db e =
      let (reason, why) = revoked_refuses m now (order_of a p) e in
      let (r, q, h, k) = pay-refused sign m (order_of a p) now token db why in
      ((payment_required (some reason), ap answer r), h, k)

  refused-PaysNothing :
      (m : PaymentMandate) (db : Db)
      → first (mandate_with p.mandate_id) db.mandates ≡ some m
      → m.status ≡ MandateStatus.revoked
      → PaysNothing db
  unfolding agent_pay
  refused-PaysNothing m db here e =
      subst
        (λ o.
          FailsIdly db
            (request (pay_found sign dir a p now token (mem_id p.payee_user_id dir.users) o) db))
        (sym here) (found_fails m (mem_id p.payee_user_id dir.users) db e)

  -- Once its grantor has revoked a mandate, no payment under it goes through, by any agent and at any
  -- time: the request fails, and no holding and no mandate changes.
  pub revoked-PaysNothing :
      (m : PaymentMandate) (reason : Option String) (revoked_at : ℕ) (db : Db)
      → first (mandate_with p.mandate_id) db.mandates ≡ some m
      → PaysNothing
          (request (revoke_mandate p.mandate_id reason m.granted_by_user_id revoked_at) db).1
  revoked-PaysNothing m reason revoked_at db here =
      let id_of : m.id ≡ p.mandate_id =
        (==_iff m.id p.mandate_id).0 (first_sound (mandate_with p.mandate_id) db.mandates m here) in
      let after = with_revoked m.id reason revoked_at db in
      let written : first (mandate_with m.id) after.mandates ≡ some (revoke reason revoked_at m) =
        first-adjust_self (mandate_with m.id) (revoke reason revoked_at) db.mandates m (λ y q. q)
          (ap (λ k. first (mandate_with k) db.mandates) id_of ∙ here) in
      subst PaysNothing
        (sym (ap (λ z. z.1) (revoke_mandate_done p.mandate_id m reason revoked_at db here)))
        (refused-PaysNothing (revoke reason revoked_at m) after
          (ap (λ k. first (mandate_with k) after.mandates) (sym id_of) ∙ written) refl)
