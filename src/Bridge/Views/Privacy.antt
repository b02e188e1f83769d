-- ===== src/Bridge/Views/Privacy.antt =====
-- Who sees which payments of backend/app/bridge/routes.py.
use can_framework.Prelude.{
  ℕ, ◌≡◌, ◌⊎◌, inl, inr, Bool, true, Option, some, List, [], ◌∷◌, arith, ◌==◌, ◌&&◌, Bool-cases,
}
use can_framework.Prelude.Table.{select}
use can_framework.Prelude.All.{newest_first-All, limit-All, All, All-map}
use can_framework.Bridge.Records.{AgentPayment, PaymentStatus, Db}
use can_framework.Bridge.Views.{as_person, is_settled, may_see, has_status, list_agent_payments}

select-All : {A : Type 0} (p : A → Bool) (xs : List A) → All (λ x. p x ≡ true) (select p xs)
select-All p [] = tt
select-All p (x ∷ xs) = elim (Bool-cases (p x)) [
  | inl inside ↦ rw inside (inside, select-All p xs)
  | inr out ↦ rw out (select-All p xs)
]

-- What a person may see: a payment out of their money, or a settled one to them.
abbrev pub Concerns : ℕ → AgentPayment → Type 0
Concerns me p =
    (p.payer_user_id ≡ me) ⊎ ((p.payee_user_id ≡ me) × (p.status ≡ PaymentStatus.settled))

settled_sound : (s : PaymentStatus) → is_settled s ≡ true → s ≡ PaymentStatus.settled
settled_sound s e = ground arith

seen-Concerns :
    (me : ℕ) (status : Option Bool) (p : AgentPayment)
    → (may_see (as_person (some me)) p && has_status status p) ≡ true
    → Concerns me p
unfolding may_see
seen-Concerns me status p e = elim (Bool-cases (p.payer_user_id == me)) [
  | inl payer ↦ inl (ground arith)
  | inr other ↦ inr (ground arith, settled_sound p.status (ground arith))
]

-- The list of payments that a person gets holds only payments out of their money and settled payments to
-- them: a refusal is the payer's business.
pub list_agent_payments_private :
    (me : ℕ) (status : Option Bool) (db : Db)
    → All (Concerns me) (list_agent_payments (as_person (some me)) status db)
unfolding list_agent_payments
list_agent_payments_private me status db = limit-All (Concerns me) 200 _ (
    newest_first-All (Concerns me) _ (
      All-map _ (Concerns me) _ (seen-Concerns me status)
        (select-All (λ p. may_see (as_person (some me)) p && has_status status p) db.payments)))
