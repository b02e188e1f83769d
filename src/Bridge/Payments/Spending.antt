-- ===== src/Bridge/Payments/Spending.antt =====
-- The loop of `pay` (backend/app/bridge/agent_payments.py) that takes an amount from the payer's cash.
use can_framework.Prelude.{
  ◌≡◌, refl, ap, ◌∙◌, Bool, true, false, List, [], ◌∷◌, arith, Bool-cases, inl, inr,
}
use can_framework.Prelude.Int.{
  pos, pos_part, neg_part, ◌+ℤ◌, ◌-ℤ◌, ◌≤ℤ◌, ◌<ℤ◌, leb_ℤ, int_laws, eq_of_parts, +ℤ_assoc,
}
use can_framework.Prelude.All.{All}
use can_framework.Prelude.Table.{sum_of}
use can_framework.Money.{Amount, round_cents}
use can_framework.Money.Rounding.{IsCents, sub-IsCents, round_cents-eq}
use can_framework.Bridge.Records.{Holding, Pledge}
use can_framework.Bridge.Wallet.{Position, position_of, pledged_amount}
use can_framework.Bridge.Wallet.Credits.{total, worth}
use can_framework.Bridge.Payments.{free_of, free_cash, min_ℤ, spend}

-- A row of plain money: whole cents, not below zero, and not pledged.
abbrev pub Plain : List Pledge → Holding → Type 0
Plain pledges h = IsCents h.amount × (pos 0 ≤ℤ h.amount) × (pledged_amount h.id pledges ≡ pos 0)

pub free_of-Plain :
    (pledges : List Pledge) (h : Holding) → Plain pledges h → free_of pledges h ≡ h.amount
free_of-Plain pledges h p = rw p.2 (omega int_laws)

min_ℤ-right : (a b : Amount) → b ≤ℤ a → min_ℤ a b ≡ b
min_ℤ-right a b h = elim (Bool-cases (leb_ℤ a b)) [
  | inl le ↦ rw le (eq_of_parts a b (ground arith))
  | inr gt ↦ rw gt
]

min_ℤ-left : (a b : Amount) → a ≤ℤ b → min_ℤ a b ≡ a
min_ℤ-left a b h = let le : leb_ℤ a b ≡ true = ground arith in rw le

pub sub_self_ℤ : (a : Amount) → a -ℤ a ≡ pos 0
sub_self_ℤ a = omega int_laws

positive_not_le : (a b : Amount) → a <ℤ b → leb_ℤ (b -ℤ a) (pos 0) ≡ false
unfolding ◌-ℤ◌
positive_not_le a b h = ground arith

round_cents-zero : round_cents (pos 0) ≡ pos 0
round_cents-zero = round_cents-eq (pos 0) (omega arith)

frame_total : (w a r b : Amount) → a +ℤ r ≡ b → w +ℤ a +ℤ r ≡ w +ℤ b
frame_total w a r b e = +ℤ_assoc w a r ∙ ap (λ z. w +ℤ z) e

next_total : (x a r b : Amount) → a +ℤ (r -ℤ x) ≡ b → pos 0 +ℤ a +ℤ r ≡ x +ℤ b
next_total x a r b e = rw (← e) (omega int_laws)

enough_after_skip : (x r s : Amount) → x ≡ pos 0 → r ≤ℤ x +ℤ s → r ≤ℤ s
enough_after_skip x r s e h = omega (int_laws, ap pos_part e, ap neg_part e)

enough_after_row : (x y r s : Amount) → x ≡ y → r ≤ℤ x +ℤ s → r -ℤ y ≤ℤ s
enough_after_row x y r s e h = omega (int_laws, ap pos_part e, ap neg_part e)

module _ (pledges : List Pledge) (mine : Holding → Bool) (h : Holding) (hs : List Holding)
    (remaining : Amount) where
  pub spend_skip :
      mine h ≡ false → spend pledges mine remaining (h ∷ hs) ≡ h ∷ spend pledges mine remaining hs
  unfolding spend
  spend_skip other = rw other

  module _ (own : mine h ≡ true) (plain : Plain pledges h) (cents : IsCents remaining) where
    spend_last :
        remaining ≤ℤ h.amount
        → spend pledges mine remaining (h ∷ hs) ≡ record h { amount = h.amount -ℤ remaining } ∷ hs
    unfolding spend
    spend_last le = rw (
      own,
      free_of-Plain pledges h plain,
      min_ℤ-right h.amount remaining le,
      sub_self_ℤ remaining,
      round_cents-zero,
      round_cents-eq (h.amount -ℤ remaining) (sub-IsCents h.amount remaining plain.0 cents),
    )

    spend_next :
        h.amount <ℤ remaining
        → spend pledges mine remaining (h ∷ hs)
          ≡ record h { amount = pos 0 } ∷ spend pledges mine (remaining -ℤ h.amount) hs
    unfolding spend
    spend_next lt = rw (
      own,
      free_of-Plain pledges h plain,
      min_ℤ-left h.amount remaining (omega arith),
      round_cents-eq (remaining -ℤ h.amount) (sub-IsCents remaining h.amount cents plain.0),
      positive_not_le h.amount remaining lt,
      sub_self_ℤ h.amount,
      round_cents-zero,
    )

module _ (pledges : List Pledge) (mine : Holding → Bool) (t : Position → Bool)
    (counted : (h : Holding) → mine h ≡ true → t (position_of h) ≡ true) where
  abbrev Purse : List Holding → Type 0
  Purse rows = All (λ h. mine h ≡ true → Plain pledges h) rows

  -- Whole cents that the rows cover are taken from them exactly, and from no other row.
  pub total-spend :
      (rows : List Holding) (remaining : Amount)
      → Purse rows
      → IsCents remaining
      → pos 0 ≤ℤ remaining
      → remaining ≤ℤ sum_of (free_cash pledges mine) rows
      → total t (spend pledges mine remaining rows) +ℤ remaining ≡ total t rows
  unfolding total
  total-spend [] remaining plain cents nonneg enough =
      unfold spend in eq_of_parts _ _ (omega int_laws)
  total-spend (h ∷ hs) remaining plain cents nonneg enough = elim (Bool-cases (mine h)) [
    | inr other ↦
        let less : remaining ≤ℤ sum_of (free_cash pledges mine) hs =
          enough_after_skip (free_cash pledges mine h) remaining
            (sum_of (free_cash pledges mine) hs) (rw other) enough in
        rw (spend_skip pledges mine h hs remaining other) (
          frame_total (worth t h) _ remaining _
            (total-spend hs remaining plain.1 cents nonneg less))
    | inl own ↦
        let row = plain.0 own in
        let all_in = counted h own in
        elim (Bool-cases (leb_ℤ remaining h.amount)) [
          | inl le ↦
              rw (spend_last pledges mine h hs remaining own row cents (ground arith))
                (rw all_in (omega int_laws))
          | inr gt ↦
              let left = remaining -ℤ h.amount in
              let less =
                enough_after_row (free_cash pledges mine h) h.amount remaining
                  (sum_of (free_cash pledges mine) hs) (rw own (free_of-Plain pledges h row))
                  enough in
              let more : h.amount <ℤ remaining = ground arith in
              rw (spend_next pledges mine h hs remaining own row cents more, all_in)
                (next_total h.amount _ remaining _ (
                  total-spend hs left plain.1 (sub-IsCents remaining h.amount cents row.0)
                    (omega int_laws) less))
        ]
  ]

-- A total that counts none of the payer's rows stays as it was.
pub total-spend_other :
    (pledges : List Pledge) (mine : Holding → Bool) (t : Position → Bool)
    → ((h : Holding) → mine h ≡ true → t (position_of h) ≡ false)
    → (rows : List Holding) (remaining : Amount)
    → total t (spend pledges mine remaining rows) ≡ total t rows
unfolding total spend
total-spend_other pledges mine t out [] remaining = refl
total-spend_other pledges mine t out (h ∷ hs) remaining =
    let take = min_ℤ (free_of pledges h) remaining in
    let left = round_cents (remaining -ℤ take) in
    let on = total-spend_other pledges mine t out hs in
    elim (Bool-cases (mine h)) [
      | inr other ↦ rw other (ap (λ z. worth t h +ℤ z) (on remaining))
      | inl own ↦ elim (Bool-cases (leb_ℤ left (pos 0))) [
        | inl done ↦ rw (own, done, out h own)
        | inr more ↦ rw (own, more, out h own) (ap (λ z. pos 0 +ℤ z) (on left))
      ]
    ]
