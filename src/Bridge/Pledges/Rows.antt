-- ===== src/Bridge/Pledges/Rows.antt =====
-- The cover of holdings under the writes that `credit` and `settle_down` of
-- backend/app/bridge/service.py make to the tables.
use mathlib.Core.Path.{subst, subst₂}
use can_framework.Prelude.{
  ℕ, ◌≤◌, ◌≡◌, refl, sym, ap, ◌∙◌, ◌≢◌, ◌⊎◌, inl, inr, false, Option, none, some, arith, ◌==◌,
  Bool-cases, ==_iff,
}
use can_framework.Prelude.Int.{pos, ◌+ℤ◌, ◌-ℤ◌, ◌≤ℤ◌, int_laws, le_trans_ℤ}
use can_framework.Prelude.Table.{
  adjust, first-append_cases, first-adjust_self, first-adjust_ne, first-adjust_cases,
}
use can_framework.Money.{Amount, tolerance, round_micro}
use can_framework.Money.Rounding.{round_micro_near, round_micro_nonneg}
use can_framework.Bridge.Records.{Layer, Holding, Db, Wallet, BridgeTransfer}
use can_framework.Bridge.Wallet.{Credit, position_for, at_position, add_amount, new_holding, place}
use can_framework.Bridge.Pledges.{is_direct, holding_with, free_of_pledges, debit, add_transfer}
use can_framework.Bridge.Pledges.Cover.{IsCovered, pledged, holding_at, slack, pledged_nonneg}

-- What a credit leaves at an id: the row that was there with at least its amount, or the new row.
place_at :
    (w : Wallet) (c : Credit) (layer : Layer) (db : Db) (o : Option Holding) (k : ℕ) (h : Holding)
    → holding_at (place w c layer o db).1 k ≡ some h
    → ((g : Holding) × (holding_at db k ≡ some g)
        × (h.layer ≡ g.layer)
        × ((h.amount ≡ g.amount) ⊎ (h.amount ≡ g.amount +ℤ c.amount)))
      ⊎ ((db.fresh ≡ k) × (h.amount ≡ c.amount))
unfolding place
place_at w c layer db none k h e =
    elim (first-append_cases (holding_with k) db.holdings (new_holding w c layer db.fresh) h e) [
      | inl there ↦ inl (h, there, refl, inl refl)
      | inr (same, row) ↦ inr ((==_iff _ k).0 same, ap (λ (r : Holding). r.amount) (sym row))
    ]
place_at w c layer db (some x) k h e =
    let (g, there, same) =
      first-adjust_cases (holding_with k) (at_position (position_for w c)) (add_amount c.amount)
        db.holdings h (λ y. refl) e in
    inl (
      g,
      there,
      elim same [
        | inl p ↦ ap (λ (r : Holding). r.layer) p
        | inr p ↦ ap (λ (r : Holding). r.layer) p
      ],
      elim same [
        | inl p ↦ inl (ap (λ (r : Holding). r.amount) p)
        | inr p ↦ inr (ap (λ (r : Holding). r.amount) p)
      ],
    )

pledges-place :
    (w : Wallet) (c : Credit) (layer : Layer) (db : Db) (o : Option Holding)
    → (place w c layer o db).1.pledges ≡ db.pledges
unfolding place
pledges-place w c layer db none = refl
pledges-place w c layer db (some x) = refl

fresh-place :
    (w : Wallet) (c : Credit) (layer : Layer) (db : Db) (o : Option Holding)
    → db.fresh ≤ (place w c layer o db).1.fresh
unfolding place
fresh-place w c layer db none = omega arith
fresh-place w c layer db (some x) = omega arith

raised_le : (x y c : Amount) → pos 0 ≤ℤ c → (x ≡ y) ⊎ (x ≡ y +ℤ c) → y ≤ℤ x
raised_le x y c h (inl e) = rw e (omega arith)
raised_le x y c h (inr e) = rw e (omega int_laws)

module _ (w : Wallet) (c : Credit) (layer : Layer) (db : Db) (o : Option Holding)
    (nonneg : pos 0 ≤ℤ c.amount) (v : IsCovered db) where
  abbrev db' : Db
  db' = (place w c layer o db).1

  pledged-place : (k : ℕ) → pledged db' k ≡ pledged db k
  pledged-place k = rw (pledges-place w c layer db o)

  place_row :
      (k : ℕ) (h : Holding)
      → holding_at db' k ≡ some h
      → (pos 0 ≤ℤ h.amount)
        × (pledged db k ≤ℤ h.amount +ℤ slack)
        × (is_direct h.layer ≡ false → pledged db k ≡ pos 0)
  place_row k h e = elim (place_at w c layer db o k h e) [
    | inl (g, there, same, raised) ↦
        let up = raised_le h.amount g.amount c.amount nonneg raised in
        (
          le_trans_ℤ (pos 0) g.amount h.amount (v.amounts k g there) up,
          le_trans_ℤ (pledged db k) (g.amount +ℤ slack) (h.amount +ℤ slack) (v.covered k g there)
              (omega int_laws),
          λ m. v.money_free k g there (rw (← same) m),
        )
    | inr (new, amount) ↦
        let none_pledged = v.unused k (omega arith) in
        (rw amount nonneg, rw (none_pledged, amount) (omega int_laws), λ m. none_pledged)
  ]

  -- A credit that is not negative keeps the cover.
  pub place-IsCovered : IsCovered db'
  place-IsCovered = record {
    positive = rw (pledges-place w c layer db o) v.positive;
    amounts = λ k h e. (place_row k h e).0;
    covered = λ k h e. rw pledged-place (place_row k h e).1;
    money_free = λ k h e m. pledged-place k ∙ (place_row k h e).2 m;
    unused = λ k le. pledged-place k ∙ v.unused k (omega (arith, fresh-place w c layer db o));
  }

abbrev pub debited : Holding → Amount → Db → Db
debited h amount db = record db { holdings = adjust (holding_with h.id) (debit amount) db.holdings }

-- The write of a settlement to its holding.
module _ (h : Holding) (amount : Amount) (db : Db) (here : holding_at db h.id ≡ some h) where
  pub debited_self : holding_at (debited h amount db) h.id ≡ some (debit amount h)
  debited_self = first-adjust_self (holding_with h.id) (debit amount) db.holdings h (λ y e. e) here

  debited_ne : (k : ℕ) → h.id ≢ k → holding_at (debited h amount db) k ≡ holding_at db k
  debited_ne k ne =
      first-adjust_ne (holding_with k) (holding_with h.id) (debit amount) db.holdings
        (λ x e. ground arith) (λ x e. ground arith)

  -- What stands at an id afterwards: the written row, or what was there.
  debited_cases :
      (k : ℕ) (g : Holding)
      → holding_at (debited h amount db) k ≡ some g
      → ((h.id ≡ k) × (debit amount h ≡ g)) ⊎ (holding_at db k ≡ some g)
  debited_cases k g e = elim (Bool-cases (h.id == k)) [
    | inl same ↦
        let id = (==_iff h.id k).0 same in
        let written : some (debit amount h) ≡ some g =
          sym debited_self ∙ ap (holding_at (debited h amount db)) id ∙ e in
        inl (id, cc)
    | inr other ↦ inr (sym (debited_ne k (λ id. cc (other, (==_iff h.id k).1 id))) ∙ e)
  ]

  module _ (fits : amount ≤ℤ free_of_pledges h db +ℤ tolerance) (v : IsCovered db) where
    debited_row :
        (pos 0 ≤ℤ round_micro (h.amount -ℤ amount))
        × (pledged db h.id ≤ℤ round_micro (h.amount -ℤ amount) +ℤ slack)
    debited_row =
        let low = pledged_nonneg db h.id v in
        (
          round_micro_nonneg (h.amount -ℤ amount) (omega int_laws),
          omega (int_laws, round_micro_near (h.amount -ℤ amount)),
        )

    pub debited-IsCovered : IsCovered (debited h amount db)
    debited-IsCovered = record {
      positive = v.positive;
      amounts = λ k g e. elim (debited_cases k g e) [
        | inl (id, row) ↦ subst (λ (r : Holding). pos 0 ≤ℤ r.amount) row debited_row.0
        | inr there ↦ v.amounts k g there
      ];
      covered = λ k g e. elim (debited_cases k g e) [
        | inl (id, row) ↦
            subst₂ (λ j (r : Holding). pledged db j ≤ℤ r.amount +ℤ slack) id row debited_row.1
        | inr there ↦ v.covered k g there
      ];
      money_free = λ k g e m. elim (debited_cases k g e) [
        | inl (id, row) ↦
            rw (← id) (v.money_free h.id h here (ap (λ (r : Holding). is_direct r.layer) row ∙ m))
        | inr there ↦ v.money_free k g there m
      ];
      unused = v.unused;
    }

pub add_transfer-IsCovered :
    (t : ℕ → BridgeTransfer) (db : Db) → IsCovered db → IsCovered (add_transfer t db).1
add_transfer-IsCovered t db v = record {
  positive = v.positive;
  amounts = v.amounts;
  covered = v.covered;
  money_free = v.money_free;
  unused = λ k le. v.unused k (omega arith);
}
