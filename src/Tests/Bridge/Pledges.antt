-- ===== src/Tests/Bridge/Pledges.antt =====
-- The theorems on the pledges of backend/app/bridge/service.py at concrete tables.
use can_framework.Prelude.{
  ◌≡◌, refl, false, none, some, [], ◌∷◌, ◌++◌, inl, inr, ◌⊎◌, arith, ℕ, ◌+◌, Bool, Bool-cases, ◌==◌,
  ==_iff,
}
use mathlib.Core.Path.{subst, subst₂}
use can_framework.Prelude.Int.{pos, ◌+ℤ◌, ◌-ℤ◌, ◌≤ℤ◌}
use can_framework.Prelude.Outcome.{ok, err, request}
use can_framework.Money.{Amount, times_cents, round_micro}
use can_framework.Bridge.Records.{
  Layer, Holding, Pledge, PledgeStatus, Direction, TransferStatus, BridgeTransfer, Db, Error,
}
use can_framework.Bridge.Wallet.{Position, position_of, pledged_amount}
use can_framework.Bridge.Wallet.Credits.{total, share}
use can_framework.Bridge.Pledges.{create_pledge, settle_down}
use can_framework.Bridge.Pledges.Cover.{
  IsCovered, Pledgeable, create_pledge_exact, pledged, holding_at, slack,
}
use can_framework.Bridge.Pledges.Settlement.{Settleable}
use can_framework.Bridge.Pledges.Exact.{settle_down_exact}
use can_framework.Bridge.Pledges.Steps.{settled, Step-IsCovered}
use can_framework.Tests.Bridge.{payer, cash_row, unit_row, tables, default_rail}

holding_cases :
    (k : ℕ) (h : Holding)
    → holding_at tables k ≡ some h
    → ((100 ≡ k) × (cash_row ≡ h)) ⊎ ((101 ≡ k) × (unit_row ≡ h))
holding_cases k h e = elim (Bool-cases (100 == k)) [
  | inl a ↦ inl ((==_iff 100 k).0 a, ground arith)
  | inr b ↦ elim (Bool-cases (101 == k)) [
    | inl c ↦ inr ((==_iff 101 k).0 c, ground arith)
    | inr d ↦ absurd (ground arith)
  ]
]

tables-IsCovered : IsCovered tables
unfolding pledged_amount ◌+ℤ◌
tables-IsCovered = record {
  positive = (omega arith, tt);
  amounts = λ k h e. elim (holding_cases k h e) [
    | inl (i, r) ↦ subst (λ (x : Holding). pos 0 ≤ℤ x.amount) r (omega arith)
    | inr (i, r) ↦ subst (λ (x : Holding). pos 0 ≤ℤ x.amount) r (omega arith)
  ];
  covered = λ k h e. elim (holding_cases k h e) [
    | inl (i, r) ↦
        subst₂ (λ j (x : Holding). pledged tables j ≤ℤ x.amount +ℤ slack) i r (omega arith)
    | inr (i, r) ↦
        subst₂ (λ j (x : Holding). pledged tables j ≤ℤ x.amount +ℤ slack) i r (omega arith)
  ];
  money_free = λ k h e m. elim (holding_cases k h e) [
    | inl (i, r) ↦ subst (λ j. pledged tables j ≡ pos 0) i refl
    | inr (i, r) ↦ cc (m, r)
  ];
  unused = λ k le. ground arith;
}

Step-IsCovered_example :
    IsCovered (request (settle_down payer unit_row (pos 2_500_000_000) none "t") tables).1
Step-IsCovered_example =
    Step-IsCovered (settled payer unit_row (pos 2_500_000_000) none "t" tables refl)
      tables-IsCovered

create_pledge_exact_example :
    let p : Pledge = record {
      id = tables.fresh;
      holding_id = 101;
      lender_user_id = none;
      amount = pos 4_000_000_000;
      note = none;
      status = PledgeStatus.active;
      released_at = none;
    } in
    (Pledgeable unit_row (pos 4_000_000_000) none none tables
      × (request (create_pledge unit_row (pos 4_000_000_000) none none) tables
          ≡ (ok p, record tables { pledges = tables.pledges ++ p ∷ []; fresh = tables.fresh + 1 })))
    ⊎ ((e : Error) × ¬ Pledgeable unit_row (pos 4_000_000_000) none none tables
        × (request (create_pledge unit_row (pos 4_000_000_000) none none) tables ≡ (err e, tables)))
create_pledge_exact_example = create_pledge_exact unit_row (pos 4_000_000_000) none none tables

abbrev half : Amount
half = pos 2_500_000_000

settle_down_exact_example :
    let money = times_cents half (pos 1_000_000_000_000) in
    (Settleable payer unit_row half none "t" tables
      × (tr : BridgeTransfer) × (after : Db) × (request
            (settle_down payer unit_row half none "t")
            tables
          ≡ (ok tr, after))
      × (holding_at after 101
          ≡ some (record unit_row { amount = round_micro (pos 5_000_000_000 -ℤ half) }))
      × ((t : Position → Bool)
          → t (position_of unit_row) ≡ false
          → total t after.holdings
            ≡ total t tables.holdings
              +ℤ share t
                  (record {
                    wallet_id = 10;
                    kind = "cash";
                    currency = some "USD";
                    project_id = none;
                  })
                  money)
      × (after.transfers ≡ tr ∷ [])
      × (tr ≡ record {
        id = tr.id;
        wallet_id = 10;
        direction = Direction.settle_down;
        from_layer = Layer.direct_value;
        to_layer = Layer.fiat;
        holding_id = some 101;
        amount = money;
        currency = some "USD";
        rail = "simulated";
        external_ref = some "sim:t";
        status = TransferStatus.settled;
      }))
    ⊎ (¬ Settleable payer unit_row half none "t" tables
        × (e : Error) × (request (settle_down payer unit_row half none "t") tables
            ≡ (err e, tables)))
settle_down_exact_example =
    settle_down_exact payer unit_row half none "t" tables refl default_rail (omega arith)
