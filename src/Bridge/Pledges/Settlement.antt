-- ===== src/Bridge/Pledges/Settlement.antt =====
-- `settle_down` of backend/app/bridge/service.py: how it ends and what it moves.
use mathlib.Core.Path.{subst}
use can_framework.Prelude.{
  ◌≡◌, refl, sym, ◌∙◌, ◌⊎◌, inl, inr, Bool, true, false, Option, none, some, [], ◌∷◌, ◌++◌, String,
  arith, Bool-cases, str_eq, str_eq_iff,
}
use can_framework.Prelude.Int.{pos, ◌+ℤ◌, ◌≤ℤ◌, ◌<ℤ◌, ltb_ℤ, leb_ℤ, not_negative, cancel_right}
use can_framework.Prelude.Table.{first-append_found, first-adjust_other, sum_of-adjust}
use can_framework.Prelude.Outcome.{ok, err, request, Result-cases}
use can_framework.Money.{Amount, tolerance}
use can_framework.Money.Rounding.{times_cents_nonneg}
use can_framework.Bridge.Records.{
  Layer, Holding, Db, Wallet, BridgeTransfer, Error, is_settleable, already_money, not_settleable,
  not_free, negative_amount, holding_layer,
}
use can_framework.Bridge.Rails.{Rail, SettlementResult, simulated_result, get_rail, settle}
use can_framework.Bridge.Wallet.{
  Credit, Position, same_position, position_of, position_for, at_position, existing, add_amount,
  place, credit,
}
use can_framework.Bridge.Wallet.Credits.{total, worth, share, total-place}
use can_framework.Bridge.Pledges.{
  is_direct, holding_with, free_of_pledges, debit, settled_cash, unit_value_of, cash_credit,
  add_transfer, settle_transfer, settle_down,
}
use can_framework.Bridge.Pledges.Rows.{
  debited, debited_self, debited-IsCovered, place-IsCovered, add_transfer-IsCovered,
}
use can_framework.Bridge.Pledges.Cover.{IsCovered, holding_at}

cash_not_settleable : is_settleable "cash" ≡ true → ⊥
unfolding is_settleable
cash_not_settleable e = cc

cash_elsewhere :
    (kind : String) (p q : Position)
    → is_settleable kind ≡ true
    → p.kind ≡ "cash"
    → q.kind ≡ kind
    → same_position p q ≡ false
unfolding same_position is_settleable
cash_elsewhere kind p q able e f = elim (Bool-cases (str_eq p.kind q.kind)) [
  | inl same ↦ absurd (
      cash_not_settleable (
        subst (λ k. is_settleable k ≡ true) (sym f ∙ sym ((str_eq_iff p.kind q.kind).0 same) ∙ e)
          able))
  | inr other ↦ ground arith
]

-- The holding keeps what the settlement wrote, since the money goes to another position.
holding-credited :
    (w : Wallet) (h : Holding) (amount : Amount) (layer : Layer) (db : Db) (o : Option Holding)
    → holding_at db h.id ≡ some h
    → is_settleable h.kind ≡ true
    → holding_at (place w (cash_credit h amount) layer o (debited h amount db)).1 h.id
      ≡ some (debit amount h)
unfolding place
holding-credited w h amount layer db none here able =
    first-append_found (holding_with h.id) _ _ (debit amount h) (debited_self h amount db here)
holding-credited w h amount layer db (some x) here able =
    first-adjust_other (holding_with h.id) (at_position (position_for w (cash_credit h amount)))
      (add_amount (settled_cash h amount)) (debited h amount db).holdings (debit amount h)
      (λ y. refl) (debited_self h amount db here) (cash_elsewhere h.kind _ _ able refl refl)

total-debited :
    (t : Position → Bool) (h : Holding) (amount : Amount) (db : Db)
    → holding_at db h.id ≡ some h
    → t (position_of h) ≡ false
    → total t (debited h amount db).holdings ≡ total t db.holdings
unfolding total
total-debited t h amount db here out =
    cancel_right _ _ (worth t h)
      (sum_of-adjust (worth t) (holding_with h.id) (debit amount) db.holdings h here ∙ rw out)

transfers-place :
    (w : Wallet) (c : Credit) (layer : Layer) (db : Db) (o : Option Holding)
    → (place w c layer o db).1.transfers ≡ db.transfers
unfolding place
transfers-place w c layer db none = refl
transfers-place w c layer db (some x) = refl

module _ (w : Wallet) (h : Holding) (amount : Amount) (rail_name : Option String) (token : String)
    (db : Db) where
  abbrev pub Settleable : Type 0
  Settleable =
      (is_direct h.layer ≡ true)
      × (is_settleable h.kind ≡ true)
      × (pos 0 <ℤ amount)
      × (amount ≤ℤ free_of_pledges h db +ℤ tolerance)

  abbrev pub credited : Db
  credited =
      (place w (cash_credit h amount) Layer.fiat
        (existing w (cash_credit h amount) (debited h amount db)) (debited h amount db)).1

  -- How a settlement ends: it is refused, or the rail or the credit fails, and nothing changes; or
  -- the holding was free direct value, the rail answered and the money was credited.
  pub settle_down_outcome :
      ((e : Error) × (request (settle_down w h amount rail_name token) db ≡ (err e, db)))
      ⊎ ((result : SettlementResult) × Settleable
          × (pos 0 ≤ℤ settled_cash h amount)
          × (request (settle_down w h amount rail_name token) db ≡ (
            ok (add_transfer (settle_transfer w h amount result) credited).0,
            (add_transfer (settle_transfer w h amount result) credited).1,
          )))
  unfolding settle_down credit holding_layer
  settle_down_outcome = elim (Bool-cases (is_direct h.layer)) [
    | inr money ↦ inl (already_money, rw money)
    | inl direct ↦ elim (Bool-cases (is_settleable h.kind)) [
      | inr right ↦ inl (not_settleable, rw (direct, right))
      | inl claim ↦ elim (Bool-cases (leb_ℤ amount (pos 0))) [
        | inl low ↦ inl (not_free, rw (direct, claim, low))
        | inr high ↦ elim (Bool-cases (ltb_ℤ (free_of_pledges h db +ℤ tolerance) amount)) [
          | inl over ↦ inl (not_free, rw (direct, claim, high, over))
          | inr fits ↦ elim (Result-cases (get_rail rail_name)) [
            | inr (e, no_rail) ↦ inl (e, rw (direct, claim, high, fits, no_rail))
            | inl (rail, found) ↦ elim (Result-cases (settle token rail)) [
              | inr (e, failed) ↦ inl (e, rw (direct, claim, high, fits, found, failed))
              | inl (result, answered) ↦ elim (Bool-cases (ltb_ℤ (settled_cash h amount) (pos 0))) [
                | inl negative ↦
                    inl (negative_amount, rw (direct, claim, high, fits, found, answered, negative))
                | inr nonneg ↦ inr (
                  result,
                  (direct, claim, ground arith, ground arith),
                  ground arith,
                  rw (direct, claim, high, fits, found, answered, nonneg),
                )
              ]
            ]
          ]
        ]
      ]
    ]
  ]

  -- `settle_down` keeps the cover of all holdings.
  pub settle_down-IsCovered :
      holding_at db h.id ≡ some h
      → IsCovered db
      → IsCovered (request (settle_down w h amount rail_name token) db).1
  settle_down-IsCovered here v = elim settle_down_outcome [
    | inl (e, same) ↦ rw same v
    | inr (result, able, nonneg, done) ↦ rw done (
        add_transfer-IsCovered (settle_transfer w h amount result) credited (
          place-IsCovered w (cash_credit h amount) Layer.fiat (debited h amount db)
            (existing w (cash_credit h amount) (debited h amount db)) nonneg
            (debited-IsCovered h amount db here able.3 v)))
  ]

  -- A settlement that returns takes the amount from the holding, and raises every total that the
  -- holding does not count in by the money that it came to, if the wallet's cash counts in it.
  pub settle_down_moves :
      holding_at db h.id ≡ some h
      → {tr : BridgeTransfer} {after : Db}
      → request (settle_down w h amount rail_name token) db ≡ (ok tr, after)
      → (holding_at after h.id ≡ some (debit amount h))
        × ((t : Position → Bool)
            → t (position_of h) ≡ false
            → total t after.holdings
              ≡ total t db.holdings
                +ℤ share t (position_for w (cash_credit h amount)) (settled_cash h amount))
        × (after.transfers ≡ db.transfers ++ tr ∷ [])
        × (tr.amount ≡ settled_cash h amount)
  settle_down_moves here {tr} {after} e = elim settle_down_outcome [
    | inl (x, same) ↦ cc
    | inr (result, able, nonneg, done) ↦
        let c = cash_credit h amount in
        let d = debited h amount db in
        let ends : after ≡ (add_transfer (settle_transfer w h amount result) credited).1 = cc in
        let tr_is : tr ≡ settle_transfer w h amount result credited.fresh = cc in
        rw (ends, tr_is)
          (
            holding-credited w h amount Layer.fiat db (existing w c d) here able.1,
            (λ t out. total-place t w c Layer.fiat d ∙ rw (total-debited t h amount db here out)),
            rw (transfers-place w c Layer.fiat d (existing w c d)),
            refl,
          )
  ]

  -- It does return, on the simulated rail, if the holding is free settleable direct value and its
  -- unit value is not negative.
  pub settle_down_succeeds :
      get_rail rail_name ≡ ok Rail.simulated
      → Settleable
      → pos 0 ≤ℤ unit_value_of h.terms
      → request (settle_down w h amount rail_name token) db ≡ (
        ok (add_transfer (settle_transfer w h amount (simulated_result token)) credited).0,
        (add_transfer (settle_transfer w h amount (simulated_result token)) credited).1,
      )
  unfolding settle_down credit holding_layer settle
  settle_down_succeeds rail able unit =
      let nonneg =
        not_negative (settled_cash h amount)
          (times_cents_nonneg amount (unit_value_of h.terms) (omega arith) unit) in
      let low : leb_ℤ amount (pos 0) ≡ false = ground arith in
      let over : ltb_ℤ (free_of_pledges h db +ℤ tolerance) amount ≡ false = ground arith in
      rw (able.0, able.1, low, over, rail, nonneg)
