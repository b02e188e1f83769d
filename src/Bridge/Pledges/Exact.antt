-- ===== src/Bridge/Pledges/Exact.antt =====
-- When `settle_down` of backend/app/bridge/service.py settles, and what it leaves then.
use Prim.Native.String.{◌++◌ as concat}
use can_framework.Prelude.{
  ◌≡◌, refl, ◌⊎◌, inl, inr, Bool, false, Option, none, some, [], ◌∷◌, ◌++◌, String, str_eq,
  if◌then◌else◌, Bool-cases, Option-cases, ap, ◌∙◌,
}
use can_framework.Prelude.Int.{pos, ◌+ℤ◌, ◌-ℤ◌, ◌≤ℤ◌}
use can_framework.Prelude.Outcome.{ok, err, request}
use can_framework.Money.{Amount, one, round_micro, times_cents}
use can_framework.Bridge.Records.{
  Layer, Terms, Holding, Db, Wallet, BridgeTransfer, Direction, TransferStatus, Error,
}
use can_framework.Bridge.Rails.{Rail, get_rail, simulated_result}
use can_framework.Bridge.Wallet.{Position, position_of}
use can_framework.Bridge.Wallet.Credits.{total, share}
use can_framework.Bridge.Pledges.{
  unit_value_of, truthy, or_usd, currency_of, add_transfer, settle_transfer, settle_down,
}
use can_framework.Bridge.Pledges.Cover.{holding_at}
use can_framework.Bridge.Pledges.Settlement.{
  Settleable, credited, settle_down_outcome, settle_down_moves, settle_down_succeeds,
}

-- What a unit of a holding is worth: 1 where its terms give no value.
abbrev pub price : Option Terms → Amount
price none = pos one
price (some t) = elim t.unit_value [ none ↦ pos one | some u ↦ u ]

unit_value_of-price : (terms : Option Terms) → unit_value_of terms ≡ price terms
unit_value_of-price none = refl
unit_value_of-price (some t) = refl

abbrev pub text_or : Option String → String → String
text_or none other = other
text_or (some s) other = if str_eq s "" then other else s

-- The currency in a holding's terms, else its own, else dollars.
abbrev pub paid_in : Option Terms → Option String → String
paid_in none own = text_or own "USD"
paid_in (some t) own = text_or t.currency (text_or own "USD")

truthy-text_or :
    (o : Option String) (other : String)
    → elim (truthy o) [ some c ↦ c | none ↦ other ] ≡ text_or o other
truthy-text_or none other = refl
truthy-text_or (some s) other = elim (Bool-cases (str_eq s "")) [
  | inl e ↦ rw e refl
  | inr n ↦ rw n refl
]

or_usd-text_or : (o : Option String) → or_usd (truthy o) ≡ text_or o "USD"
or_usd-text_or none = refl
or_usd-text_or (some s) = elim (Bool-cases (str_eq s "")) [ inl e ↦ rw e refl | inr n ↦ rw n refl ]

currency_of-paid_in : (h : Holding) → currency_of h ≡ paid_in h.terms h.currency
currency_of-paid_in h = elim (Option-cases h.terms) [
  | inl e ↦ rw e (or_usd-text_or h.currency)
  | inr (t, e) ↦ rw e (
      truthy-text_or t.currency (or_usd (truthy h.currency))
      ∙ ap (text_or t.currency) (or_usd-text_or h.currency))
]

module _ (w : Wallet) (h : Holding) (amount : Amount) (rail_name : Option String) (token : String)
    (db : Db) where
  abbrev settled : BridgeTransfer × Db
  settled =
      add_transfer (settle_transfer w h amount (simulated_result token))
        (credited w h amount rail_name token db)

  -- With a unit value that is not negative and the simulated rail, a stored holding settles down exactly
  -- when it is direct value of a kind that settles (units, claims and credits), and the amount is above zero and free of pledges, up
  -- to the tolerance. The amount is then taken from the holding, to six places; every total that the
  -- holding does not count in grows by the amount times the unit value, in whole cents, if the wallet's
  -- cash in the currency counts in it; and one transfer is recorded after the others, with that money, the
  -- holding and the reference of the rail. Else the request raises and changes nothing.
  pub settle_down_exact :
      holding_at db h.id ≡ some h
      → get_rail rail_name ≡ ok Rail.simulated
      → pos 0 ≤ℤ price h.terms
      → let money = times_cents amount (price h.terms) in
        let currency = some (paid_in h.terms h.currency) in
        (Settleable w h amount rail_name token db
          × (tr : BridgeTransfer) × (after : Db) × (request
                (settle_down w h amount rail_name token)
                db
              ≡ (ok tr, after))
          × (holding_at after h.id ≡ some (record h { amount = round_micro (h.amount -ℤ amount) }))
          × ((t : Position → Bool)
              → t (position_of h) ≡ false
              → total t after.holdings
                ≡ total t db.holdings
                  +ℤ share t
                      (record {
                        wallet_id = w.id;
                        kind = "cash";
                        currency = currency;
                        project_id = none;
                      })
                      money)
          × (after.transfers ≡ db.transfers ++ tr ∷ [])
          × (tr ≡ record {
            id = tr.id;
            wallet_id = w.id;
            direction = Direction.settle_down;
            from_layer = Layer.direct_value;
            to_layer = Layer.fiat;
            holding_id = some h.id;
            amount = money;
            currency = currency;
            rail = "simulated";
            external_ref = some (concat "sim:" token);
            status = TransferStatus.settled;
          }))
        ⊎ (¬ Settleable w h amount rail_name token db
            × (e : Error) × (request (settle_down w h amount rail_name token) db ≡ (err e, db)))
  settle_down_exact here rail unit =
      let done : Settleable w h amount rail_name token db
          → request (settle_down w h amount rail_name token) db ≡ (ok settled.0, settled.1) =
        λ able.
          settle_down_succeeds w h amount rail_name token db rail able
            (rw (unit_value_of-price h.terms) unit) in
      elim (settle_down_outcome w h amount rail_name token db) [
        | inl (e, same) ↦ inr ((λ able. cc (same, done able)), e, same)
        | inr (result, able, nonneg, how) ↦
            let (left, gained, listed, worth) =
              settle_down_moves w h amount rail_name token db here (done able) in
            inl (
              able,
              settled.0,
              settled.1,
              done able,
              left,
              (λ t out. rw (← unit_value_of-price h.terms, ← currency_of-paid_in h) (gained t out)),
              listed,
              rw (← unit_value_of-price h.terms, ← currency_of-paid_in h) refl,
            )
      ]
