-- ===== src/Bridge/Pledges.antt =====
-- The leverage part of backend/app/bridge/service.py: pledge a holding, release the pledge, and
-- settle direct value down into money.
pub mod Cover
pub mod Rows
pub mod Settlement
pub mod Exact
pub mod Steps
use can_framework.Prelude.{
  ℕ, ◌+◌, Bool, true, false, not, Option, none, some, List, [], ◌∷◌, ◌++◌, String, str_eq, ◌==◌,
  ◌||◌, if◌then◌else◌,
}
use can_framework.Prelude.Int.{pos, ◌+ℤ◌, ◌-ℤ◌, ltb_ℤ, leb_ℤ}
use can_framework.Prelude.Table.{first, adjust}
use can_framework.Prelude.Outcome.{raise_if, lift, modify, save, gets, ◌>>=◌, ◌>>◌}
use can_framework.Money.{Amount, one, tolerance, round_micro, times_cents}
use can_framework.Bridge.Records.{
  Layer, is_settleable, Wallet, Terms, Holding, Pledge, PledgeStatus, BridgeTransfer, Direction, Db,
  not_direct, pledge_not_positive, over_pledged, already_released, already_money, not_settleable,
  not_free,
}
use can_framework.Bridge.Rails.{SettlementResult, settle, get_rail}
use can_framework.Bridge.Wallet.{Request, Credit, credit, pledged_amount}

abbrev pub is_direct : Layer → Bool
is_direct Layer.direct_value = true
is_direct Layer.fiat = false
is_direct Layer.modernised_fiat = false

abbrev pub is_active : PledgeStatus → Bool
is_active PledgeStatus.active = true
is_active PledgeStatus.released = false

-- What is left of a holding beside its active pledges.
abbrev pub free_of_pledges : Holding → Db → Amount
free_of_pledges h db = h.amount -ℤ pledged_amount h.id db.pledges

abbrev pub new_pledge : ℕ → Amount → Option ℕ → Option String → Db → Pledge × Db
new_pledge holding_id amount lender note db =
    let p : Pledge = record {
      id = db.fresh;
      holding_id = holding_id;
      lender_user_id = lender;
      amount = amount;
      note = note;
      status = PledgeStatus.active;
      released_at = none;
    } in
    (p, record db { pledges = db.pledges ++ p ∷ []; fresh = db.fresh + 1 })

unfoldable pub create_pledge : Holding → Amount → Option ℕ → Option String → Request Pledge
create_pledge h amount lender note = do
  raise_if (not (is_direct h.layer)) not_direct
  free ← gets (free_of_pledges h)
  raise_if (leb_ℤ amount (pos 0)) pledge_not_positive
  raise_if (ltb_ℤ (free +ℤ tolerance) amount) over_pledged
  save (new_pledge h.id amount lender note)

abbrev pub pledge_with : ℕ → Pledge → Bool
pledge_with id p = p.id == id

abbrev pub mark_released : ℕ → Pledge → Pledge
mark_released now p = record p { status = PledgeStatus.released; released_at = some now }

unfoldable pub release_pledge : Pledge → ℕ → Request Pledge
release_pledge p now = do
  raise_if (not (is_active p.status)) already_released
  save (λ db. (
    mark_released now p,
    record db { pledges = adjust (pledge_with p.id) (mark_released now) db.pledges },
  ))

abbrev pub holding_with : ℕ → Holding → Bool
holding_with id h = h.id == id

-- `float((holding.terms or {}).get("unit_value", 1.0))`
abbrev pub unit_value_of : Option Terms → Amount
unit_value_of none = pos one
unit_value_of (some t) = elim t.unit_value [ none ↦ pos one | some u ↦ u ]

-- A text that is there and not empty: what Python's `or` takes.
abbrev pub truthy : Option String → Option String
truthy none = none
truthy (some s) = if str_eq s "" then none else some s

abbrev terms_currency : Option Terms → Option String
terms_currency none = none
terms_currency (some t) = t.currency

abbrev pub or_usd : Option String → String
or_usd none = "USD"
or_usd (some c) = c

-- `(holding.terms or {}).get("currency") or holding.currency or "USD"`
abbrev pub currency_of : Holding → String
currency_of h = elim (truthy (terms_currency h.terms)) [
  | some c ↦ c
  | none ↦ or_usd (truthy h.currency)
]

abbrev pub debit : Amount → Holding → Holding
debit amount h = record h { amount = round_micro (h.amount -ℤ amount) }

abbrev pub settled_cash : Holding → Amount → Amount
settled_cash h amount = times_cents amount (unit_value_of h.terms)

abbrev pub cash_credit : Holding → Amount → Credit
cash_credit h amount = record {
  kind = "cash";
  amount = settled_cash h amount;
  currency = some (currency_of h);
  project_id = none;
  description = some "Settled from a holding";
  terms = none;
  evidence_ref = h.evidence_ref;
}

abbrev pub settle_transfer : Wallet → Holding → Amount → SettlementResult → ℕ → BridgeTransfer
settle_transfer w h amount result id = record {
  id = id;
  wallet_id = w.id;
  direction = Direction.settle_down;
  from_layer = Layer.direct_value;
  to_layer = Layer.fiat;
  holding_id = some h.id;
  amount = settled_cash h amount;
  currency = some (currency_of h);
  rail = result.rail;
  external_ref = some result.external_ref;
  status = result.status;
}

abbrev pub add_transfer : (ℕ → BridgeTransfer) → Db → BridgeTransfer × Db
add_transfer t db =
    (t db.fresh, record db { transfers = db.transfers ++ t db.fresh ∷ []; fresh = db.fresh + 1 })

-- `token` is the `uuid4()` of the simulated rail's reference.
unfoldable pub settle_down :
    Wallet → Holding → Amount → Option String → String → Request BridgeTransfer
settle_down w h amount rail_name token = do
  raise_if (not (is_direct h.layer)) already_money
  raise_if (not (is_settleable h.kind)) not_settleable
  free ← gets (free_of_pledges h)
  raise_if (leb_ℤ amount (pos 0) || ltb_ℤ (free +ℤ tolerance) amount) not_free
  rail ← lift (get_rail rail_name)
  result ← lift (settle token rail)
  modify (λ db. record db { holdings = adjust (holding_with h.id) (debit amount) db.holdings })
  credit w (cash_credit h amount)
  save (add_transfer (settle_transfer w h amount result))
