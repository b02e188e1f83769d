-- ===== src/Value/Engine/Scenarios.antt =====
-- The value, the scenarios and the sensitivity of backend/app/value/engine.py.
use can_framework.Prelude.{
  Bool, true, not, Option, none, some, List, [], ◌∷◌, String, str_eq, if◌then◌else◌,
}
use can_framework.Prelude.Table.{first}
use can_framework.Money.{Amount}
use can_framework.Value.Engine.{
  Floats, Change, Input, InputDef, Scenario, ValueConfig, confidence, def_of, is_missing, ◌>>=◌,
}

module _ (F : Floats) where
  open F use {Float}

  abbrev pub Values : Type 0
  Values = List (String × Float)

  -- `values[key]`, `none` where it raises KeyError.
  unfoldable pub value_at : String → Values → Option Float
  value_at key [] = none
  value_at key ((k, x) ∷ vs) = if str_eq k key then some x else value_at key vs

  -- `values[key] = x` for a key that is there.
  unfoldable pub set_value : String → Float → Values → Values
  set_value key x [] = []
  set_value key x ((k, y) ∷ vs) = if str_eq k key then (k, x) ∷ vs else (k, y) ∷ set_value key x vs

  -- `trial[key] = x`
  pub put_value : String → Float → Values → Values
  put_value key x [] = (key, x) ∷ []
  put_value key x ((k, y) ∷ vs) = if str_eq k key then (k, x) ∷ vs else (k, y) ∷ put_value key x vs

  pub record Worth : Type 0 where
    pub gross_income : Float
    pub operating_cost : Float
    pub carbon_cost : Float
    pub net_operating_income : Float
    pub value : Float
    pub is_liability : Bool

  abbrev pub worth : Float → Float → Float → Float → Float → Worth
  worth gross operating carbon noi value = record {
    gross_income = F.round 2 gross;
    operating_cost = F.round 2 operating;
    carbon_cost = F.round 2 carbon;
    net_operating_income = F.round 2 noi;
    value = F.round 2 value;
    is_liability = F.less value F.zero;
  }

  -- `none` where a key is missing or the rate is zero.
  unfoldable pub value_from : Values → Option Worth
  unfolding value_at
  value_from v = do
    units ← value_at "units" v
    occupancy ← value_at "occupancy" v
    rent ← value_at "rent_per_unit_month" v
    opex ← value_at "opex_ratio" v
    tonnes ← value_at "carbon_tonnes_year" v
    price ← value_at "carbon_price" v
    cap_rate ← value_at "cap_rate" v
    let gross = F.mul (F.mul (F.mul units occupancy) rent) F.twelve
    let operating = F.mul gross opex
    let carbon = F.mul tonnes price
    let noi = F.sub (F.sub gross operating) carbon
    gain ← F.div noi cap_rate
    capex ← value_at "capex_to_complete" v
    some (worth gross operating carbon noi (F.sub gain capex))

  abbrev pub or_float : Option Float → Float → Float
  or_float none x = x
  or_float (some y) x = y

  -- `max(x, least)` and `min(x, most)`
  abbrev pub at_least : Option Float → Float → Float
  at_least none x = x
  at_least (some least) x = if F.less x least then least else x

  abbrev pub at_most : Option Float → Float → Float
  at_most none x = x
  at_most (some most) x = if F.less most x then most else x

  abbrev pub clamped : InputDef F → Float → Float
  clamped d x = at_most d.max (at_least d.min x)

  abbrev pub changed : Change F → Float → Float
  changed c x = F.add (F.mul x (or_float c.mul F.one)) (or_float c.add F.zero)

  -- One round of the loop of `apply_changes`.
  unfoldable pub apply_change : ValueConfig F → Change F → Values → Option Values
  unfolding value_at set_value
  apply_change cfg c vs = do
    x ← value_at c.key vs
    d ← first (def_of F c.key) cfg.inputs
    some (set_value c.key (clamped d (changed c x)) vs)

  unfoldable pub apply_changes : ValueConfig F → List (Change F) → Values → Option Values
  apply_changes cfg [] vs = some vs
  apply_changes cfg (c ∷ cs) vs = do vs' ← apply_change cfg c vs; apply_changes cfg cs vs'

  pub record ScenarioWorth : Type 0 where
    pub label : String
    pub worth : Worth
    pub change : Float
    pub change_pct : Option Float

  -- The percentage, `none` within where the base value is zero.
  abbrev pub change_pct : Float → Float → Option (Option Float)
  change_pct change base =
      if F.same base F.zero
      then some none
      else (do q ← F.div (F.mul F.hundred change) (F.abs base); some (some (F.round 2 q)))

  unfoldable pub run_scenario : ValueConfig F → Values → Worth → Scenario F → Option ScenarioWorth
  unfolding apply_changes value_from
  run_scenario cfg values base s = do
    vs ← apply_changes cfg s.changes values
    r ← value_from vs
    let change = F.sub r.value base.value
    pct ← change_pct change base.value
    some (record { label = s.label; worth = r; change = F.round 2 change; change_pct = pct })

  unfoldable pub run_scenarios :
      ValueConfig F → Values → Worth → List (Scenario F) → Option (List ScenarioWorth)
  unfolding run_scenario
  run_scenarios cfg values base [] = some []
  run_scenarios cfg values base (s ∷ ss) = do
    r ← run_scenario cfg values base s
    rs ← run_scenarios cfg values base ss
    some (r ∷ rs)

  pub data Valuation : Type 0 where
    incomplete : List String → Amount → List (Input F) → Valuation
    complete : Amount → List (Input F) → Worth → List ScenarioWorth → Valuation

  abbrev pub missing_inputs : List (Input F) → List String
  missing_inputs [] = []
  missing_inputs (i ∷ is) =
      if is_missing F i.status then i.key ∷ missing_inputs is else missing_inputs is

  -- The values of inputs of which none is missing.
  abbrev pub values_of : List (Input F) → Values
  values_of [] = []
  values_of (i ∷ is) = elim i.value [ some x ↦ (i.key, x) ∷ values_of is | none ↦ values_of is ]

  -- The worst case is the least of the scenarios, so `min` raises where there are none.
  abbrev pub with_worst : List ScenarioWorth → Option (List ScenarioWorth)
  with_worst [] = none
  with_worst (s ∷ ss) = some (s ∷ ss)

  -- `valuate` without its texts.
  unfoldable pub valuate : ValueConfig F → List (Input F) → Option Valuation
  unfolding confidence value_from run_scenarios
  valuate cfg inputs = elim (missing_inputs inputs) [
    | k ∷ ks ↦ some (incomplete (k ∷ ks) (confidence F cfg inputs) inputs)
    | [] ↦ value_from (values_of inputs) >>= (λ base.
        run_scenarios cfg (values_of inputs) base cfg.scenarios
        >>= with_worst
        >>= (λ scenarios. some (complete (confidence F cfg inputs) inputs base scenarios)))
  ]

  abbrev pub differs : Option Float → Float → Bool
  differs none x = true
  differs (some y) x = not (F.same x y)

  abbrev pub effect : Values → Float → String × Float → Option Float
  effect values base (k, x) = do
    r ← value_from (put_value k x values)
    some (F.round 2 (F.sub r.value base))

  -- The loop of `sensitivity`, over the values that are new.
  unfoldable pub effects : Values → Float → Values → Option Values
  effects values base [] = some []
  effects values base ((k, x) ∷ vs) =
      let rest = effects values base vs in
      if differs (value_at k values) x
      then (do e ← effect values base (k, x); es ← rest; some ((k, e) ∷ es))
      else rest

  unfoldable pub sensitivity : Values → Values → Option Values
  unfolding effects value_from
  sensitivity values new_values = do base ← value_from values; effects values base.value new_values
