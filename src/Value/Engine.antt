-- ===== src/Value/Engine.antt =====
-- backend/app/value/engine.py: valuation from evidence. Weights and the confidence are decimals as in Money;
-- the values are floats, which are a parameter: a type with its operations, where division by zero raises.
pub mod Scenarios
pub mod Bounds
pub mod Confidence
use can_framework.Prelude.{
  ℕ, Bool, true, false, not, Option, none, some, List, [], ◌∷◌, ◌++◌, String, str_eq, ◌&&◌, ◌||◌,
  if◌then◌else◌,
}
use can_framework.Prelude.Int.{ℤ, pos, ◌+ℤ◌, ◌-ℤ◌, ltb_ℤ}
use can_framework.Prelude.Outcome.{Result, ok, err}
use can_framework.Prelude.Table.{first, newest_first}
use can_framework.Money.{Amount, one, micro, round_micro}

-- Floats: `less` is `<`, `round 2` is `round(x, 2)`, and `div` is `none` where it raises.
pub record Floats : Type 1 where
  pub Float : Type 0
  pub zero : Float
  pub one : Float
  pub twelve : Float
  pub hundred : Float
  pub add : Float → Float → Float
  pub sub : Float → Float → Float
  pub mul : Float → Float → Float
  pub div : Float → Float → Option Float
  pub less : Float → Float → Bool
  pub same : Float → Float → Bool
  pub abs : Float → Float
  pub round : ℕ → Float → Float

infixl 5 ◌>>=◌
abbrev pub ◌>>=◌ : {A B : Type 0} → Option A → (A → Option B) → Option B
none >>= f = none
some a >>= f = f a

module _ (F : Floats) where
  open F use {Float}

  pub record InputDef : Type 0 where
    pub key : String
    pub category : String
    pub required : Bool
    pub weight : Amount
    pub min : Option Float
    pub max : Option Float
    pub default : Option Float

  -- A change of a scenario: `mul` and `add`, each of which may be left out.
  pub record Change : Type 0 where
    pub key : String
    pub mul : Option Float
    pub add : Option Float

  pub record Scenario : Type 0 where
    pub name : String
    pub label : String
    pub changes : List Change

  pub record ValueConfig : Type 0 where
    pub categories : List String
    pub inputs : List InputDef
    pub scenarios : List Scenario

  abbrev pub has_text : String → List String → Bool
  has_text s [] = false
  has_text s (x ∷ xs) = str_eq x s || has_text s xs

  abbrev pub known_categories : List String → List InputDef → Bool
  known_categories categories [] = true
  known_categories categories (d ∷ ds) =
      has_text d.category categories && known_categories categories ds

  abbrev pub total_weight : List InputDef → Amount
  total_weight [] = pos 0
  total_weight (d ∷ ds) = d.weight +ℤ total_weight ds

  -- `abs(total - 1.0) > 1e-6`
  abbrev pub not_one : Amount → Bool
  not_one total = ltb_ℤ (pos micro) (total -ℤ pos one) || ltb_ℤ (pos micro) (pos one -ℤ total)

  abbrev pub def_of : String → InputDef → Bool
  def_of key d = str_eq d.key key

  abbrev pub is_def : Option InputDef → Bool
  is_def none = false
  is_def (some d) = true

  abbrev pub known_changes : List InputDef → List Change → Bool
  known_changes inputs [] = true
  known_changes inputs (c ∷ cs) = is_def (first (def_of c.key) inputs) && known_changes inputs cs

  abbrev pub known_scenarios : List InputDef → List Scenario → Bool
  known_scenarios inputs [] = true
  known_scenarios inputs (s ∷ ss) = known_changes inputs s.changes && known_scenarios inputs ss

  pub data ConfigError : Type 0 where
    unknown_category bad_weights bad_scenario : ConfigError

  -- The checks of `load_value_config` on what the file holds.
  unfoldable pub load_value_config : ValueConfig → Result ConfigError ValueConfig
  load_value_config raw =
      if not (known_categories raw.categories raw.inputs)
      then err unknown_category
      else if not_one (total_weight raw.inputs)
      then err bad_weights
      else if not (known_scenarios raw.inputs raw.scenarios)
      then err bad_scenario
      else ok raw

  abbrev pub under : Option Float → Float → Bool
  under none x = false
  under (some least) x = F.less x least

  abbrev pub over : Option Float → Float → Bool
  over none x = false
  over (some most) x = F.less most x

  abbrev pub out_of_range : Option InputDef → Float → Bool
  out_of_range none x = false
  out_of_range (some d) x = under d.min x || over d.max x

  -- Whether `validate_input` raises.
  unfoldable pub validate_input : ValueConfig → String → Float → Bool
  validate_input cfg key x = out_of_range (first (def_of key) cfg.inputs) x

  -- A row of AssetEvidence.
  pub record AssetEvidence : Type 0 where
    pub id : ℕ
    pub recorded_at : ℕ
    pub asset_id : ℕ
    pub category : String
    pub key : String
    pub value : Option Float
    pub text : Option String
    pub unit : Option String
    pub evidence_ref : Option String
    pub attester_subject : Option String
    pub self_reported : Bool
    pub superseded_at : Option ℕ

  pub data InputStatus : Type 0 where
    attested self_reported default missing : InputStatus

  pub record Input : Type 0 where
    pub key : String
    pub value : Option Float
    pub status : InputStatus
    pub evidence_id : Option ℕ
    pub evidence_ref : Option String
    pub category : String

  abbrev pub has_value : Option Float → Bool
  has_value none = false
  has_value (some x) = true

  abbrev pub evidence_for : String → AssetEvidence → Bool
  evidence_for key e = str_eq e.key key && has_value e.value

  abbrev pub with_default : InputDef → Option Float → Input
  with_default d none = record {
    key = d.key;
    value = none;
    status = missing;
    evidence_id = none;
    evidence_ref = none;
    category = d.category;
  }
  with_default d (some x) = record {
    key = d.key;
    value = some x;
    status = default;
    evidence_id = none;
    evidence_ref = none;
    category = d.category;
  }

  abbrev pub input_of : InputDef → Option AssetEvidence → Input
  input_of d none = with_default d (if d.required then none else d.default)
  input_of d (some e) = record {
    key = d.key;
    value = e.value;
    status = if e.self_reported then self_reported else attested;
    evidence_id = some e.id;
    evidence_ref = e.evidence_ref;
    category = d.category;
  }

  -- The last piece of evidence for a key is the one that `by_key` keeps.
  abbrev pub inputs_from : List AssetEvidence → List InputDef → List Input
  inputs_from evidence [] = []
  inputs_from evidence (d ∷ ds) =
      input_of d (first (evidence_for d.key) (newest_first evidence)) ∷ inputs_from evidence ds

  unfoldable pub gather_inputs : ValueConfig → List AssetEvidence → List Input
  gather_inputs cfg evidence = inputs_from evidence cfg.inputs

  abbrev pub is_attested : InputStatus → Bool
  is_attested attested = true
  is_attested _ = false

  abbrev pub is_missing : InputStatus → Bool
  is_missing missing = true
  is_missing _ = false

  abbrev pub weight_of : Option InputDef → Amount
  weight_of none = pos 0
  weight_of (some d) = d.weight

  -- The weight of what is attested. The inputs come from `gather_inputs`, so each has a definition.
  abbrev pub attested_weight : ValueConfig → List Input → Amount
  attested_weight cfg [] = pos 0
  attested_weight cfg (i ∷ is) =
      (if is_attested i.status then weight_of (first (def_of i.key) cfg.inputs) else pos 0)
      +ℤ attested_weight cfg is

  unfoldable pub confidence : ValueConfig → List Input → Amount
  confidence cfg inputs = round_micro (attested_weight cfg inputs)
