-- ===== src/Value/Engine/Confidence.antt =====
-- Bounds of the confidence of backend/app/value/engine.py.
use can_framework.Prelude.{
  ◌≡◌, refl, ap, ◌∙◌, Bool, true, false, Option, none, some, List, [], ◌∷◌, if◌then◌else◌, arith,
}
use mathlib.Core.Path.{subst}
use can_framework.Prelude.All.{All, first-All, newest_first-All}
use can_framework.Prelude.Int.{pos, ◌≤ℤ◌, int_laws, -ℤ_parts}
use can_framework.Prelude.Outcome.{ok}
use can_framework.Prelude.Table.{first, newest_first}
use can_framework.Money.{Amount, one, round_micro}
use can_framework.Money.Rounding.{round_micro_near, round_micro_nonneg}
use can_framework.Value.Engine.{
  Floats, InputDef, ValueConfig, def_of, AssetEvidence, evidence_for, with_default, input_of,
  inputs_from, gather_inputs, is_attested, weight_of, attested_weight, confidence, total_weight,
  not_one, load_value_config,
}

module _ (F : Floats) where
  open F use {Float, less}

  -- Each definition is found by its key, as in a dictionary.
  abbrev pub IsDictionary : ValueConfig F → List (InputDef F) → Type 0
  IsDictionary cfg [] = Unit
  IsDictionary cfg (d ∷ ds) = (first (def_of F d.key) cfg.inputs ≡ some d) × IsDictionary cfg ds

  abbrev pub AllPositive : List (InputDef F) → Type 0
  AllPositive [] = Unit
  AllPositive (d ∷ ds) = (pos 0 ≤ℤ d.weight) × AllPositive ds

  with_default-key : (d : InputDef F) (o : Option Float) → (with_default F d o).key ≡ d.key
  with_default-key d none = refl
  with_default-key d (some x) = refl

  with_default-hearsay :
      (d : InputDef F) (o : Option Float) → is_attested F (with_default F d o).status ≡ false
  with_default-hearsay d none = refl
  with_default-hearsay d (some x) = refl

  input_of-key : (d : InputDef F) (e : Option (AssetEvidence F)) → (input_of F d e).key ≡ d.key
  input_of-key d none = with_default-key d (if d.required then none else d.default)
  input_of-key d (some e) = refl

  weight_part :
      (b : Bool) (w : Amount)
      → pos 0 ≤ℤ w
      → (pos 0 ≤ℤ (if b then w else pos 0)) × ((if b then w else pos 0) ≤ℤ w)
  weight_part true w h = (h, omega arith)
  weight_part false w h = (omega arith, h)

  attested_weight-le :
      (cfg : ValueConfig F) (evidence : List (AssetEvidence F)) (ds : List (InputDef F))
      → IsDictionary cfg ds
      → AllPositive ds
      → (pos 0 ≤ℤ attested_weight F cfg (inputs_from F evidence ds))
        × (attested_weight F cfg (inputs_from F evidence ds) ≤ℤ total_weight F ds)
  attested_weight-le cfg evidence [] h w = (omega arith, omega arith)
  attested_weight-le cfg evidence (d ∷ ds) h w =
      let i = input_of F d (first (evidence_for F d.key) (newest_first evidence)) in
      let own : weight_of F (first (def_of F i.key) cfg.inputs) ≡ d.weight =
        ap (λ k. weight_of F (first (def_of F k) cfg.inputs))
          (input_of-key d (first (evidence_for F d.key) (newest_first evidence)))
        ∙ ap (weight_of F) h.0 in
      let (some_low, some_high) = weight_part (is_attested F i.status) d.weight w.0 in
      let (low, high) = attested_weight-le cfg evidence ds h.1 w.1 in
      rw own (omega (int_laws, some_low, low), omega (int_laws, some_high, high))

  not_one-le : (t : Amount) → not_one F t ≡ false → t ≤ℤ pos 1_000_001_000
  not_one-le t h = ground (arith, -ℤ_parts t (pos one), -ℤ_parts (pos one) t)

  input_of-hearsay :
      (d : InputDef F) (o : Option (AssetEvidence F))
      → ((e : AssetEvidence F) → o ≡ some e → e.self_reported ≡ true)
      → is_attested F (input_of F d o).status ≡ false
  input_of-hearsay d none h = with_default-hearsay d (if d.required then none else d.default)
  input_of-hearsay d (some e) h = rw (h e refl) refl

  hearsay_weight :
      (cfg : ValueConfig F) (evidence : List (AssetEvidence F)) (ds : List (InputDef F))
      → All (λ e. e.self_reported ≡ true) evidence
      → attested_weight F cfg (inputs_from F evidence ds) ≡ pos 0
  hearsay_weight cfg evidence [] h = refl
  hearsay_weight cfg evidence (d ∷ ds) h =
      let found = first (evidence_for F d.key) (newest_first evidence) in
      let none_attested = input_of-hearsay d found λ e there.
        first-All (λ e. e.self_reported ≡ true) (evidence_for F d.key) (newest_first evidence) e
          (newest_first-All (λ e. e.self_reported ≡ true) evidence h) there in
      rw none_attested (rw (hearsay_weight cfg evidence ds h) (omega int_laws))

  round_zero : round_micro (pos 0) ≡ pos 0
  unfolding round_micro
  round_zero = refl

  load_value_config-total :
      (raw cfg : ValueConfig F)
      → load_value_config F raw ≡ ok cfg
      → (raw ≡ cfg) × (not_one F (total_weight F raw.inputs) ≡ false)
  unfolding load_value_config
  load_value_config-total raw cfg h = (ground arith, ground arith)

  -- In a configuration that loads, has each definition under its own key and no negative weight, the
  -- confidence is not negative and at most 1.000002: the sum of the weights may be off by a millionth, and
  -- the rounding by half of one. Without evidence that is attested it is 0.
  pub confidence_bounds :
      (raw cfg : ValueConfig F) (evidence : List (AssetEvidence F))
      → load_value_config F raw ≡ ok cfg
      → IsDictionary cfg cfg.inputs
      → AllPositive cfg.inputs
      → let c = confidence F cfg (gather_inputs F cfg evidence) in
        (pos 0 ≤ℤ c)
        × (c ≤ℤ pos 1_000_002_000)
        × (All (λ e. e.self_reported ≡ true) evidence → c ≡ pos 0)
  unfolding confidence gather_inputs
  confidence_bounds raw cfg evidence h dict positive =
      let (same, whole) = load_value_config-total raw cfg h in
      let total : not_one F (total_weight F cfg.inputs) ≡ false =
        subst (λ (x : ValueConfig F). not_one F (total_weight F x.inputs) ≡ false) same whole in
      let w = attested_weight F cfg (inputs_from F evidence cfg.inputs) in
      let (low, high) = attested_weight-le cfg evidence cfg.inputs dict positive in
      let near = round_micro_near w in
      (
        round_micro_nonneg w (omega (int_laws, low)),
        omega (int_laws, near, high, not_one-le (total_weight F cfg.inputs) total),
        λ hearsay. ap round_micro (hearsay_weight cfg evidence cfg.inputs hearsay) ∙ round_zero,
      )
