-- ===== src/Value/Engine/Bounds.antt =====
-- Bounds of backend/app/value/engine.py: the values of a scenario, and the confidence.
use can_framework.Prelude.{
  ◌≡◌, refl, ap, sym, ◌∙◌, Bool, true, false, Option, none, some, List, [], ◌∷◌, String, str_eq,
  str_eq_iff, ◌&&◌, arith, Bool-cases, inl, inr,
}
use mathlib.Core.Path.{subst}
use can_framework.Prelude.Table.{first}
use can_framework.Value.Engine.{
  Floats, InputDef, Change, ValueConfig, def_of, is_def, has_text, known_changes, under, over,
  out_of_range,
}
use can_framework.Value.Engine.Scenarios.{
  Values, value_at, set_value, at_least, at_most, clamped, changed, apply_change, apply_changes,
}

module _ (F : Floats) where
  open F use {Float, less}

  -- No float is less than itself.
  abbrev pub IsIrreflexive : Type 0
  IsIrreflexive = (x : Float) → less x x ≡ false

  -- A maximum is not less than the minimum.
  abbrev pub InOrder : Option Float → Option Float → Type 0
  InOrder (some least) (some most) = less most least ≡ false
  InOrder _ _ = Unit

  at_least-under :
      (least : Option Float) (x : Float)
      → IsIrreflexive
      → under F least (at_least F least x) ≡ false
  at_least-under none x irr = refl
  at_least-under (some least) x irr = ground (arith, irr least)

  clamped-under :
      (least most : Option Float) (x : Float)
      → InOrder least most
      → under F least x ≡ false
      → under F least (at_most F most x) ≡ false
  clamped-under none most x h u = refl
  clamped-under (some least) none x h u = u
  clamped-under (some least) (some most) x h u = ground arith

  at_most-over :
      (most : Option Float) (x : Float) → IsIrreflexive → over F most (at_most F most x) ≡ false
  at_most-over none x irr = refl
  at_most-over (some most) x irr = ground (arith, irr most)

  clamped_in_range :
      (d : InputDef F) (x : Float)
      → IsIrreflexive
      → InOrder d.min d.max
      → out_of_range F (some d) (clamped F d x) ≡ false
  clamped_in_range d x irr h =
      let low = clamped-under d.min d.max (at_least F d.min x) h (at_least-under d.min x irr) in
      let high = at_most-over d.max (at_least F d.min x) irr in ground arith

  -- Every value is in the range of its input.
  abbrev pub AllInRange : ValueConfig F → Values F → Type 0
  AllInRange cfg [] = Unit
  AllInRange cfg ((k, x) ∷ vs) =
      (out_of_range F (first (def_of F k) cfg.inputs) x ≡ false) × AllInRange cfg vs

  abbrev pub keys : Values F → List String
  keys [] = []
  keys ((k, x) ∷ vs) = k ∷ keys vs

  abbrev pub has_key : String → Values F → Bool
  has_key key vs = has_text F key (keys vs)

  set_value-InRange :
      (cfg : ValueConfig F) (key : String) (x : Float) (vs : Values F)
      → out_of_range F (first (def_of F key) cfg.inputs) x ≡ false
      → AllInRange cfg vs
      → AllInRange cfg (set_value F key x vs)
  unfolding set_value
  set_value-InRange cfg key x [] h all = tt
  set_value-InRange cfg key x ((k, y) ∷ vs) h all = elim (Bool-cases (str_eq k key)) [
    | inl here ↦
        let same : k ≡ key = (str_eq_iff k key).0 here in
        rw here (
          subst (λ (j : String). out_of_range F (first (def_of F j) cfg.inputs) x ≡ false)
              (sym same) h,
          all.1,
        )
    | inr past ↦ rw past (all.0, set_value-InRange cfg key x vs h all.1)
  ]

  set_value-keys :
      (key : String) (x : Float) (vs : Values F) → keys (set_value F key x vs) ≡ keys vs
  unfolding set_value
  set_value-keys key x [] = refl
  set_value-keys key x ((k, y) ∷ vs) = elim (Bool-cases (str_eq k key)) [
    | inl here ↦ rw here
    | inr past ↦ rw past (ap (λ ks. k ∷ ks) (set_value-keys key x vs))
  ]

  has_key-value :
      (key : String) (vs : Values F)
      → has_key key vs ≡ true
      → (x : Float) × (value_at F key vs ≡ some x)
  unfolding value_at
  has_key-value key [] h = absurd (ground arith)
  has_key-value key ((k, x) ∷ vs) h = elim (Bool-cases (str_eq k key)) [
    | inl here ↦ (x, rw here)
    | inr past ↦ rw past (has_key-value key vs (ground arith))
  ]

  is_def-def : (o : Option (InputDef F)) → is_def F o ≡ true → (d : InputDef F) × (o ≡ some d)
  is_def-def none h = absurd (ground arith)
  is_def-def (some d) h = (d, refl)

  -- Every definition whose key is looked up has its bounds in order.
  abbrev pub AllInOrder : ValueConfig F → Type 0
  AllInOrder cfg =
      (key : String) (d : InputDef F)
      → first (def_of F key) cfg.inputs ≡ some d
      → InOrder d.min d.max

  -- The values have all keys that the changes name.
  abbrev pub covers : List (Change F) → Values F → Bool
  covers [] vs = true
  covers (c ∷ cs) vs = has_key c.key vs && covers cs vs

  has_key-keys :
      (key : String) (vs ws : Values F) → keys ws ≡ keys vs → has_key key ws ≡ has_key key vs
  has_key-keys key vs ws h = ap (has_text F key) h

  covers-keys :
      (cs : List (Change F)) (vs ws : Values F)
      → keys ws ≡ keys vs
      → covers cs vs ≡ true
      → covers cs ws ≡ true
  covers-keys [] vs ws h k = refl
  covers-keys (c ∷ cs) vs ws h k =
      ground (arith, has_key-keys c.key vs ws h, covers-keys cs vs ws h)

  apply_change_in_range :
      (cfg : ValueConfig F) (c : Change F) (vs : Values F)
      → IsIrreflexive
      → AllInOrder cfg
      → is_def F (first (def_of F c.key) cfg.inputs) ≡ true
      → has_key c.key vs ≡ true
      → AllInRange cfg vs
      → (ws : Values F) × (apply_change F cfg c vs ≡ some ws)
        × AllInRange cfg ws
        × (keys ws ≡ keys vs)
  unfolding apply_change
  apply_change_in_range cfg c vs irr order known there all =
      let (x, value) = has_key-value c.key vs there in
      let (d, def) = is_def-def (first (def_of F c.key) cfg.inputs) known in
      let y = clamped F d (changed F c x) in
      (
        set_value F c.key y vs,
        rw (value, def),
        set_value-InRange cfg c.key y vs
            (subst (λ o. out_of_range F o y ≡ false) (sym def)
              (clamped_in_range d (changed F c x) irr (order c.key d def)))
            all,
        set_value-keys c.key y vs,
      )

  -- The changes of a scenario never raise and keep every value in its range: where the changes name known
  -- inputs, the values cover them and are in their ranges, and no maximum is less than its minimum, the
  -- changed values are there, have the same keys and are in their ranges again.
  pub apply_changes_in_range :
      (cfg : ValueConfig F) (cs : List (Change F)) (vs : Values F)
      → IsIrreflexive
      → AllInOrder cfg
      → known_changes F cfg.inputs cs ≡ true
      → covers cs vs ≡ true
      → AllInRange cfg vs
      → (ws : Values F) × (apply_changes F cfg cs vs ≡ some ws)
        × AllInRange cfg ws
        × (keys ws ≡ keys vs)
  unfolding apply_changes
  apply_changes_in_range cfg [] vs irr order known there all = (vs, refl, all, refl)
  apply_changes_in_range cfg (c ∷ cs) vs irr order known there all =
      let (us, one_step, fine, same) =
        apply_change_in_range cfg c vs irr order (ground arith) (ground arith) all in
      let (ws, rest, fine', same') =
        apply_changes_in_range cfg cs us irr order (ground arith)
          (covers-keys cs vs us same (ground arith)) fine in
      (ws, rw one_step rest, fine', same' ∙ same)
