-- ===== src/Money/Rounding.antt =====
-- Laws of rounding to cents and to millionths.
use can_framework.Prelude.{ℕ, zero, suc, ◌+◌, ◌*◌, ◌%◌, ◌≤◌, ◌<◌, ◌≡◌, refl, some, arith}
use can_framework.Prelude.Int.{
  ℤ, pos, negsuc, pos_part, neg_part, ◌+ℤ◌, ◌-ℤ◌, ◌*ℤ◌, ◌≤ℤ◌, negate, int_laws, eq_of_parts,
  *ℤ_nonneg,
}
use can_framework.Money.{
  Amount, one, cent, micro, nearest, quantise, round_cents, round_micro, times_cents, over_micro,
}

negate_parts : (n : ℕ) → (pos_part (negate n) ≡ 0) × (neg_part (negate n) ≡ n)
negate_parts zero = (refl, refl)
negate_parts (suc n) = (refl, refl)

-- A whole number of cents.
abbrev pub IsCents : Amount → Type 0
IsCents x = (pos_part x % 10_000_000 ≡ 0) × (neg_part x % 10_000_000 ≡ 0)

nearest-cent :
    (n : ℕ)
    → (2 * (nearest n cent * cent) ≤ 2 * n + cent)
      × (2 * n ≤ 2 * (nearest n cent * cent) + cent)
      × (nearest n cent * cent % 10_000_000 ≡ 0)
nearest-cent n = ground arith

nearest-cent_exact : (n : ℕ) → n % 10_000_000 ≡ 0 → nearest n cent * cent ≡ n
nearest-cent_exact n h = ground arith

nearest-micro :
    (n : ℕ)
    → (2 * (nearest n micro * micro) ≤ 2 * n + micro)
      × (2 * n ≤ 2 * (nearest n micro * micro) + micro)
nearest-micro n = ground arith

round_cents_parts :
    (x : Amount)
    → (pos_part (round_cents x) ≡ nearest (pos_part x) cent * cent)
      × (neg_part (round_cents x) ≡ nearest (neg_part x) cent * cent)
unfolding round_cents
round_cents_parts (pos n) = (refl, refl)
round_cents_parts (negsuc n) = negate_parts (nearest (suc n) cent * cent)

round_micro_parts :
    (x : Amount)
    → (pos_part (round_micro x) ≡ nearest (pos_part x) micro * micro)
      × (neg_part (round_micro x) ≡ nearest (neg_part x) micro * micro)
unfolding round_micro
round_micro_parts (pos n) = (refl, refl)
round_micro_parts (negsuc n) = negate_parts (nearest (suc n) micro * micro)

pub round_cents-IsCents : (x : Amount) → IsCents (round_cents x)
round_cents-IsCents x =
    rw ((round_cents_parts x).0, (round_cents_parts x).1)
      ((nearest-cent (pos_part x)).2, (nearest-cent (neg_part x)).2)

pub round_cents-eq : (x : Amount) → IsCents x → round_cents x ≡ x
round_cents-eq (pos n) h =
    eq_of_parts _ _ (omega (arith, round_cents_parts (pos n), nearest-cent_exact n h.0))
round_cents-eq (negsuc n) h =
    eq_of_parts _ _ (omega (arith, round_cents_parts (negsuc n), nearest-cent_exact (suc n) h.1))

pub round_cents_nonneg : (x : Amount) → pos 0 ≤ℤ x → pos 0 ≤ℤ round_cents x
unfolding round_cents
round_cents_nonneg (pos n) h = omega arith
round_cents_nonneg (negsuc n) h = absurd (omega arith)

-- Less than half a cent rounds to nothing.
pub round_cents_small : (n : ℕ) → n < 5_000_000 → round_cents (pos n) ≡ pos 0
unfolding round_cents
round_cents_small n h = ground arith

-- Rounding to millionths moves an amount by at most half a millionth.
pub round_micro_near :
    (x : Amount) → (x ≤ℤ round_micro x +ℤ pos 500) × (round_micro x ≤ℤ x +ℤ pos 500)
round_micro_near (pos n) = omega (int_laws, round_micro_parts (pos n), nearest-micro n)
round_micro_near (negsuc n) = omega (int_laws, round_micro_parts (negsuc n), nearest-micro (suc n))

pub round_micro_nonneg : (x : Amount) → pos 0 ≤ℤ x +ℤ pos 1 → pos 0 ≤ℤ round_micro x
unfolding round_micro ◌+ℤ◌
round_micro_nonneg (pos n) h = omega arith
round_micro_nonneg (negsuc n) h = ground arith

quantise-IsCents : (x : ℤ) (den : ℕ) → IsCents (quantise x den cent)
quantise-IsCents (pos n) den = omega arith
quantise-IsCents (negsuc n) den =
    let (p, q) = negate_parts (nearest (suc n) den * cent) in omega arith

pub times_cents-IsCents : (a b : Amount) → IsCents (times_cents a b)
unfolding times_cents
times_cents-IsCents a b = quantise-IsCents (a *ℤ b) (one * cent)

quantise_nonneg : (x : ℤ) (den unit : ℕ) → pos 0 ≤ℤ x → pos 0 ≤ℤ quantise x den unit
quantise_nonneg (pos n) den unit h = omega arith
quantise_nonneg (negsuc n) den unit h = absurd (omega arith)

pub times_cents_nonneg : (a b : Amount) → pos 0 ≤ℤ a → pos 0 ≤ℤ b → pos 0 ≤ℤ times_cents a b
unfolding times_cents
times_cents_nonneg a b h k = quantise_nonneg (a *ℤ b) (one * cent) cent (*ℤ_nonneg a b h k)

pub over_micro_nonneg :
    (a b q : Amount) → pos 0 ≤ℤ a → pos 0 ≤ℤ b → over_micro a b ≡ some q → pos 0 ≤ℤ q
unfolding over_micro
over_micro_nonneg a (pos zero) q h k e = ground arith
over_micro_nonneg (pos n) (pos (suc d)) q h k e = ground arith
over_micro_nonneg (negsuc n) (pos (suc d)) q h k e = absurd (omega arith)
over_micro_nonneg a (negsuc d) q h k e = absurd (omega arith)

pub sub-IsCents : (a b : Amount) → IsCents a → IsCents b → IsCents (a -ℤ b)
unfolding ◌-ℤ◌
sub-IsCents (pos m) (pos n) h k = ground arith
sub-IsCents (pos m) (negsuc n) h k = ground arith
sub-IsCents (negsuc m) (pos n) h k = ground arith
sub-IsCents (negsuc m) (negsuc n) h k = ground arith

pub add-IsCents : (a b : Amount) → IsCents a → IsCents b → IsCents (a +ℤ b)
unfolding ◌+ℤ◌
add-IsCents (pos m) (pos n) h k = ground arith
add-IsCents (pos m) (negsuc n) h k = ground arith
add-IsCents (negsuc m) (pos n) h k = ground arith
add-IsCents (negsuc m) (negsuc n) h k = ground arith

nearest-micro_exact : (n : ℕ) → n % 10_000_000 ≡ 0 → nearest n micro * micro ≡ n
nearest-micro_exact n h = ground arith

-- Whole cents are whole millionths.
pub round_micro-eq : (x : Amount) → IsCents x → round_micro x ≡ x
round_micro-eq (pos n) h =
    eq_of_parts _ _ (omega (arith, round_micro_parts (pos n), nearest-micro_exact n h.0))
round_micro-eq (negsuc n) h =
    eq_of_parts _ _ (omega (arith, round_micro_parts (negsuc n), nearest-micro_exact (suc n) h.1))

-- Less than half a cent under whole cents rounds up to them, and over them rounds down.
pub round_cents_near_cents :
    (x n : ℕ)
    → x % 10_000_000 ≡ 0
    → n < 5_000_000
    → (round_cents (pos x +ℤ pos n) ≡ pos x) × (n ≤ x → round_cents (pos x -ℤ pos n) ≡ pos x)
unfolding round_cents ◌+ℤ◌ ◌-ℤ◌
round_cents_near_cents x n h k = (ground arith, λ le. ground arith)
