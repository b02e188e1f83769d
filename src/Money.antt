-- ===== src/Money.antt =====
-- Amounts of money and of units. The code keeps them as floats and rounds with Python's `round`;
-- here an amount is an exact decimal with nine places, counted in units of 10^-9, and `round` is to
-- the nearest multiple, ties to the even one. The smallest step, 10^-9, is the tolerance `1e-9` of
-- backend/app/bridge/service.py.
pub mod Rounding
use can_framework.Prelude.{
  ℕ, zero, suc, ◌+◌, ◌*◌, ◌/◌, ◌%◌, Option, none, some, ltb, ◌==◌, if◌then◌else◌,
}
use can_framework.Prelude.Int.{ℤ, pos, negsuc, ◌*ℤ◌, ◌-ℤ◌, negate, scale}

abbrev pub Amount : Type 0
Amount = ℤ

-- 1.0, 0.01, 0.000001 and the tolerance `1e-9`
abbrev pub one : ℕ
one = 1_000_000_000

abbrev pub cent : ℕ
cent = 10_000_000

abbrev pub micro : ℕ
micro = 1_000

abbrev pub tolerance : Amount
tolerance = pos 1

-- n / d to the nearest whole number, ties to even.
abbrev pub nearest : ℕ → ℕ → ℕ
nearest n d =
    if ltb (2 * (n % d)) d
    then n / d
    else if ltb d (2 * (n % d))
    then n / d + 1
    else if n / d % 2 == 0
    then n / d
    else n / d + 1

-- num / den to the nearest multiple of a unit that is `unit` steps long.
abbrev pub quantise : ℤ → ℕ → ℕ → ℤ
quantise (pos n) den unit = pos (nearest n den * unit)
quantise (negsuc n) den unit = negate (nearest (suc n) den * unit)

-- `round(x, 2)`
unfoldable pub round_cents : Amount → Amount
round_cents x = quantise x cent cent

-- `round(x, 6)`
unfoldable pub round_micro : Amount → Amount
round_micro x = quantise x micro micro

-- `round(a * b, 2)`
unfoldable pub times_cents : Amount → Amount → Amount
times_cents a b = quantise (a *ℤ b) (one * cent) cent

-- `round(a / b, 6)`; `none` is `ZeroDivisionError`
unfoldable pub over_micro : Amount → Amount → Option Amount
over_micro a (pos zero) = none
over_micro a (pos (suc d)) = some (quantise (scale a one) (suc d * micro) micro)
over_micro a (negsuc d) = some (quantise (pos 0 -ℤ scale a one) (suc d * micro) micro)
