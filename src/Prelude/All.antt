-- ===== src/Prelude/All.antt =====
-- A property of all rows of a table.
use can_framework.Prelude.{
  ℕ, zero, suc, ◌≡◌, Bool, true, false, some, List, [], ◌∷◌, ◌++◌, arith, if◌then◌else◌, Bool-cases,
  inl, inr,
}
use mathlib.Core.Path.{subst}
use can_framework.Prelude.Int.{ℤ, pos, ◌≤ℤ◌, int_laws}
use can_framework.Prelude.Table.{first, adjust, sum_of, newest_first, limit}

abbrev pub All {ℓ} : {A : Type ℓ} → (A → Type 0) → List A → Type 0
All P [] = Unit
All P (x ∷ xs) = P x × All P xs

module _ {ℓ} {A : Type ℓ} where
  pub All-append : (P : A → Type 0) (xs : List A) (y : A) → All P xs → P y → All P (xs ++ y ∷ [])
  All-append P [] y h p = (p, tt)
  All-append P (x ∷ xs) y h p = (h.0, All-append P xs y h.1 p)

  pub newest_first-All : (P : A → Type 0) (xs : List A) → All P xs → All P (newest_first xs)
  newest_first-All P [] h = tt
  newest_first-All P (x ∷ xs) h = All-append P (newest_first xs) x (newest_first-All P xs h.1) h.0

  pub limit-All : (P : A → Type 0) (n : ℕ) (xs : List A) → All P xs → All P (limit n xs)
  limit-All P zero xs h = tt
  limit-All P (suc n) [] h = tt
  limit-All P (suc n) (x ∷ xs) h = (h.0, limit-All P n xs h.1)

  pub All-map : (P Q : A → Type 0) (xs : List A) → ((x : A) → P x → Q x) → All P xs → All Q xs
  All-map P Q [] f h = tt
  All-map P Q (x ∷ xs) f h = (f x h.0, All-map P Q xs f h.1)

  pub All-if :
      (P : A → Type 0) (b : Bool) (xs ys : List A)
      → All P xs
      → All P ys
      → All P (if b then xs else ys)
  All-if P true xs ys h k = h
  All-if P false xs ys h k = k

  pub All-adjust :
      (P : A → Type 0) (p : A → Bool) (f : A → A) (xs : List A)
      → ((x : A) → P x → P (f x))
      → All P xs
      → All P (adjust p f xs)
  All-adjust P p f [] k h = tt
  All-adjust P p f (x ∷ xs) k h =
      All-if P (p x) (f x ∷ xs) (x ∷ adjust p f xs) (k x h.0, h.1) (h.0, All-adjust P p f xs k h.1)

  pub first-All :
      (P : A → Type 0) (p : A → Bool) (xs : List A) (x : A) → All P xs → first p xs ≡ some x → P x
  first-All P p [] x h e = absurd (ground arith)
  first-All P p (y ∷ xs) x h e = elim (Bool-cases (p y)) [
    | inl found ↦ let same : y ≡ x = ground arith in subst P same h.0
    | inr skipped ↦ first-All P p xs x h.1 (ground arith)
  ]

  pub sum_of_nonneg : (g : A → ℤ) (xs : List A) → All (λ x. pos 0 ≤ℤ g x) xs → pos 0 ≤ℤ sum_of g xs
  sum_of_nonneg g [] h = omega arith
  sum_of_nonneg g (x ∷ xs) h = omega (int_laws, h.0, sum_of_nonneg g xs h.1)
