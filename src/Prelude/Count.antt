-- ===== src/Prelude/Count.antt =====
-- Counting the rows of a query.
use can_framework.Prelude.{
  ℕ, ◌+◌, ◌≤◌, ◌≡◌, Bool, true, List, [], ◌∷◌, ◌++◌, arith, if◌then◌else◌, Bool-cases, inl, inr,
}
use can_framework.Prelude.Table.{adjust}

module _ {ℓ} {A : Type ℓ} where
  -- `query(...).filter(p).count()`
  abbrev pub count : (A → Bool) → List A → ℕ
  count p [] = 0
  count p (x ∷ xs) = (if p x then 1 else 0) + count p xs

  pub count-append :
      (p : A → Bool) (xs : List A) (y : A)
      → count p (xs ++ y ∷ []) ≡ count p xs + (if p y then 1 else 0)
  count-append p [] y = omega arith
  count-append p (x ∷ xs) y = omega (arith, count-append p xs y)

  count_le :
      (p : A → Bool) (x y : A)
      → (p y ≡ true → p x ≡ true)
      → (if p y then 1 else 0) ≤ (if p x then 1 else 0)
  count_le p x y h = elim (Bool-cases (p y)) [
    | inl counts ↦ rw (counts, h counts) (omega arith)
    | inr skipped ↦ rw skipped (omega arith)
  ]

  -- A write that brings no row into a query does not raise its count.
  pub count-adjust :
      (p q : A → Bool) (f : A → A) (xs : List A)
      → ((x : A) → p (f x) ≡ true → p x ≡ true)
      → count p (adjust q f xs) ≤ count p xs
  count-adjust p q f [] h = omega arith
  count-adjust p q f (x ∷ xs) h = elim (Bool-cases (q x)) [
    | inl written ↦ rw written (omega (arith, count_le p x (f x) (h x)))
    | inr kept ↦ rw kept (omega (arith, count-adjust p q f xs h))
  ]
