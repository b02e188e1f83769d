-- ===== src/Prelude/Table.antt =====
-- Database tables as lists of rows in insertion order, and the queries on them.
use can_framework.Prelude.{
  ℕ, zero, suc, ◌≡◌, refl, Bool, true, false, Option, none, some, List, [], ◌∷◌, ◌++◌, arith,
  if◌then◌else◌, ap, ◌∙◌, Bool-cases, Option-cases, inl, inr, ◌⊎◌,
}
use can_framework.Prelude.Int.{ℤ, pos, ◌+ℤ◌, int_laws, +ℤ_frame}

module _ {ℓ} {A : Type ℓ} where
  abbrev pub length : List A → ℕ
  length [] = 0
  length (x ∷ xs) = suc (length xs)

  -- `query(...).filter(p).first()`
  abbrev pub first : (A → Bool) → List A → Option A
  first p [] = none
  first p (x ∷ xs) = if p x then some x else first p xs

  -- `query(...).filter(p).all()`
  abbrev pub select : (A → Bool) → List A → List A
  select p [] = []
  select p (x ∷ xs) = let rest = select p xs in if p x then x ∷ rest else rest

  abbrev pub get_elem? : List A → ℕ → Option A
  get_elem? [] n = none
  get_elem? (x ∷ xs) zero = some x
  get_elem? (x ∷ xs) (suc n) = get_elem? xs n

  -- A write to the row that `first p` finds.
  abbrev pub adjust : (A → Bool) → (A → A) → List A → List A
  adjust p f [] = []
  adjust p f (x ∷ xs) = if p x then f x ∷ xs else x ∷ adjust p f xs

  -- `order_by(created_at.desc())`
  abbrev pub newest_first : List A → List A
  newest_first [] = []
  newest_first (x ∷ xs) = newest_first xs ++ x ∷ []

  abbrev pub limit : ℕ → List A → List A
  limit zero xs = []
  limit (suc n) [] = []
  limit (suc n) (x ∷ xs) = x ∷ limit n xs

  -- A deletion of the row that `first p` finds.
  abbrev pub delete : (A → Bool) → List A → List A
  delete p [] = []
  delete p (x ∷ xs) = if p x then xs else x ∷ delete p xs

  -- The sum of a column.
  abbrev pub sum_of : (A → ℤ) → List A → ℤ
  sum_of g [] = pos 0
  sum_of g (x ∷ xs) = g x +ℤ sum_of g xs

  pub first-append :
      (p : A → Bool) (xs : List A) (y : A)
      → first p (xs ++ y ∷ [])
        ≡ elim (first p xs) [ some x ↦ some x | none ↦ if p y then some y else none ]
  first-append p [] y = ground arith
  first-append p (x ∷ xs) y = ground (arith, first-append p xs y)

  -- A query over a table with one more row finds an old row, or the new one.
  pub first-append_cases :
      (p : A → Bool) (xs : List A) (y z : A)
      → first p (xs ++ y ∷ []) ≡ some z
      → (first p xs ≡ some z) ⊎ ((p y ≡ true) × (y ≡ z))
  first-append_cases p xs y z e =
      let whole = first-append p xs y in
      elim (Option-cases (first p xs)) [
        | inl absent ↦ inr (ground arith, ground arith)
        | inr (x, there) ↦ inl (ground arith)
      ]

  pub first-append_found :
      (p : A → Bool) (xs : List A) (y x : A) → first p xs ≡ some x → first p (xs ++ y ∷ []) ≡ some x
  first-append_found p xs y x e = rw (first-append p xs y) (rw e)

  pub sum_of-append :
      (g : A → ℤ) (xs : List A) (y : A) → sum_of g (xs ++ y ∷ []) ≡ sum_of g xs +ℤ g y
  sum_of-append g [] y = omega int_laws
  sum_of-append g (x ∷ xs) y = rw (sum_of-append g xs y) (omega int_laws)

  -- Adjusting a row moves the sum of a column by the change in that row.
  pub sum_of-adjust :
      (g : A → ℤ) (p : A → Bool) (f : A → A) (xs : List A) (x : A)
      → first p xs ≡ some x
      → sum_of g (adjust p f xs) +ℤ g x ≡ sum_of g xs +ℤ g (f x)
  sum_of-adjust g p f [] x e = ground arith
  sum_of-adjust g p f (y ∷ xs) x e = elim (Bool-cases (p y)) [
    | inl found ↦ rw found (let same : y ≡ x = ground arith in rw same (omega int_laws))
    | inr skipped ↦ rw skipped (
        +ℤ_frame (g y) (sum_of g (adjust p f xs)) (g x) (sum_of g xs) (g (f x))
          (sum_of-adjust g p f xs x (ground arith)))
  ]

  -- A row that the write keeps in place for a query `q` with no row in common with `p`.
  pub first-adjust_ne :
      (q p : A → Bool) (f : A → A) (xs : List A)
      → ((x : A) → p x ≡ true → q x ≡ false)
      → ((x : A) → p x ≡ true → q (f x) ≡ false)
      → first q (adjust p f xs) ≡ first q xs
  first-adjust_ne q p f [] h k = refl
  first-adjust_ne q p f (x ∷ xs) h k = ground (arith, h x, k x, first-adjust_ne q p f xs h k)

  -- The query of the write itself finds the written row, where the write keeps the row in the query.
  pub first-adjust_self :
      (p : A → Bool) (f : A → A) (xs : List A) (x : A)
      → ((y : A) → p y ≡ true → p (f y) ≡ true)
      → first p xs ≡ some x
      → first p (adjust p f xs) ≡ some (f x)
  first-adjust_self p f [] x k e = ground arith
  first-adjust_self p f (y ∷ xs) x k e = ground (arith, k y, first-adjust_self p f xs x k)

  -- What a query by an untouched column finds after a write: a row as it was, or as it was written.
  pub first-adjust_cases :
      (q p : A → Bool) (f : A → A) (xs : List A) (y : A)
      → ((x : A) → q (f x) ≡ q x)
      → first q (adjust p f xs) ≡ some y
      → (x : A) × (first q xs ≡ some x) × ((y ≡ x) ⊎ (y ≡ f x))
  first-adjust_cases q p f [] y k e = absurd (ground arith)
  first-adjust_cases q p f (x ∷ xs) y k e = elim (Bool-cases (q x)) [
    | inl found ↦ (x, rw found, ground (arith, k x))
    | inr skipped ↦ elim (Bool-cases (p x)) [
      | inl written ↦ (y, ground (arith, k x), inl refl)
      | inr kept ↦
          let (z, there, same) = first-adjust_cases q p f xs y k (ground arith) in
          (z, rw skipped there, same)
    ]
  ]

  -- A query keeps what it found, if the write is to other rows than the one found.
  pub first-adjust_other :
      (q p : A → Bool) (f : A → A) (xs : List A) (y : A)
      → ((x : A) → q (f x) ≡ q x)
      → first q xs ≡ some y
      → p y ≡ false
      → first q (adjust p f xs) ≡ some y
  first-adjust_other q p f [] y k e o = e
  first-adjust_other q p f (x ∷ xs) y k e o = elim (Bool-cases (q x)) [
    | inl found ↦ let same : x ≡ y = ground arith in rw (ap p same ∙ o) (rw found (ap some same))
    | inr skipped ↦
        let rest = first-adjust_other q p f xs y k (ground arith) o in ground (arith, k x)
  ]

  pub first_sound : (p : A → Bool) (xs : List A) (x : A) → first p xs ≡ some x → p x ≡ true
  first_sound p [] x e = ground arith
  first_sound p (y ∷ xs) x e = ground (arith, first_sound p xs x)
