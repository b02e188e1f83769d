-- ===== src/Prelude/Outcome.antt =====
-- Requests on a database session (backend/app/db/session.py). What a request writes stays in the
-- session until a commit; when a request raises, or ends, what was not committed is rolled back.
use can_framework.Prelude.{◌≡◌, refl, ap, ◌⊎◌, inl, inr, Bool, true, false, Option, none, some}

pub data Result {ℓ} (E A : Type ℓ) : Type ℓ where
  ok : A → Result E A
  err : E → Result E A

pub record Session (D : Type 0) : Type 0 where
  pub committed : D
  pub working : D

abbrev pub Action : Type 0 → Type 0 → Type 0 → Type 0
Action D E A = Session D → Result E A × Session D

module _ {D E A : Type 0} where
  abbrev pub pure : A → Action D E A
  pure a s = (ok a, s)

  abbrev pub raise : E → Action D E A
  raise e s = (err e, s)

  abbrev pub gets : (D → A) → Action D E A
  gets f s = (ok (f s.working), s)

  abbrev pub or_raise : Option A → E → Action D E A
  or_raise none e s = (err e, s)
  or_raise (some a) e s = (ok a, s)

  abbrev pub lift : Result E A → Action D E A
  lift r s = (r, s)

  -- `get_db`: the session is closed at the end, which drops what was not committed.
  abbrev pub request_from : Action D E A → Session D → Result E A × D
  request_from m s = let (r, s') = m s in (r, s'.committed)

  abbrev pub request : Action D E A → D → Result E A × D
  request m d = request_from m (record { committed = d; working = d })

module _ {D E : Type 0} where
  abbrev pub modify : (D → D) → Action D E (Unit {0})
  modify f s = (ok tt, record s { working = f s.working })

  -- `db.commit()`
  abbrev pub commit : Action D E (Unit {0})
  commit s = (ok tt, record s { committed = s.working })

  abbrev pub raise_if : Bool → E → Action D E (Unit {0})
  raise_if true e s = (err e, s)
  raise_if false e s = (ok tt, s)

infixl 5 ◌>>=◌ ◌>>◌
abbrev pub ◌>>=◌ : {D E A B : Type 0} → Action D E A → (A → Action D E B) → Action D E B
◌>>=◌ m f s = let (r, s') = m s in elim r [ ok a ↦ f a s' | err e ↦ (err e, s') ]

abbrev pub ◌>>◌ : {D E A B : Type 0} → Action D E A → Action D E B → Action D E B
m >> k = m >>= λ _. k

-- A write that is committed at once, and its result.
module _ {D E A : Type 0} where
  abbrev pub save : (D → A × D) → Action D E A
  save f s = let (a, d) = f s.working in (ok a, record { committed = d; working = d })

pub Result-cases :
    {E A : Type 0} (r : Result E A) → ((a : A) × (r ≡ ok a)) ⊎ ((e : E) × (r ≡ err e))
Result-cases (ok a) = inl (a, refl)
Result-cases (err e) = inr (e, refl)

-- A step of a block that returns hands its value and its session on.
pub bind-ok :
    {D E A B : Type 0} (m : Action D E A) (f : A → Action D E B) {s s' : Session D} {a : A}
    → m s ≡ (ok a, s')
    → (m >>= f) s ≡ f a s'
bind-ok {D} {E} {A} {B} m f e =
    ap {B = Result E B × Session D}
      (λ (p : Result E A × Session D). elim p.0 [ ok x ↦ f x p.1 | err x ↦ (err x, p.1) ]) e
