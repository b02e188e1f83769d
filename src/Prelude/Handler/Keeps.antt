-- ===== src/Prelude/Handler/Keeps.antt =====
-- Invariants of handlers: what holds of the committed and of the working tables before a handler holds
-- of both after it, whether it returns or raises.
use can_framework.Prelude.{◌≡◌, refl, Bool, true, false, Option, none, some, if◌then◌else◌}
use mathlib.Core.Path.{subst}
use can_framework.Prelude.Outcome.{Result, ok, err, Session}
use can_framework.Prelude.Handler.{
  Handler, pure, raise, gets, lift, or_raise, modify, commit, raise_if, save, transmit, request,
  ◌>>=◌, ◌>>◌,
}

abbrev pub Holds : {D : Type 0} → (D → Type 0) → Session D → Type 0
Holds I s = I s.committed × I s.working

pub record Keeps {D E A : Type 0} (I : D → Type 0) (m : Handler D E A) : Type 0 where
  pub after : (s : Session D) → Holds I s → Holds I (m.run s).1

module _ {D E : Type 0} {I : D → Type 0} where
  keeps_then :
      {A B : Type 0} (f : A → Handler D E B)
      → ((a : A) → Keeps I (f a))
      → (r : Result E A) (s : Session D) → Holds I s
      → Holds I
          (elim r as (λ _. Result E B × Session D) [ ok a ↦ (f a).run s | err e ↦ (err e, s) ]).1
  keeps_then f k (ok a) s h = (k a).after s h
  keeps_then f k (err e) s h = h

  pub Keeps-bind :
      {A B : Type 0} {m : Handler D E A} {f : A → Handler D E B}
      → Keeps I m
      → ((a : A) → Keeps I (f a))
      → Keeps I (m >>= f)
  unfolding ◌>>=◌
  Keeps-bind {m = m} {f} k l = record {
    after = λ s h. keeps_then f l (m.run s).0 (m.run s).1 (k.after s h);
  }

  pub Keeps-then :
      {A B : Type 0} {m : Handler D E A} {n : Handler D E B}
      → Keeps I m
      → Keeps I n
      → Keeps I (m >> n)
  unfolding ◌>>◌
  Keeps-then {m = m} {n} k l = record {
    after = λ s h. keeps_then (λ _. n) (λ _. l) (m.run s).0 (m.run s).1 (k.after s h);
  }

  pub Keeps-pure : {A : Type 0} (a : A) → Keeps {E = E} I (pure a)
  unfolding pure
  Keeps-pure a = record { after = λ s h. h }

  pub Keeps-lift : {A : Type 0} (r : Result E A) → Keeps I (lift r)
  unfolding lift
  Keeps-lift r = record { after = λ s h. h }

  pub Keeps-or_raise : {A : Type 0} (o : Option A) (e : E) → Keeps I (or_raise o e)
  unfolding or_raise
  Keeps-or_raise none e = record { after = λ s h. h }
  Keeps-or_raise (some a) e = record { after = λ s h. h }

  pub Keeps-raise : {A : Type 0} (e : E) → Keeps {A = A} I (raise e)
  unfolding raise
  Keeps-raise e = record { after = λ s h. h }

  pub Keeps-commit : Keeps {E = E} I commit
  unfolding commit
  Keeps-commit = record { after = λ s h. (h.1, h.1) }

  pub Keeps-modify : (f : D → D) → ((d : D) → I d → I (f d)) → Keeps {E = E} I (modify f)
  unfolding modify
  Keeps-modify f k = record { after = λ s h. (h.0, k s.working h.1) }

  pub Keeps-transmit : (f : D → D) → ((d : D) → I d → I (f d)) → Keeps {E = E} I (transmit f)
  unfolding transmit
  Keeps-transmit f k = record { after = λ s h. (k s.committed h.0, k s.working h.1) }

  pub Keeps-save :
      {A : Type 0} (f : D → A × D) → ((d : D) → I d → I (f d).1) → Keeps {E = E} I (save f)
  unfolding save
  Keeps-save f k = record { after = λ s h. (k s.working h.1, k s.working h.1) }

  -- What a commit returns comes from tables that had the invariant.
  pub Keeps-saved :
      {A B : Type 0} (f : D → A × D) (m : A → Handler D E B)
      → ((d : D) → I d → I (f d).1)
      → ((d : D) → I d → Keeps I (m (f d).0))
      → Keeps I (save f >>= m)
  unfolding save ◌>>=◌
  Keeps-saved f m k l = record {
    after = λ s h. (l s.working h.1).after _ (k s.working h.1, k s.working h.1);
  }

  -- What is read comes from tables that have the invariant.
  pub Keeps-gets :
      {A B : Type 0} (f : D → A) (m : A → Handler D E B)
      → ((d : D) → I d → Keeps I (m (f d)))
      → Keeps I (gets f >>= m)
  unfolding gets ◌>>=◌
  Keeps-gets f m k = record { after = λ s h. (k s.working h.1).after s h }

  pub Keeps-if :
      {A : Type 0} (b : Bool) {m n : Handler D E A}
      → (b ≡ true → Keeps I m)
      → (b ≡ false → Keeps I n)
      → Keeps I (if b then m else n)
  Keeps-if true k l = k refl
  Keeps-if false k l = l refl

  -- Past a test for a value, the value is there.
  pub Keeps-found :
      {A B : Type 0} (o : Option A) (e : E) (m : A → Handler D E B)
      → ((a : A) → o ≡ some a → Keeps I (m a))
      → Keeps I (or_raise o e >>= m)
  unfolding or_raise ◌>>=◌
  Keeps-found none e m k = record { after = λ s h. h }
  Keeps-found (some a) e m k = record { after = λ s h. (k a refl).after s h }

  -- Past a guard, what it tests is false.
  pub Keeps-guard :
      {A : Type 0} (b : Bool) (e : E) (m : Handler D E A)
      → (b ≡ false → Keeps I m)
      → Keeps I (raise_if b e >> m)
  unfolding raise_if ◌>>◌
  Keeps-guard true e m k = record { after = λ s h. h }
  Keeps-guard false e m k = record { after = λ s h. (k refl).after s h }

  pub Keeps-request :
      {A : Type 0} {m : Handler D E A} → Keeps I m → (d : D) → I d → I (request m d).1
  unfolding request
  Keeps-request k d h = (k.after (record { committed = d; working = d }) (h, h)).0

same_answer :
    {D E A : Type 0} (Q : A → D → Type 0) (a b : A) (d : D)
    → ◌≡◌ {A = Result E A} (ok a) (ok b)
    → Q a d
    → Q b d
same_answer Q a b d e q = let same : a ≡ b = cc in subst (λ x. Q x d) same q

-- What a handler that returns has answered and committed, from tables with an invariant.
pub record Yields {D E A : Type 0} (I : D → Type 0) (m : Handler D E A) (Q : A → D → Type 0)
    : Type 0 where
  pub at_end :
      (s : Session D) → Holds I s → (a : A) → (m.run s).0 ≡ ok a → Q a (m.run s).1.committed

module _ {D E : Type 0} {I : D → Type 0} where
  yields_then :
      {A B : Type 0} {Q : B → D → Type 0} (f : A → Handler D E B)
      → ((a : A) → Yields I (f a) Q)
      → (r : Result E A) (s : Session D) → Holds I s
      → (b : B)
      → (elim r as (λ _. Result E B × Session D) [ ok a ↦ (f a).run s | err e ↦ (err e, s) ]).0
        ≡ ok b
      → Q b
          (elim r as (λ _. Result E B × Session D) [
            | ok a ↦ (f a).run s
            | err e ↦ (err e, s)
          ]).1.committed
  yields_then f k (ok a) s h b e = (k a).at_end s h b e
  yields_then f k (err x) s h b e = absurd (cc)

  pub Yields-bind :
      {A B : Type 0} {Q : B → D → Type 0} {m : Handler D E A} {f : A → Handler D E B}
      → Keeps I m
      → ((a : A) → Yields I (f a) Q)
      → Yields I (m >>= f) Q
  unfolding ◌>>=◌
  Yields-bind {m = m} {f} k l = record {
    at_end = λ s h. yields_then f l (m.run s).0 (m.run s).1 (k.after s h);
  }

  pub Yields-then :
      {A B : Type 0} {Q : B → D → Type 0} {m : Handler D E A} {n : Handler D E B}
      → Keeps I m
      → Yields I n Q
      → Yields I (m >> n) Q
  unfolding ◌>>◌
  Yields-then {m = m} {n} k l = record {
    at_end = λ s h. yields_then (λ _. n) (λ _. l) (m.run s).0 (m.run s).1 (k.after s h);
  }

  pub Keeps-raise_if : (b : Bool) (e : E) → Keeps I (raise_if b e)
  unfolding raise_if
  Keeps-raise_if true e = record { after = λ s h. h }
  Keeps-raise_if false e = record { after = λ s h. h }

  -- A write that is committed at the end.
  pub Yields-write :
      {A : Type 0} {Q : A → D → Type 0} (f : D → D) (a : A)
      → ((d : D) → I d → Q a (f d))
      → Yields {E = E} I (modify f >> (commit >> pure a)) Q
  unfolding modify commit pure ◌>>◌
  Yields-write {Q = Q} f a k = record {
    at_end = λ s h b e. same_answer Q a b (f s.working) e (k s.working h.1);
  }

  pub Yields-request :
      {A : Type 0} {Q : A → D → Type 0} {m : Handler D E A}
      → Yields I m Q
      → (d : D) → I d
      → (a : A) → (request m d).0 ≡ ok a
      → Q a (request m d).1
  unfolding request
  Yields-request y d h a e = y.at_end (record { committed = d; working = d }) (h, h) a e

-- A query reads the tables that the request starts with.
pub request-gets :
    {D E A B : Type 0} (f : D → A) (m : A → Handler D E B) (d : D)
    → request (gets f >>= m) d ≡ request (m (f d)) d
unfolding request gets ◌>>=◌
request-gets f m d = refl
