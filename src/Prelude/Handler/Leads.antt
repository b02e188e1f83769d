-- ===== src/Prelude/Handler/Leads.antt =====
-- What a handler that returns leads to: a predicate on the session before it, and one on its answer and
-- the session after it.
use can_framework.Prelude.{◌≡◌, refl, Bool, true, false, Option, none, some, arith}
use mathlib.Core.Path.{subst}
use can_framework.Prelude.Outcome.{Result, ok, err, Session}
use can_framework.Prelude.Handler.{Handler, raise_if, lift, or_raise, pure, ◌>>=◌, ◌>>◌}

pub record Leads {D E A : Type 0} (I : Session D → Type 0) (m : Handler D E A)
    (J : A → Session D → Type 0) : Type 0 where
  pub at_end : (s : Session D) → I s → (a : A) → (m.run s).0 ≡ ok a → J a (m.run s).1

leads_then :
    {D E A B : Type 0} {J : A → Session D → Type 0} {K : B → Session D → Type 0}
    (f : A → Handler D E B)
    → ((a : A) → Leads (J a) (f a) K)
    → (r : Result E A) (s : Session D) → ((a : A) → r ≡ ok a → J a s)
    → (b : B)
    → (elim r as (λ _. Result E B × Session D) [ ok a ↦ (f a).run s | err e ↦ (err e, s) ]).0 ≡ ok b
    → K b (elim r as (λ _. Result E B × Session D) [ ok a ↦ (f a).run s | err e ↦ (err e, s) ]).1
leads_then f l (ok a) s h b e = (l a).at_end s (h a refl) b e
leads_then f l (err x) s h b e = absurd (ground arith)

ok-same : {E A : Type 0} (a b : A) → ◌≡◌ {A = Result E A} (ok a) (ok b) → a ≡ b
ok-same a b e = ground arith

module _ {D E : Type 0} {I : Session D → Type 0} where
  pub Leads-bind :
      {A B : Type 0} {J : A → Session D → Type 0} {K : B → Session D → Type 0} {m : Handler D E A}
      {f : A → Handler D E B}
      → Leads I m J
      → ((a : A) → Leads (J a) (f a) K)
      → Leads I (m >>= f) K
  unfolding ◌>>=◌
  Leads-bind {m = m} {f} k l = record {
    at_end = λ s h. leads_then f l (m.run s).0 (m.run s).1 (k.at_end s h);
  }

  pub Leads-then :
      {A B : Type 0} {J : A → Session D → Type 0} {K : B → Session D → Type 0} {m : Handler D E A}
      {n : Handler D E B}
      → Leads I m J
      → ((a : A) → Leads (J a) n K)
      → Leads I (m >> n) K
  unfolding ◌>>◌
  Leads-then {m = m} {n} k l = record {
    at_end = λ s h. leads_then (λ _. n) l (m.run s).0 (m.run s).1 (k.at_end s h);
  }

  pub Leads-raise_if : (b : Bool) (e : E) → Leads I (raise_if b e) (λ _. I)
  unfolding raise_if
  Leads-raise_if true e = record { at_end = λ s h a x. h }
  Leads-raise_if false e = record { at_end = λ s h a x. h }

  pub Leads-lift : {A : Type 0} (r : Result E A) → Leads I (lift r) (λ _. I)
  unfolding lift
  Leads-lift r = record { at_end = λ s h a x. h }

  pub Leads-or_raise :
      {A : Type 0} (o : Option A) (e : E) → Leads I (or_raise o e) (λ a s. (o ≡ some a) × I s)
  unfolding or_raise
  Leads-or_raise none e = record { at_end = λ s h a x. absurd (ground arith) }
  Leads-or_raise (some b) e = record { at_end = λ s h a x. (ground arith, h) }

  pub Leads-pure :
      {A : Type 0} {J : A → Session D → Type 0} (a : A)
      → ((s : Session D) → I s → J a s)
      → Leads {E = E} I (pure a) J
  unfolding pure
  Leads-pure {J = J} a k = record { at_end = λ s h b e. subst (λ c. J c s) (ok-same a b e) (k s h) }

  -- A fact that does not depend on the session is at hand throughout.
  pub Leads-fact :
      {P A : Type 0} {J : A → Session D → Type 0} {m : Handler D E A}
      → (P → Leads I m J)
      → Leads (λ s. P × I s) m J
  Leads-fact k = record { at_end = λ s h. (k h.0).at_end s h.1 }
