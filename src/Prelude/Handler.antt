-- ===== src/Prelude/Handler.antt =====
-- Handlers on a session whose steps are opaque, so that a proof goes by their structure and not by
-- their runs: the operations of Prelude/Outcome, and `transmit` for what leaves the node at once.
pub mod Keeps
pub mod Leads
use can_framework.Prelude.{Bool, Option}
use can_framework.Prelude.Outcome.{Result, ok, err, Session, Action}
use can_framework.Prelude.Outcome

pub record Handler (D E A : Type 0) : Type 0 where
  pub run : Action D E A

module _ {D E A : Type 0} where
  unfoldable pub pure : A → Handler D E A
  pure a = record { run = Outcome.pure a }

  unfoldable pub raise : E → Handler D E A
  raise e = record { run = Outcome.raise e }

  unfoldable pub gets : (D → A) → Handler D E A
  gets f = record { run = Outcome.gets f }

  unfoldable pub or_raise : Option A → E → Handler D E A
  or_raise o e = record { run = Outcome.or_raise o e }

  unfoldable pub lift : Result E A → Handler D E A
  lift r = record { run = Outcome.lift r }

  unfoldable pub save : (D → A × D) → Handler D E A
  save f = record { run = Outcome.save f }

  unfoldable pub request : Handler D E A → D → Result E A × D
  request m d = Outcome.request m.run d

module _ {D E : Type 0} where
  unfoldable pub modify : (D → D) → Handler D E (Unit {0})
  modify f = record { run = Outcome.modify f }

  unfoldable pub commit : Handler D E (Unit {0})
  commit = record { run = Outcome.commit }

  unfoldable pub raise_if : Bool → E → Handler D E (Unit {0})
  raise_if b e = record { run = Outcome.raise_if b e }

  -- A message that leaves is not taken back by a rollback.
  unfoldable pub transmit : (D → D) → Handler D E (Unit {0})
  transmit f = record {
    run = λ s. (ok tt, record { committed = f s.committed; working = f s.working });
  }

infixl 5 ◌>>=◌ ◌>>◌
unfoldable pub ◌>>=◌ : {D E A B : Type 0} → Handler D E A → (A → Handler D E B) → Handler D E B
m >>= f = record { run = Outcome.◌>>=◌ m.run (λ a. (f a).run) }

unfoldable pub ◌>>◌ : {D E A B : Type 0} → Handler D E A → Handler D E B → Handler D E B
m >> k = record { run = Outcome.◌>>=◌ m.run (λ _. k.run) }
