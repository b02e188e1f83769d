-- ===== src/Bridge/Wallet/Credits.antt =====
-- What `credit` of backend/app/bridge/service.py does to the balances of all positions.
use can_framework.Prelude.{
  ℕ, ◌≡◌, refl, Bool, true, Option, none, some, arith, String, if◌then◌else◌, List, Bool-cases,
  Option-cases, sym, ap, ◌∙◌, str_eq_iff, ◌↔◌, ◌⊎◌, inl, inr,
}
use can_framework.Prelude.Int.{
  pos, ◌+ℤ◌, ◌≤ℤ◌, int_laws, +ℤ_assoc, +ℤ_comm, cancel_right, not_negative, ◌<ℤ◌,
}
use can_framework.Prelude.Table.{first, first_sound, sum_of, sum_of-append, sum_of-adjust}
use can_framework.Prelude.Outcome.{ok, err, request}
use can_framework.Money.{Amount}
use can_framework.Bridge.Records.{
  Layer, holding_layer, Wallet, Holding, Db, Error, unknown_kind, negative_amount,
}
use can_framework.Bridge.Wallet.{
  Credit, Position, same_position, position_of, position_for, at_position, existing, add_amount,
  new_holding, place, credit, text_eq?, id_eq?,
}

text_eq?_iff : (a b : Option String) → (text_eq? a b ≡ true) ↔ (a ≡ b)
text_eq?_iff none none = ground arith
text_eq?_iff none (some b) = ground arith
text_eq?_iff (some a) none = ground arith
text_eq?_iff (some a) (some b) = ground (arith, str_eq_iff a b)

id_eq?_iff : (a b : Option ℕ) → (id_eq? a b ≡ true) ↔ (a ≡ b)
id_eq?_iff none none = ground arith
id_eq?_iff none (some b) = ground arith
id_eq?_iff (some a) none = ground arith
id_eq?_iff (some a) (some b) = ground arith

same_position_sound : (p q : Position) → same_position p q ≡ true → p ≡ q
unfolding same_position
same_position_sound p q h = ground (
  arith,
  str_eq_iff p.kind q.kind,
  id_eq?_iff p.project_id q.project_id,
  text_eq?_iff p.currency q.currency,
)

-- The value in all the holdings whose position passes a test: one balance, one wallet, one currency.
abbrev pub worth : (Position → Bool) → Holding → Amount
worth t h = if t (position_of h) then h.amount else pos 0

unfoldable pub total : (Position → Bool) → List Holding → Amount
total t rows = sum_of (worth t) rows

abbrev pub share : (Position → Bool) → Position → Amount → Amount
share t p amount = if t p then amount else pos 0

worth-add_amount :
    (t : Position → Bool) (p : Position) (amount : Amount) (h : Holding)
    → at_position p h ≡ true
    → worth t (add_amount amount h) ≡ worth t h +ℤ share t p amount
worth-add_amount t p amount h e =
    rw (same_position_sound p (position_of h) e) (elim (Bool-cases (t (position_of h))) [
      | inl inside ↦ rw inside
      | inr outside ↦ rw outside (omega int_laws)
    ])

existing_at :
    (w : Wallet) (c : Credit) (db : Db) (h : Holding)
    → existing w c db ≡ some h
    → first (at_position (position_for w c)) db.holdings ≡ some h
existing_at w c db h e = ground arith

total-place_at :
    (t : Position → Bool) (w : Wallet) (c : Credit) (layer : Layer) (db : Db) (o : Option Holding)
    → existing w c db ≡ o
    → total t (place w c layer o db).1.holdings
      ≡ total t db.holdings +ℤ share t (position_for w c) c.amount
unfolding place total
total-place_at t w c layer db none e =
    sum_of-append (worth t) db.holdings (new_holding w c layer db.fresh)
total-place_at t w c layer db (some h) e =
    let found = existing_at w c db h e in
    let p = position_for w c in
    cancel_right _ _ (worth t h) (
      sum_of-adjust (worth t) (at_position p) (add_amount c.amount) db.holdings h found
      ∙ ap (λ z. sum_of (worth t) db.holdings +ℤ z)
          (worth-add_amount t p c.amount h (first_sound (at_position p) db.holdings h found)
            ∙ +ℤ_comm (worth t h) (share t p c.amount))
      ∙ sym (+ℤ_assoc (sum_of (worth t) db.holdings) (share t p c.amount) (worth t h)))

-- Placing a credit raises a total by the amount, if the position counts in it, and else keeps it.
pub total-place :
    (t : Position → Bool) (w : Wallet) (c : Credit) (layer : Layer) (db : Db)
    → total t (place w c layer (existing w c db) db).1.holdings
      ≡ total t db.holdings +ℤ share t (position_for w c) c.amount
total-place t w c layer db = total-place_at t w c layer db (existing w c db) refl

-- A credit of a known kind with an amount that is not negative is committed: it goes through, and
-- every total rises by the amount if the credited position counts in it, and stays as it was if not.
pub total-credit :
    (t : Position → Bool) (w : Wallet) (c : Credit) (db : Db) {layer : Layer}
    → holding_layer c.kind ≡ some layer
    → pos 0 ≤ℤ c.amount
    → let (r, db') = request (credit w c) db in
      (r ≡ ok (place w c layer (existing w c db) db).0)
      × (total t db'.holdings ≡ total t db.holdings +ℤ share t (position_for w c) c.amount)
unfolding credit
total-credit t w c db {layer} known nonneg =
    rw known (rw (not_negative c.amount nonneg) (refl, total-place t w c layer db))

-- A credit of an unknown kind, or of a negative amount, is refused and changes nothing.
pub credit_refused :
    (w : Wallet) (c : Credit) (db : Db)
    → (holding_layer c.kind ≡ none) ⊎ (c.amount <ℤ pos 0)
    → (e : Error) × (request (credit w c) db ≡ (err e, db))
unfolding credit
credit_refused w c db (inl unknown) = (unknown_kind, rw unknown)
credit_refused w c db (inr negative) = elim (Option-cases (holding_layer c.kind)) [
  | inl unknown ↦ (unknown_kind, rw unknown)
  | inr (layer, known) ↦ (negative_amount, rw known (ground arith))
]
