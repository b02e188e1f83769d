-- ===== src/Bridge/Pledges/Cover.antt =====
-- The invariant of holdings and pledges: active pledges are covered by their holding, up to the
-- tolerance of the test and the rounding of a settlement, and only direct value is pledged.
use can_framework.Prelude.{
  ℕ, ◌≤◌, ◌<◌, ◌≡◌, refl, sym, ap, ◌∙◌, ◌⊎◌, inl, inr, true, false, Option, none, some, [], ◌∷◌,
  ◌++◌, ◌+◌, String, arith, ◌==◌, if◌then◌else◌, Bool-cases, ==_iff,
}
use mathlib.Core.Path.{subst₂}
use can_framework.Prelude.Int.{
  pos, pos_part, neg_part, ◌+ℤ◌, ◌-ℤ◌, ◌≤ℤ◌, ◌<ℤ◌, ltb_ℤ, leb_ℤ, int_laws, le_trans_ℤ,
  zero_of_bounds,
}
use can_framework.Prelude.Table.{first, adjust, sum_of-append, sum_of-adjust}
use can_framework.Prelude.All.{All, All-append, All-adjust, All-map, first-All, sum_of_nonneg}
use can_framework.Prelude.Outcome.{ok, err, request}
use can_framework.Money.{Amount, tolerance}
use can_framework.Bridge.Records.{
  Error, not_direct, pledge_not_positive, over_pledged, Holding, Pledge, PledgeStatus, Db,
}
use can_framework.Bridge.Wallet.{pledged_amount, active_amount}
use can_framework.Bridge.Pledges.{
  is_direct, is_active, holding_with, pledge_with, mark_released, new_pledge, create_pledge,
  release_pledge, free_of_pledges,
}

abbrev pub pledged : Db → ℕ → Amount
pledged db k = pledged_amount k db.pledges

abbrev pub holding_at : Db → ℕ → Option Holding
holding_at db k = first (holding_with k) db.holdings

-- half a millionth, from the rounding of a settlement, and the tolerance
abbrev pub slack : Amount
slack = pos 501

pub record IsCovered (db : Db) : Type 0 where
  pub positive : All (λ p. pos 0 ≤ℤ p.amount) db.pledges
  pub amounts : (k : ℕ) (h : Holding) → holding_at db k ≡ some h → pos 0 ≤ℤ h.amount
  pub covered : (k : ℕ) (h : Holding) → holding_at db k ≡ some h → pledged db k ≤ℤ h.amount +ℤ slack
  pub money_free :
      (k : ℕ) (h : Holding)
      → holding_at db k ≡ some h
      → is_direct h.layer ≡ false
      → pledged db k ≡ pos 0
  pub unused : (k : ℕ) → db.fresh ≤ k → pledged db k ≡ pos 0

active_amount_nonneg : (k : ℕ) (p : Pledge) → pos 0 ≤ℤ p.amount → pos 0 ≤ℤ active_amount k p
active_amount_nonneg k p h = ground arith

pub pledged_nonneg : (db : Db) (k : ℕ) → IsCovered db → pos 0 ≤ℤ pledged db k
unfolding pledged_amount
pledged_nonneg db k v =
    sum_of_nonneg (active_amount k) db.pledges
      (All-map _ _ db.pledges (active_amount_nonneg k) v.positive)

-- A new pledge adds its amount to the pledges of its holding and to no others.
pledged-new :
    (holding_id : ℕ) (amount : Amount) (lender : Option ℕ) (note : Option String) (db : Db) (k : ℕ)
    → pledged (new_pledge holding_id amount lender note db).1 k
      ≡ pledged db k +ℤ (if holding_id == k then amount else pos 0)
unfolding pledged_amount
pledged-new holding_id amount lender note db k =
    sum_of-append (active_amount k) db.pledges (new_pledge holding_id amount lender note db).0

module _ (h : Holding) (amount : Amount) (lender : Option ℕ) (note : Option String) (db : Db) where
  abbrev pub Pledgeable : Type 0
  Pledgeable =
      (is_direct h.layer ≡ true) × (pos 0 <ℤ amount) × (amount ≤ℤ free_of_pledges h db +ℤ tolerance)

  -- A pledge is made exactly when the holding is direct value, the amount is above zero and at most
  -- what is free, up to the tolerance. It is then an active pledge of that amount on that holding, for
  -- that lender and with that note, in one new row after the others, and no other table changes. Else
  -- nothing changes.
  pub create_pledge_exact :
      let p : Pledge = record {
        id = db.fresh;
        holding_id = h.id;
        lender_user_id = lender;
        amount = amount;
        note = note;
        status = PledgeStatus.active;
        released_at = none;
      } in
      (Pledgeable
        × (request (create_pledge h amount lender note) db
            ≡ (ok p, record db { pledges = db.pledges ++ p ∷ []; fresh = db.fresh + 1 })))
      ⊎ ((e : Error) × ¬ Pledgeable
          × (request (create_pledge h amount lender note) db ≡ (err e, db)))
  unfolding create_pledge
  create_pledge_exact = elim (Bool-cases (is_direct h.layer)) [
    | inr money ↦ inr (not_direct, (λ q. cc (money, q.0)), rw money)
    | inl direct ↦ elim (Bool-cases (leb_ℤ amount (pos 0))) [
      | inl low ↦ inr (pledge_not_positive, (λ q. absurd (ground arith)), rw (direct, low))
      | inr high ↦ elim (Bool-cases (ltb_ℤ (free_of_pledges h db +ℤ tolerance) amount)) [
        | inl over ↦ inr (over_pledged, (λ q. absurd (ground arith)), rw (direct, high, over))
        | inr fits ↦ inl ((direct, ground arith, ground arith), rw (direct, high, fits))
      ]
    ]
  ]

covered_after :
    (x free amount rest : Amount)
    → free ≡ x -ℤ rest
    → amount ≤ℤ free +ℤ tolerance
    → rest +ℤ amount ≤ℤ x +ℤ slack
covered_after x free amount rest e le = omega (int_laws, ap pos_part e, ap neg_part e)

module _ (h : Holding) (amount : Amount) (lender : Option ℕ) (note : Option String) (db : Db)
    (here : holding_at db h.id ≡ some h) (old : h.id < db.fresh) (v : IsCovered db) where
  found_again : (k : ℕ) (h' : Holding) → (h.id == k) ≡ true → holding_at db k ≡ some h' → h ≡ h'
  found_again k h' same e =
      let found : some h ≡ some h' = sym here ∙ ap (holding_at db) ((==_iff h.id k).0 same) ∙ e in
      cc

  new_pledge-IsCovered :
      Pledgeable h amount lender note db → IsCovered (new_pledge h.id amount lender note db).1
  new_pledge-IsCovered q = record {
    positive = All-append _ db.pledges _ v.positive (omega arith);
    amounts = v.amounts;
    covered = λ k h' e. rw pledged-new (elim (Bool-cases (h.id == k)) [
      | inl same ↦ rw same (
          subst₂ (λ j r. pledged db j +ℤ amount ≤ℤ r.amount +ℤ slack) ((==_iff h.id k).0 same)
            (found_again k h' same e)
            (covered_after h.amount (free_of_pledges h db) amount (pledged db h.id) refl q.2))
      | inr other ↦ rw other (let old_cover = v.covered k h' e in omega int_laws)
    ]);
    money_free = λ k h' e m. rw pledged-new (elim (Bool-cases (h.id == k)) [
      | inl same ↦ cc (q.0, m, ap (λ r. is_direct r.layer) (found_again k h' same e))
      | inr other ↦ rw other (rw (v.money_free k h' e m) (omega int_laws))
    ]);
    unused = λ k le. rw pledged-new (elim (Bool-cases (h.id == k)) [
      | inl same ↦ absurd (ground arith)
      | inr other ↦ rw other (rw (v.unused k (omega arith)) (omega int_laws))
    ]);
  }

  -- `create_pledge` keeps the cover.
  pub create_pledge-IsCovered : IsCovered (request (create_pledge h amount lender note) db).1
  create_pledge-IsCovered = elim (create_pledge_exact h amount lender note db) [
    | inl (q, done) ↦ rw done (new_pledge-IsCovered q)
    | inr (e, _, same) ↦ rw same v
  ]

-- Releasing a pledge takes its amount from the pledges of its holding.
module _ (p : Pledge) (now : ℕ) (db : Db)
    (here : first (pledge_with p.id) db.pledges ≡ some p) where
  abbrev released_db : Db
  released_db = record db { pledges = adjust (pledge_with p.id) (mark_released now) db.pledges }

  released_amount : (k : ℕ) → active_amount k (mark_released now p) ≡ pos 0
  released_amount k = ground arith

  pledged-released : (k : ℕ) → pledged released_db k +ℤ active_amount k p ≡ pledged db k
  unfolding pledged_amount
  pledged-released k =
      sum_of-adjust (active_amount k) (pledge_with p.id) (mark_released now) db.pledges p here
      ∙ rw (released_amount k) (omega int_laws)

  released-positive :
      All (λ q. pos 0 ≤ℤ q.amount) db.pledges → All (λ q. pos 0 ≤ℤ q.amount) released_db.pledges
  released-positive a = All-adjust _ (pledge_with p.id) (mark_released now) db.pledges (λ q n. n) a

  pledged-released_le :
      IsCovered db
      → (k : ℕ) → (pledged released_db k ≤ℤ pledged db k) × (pos 0 ≤ℤ pledged released_db k)
  unfolding pledged_amount
  pledged-released_le v k =
      let own : pos 0 ≤ℤ active_amount k p =
        active_amount_nonneg k p
          (first-All (λ q. pos 0 ≤ℤ q.amount) (pledge_with p.id) db.pledges p v.positive here) in
      let moved = pledged-released k in
      (
        omega (int_laws, ap pos_part moved, ap neg_part moved),
        sum_of_nonneg (active_amount k) released_db.pledges (
            All-map _ _ released_db.pledges (active_amount_nonneg k)
              (released-positive v.positive)),
      )

  released_db-IsCovered : IsCovered db → IsCovered released_db
  released_db-IsCovered v = record {
    positive = released-positive v.positive;
    amounts = v.amounts;
    covered = λ k h e.
        le_trans_ℤ (pledged released_db k) (pledged db k) (h.amount +ℤ slack)
          (pledged-released_le v k).0 (v.covered k h e);
    money_free = λ k h e m. zero_of_bounds (pledged-released_le v k) (v.money_free k h e m);
    unused = λ k le. zero_of_bounds (pledged-released_le v k) (v.unused k le);
  }

  -- `release_pledge` keeps the cover.
  pub release_pledge-IsCovered : IsCovered db → IsCovered (request (release_pledge p now) db).1
  unfolding release_pledge
  release_pledge-IsCovered v = elim (Bool-cases (is_active p.status)) [
    | inl act ↦ rw act (released_db-IsCovered v)
    | inr done ↦ rw done v
  ]
