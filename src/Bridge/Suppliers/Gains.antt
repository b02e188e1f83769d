-- ===== src/Bridge/Suppliers/Gains.antt =====
-- What `pay_invoice` of backend/app/bridge/service.py credits: the balances after each of its steps.
use can_framework.Prelude.{
  ℕ, ◌≡◌, refl, ◌∙◌, ap, inl, inr, Bool, true, false, Option, none, some, String, [], ◌∷◌, ◌⊎◌,
  Bool-cases, Option-cases, if◌then◌else◌, arith,
}
use can_framework.Prelude.Int.{pos, ◌+ℤ◌, ◌<ℤ◌, ◌≤ℤ◌, ltb_ℤ, int_laws, +ℤ_assoc}
use can_framework.Prelude.Outcome.{ok, Session}
use can_framework.Prelude.Handler.{request, modify, commit, pure, ◌>>=◌, ◌>>◌}
use can_framework.Prelude.Handler.Leads.{
  Leads, Leads-bind, Leads-or_raise, Leads-fact, Leads-pure, Leads-then, Leads-raise_if, Leads-lift,
}
use can_framework.Money.{Amount, over_micro}
use can_framework.Bridge.Records.{
  Wallet, Holding, Project, SupplierAgreement, SupplierInvoice, BridgeTransfer, Db, Error,
  holding_layer, zero_division,
}
use can_framework.Bridge.Rails.{SettlementResult}
use can_framework.Bridge.Wallet.{Credit, Position, position_for, credit, get_or_create_wallet}
use can_framework.Bridge.Wallet.Credits.{total, share, total-place}
use can_framework.Bridge.Wallet.Opening.{
  open_wallet, open_wallet-owner, open_wallet-same, get_or_create-dirty,
}
use can_framework.Bridge.Suppliers.{
  act, cash_part, stake_part, invoice_cash, invoice_stake, invoice_transfer, write_transfer,
  pay_cash, pay_stake, write_invoice, mark_paid, InvoicePaid, pay_invoice,
}

-- Every total is what it was in the tables before and a gain.
abbrev pub Grown : Db → ((Position → Bool) → Amount) → Session Db → Type 0
Grown base gain s =
    (t : Position → Bool) → total t s.working.holdings ≡ total t base.holdings +ℤ gain t

abbrev pub nothing : (Position → Bool) → Amount
nothing t = pos 0

-- What is credited of an amount: nothing where it is not above zero.
abbrev pub above_zero : Amount → Amount
above_zero x = if ltb_ℤ (pos 0) x then x else pos 0

share-zero : (t : Position → Bool) (p : Position) → share t p (pos 0) ≡ pos 0
share-zero t p = elim (Bool-cases (t p)) [ inl e ↦ rw e refl | inr e ↦ rw e refl ]

module _ (base : Db) (gain : (Position → Bool) → Amount) where
  credit-Leads :
      (w : Wallet) (c : Credit)
      → Leads
          (Grown base gain)
          (act (credit w c))
          (λ _. Grown base (λ t. gain t +ℤ share t (position_for w c) c.amount))
  unfolding credit
  credit-Leads w c = record {
    at_end = λ s h a e. elim (Option-cases (holding_layer c.kind)) [
      | inl unknown ↦ absurd (cc (unknown, e))
      | inr (layer, known) ↦ elim (Bool-cases (ltb_ℤ c.amount (pos 0))) [
        | inl negative ↦ absurd (cc (known, negative, e))
        | inr fine ↦
            rw (known, fine)
              (λ t.
                total-place t w c layer s.working
                ∙ ap (λ z. z +ℤ share t (position_for w c) c.amount) (h t)
                ∙ +ℤ_assoc (total t base.holdings) (gain t) (share t (position_for w c) c.amount))
      ]
    ];
  }

  no_gain :
      (p : Position) (s : Session Db)
      → Grown base gain s
      → Grown base (λ t. gain t +ℤ share t p (pos 0)) s
  no_gain p s h t = rw (share-zero t p) (h t ∙ omega int_laws)

module _ (base : Db) (gain : (Position → Bool) → Amount) (i : SupplierInvoice)
    (a : SupplierAgreement) (p : Project) (w : Wallet) where
  abbrev pub cash_gain : Amount → (Position → Bool) → Amount
  cash_gain cash t =
      gain t
      +ℤ share t
          (record {
            wallet_id = w.id;
            kind = "cash";
            currency = some p.currency;
            project_id = none;
          })
          cash

  written-Leads :
      (I : Session Db → Type 0) (f : ℕ → BridgeTransfer) (h : Holding)
      → ((s : Session Db)
          → I s
          → I (record { committed = s.committed; working = write_transfer f s.working }))
      → Leads {E = Error} I (modify (write_transfer f) >> pure (h ∷ [])) (λ _. I)
  unfolding modify pure ◌>>◌
  written-Leads I f h k = record { at_end = λ s there rows e. k s there }

  cash_paid-Leads :
      (result : SettlementResult) (pays : Bool)
      → Leads
          (Grown base gain)
          (if pays
            then (do
              h ← act (credit w (invoice_cash i a p))
              modify (write_transfer (invoice_transfer w i a p result))
              pure (h ∷ []))
            else pure [])
          (λ _. Grown base (cash_gain (if pays then cash_part i a else pos 0)))
  cash_paid-Leads result true =
      Leads-bind (credit-Leads base gain w (invoice_cash i a p))
        (λ h. written-Leads _ _ h (λ s there. there))
  cash_paid-Leads result false = Leads-pure [] (no_gain base gain _)

  pub pay_cash-Leads :
      (result : SettlementResult)
      → Leads
          (Grown base gain)
          (pay_cash i a p w result)
          (λ _. Grown base (cash_gain (above_zero (cash_part i a))))
  unfolding pay_cash
  pay_cash-Leads result = cash_paid-Leads result (ltb_ℤ (pos 0) (cash_part i a))

  abbrev pub stake_gain : Amount → (Position → Bool) → Amount
  stake_gain units t =
      gain t
      +ℤ share t
          (record {
            wallet_id = w.id;
            kind = "participation_unit";
            currency = none;
            project_id = some p.id;
          })
          units

  -- The units that stand for a stake, none for a stake that is not above zero.
  abbrev pub Units : Amount → Amount → Type 0
  Units stake units =
      (pos 0 <ℤ stake × (over_micro stake p.unit_value ≡ some units))
      ⊎ ((stake ≤ℤ pos 0) × (units ≡ pos 0))

  pub pay_stake-Leads :
      Leads
        (Grown base gain)
        (pay_stake i a p w)
        (λ _ s. (units : Amount) × Units (stake_part i a) units × Grown base (stake_gain units) s)
  unfolding pay_stake
  pay_stake-Leads = elim (Bool-cases (ltb_ℤ (pos 0) (stake_part i a))) [
    | inl some_stake ↦ rw some_stake (
        Leads-bind (Leads-or_raise (over_micro (stake_part i a) p.unit_value) zero_division)
          (λ units. Leads-fact (λ found.
            Leads-bind (credit-Leads base gain w (invoice_stake i p units))
              (λ h. Leads-pure (h ∷ []) (λ s there. (units, inl (ground arith, found), there))))))
    | inr no_stake ↦
        rw no_stake
          (Leads-pure [] (λ s h. (pos 0, inr (ground arith, refl), no_gain base gain _ s h)))
  ]

-- The wallet of the supplier, opened where there is none; no holding changes.
pub wallet-Leads :
    (base : Db) (gain : (Position → Bool) → Amount) (u : ℕ)
    → Leads
        (Grown base gain)
        (act (get_or_create_wallet u))
        (λ w s. (w.user_id ≡ u) × Grown base gain s)
wallet-Leads base gain u = record {
  at_end = λ s h w e.
      let (c, step, _) = get_or_create-dirty u s.committed s.working in
      let same : w ≡ (open_wallet u s.working).0 = cc (e, step) in
      (
        ap (λ (x : Wallet). x.user_id) same ∙ open_wallet-owner u s.working,
        rw step (λ t. rw (open_wallet-same u s.working).holdings (h t)),
      );
}

module _ (base : Db) (i : SupplierInvoice) (a : SupplierAgreement) (p : Project) where
  -- What a payment leaves: the cash and the units with the supplier, and no other holding touched.
  abbrev pub Credited : Db → Type 0
  Credited d =
      (w : Wallet) × (units : Amount) × (w.user_id ≡ a.supplier_user_id)
      × Units base nothing i a p w (stake_part i a) units
      × ((t : Position → Bool)
          → total t d.holdings
            ≡ total t base.holdings
              +ℤ stake_gain base (cash_gain base nothing i a p w (above_zero (cash_part i a))) i a p
                  w units t)

  committed-Leads :
      {A : Type 0} (f : Db → Db) (x : A) (w : Wallet)
      → w.user_id ≡ a.supplier_user_id
      → ((d : Db) → (f d).holdings ≡ d.holdings)
      → Leads {E = Error}
          (λ s.
            (units : Amount) × Units base nothing i a p w (stake_part i a) units
            × Grown base
                (stake_gain base
                  (cash_gain base nothing i a p w (above_zero (cash_part i a)))
                  i
                  a
                  p
                  w
                  units)
                s)
          (modify f >> (commit >> pure x))
          (λ _ s. Credited s.committed)
  unfolding modify commit pure ◌>>◌
  committed-Leads f x w owner same = record {
    at_end = λ s (units, how, grown) y e.
        (w, units, owner, how, (λ t. ap (total t) (same s.working) ∙ grown t));
  }

  pub pay_invoice-Leads :
      (rail_name : Option String) (token : String) (now : ℕ)
      → Leads
          (Grown base nothing)
          (pay_invoice i a p rail_name token now)
          (λ _ s. Credited s.committed)
  unfolding pay_invoice
  pay_invoice-Leads rail_name token now = Leads-then (Leads-raise_if _ _) (λ _.
      Leads-bind (wallet-Leads base nothing a.supplier_user_id) (λ w. Leads-fact (λ owner.
        Leads-bind (Leads-lift _) (λ rail. Leads-bind (Leads-lift _) (λ result.
          Leads-bind (pay_cash-Leads base nothing i a p w result) (λ cash.
            Leads-bind (pay_stake-Leads base _ i a p w) (λ stake.
              committed-Leads (write_invoice i.id (mark_paid result now)) _ w owner
                (λ d. refl))))))))

  pub pay_invoice-Credited :
      (rail_name : Option String) (token : String) (now : ℕ) {done : InvoicePaid}
      → (request (pay_invoice i a p rail_name token now) base).0 ≡ ok done
      → Credited (request (pay_invoice i a p rail_name token now) base).1
  unfolding request
  pay_invoice-Credited rail_name token now {done} e =
      (pay_invoice-Leads rail_name token now).at_end (record { committed = base; working = base })
        (λ t. omega int_laws) done e
