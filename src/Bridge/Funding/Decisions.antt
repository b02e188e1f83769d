-- ===== src/Bridge/Funding/Decisions.antt =====
-- Contributions of backend/app/bridge/service.py: what is accepted is valued, and the mix counts it once.
use can_framework.Prelude.{
  ℕ, ◌≡◌, refl, ap, ◌∙◌, ◌⊎◌, inl, inr, false, some, List, [], ◌∷◌, arith, if◌then◌else◌,
}
use can_framework.Prelude.Int.{pos, ◌+ℤ◌, ◌<ℤ◌, int_laws}
use can_framework.Prelude.Table.{sum_of}
use can_framework.Prelude.All.{All, All-adjust}
use can_framework.Prelude.Handler.{request}
use can_framework.Prelude.Handler.Keeps.{
  Keeps, Keeps-bind, Keeps-then, Keeps-pure, Keeps-or_raise, Keeps-modify, Keeps-commit, Keeps-if,
  Keeps-guard, Keeps-request,
}
use can_framework.Money.{Amount}
use can_framework.Bridge.Records.{Wallet, Project, Contribution, SourceType, Db}
use can_framework.Bridge.Suppliers.Kept.{credited-Keeps, opened-Keeps}
use can_framework.Bridge.Funding.{
  is_accepted, same_source, accepted_amount, by_source, total_of, Decision, contribution_with,
  write_contribution, rejected_by, accepted_at, agreed_value, wants_units, wants_access,
  issue_units, issue_access, accept_contribution, decide_contribution,
}

abbrev given : SourceType → Amount → SourceType → Amount
given s x t = if same_source s t then x else pos 0

-- An amount from one source adds to the sum over the sources.
parted :
    (s : SourceType) (x a b c d e : Amount)
    → given s x SourceType.capital
        +ℤ a
        +ℤ (given s x SourceType.participation_units
            +ℤ b
            +ℤ (given s x SourceType.in_kind
                +ℤ c
                +ℤ (given s x SourceType.pre_committed_use
                    +ℤ d
                    +ℤ (given s x SourceType.community +ℤ e))))
      ≡ x +ℤ (a +ℤ (b +ℤ (c +ℤ (d +ℤ e))))
parted SourceType.capital x a b c d e = omega int_laws
parted SourceType.participation_units x a b c d e = omega int_laws
parted SourceType.in_kind x a b c d e = omega int_laws
parted SourceType.pre_committed_use x a b c d e = omega int_laws
parted SourceType.community x a b c d e = omega int_laws

-- The total that `funding_mix` adds up by source is the sum of the values of the accepted contributions
-- to the project, each counted once.
pub total_of_accepted :
    (project_id : ℕ) (rows : List Contribution)
    → total_of project_id rows ≡ sum_of (accepted_amount project_id) rows
unfolding total_of by_source
total_of_accepted project_id [] = omega int_laws
total_of_accepted project_id (c ∷ rows) =
    let b = λ (s : SourceType). by_source project_id rows s in
    parted c.source_type (accepted_amount project_id c) (b SourceType.capital)
      (b SourceType.participation_units) (b SourceType.in_kind) (b SourceType.pre_committed_use)
      (b SourceType.community)
    ∙ ap (λ z. accepted_amount project_id c +ℤ z) (total_of_accepted project_id rows)

-- A contribution that is accepted has a value above zero.
abbrev pub Valued : Contribution → Type 0
Valued c =
    (is_accepted c.status ≡ false) ⊎ ((v : Amount) × (c.accepted_value ≡ some v) × (pos 0 <ℤ v))

abbrev pub AllValued : Db → Type 0
AllValued db = All Valued db.contributions

module _ (p : Project) (c : Contribution) (d : Decision) where
  issue_units-Keeps : (value : Amount) (w : Wallet) → Keeps AllValued (issue_units p c d value w)
  unfolding issue_units
  issue_units-Keeps value w =
      Keeps-if (wants_units c.wants)
        (λ _. Keeps-bind (Keeps-or_raise _ _) (λ units.
          Keeps-bind (credited-Keeps AllValued (λ d rows n h. h) w _) (λ h. Keeps-pure _)))
        (λ _. Keeps-pure _)

  issue_access-Keeps : (w : Wallet) → Keeps AllValued (issue_access p c d w)
  unfolding issue_access
  issue_access-Keeps w =
      Keeps-if (wants_access c.wants)
        (λ _. Keeps-bind (credited-Keeps AllValued (λ d rows n h. h) w _) (λ h. Keeps-pure _))
        (λ _. Keeps-pure _)

  write-Keeps :
      (x : Contribution) (db : Db) → Valued x → AllValued db → AllValued (write_contribution x db)
  write-Keeps x db v h =
      All-adjust Valued (contribution_with x.id) (λ _. x) db.contributions (λ y q. v) h

  accept-Keeps : (now : ℕ) → Keeps AllValued (accept_contribution c p d now)
  unfolding accept_contribution
  accept-Keeps now = Keeps-guard _ _ _ (λ above.
      Keeps-then
        (Keeps-modify _ (λ db.
          write-Keeps (accepted_at d now (agreed_value d c) c) db
            (inr (agreed_value d c, refl, ground arith))))
        (Keeps-bind (opened-Keeps AllValued (λ d rows n h. h) c.contributor_user_id) (λ w.
          Keeps-bind (issue_units-Keeps (agreed_value d c) w) (λ units.
            Keeps-bind (issue_access-Keeps w) (λ access. Keeps-then Keeps-commit (Keeps-pure _))))))

  decide-Keeps : (now : ℕ) → Keeps AllValued (decide_contribution c p d now)
  unfolding decide_contribution
  decide-Keeps now = Keeps-guard _ _ _ (λ _.
      Keeps-if d.accept (λ _. accept-Keeps now)
        (λ _.
          Keeps-then (Keeps-modify _ (λ db. write-Keeps (rejected_by d now c) db (inl refl)))
            (Keeps-then Keeps-commit (Keeps-pure _))))

  -- Where every accepted contribution has a value above zero, it still does after a decision, however
  -- the request ends.
  pub decide_contribution-AllValued :
      (now : ℕ) (db : Db) → AllValued db → AllValued (request (decide_contribution c p d now) db).1
  decide_contribution-AllValued now db h = Keeps-request (decide-Keeps now) db h
