-- ===== src/Bridge/Funding.antt =====
-- The funding of projects in backend/app/bridge/service.py: what has been contributed, and how a
-- contribution is proposed and decided.
pub mod Decisions
use can_framework.Prelude.{
  ℕ, zero, suc, ◌+◌, ◌*◌, Bool, true, false, not, Option, none, some, List, [], ◌∷◌, ◌++◌, String,
  str_eq, ◌==◌, ◌&&◌, ◌||◌, if◌then◌else◌,
}
use can_framework.Prelude.Int.{ℤ, pos, negsuc, ◌+ℤ◌, ◌-ℤ◌, leb_ℤ, ltb_ℤ, scale}
use can_framework.Prelude.Table.{first, adjust, sum_of}
use can_framework.Prelude.Handler.{
  Handler, pure, raise, gets, or_raise, modify, commit, raise_if, save, ◌>>=◌, ◌>>◌,
}
use can_framework.Money.{Amount, one, cent, quantise, round_cents, over_micro}
use can_framework.Bridge.Records.{
  Wallet, Terms, Holding, Project, ProjectStatus, Contribution, ContributionStatus, SourceType,
  Wants, Db, Error, not_open, already_decided, value_not_positive, zero_division,
}
use can_framework.Bridge.Rails.{Review, compliance_review_required}
use can_framework.Bridge.Wallet.{Credit, credit, get_or_create_wallet}
use can_framework.Bridge.Suppliers.{Request, act}

abbrev pub is_accepted : ContributionStatus → Bool
is_accepted ContributionStatus.accepted = true
is_accepted _ = false

abbrev pub is_proposed : ContributionStatus → Bool
is_proposed ContributionStatus.proposed = true
is_proposed _ = false

abbrev pub same_source : SourceType → SourceType → Bool
same_source SourceType.capital SourceType.capital = true
same_source SourceType.participation_units SourceType.participation_units = true
same_source SourceType.in_kind SourceType.in_kind = true
same_source SourceType.pre_committed_use SourceType.pre_committed_use = true
same_source SourceType.community SourceType.community = true
same_source _ _ = false

-- `accepted_value or 0.0` of an accepted contribution to a project
abbrev pub accepted_amount : ℕ → Contribution → Amount
accepted_amount project_id c =
    if c.project_id == project_id && is_accepted c.status
    then elim c.accepted_value [ none ↦ pos 0 | some v ↦ v ]
    else pos 0

abbrev pub from_source : ℕ → SourceType → Contribution → Amount
from_source project_id s c =
    if same_source c.source_type s then accepted_amount project_id c else pos 0

unfoldable pub by_source : ℕ → List Contribution → SourceType → Amount
by_source project_id rows s = sum_of (from_source project_id s) rows

-- `sum(by_source.values())`
unfoldable pub total_of : ℕ → List Contribution → Amount
total_of project_id rows =
    let b = by_source project_id rows in
    b SourceType.capital
    +ℤ (b SourceType.participation_units
        +ℤ (b SourceType.in_kind +ℤ (b SourceType.pre_committed_use +ℤ b SourceType.community)))

-- CASH_SOURCES
abbrev pub is_cash_source : SourceType → Bool
is_cash_source SourceType.capital = true
is_cash_source _ = false

abbrev pub cash_of : ℕ → List Contribution → Amount
cash_of project_id rows =
    let c = λ (s : SourceType). if is_cash_source s then by_source project_id rows s else pos 0 in
    c SourceType.capital
    +ℤ (c SourceType.participation_units
        +ℤ (c SourceType.in_kind +ℤ (c SourceType.pre_committed_use +ℤ c SourceType.community)))

-- `round(100 * a / b, 2) if b else None`
unfoldable pub percentage : Amount → Amount → Option Amount
percentage a (pos zero) = none
percentage a (pos (suc d)) = some (quantise (scale a (100 * one)) (suc d * cent) cent)
percentage a (negsuc d) = some (quantise (pos 0 -ℤ scale a (100 * one)) (suc d * cent) cent)

abbrev pub positive_part : Amount → Amount
positive_part x = if ltb_ℤ x (pos 0) then pos 0 else x

pub record Share : Type 0 where
  pub value : Amount
  pub pct : Amount

pub record FundingMix : Type 0 where
  pub target_amount : Amount
  pub currency : String
  pub raised : Amount
  pub still_needed : Amount
  pub cash : Amount
  pub non_cash : Amount
  pub cash_share_pct : Option Amount
  pub cash_not_needed_pct : Option Amount
  pub shares : SourceType → Share

abbrev pub share_of : Amount → Amount → Share
share_of value total = record {
  value = round_cents value;
  pct = elim (percentage value total) [ none ↦ pos 0 | some p ↦ p ];
}

unfoldable pub funding_mix : Project → Db → FundingMix
funding_mix p db =
    let total = total_of p.id db.contributions in
    let cash = cash_of p.id db.contributions in
    record {
      target_amount = p.target_amount;
      currency = p.currency;
      raised = round_cents total;
      still_needed = round_cents (positive_part (p.target_amount -ℤ total));
      cash = round_cents cash;
      non_cash = round_cents (total -ℤ cash);
      cash_share_pct = percentage cash total;
      cash_not_needed_pct = percentage (total -ℤ cash) total;
      shares = λ s. share_of (by_source p.id db.contributions s) total;
    }

abbrev pub takes_contributions : ProjectStatus → Bool
takes_contributions ProjectStatus.funding = true
takes_contributions ProjectStatus.delivering = true
takes_contributions _ = false

-- What a contributor offers.
pub record Proposal : Type 0 where
  pub source_type : SourceType
  pub description : String
  pub offered_value : Amount
  pub wants : Wants
  pub access_terms : Option Terms

abbrev pub new_contribution : Project → ℕ → Proposal → Db → Contribution × Db
new_contribution p user_id o db =
    let c : Contribution = record {
      id = db.fresh;
      project_id = p.id;
      contributor_user_id = user_id;
      source_type = o.source_type;
      description = o.description;
      offered_value = o.offered_value;
      accepted_value = none;
      valuation_basis = none;
      wants = o.wants;
      access_terms = o.access_terms;
      status = ContributionStatus.proposed;
      decided_by = none;
      decided_at = none;
      decision_note = none;
    } in
    (c, record db { contributions = db.contributions ++ c ∷ []; fresh = db.fresh + 1 })

unfoldable pub propose_contribution : Project → ℕ → Proposal → Request Contribution
propose_contribution p user_id o = do
  raise_if (not (takes_contributions p.status)) not_open
  save (new_contribution p user_id o)

-- What the sponsor decides.
pub record Decision : Type 0 where
  pub accept : Bool
  pub accepted_value : Option Amount
  pub valuation_basis : Option String
  pub note : Option String
  pub decided_by : String

abbrev pub contribution_with : ℕ → Contribution → Bool
contribution_with id c = c.id == id

abbrev pub write_contribution : Contribution → Db → Db
write_contribution c db = record db {
  contributions = adjust (contribution_with c.id) (λ _. c) db.contributions;
}

abbrev pub rejected_by : Decision → ℕ → Contribution → Contribution
rejected_by d now c = record c {
  decided_by = some d.decided_by;
  decided_at = some now;
  decision_note = d.note;
  status = ContributionStatus.rejected;
}

abbrev pub accepted_at : Decision → ℕ → Amount → Contribution → Contribution
accepted_at d now value c = record c {
  decided_by = some d.decided_by;
  decided_at = some now;
  decision_note = d.note;
  status = ContributionStatus.accepted;
  accepted_value = some value;
  valuation_basis = d.valuation_basis;
}

abbrev pub agreed_value : Decision → Contribution → Amount
agreed_value d c = elim d.accepted_value [ some v ↦ v | none ↦ c.offered_value ]

abbrev pub wants_units : Wants → Bool
wants_units Wants.access = false
wants_units _ = true

abbrev pub wants_access : Wants → Bool
wants_access Wants.participation = false
wants_access _ = true

abbrev pub source_name : SourceType → String
source_name SourceType.capital = "capital"
source_name SourceType.participation_units = "participation_units"
source_name SourceType.in_kind = "in_kind"
source_name SourceType.pre_committed_use = "pre_committed_use"
source_name SourceType.community = "community"

abbrev pub unit_credit : Project → Contribution → Decision → Amount → Credit
unit_credit p c d units = record {
  kind = "participation_unit";
  amount = units;
  currency = none;
  project_id = some p.id;
  description = some "Participation";
  terms = some (record {
    unit_value = some p.unit_value;
    currency = some p.currency;
    rest = ("source_type", source_name c.source_type) ∷ [];
  });
  evidence_ref = d.valuation_basis;
}

-- `contribution.access_terms or {"note": "terms to be agreed"}`
abbrev pub terms_to_agree : Terms
terms_to_agree = record {
  unit_value = none;
  currency = none;
  rest = ("note", "terms to be agreed") ∷ [];
}

abbrev pub terms_or_note : Option Terms → Terms
terms_or_note none = terms_to_agree
terms_or_note (some t) = elim t.unit_value [
  | some _ ↦ t
  | none ↦ elim t.currency [ some _ ↦ t | none ↦ elim t.rest [ [] ↦ terms_to_agree | _ ∷ _ ↦ t ] ]
]

abbrev pub access_credit : Project → Contribution → Decision → Credit
access_credit p c d = record {
  kind = "access_right";
  amount = pos one;
  currency = none;
  project_id = some p.id;
  description = some "Access right";
  terms = some (terms_or_note c.access_terms);
  evidence_ref = d.valuation_basis;
}

unfoldable pub issue_units :
    Project → Contribution → Decision → Amount → Wallet → Request (List Holding)
issue_units p c d value w =
    if wants_units c.wants
    then (do
      units ← or_raise (over_micro value p.unit_value) zero_division
      h ← act (credit w (unit_credit p c d units))
      pure (h ∷ []))
    else pure []

unfoldable pub issue_access : Project → Contribution → Decision → Wallet → Request (List Holding)
issue_access p c d w =
    if wants_access c.wants
    then (do h ← act (credit w (access_credit p c d)); pure (h ∷ []))
    else pure []

pub record Decided : Type 0 where
  pub contribution : Contribution
  pub issued : List Holding
  pub reviews_required : List Review

unfoldable pub accept_contribution : Contribution → Project → Decision → ℕ → Request Decided
accept_contribution c p d now = do
  raise_if (leb_ℤ (agreed_value d c) (pos 0)) value_not_positive
  modify (write_contribution (accepted_at d now (agreed_value d c) c))
  w ← act (get_or_create_wallet c.contributor_user_id)
  units ← issue_units p c d (agreed_value d c) w
  access ← issue_access p c d w
  commit
  pure (record {
    contribution = accepted_at d now (agreed_value d c) c;
    issued = units ++ access;
    reviews_required = compliance_review_required c.source_type;
  })

-- Accepting issues participation units, access rights, or both, into the contributor's wallet.
unfoldable pub decide_contribution : Contribution → Project → Decision → ℕ → Request Decided
decide_contribution c p d now = do
  raise_if (not (is_proposed c.status)) already_decided
  if d.accept then accept_contribution c p d now else (do
    modify (write_contribution (rejected_by d now c))
    commit
    pure (record { contribution = rejected_by d now c; issued = []; reviews_required = [] }))
