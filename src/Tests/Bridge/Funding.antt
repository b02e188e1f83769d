-- ===== src/Tests/Bridge/Funding.antt =====
-- The theorems on contributions of backend/app/bridge/service.py at concrete tables.
use can_framework.Prelude.{refl, true, none, some, [], ◌∷◌, inl}
use can_framework.Prelude.Int.{pos}
use can_framework.Prelude.Handler.{request}
use can_framework.Bridge.Records.{
  Project, ProjectStatus, Contribution, ContributionStatus, SourceType, Wants, Db,
}
use can_framework.Bridge.Funding.{Decision, decide_contribution}
use can_framework.Bridge.Funding.Decisions.{AllValued, decide_contribution-AllValued}
use can_framework.Tests.Bridge.{tables}

abbrev pub mill : Project
mill = record {
  id = 300;
  sponsor_user_id = 1;
  name = "Mill";
  currency = "USD";
  target_amount = pos 1_000_000_000_000;
  unit_value = pos 8_000_000_000;
  status = ProjectStatus.funding;
  asset_id = none;
}

abbrev pub offered : Contribution
offered = record {
  id = 400;
  project_id = 300;
  contributor_user_id = 2;
  source_type = SourceType.in_kind;
  description = "stone";
  offered_value = pos 80_000_000_000;
  accepted_value = none;
  valuation_basis = none;
  wants = Wants.both;
  access_terms = none;
  status = ContributionStatus.proposed;
  decided_by = none;
  decided_at = none;
  decision_note = none;
}

abbrev pub proposed : Db
proposed = record tables { contributions = offered ∷ [] }

abbrev pub acceptance : Decision
acceptance = record {
  accept = true;
  accepted_value = none;
  valuation_basis = some "quote";
  note = none;
  decided_by = "sponsor";
}

decide_contribution-AllValued_example :
    AllValued (request (decide_contribution offered mill acceptance 5) proposed).1
decide_contribution-AllValued_example =
    decide_contribution-AllValued mill offered acceptance 5 proposed (inl refl, tt)
