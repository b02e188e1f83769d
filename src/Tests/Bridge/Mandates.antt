-- ===== src/Tests/Bridge/Mandates.antt =====
-- The theorem on revoked mandates of backend/app/bridge/routes.py at concrete tables.
use can_framework.Prelude.{refl, none, some, [], ◌∷◌}
use can_framework.Prelude.Int.{pos}
use can_framework.Prelude.Outcome.{request}
use can_framework.Agents.Records.{Agent, AgentStatus}
use can_framework.Bridge.Mandates.{Directory, AgentPaymentIn, revoke_mandate}
use can_framework.Bridge.Mandates.Revocation.{PaysNothing, revoked-PaysNothing}
use can_framework.Tests.Bridge.{mandate, tables, signed}

abbrev agent : Agent
agent = record {
  id = 7;
  did = "did:key:a";
  steward_user_id = 1;
  scopes = [];
  status = AgentStatus.active;
  max_unreviewed = none;
}

abbrev directory : Directory
directory = record { agents = agent ∷ []; users = 1 ∷ 2 ∷ [] }

abbrev payment : AgentPaymentIn
payment = record {
  mandate_id = mandate.id;
  payee_user_id = 2;
  amount = pos 1_000_000_000;
  currency = "USD";
  purpose = "p";
  evidence_ref = none;
  rail = none;
}

revoked-PaysNothing_example :
    PaysNothing signed directory agent payment 5 "t"
      (request (revoke_mandate mandate.id (some "enough") mandate.granted_by_user_id 4) tables).1
revoked-PaysNothing_example =
    revoked-PaysNothing signed directory agent payment 5 "t" mandate (some "enough") 4 tables refl
