-- ===== src/Tests/Bridge/Sponsor.antt =====
-- The theorem on sponsors of backend/app/bridge/routes.py at concrete tables.
use can_framework.Prelude.{refl, [], ◌∷◌, ◌≡◌}
use can_framework.Prelude.Int.{pos}
use can_framework.Prelude.Handler.{request}
use can_framework.Bridge.Records.{ProjectStatus, Db}
use can_framework.Bridge.Handlers.{AgreementCreate, set_status, add_supplier, decide}
use can_framework.Bridge.Handlers.Sponsor.{only_sponsor}
use can_framework.Tests.Bridge.Funding.{mill, offered, acceptance, proposed}

abbrev running : Db
running = record proposed { projects = mill ∷ [] }

abbrev terms : AgreementCreate
terms = record { supplier_user_id = 2; scope = "wheel"; cash_share = pos 600_000_000 }

only_sponsor_example :
    ((request (set_status 300 ProjectStatus.closed 2) running).1 ≡ running)
    × ((request (add_supplier (2 ∷ []) 300 terms 2) running).1 ≡ running)
    × ((request (decide 400 acceptance 2 5) running).1 ≡ running)
only_sponsor_example =
    only_sponsor mill 2 running refl refl ProjectStatus.closed (2 ∷ []) terms offered acceptance 5
      refl refl
