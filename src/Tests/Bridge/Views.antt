-- ===== src/Tests/Bridge/Views.antt =====
-- The theorem on the list of payments of backend/app/bridge/routes.py after a payment.
use can_framework.Prelude.{none, some}
use can_framework.Prelude.Int.{pos}
use can_framework.Prelude.All.{All}
use can_framework.Prelude.Outcome.{request}
use can_framework.Bridge.Records.{Db}
use can_framework.Bridge.Payments.{pay}
use can_framework.Bridge.Views.{as_person, list_agent_payments}
use can_framework.Bridge.Views.Privacy.{Concerns, list_agent_payments_private}
use can_framework.Tests.Bridge.{mandate, tables, order, signed}

abbrev paid_tables : Db
paid_tables = (request (pay signed mandate (order (pos 25_000_000_000)) 5 "t") tables).1

list_agent_payments_private_example :
    All (Concerns 2) (list_agent_payments (as_person (some 2)) none paid_tables)
list_agent_payments_private_example = list_agent_payments_private 2 none paid_tables
