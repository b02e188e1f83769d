-- ===== src/Agents/Steps.antt =====
-- The requests of backend/app/agents/routes.py that write records, as steps between the tables, for
-- backend/app/agents/service.py.
use can_framework.Prelude.{ℕ, ◌≡◌, Bool, Option, some, String}
use can_framework.Prelude.Table.{first}
use can_framework.Prelude.All.{All}
use can_framework.Prelude.{◌==◌, true}
use can_framework.Prelude.Outcome.{request}
use can_framework.Agents.Records.{Agent, DerivedRecord, Db, Rules}
use can_framework.Agents.Queue.{Draft, record_derived}
use can_framework.Agents.Review.{record_with, review_record, recompute}

abbrev pub record_at : ℕ → Db → Option DerivedRecord
record_at id db = first (record_with id) db.records

-- The agent of a request is the one row with its id.
abbrev pub OnlyRow : Agent → Db → Type 0
OnlyRow a db = All (λ x. (x.id == a.id) ≡ true → x ≡ a) db.agents

pub data Step (rules : Rules) (db : Db) : Db → Type 0 where
  derives :
      (a : Agent) (draft : Draft)
      → OnlyRow a db
      → Step rules db (request (record_derived rules a draft) db).1
  reviews :
      (r : DerivedRecord) (accept : Bool) (words reviewer : String)
      → record_at r.id db ≡ some r
      → Step rules db (request (review_record rules r accept words reviewer) db).1
  recomputes :
      (r : DerivedRecord) (output method subject : String) (words : Option String)
      → record_at r.id db ≡ some r
      → Step rules db (request (recompute rules r output method subject words) db).1
