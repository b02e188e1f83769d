-- ===== src/Bridge/Pledges/Steps.antt =====
-- The requests of backend/app/bridge/service.py that touch pledges, on rows that the handlers have found, as
-- steps between the tables.
use can_framework.Prelude.{ℕ, ◌<◌, ◌≡◌, Option, some, String}
use can_framework.Prelude.Outcome.{request}
use can_framework.Prelude.Table.{first}
use can_framework.Money.{Amount}
use can_framework.Bridge.Records.{Wallet, Holding, Pledge, Db}
use can_framework.Bridge.Pledges.{pledge_with, create_pledge, release_pledge, settle_down}
use can_framework.Bridge.Pledges.Cover.{
  IsCovered, holding_at, create_pledge-IsCovered, release_pledge-IsCovered,
}
use can_framework.Bridge.Pledges.Settlement.{settle_down-IsCovered}

pub data Step : Db → Db → Type 0 where
  pledged :
      (h : Holding) (amount : Amount) (lender : Option ℕ) (note : Option String) (db : Db)
      → holding_at db h.id ≡ some h
      → h.id < db.fresh
      → Step db (request (create_pledge h amount lender note) db).1
  released :
      (p : Pledge) (now : ℕ) (db : Db)
      → first (pledge_with p.id) db.pledges ≡ some p
      → Step db (request (release_pledge p now) db).1
  settled :
      (w : Wallet) (h : Holding) (amount : Amount) (rail_name : Option String) (token : String)
      (db : Db)
      → holding_at db h.id ≡ some h
      → Step db (request (settle_down w h amount rail_name token) db).1

-- Whatever request pledges a stored holding, releases a stored pledge or settles a stored holding down, and
-- however it ends: the active pledges of a holding stay at most its amount and 501 billionths (the
-- tolerance of a billionth and the half millionth by which a settlement rounds), no holding is below
-- zero, and only direct value is pledged.
pub Step-IsCovered : {db db' : Db} → Step db db' → IsCovered db → IsCovered db'
Step-IsCovered (pledged h amount lender note db here old) v =
    create_pledge-IsCovered h amount lender note db here old v
Step-IsCovered (released p now db here) v = release_pledge-IsCovered p now db here v
Step-IsCovered (settled w h amount rail_name token db here) v =
    settle_down-IsCovered w h amount rail_name token db here v
