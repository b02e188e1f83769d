-- ===== src/Value/Records.antt =====
-- The rows of backend/app/value/map_models.py and QueryLog of backend/app/value/peer_models.py, with the
-- rules of discovery. Ids are numbers, dates are days and a quarter is a year and a number.
use can_framework.Prelude.{ℕ, Bool, Option, List, String}
use can_framework.Money.{Amount}
use can_framework.Introductions.Records.{Peer}

pub data ItemType : Type 0 where
  capacity need : ItemType

pub data ItemStatus : Type 0 where
  open_item matched closed : ItemStatus

pub record Day : Type 0 where
  pub year : ℕ
  pub month : ℕ
  pub day : ℕ

pub record MapItem : Type 0 where
  pub id : ℕ
  pub created_at : Day
  pub holder_user_id : ℕ
  pub item_type : ItemType
  pub item_class : String
  pub title : String
  pub description : Option String
  pub quantity : Option Amount
  pub unit : Option String
  pub region : String
  pub available_from : Option Day
  pub available_until : Option Day
  pub asset_id : Option ℕ
  pub attributes : Option String
  pub discoverable : Bool
  pub status : ItemStatus

pub data Direction : Type 0 where
  inbound local : Direction

pub record QueryLog : Type 0 where
  pub direction : Direction
  pub peer_node_id : Option String
  pub asked_by : Option String
  pub commitment : String
  pub ttl : ℕ
  pub path : List String
  pub matched : Bool
  pub results : ℕ

-- `discovery_rules`, with the defaults that the code reads in place.
pub record Rules : Type 0 where
  pub k_anonymity : ℕ
  pub max_queries_per_hour : ℕ
  pub max_degree_limit : ℕ
  pub max_degree_default : ℕ
  pub hop_decay : Amount
  pub peer_max_queries_per_hour : ℕ

pub record MapDb : Type 0 where
  pub items : List MapItem
  pub peers : List Peer
  pub query_log : List QueryLog
  pub fresh : ℕ

-- A period: a year and one of its quarters.
pub record Period : Type 0 where
  pub year : ℕ
  pub quarter : ℕ
