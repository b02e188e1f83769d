-- ===== src/Value/Discovery.antt =====
-- The handlers of backend/app/value/map_routes.py for the items of a map and for local queries. The map that
-- says which assets there are is a parameter here.
pub mod Holders
use can_framework.Prelude.{
  ℕ, suc, ◌+◌, Bool, true, false, not, Option, none, some, List, [], ◌∷◌, ◌++◌, String, str_eq, leb,
  ◌==◌, ◌&&◌, ◌||◌, if◌then◌else◌,
}
use can_framework.Prelude.Outcome.{Result, ok, err}
use can_framework.Prelude.Table.{length, first, select, adjust, delete, newest_first, limit}
use can_framework.Money.{Amount}
use can_framework.Accounts.Roles.{Principal, Role, has_any_role}
use can_framework.Value.Records.{ItemType, ItemStatus, Day, MapItem, Rules, QueryLog, MapDb, Period}
use can_framework.Value.Commitments.{
  Commit, Counter, Answer, answer_query, check_rate, period_of, commitment_for, matching_items,
}
use can_framework.Value.Peering.{MapState, Refusal, or_else, or_kept}

-- MapItemIn
pub record MapItemIn : Type 0 where
  pub item_type : ItemType
  pub item_class : String
  pub title : String
  pub description : Option String
  pub quantity : Option Amount
  pub unit : Option String
  pub region : String
  pub available_from : Option Day
  pub available_until : Option Day
  pub asset_id : Option ℕ
  pub attributes : Option String
  pub discoverable : Bool

abbrev pub new_item : ℕ → Day → ℕ → MapItemIn → MapItem
new_item id today me p = record {
  id = id;
  created_at = today;
  holder_user_id = me;
  item_type = p.item_type;
  item_class = p.item_class;
  title = p.title;
  description = p.description;
  quantity = p.quantity;
  unit = p.unit;
  region = p.region;
  available_from = p.available_from;
  available_until = p.available_until;
  asset_id = p.asset_id;
  attributes = p.attributes;
  discoverable = p.discoverable;
  status = ItemStatus.open_item;
}

abbrev pub asset_missing : (ℕ → Bool) → Option ℕ → Bool
asset_missing exists none = false
asset_missing exists (some id) = not (exists id)

unfoldable pub create_item :
    (ℕ → Bool) → Day → ℕ → MapItemIn → MapDb → Result Refusal MapItem × MapDb
create_item exists today me payload db =
    if asset_missing exists payload.asset_id then (err Refusal.not_found, db) else (
      ok (new_item db.fresh today me payload),
      record db {
        items = db.items ++ new_item db.fresh today me payload ∷ [];
        fresh = suc db.fresh;
      },
    )

abbrev pub same_type : ItemType → ItemType → Bool
same_type ItemType.capacity ItemType.capacity = true
same_type ItemType.need ItemType.need = true
same_type _ _ = false

abbrev pub of_type : Option ItemType → MapItem → Bool
of_type none i = true
of_type (some t) i = same_type i.item_type t

abbrev pub held_by : ℕ → MapItem → Bool
held_by me i = i.holder_user_id == me

unfoldable pub list_items : Option ItemType → ℕ → MapDb → List MapItem
list_items t me db = select (of_type t) (select (held_by me) db.items)

abbrev pub item_with : ℕ → MapItem → Bool
item_with id i = i.id == id

-- MapItemUpdate: what is null is left as it is.
pub record MapItemUpdate : Type 0 where
  pub discoverable : Option Bool
  pub status : Option ItemStatus
  pub quantity : Option Amount
  pub available_until : Option Day

abbrev pub updated_item : MapItemUpdate → MapItem → MapItem
updated_item u i = record i {
  discoverable = or_else u.discoverable i.discoverable;
  status = or_else u.status i.status;
  quantity = or_kept u.quantity i.quantity;
  available_until = or_kept u.available_until i.available_until;
}

-- `not item or item.holder_user_id != me.id`
abbrev pub not_mine : ℕ → Option MapItem → Bool
not_mine me none = true
not_mine me (some i) = not (held_by me i)

unfoldable pub update_item : ℕ → ℕ → MapItemUpdate → MapDb → Result Refusal (Unit {0}) × MapDb
update_item item_id me payload db =
    if not_mine me (first (item_with item_id) db.items)
    then (err Refusal.not_found, db)
    else (ok tt, record db { items = adjust (item_with item_id) (updated_item payload) db.items })

unfoldable pub delete_item : ℕ → ℕ → MapDb → Result Refusal ℕ × MapDb
delete_item item_id me db =
    if not_mine me (first (item_with item_id) db.items)
    then (err Refusal.not_found, db)
    else (ok item_id, record db { items = delete (item_with item_id) db.items })

-- The coarse attributes of an item, and its commitment.
pub record Coarse : Type 0 where
  pub item_id : ℕ
  pub discoverable : Bool
  pub item_type : ItemType
  pub item_class : String
  pub region : String
  pub period : Period
  pub commitment : String

abbrev pub coarse : Commit → MapItem → Coarse
coarse commit i = record {
  item_id = i.id;
  discoverable = i.discoverable;
  item_type = i.item_type;
  item_class = i.item_class;
  region = i.region;
  period = period_of i;
  commitment = commitment_for commit i;
}

abbrev pub mine_only : {A : Type 0} → ℕ → (MapItem → A) → Option MapItem → Result Refusal A
mine_only me f none = err Refusal.not_found
mine_only me f (some i) = if held_by me i then ok (f i) else err Refusal.not_found

unfoldable pub item_commitment : Commit → ℕ → ℕ → MapDb → Result Refusal Coarse
item_commitment commit item_id me db =
    mine_only me (coarse commit) (first (item_with item_id) db.items)

abbrev pub rated_answer :
    Commit → Rules → String → List MapItem → String → Bool → Result Refusal Answer
rated_answer commit rules me items target false = err Refusal.too_many
rated_answer commit rules me items target true = ok (answer_query commit rules me items target)

-- The commitment is given, or made of the attributes; `none` where these are not complete.
unfoldable pub query :
    Commit
    → Rules
    → String
    → Principal
    → ℕ
    → Option String
    → MapState
    → Result Refusal Answer × MapState
query commit rules me who hour target s =
    if not (has_any_role who (Role.user ∷ Role.agent ∷ Role.auditor ∷ []))
    then (err Refusal.insufficient_role, s)
    else elim target [
      | none ↦ (err Refusal.unprocessable, s)
      | some t ↦ (
        rated_answer commit rules me s.db.items t (check_rate rules who.sub hour s.query_counts).0,
        record s { query_counts = (check_rate rules who.sub hour s.query_counts).1 },
      )
    ]

abbrev pub opposite : ItemType → ItemType
opposite ItemType.capacity = ItemType.need
opposite ItemType.need = ItemType.capacity

abbrev pub held_by_others : ℕ → MapItem → Bool
held_by_others me i = not (held_by me i)

abbrev pub count_matches : Commit → ℕ → List MapItem → MapItem → ℕ
count_matches commit me items i = length (
    select (held_by_others me) (
      matching_items commit items
        (commit (opposite i.item_type) i.item_class i.region (period_of i))))

unfoldable pub local_matches : Commit → ℕ → ℕ → MapDb → Result Refusal ℕ
local_matches commit item_id me db =
    mine_only me (count_matches commit me db.items) (first (item_with item_id) db.items)

-- A line of the log as it is shown: with the fingerprint of the commitment alone.
abbrev pub log_entry : (String → String) → QueryLog → QueryLog
log_entry fingerprint l = record l { commitment = fingerprint l.commitment }

abbrev pub log_entries : (String → String) → List QueryLog → List QueryLog
log_entries fingerprint [] = []
log_entries fingerprint (l ∷ ls) = log_entry fingerprint l ∷ log_entries fingerprint ls

unfoldable pub query_log :
    (String → String) → Principal → ℕ → MapDb → Result Refusal (List QueryLog)
query_log fingerprint who most db =
    if has_any_role who (Role.admin ∷ Role.auditor ∷ [])
    then ok (log_entries fingerprint (limit most (newest_first db.query_log)))
    else err Refusal.insufficient_role
