-- ===== src/Value/Access.antt =====
-- backend/app/value/access.py, and the rows of backend/app/value/models.py that it reads: who sees which
-- assets.
pub mod Stewards
use can_framework.Prelude.{
  ℕ, Bool, true, false, not, Option, none, some, List, [], ◌∷◌, ◌++◌, String, str_eq, ◌==◌, ◌&&◌,
  ◌||◌, if◌then◌else◌,
}
use can_framework.Prelude.Table.{first, select}
use can_framework.Agents.Records.{Agent}
use can_framework.Agents.Queue.{is_active}
use can_framework.Accounts.Roles.{Principal, Role, User, has_role, has_any_role, has_subject}

pub record Asset : Type 0 where
  pub id : ℕ
  pub holder_user_id : ℕ
  pub name : String
  pub kind : String
  pub description : Option String
  pub currency : String

pub record AssetShare : Type 0 where
  pub asset_id : ℕ
  pub grantee_user_id : ℕ
  pub categories : List String

pub record AccessDb : Type 0 where
  pub users : List User
  pub agents : List Agent
  pub assets : List Asset
  pub shares : List AssetShare

abbrev pub has_did : String → Agent → Bool
has_did did a = str_eq a.did did

abbrev pub id_of : Option User → Option ℕ
id_of none = none
id_of (some u) = some u.id

abbrev pub person_behind : Option Agent → Option ℕ × Option Agent
person_behind none = (none, none)
person_behind (some a) =
    if is_active a.status then (some a.steward_user_id, some a) else (none, some a)

-- The person whose visibility applies, and the agent that acts.
unfoldable pub acting_user_id : AccessDb → Principal → Option ℕ × Option Agent
acting_user_id db p =
    if has_role p.roles Role.agent
    then person_behind (first (has_did p.sub) db.agents)
    else (id_of (first (has_subject p.sub) db.users), none)

-- FULL, or the categories that are shared.
pub data Access : Type 0 where
  full : Access
  only : List String → Access

pub record Visible : Type 0 where
  pub asset_id : ℕ
  pub access : Access

abbrev pub fully : List Asset → List Visible
fully [] = []
fully (a ∷ rest) = record { asset_id = a.id; access = Access.full } ∷ fully rest

abbrev pub held_by : ℕ → Asset → Bool
held_by user_id a = a.holder_user_id == user_id

abbrev pub shared_with : ℕ → AssetShare → Bool
shared_with user_id s = s.grantee_user_id == user_id

abbrev pub access_to : ℕ → List Visible → Option Access
access_to asset_id [] = none
access_to asset_id (v ∷ vs) =
    if v.asset_id == asset_id then some v.access else access_to asset_id vs

-- `setdefault`: what is visible already stays as it is.
abbrev pub set_default : List Visible → AssetShare → Option Access → List Visible
set_default out s none =
    out ++ record { asset_id = s.asset_id; access = Access.only s.categories } ∷ []
set_default out s (some a) = out

abbrev pub with_share : List Visible → AssetShare → List Visible
with_share out s = set_default out s (access_to s.asset_id out)

unfoldable pub with_shares : List Visible → List AssetShare → List Visible
with_shares out [] = out
with_shares out (s ∷ ss) = with_shares (with_share out s) ss

abbrev pub visible_to : AccessDb → Option ℕ → List Visible
visible_to db none = []
visible_to db (some user_id) =
    with_shares (fully (select (held_by user_id) db.assets))
      (select (shared_with user_id) db.shares)

abbrev pub is_there : Option Agent → Bool
is_there none = false
is_there (some a) = true

abbrev pub oversees : Principal → Option Agent → Bool
oversees p agent =
    not (is_there agent) && has_any_role p (Role.reviewer ∷ Role.admin ∷ Role.auditor ∷ [])

unfoldable pub visible_assets : AccessDb → Principal → List Visible
unfolding acting_user_id with_shares
visible_assets db p =
    let (user_id, agent) = acting_user_id db p in
    if oversees p agent then fully db.assets else visible_to db user_id

abbrev pub has_text : String → List String → Bool
has_text s [] = false
has_text s (x ∷ xs) = str_eq x s || has_text s xs

unfoldable pub may_see_valuation : Access → Bool
may_see_valuation Access.full = true
may_see_valuation (Access.only categories) = has_text "valuation" categories

abbrev pub may_see_category : Access → String → Bool
may_see_category Access.full category = true
may_see_category (Access.only categories) category = has_text category categories
