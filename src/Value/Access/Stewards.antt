-- ===== src/Value/Access/Stewards.antt =====
-- What people see, and what agents see for them.
use can_framework.Prelude.{
  ℕ, ◌≡◌, refl, ◌∙◌, Bool, true, false, Option, none, some, List, [], ◌∷◌, ◌++◌, ◌==◌, ◌||◌,
  if◌then◌else◌, arith, Bool-cases, inl, inr,
}
use can_framework.Prelude.Table.{first, select}
use can_framework.Agents.Records.{Agent}
use can_framework.Agents.Queue.{is_active}
use can_framework.Accounts.Roles.{Principal, Role, User, has_role, has_subject}
use can_framework.Value.Access.{
  Asset, AssetShare, AccessDb, has_did, Access, Visible, fully, held_by, shared_with, access_to,
  set_default, with_share, with_shares, visible_to, oversees, visible_assets,
}

abbrev pub holds : ℕ → List Asset → Bool
holds asset_id [] = false
holds asset_id (a ∷ rest) = a.id == asset_id || holds asset_id rest

abbrev pub share_of : ℕ → AssetShare → Bool
share_of asset_id s = s.asset_id == asset_id

-- The access that a share gives, if there is one.
abbrev pub shared_access : Option AssetShare → Option Access
shared_access none = none
shared_access (some s) = some (Access.only s.categories)

abbrev pub or_access : Option Access → Option Access → Option Access
or_access none b = b
or_access (some a) b = some a

access_to-append :
    (asset_id : ℕ) (out : List Visible) (v : Visible)
    → access_to asset_id (out ++ v ∷ [])
      ≡ or_access (access_to asset_id out) (if v.asset_id == asset_id then some v.access else none)
access_to-append asset_id [] v = ground arith
access_to-append asset_id (x ∷ out) v = ground (arith, access_to-append asset_id out v)

access_to-set_default :
    (asset_id : ℕ) (out : List Visible) (s : AssetShare) (o : Option Access)
    → access_to s.asset_id out ≡ o
    → access_to asset_id (set_default out s o)
      ≡ or_access
          (access_to asset_id out)
          (if s.asset_id == asset_id then some (Access.only s.categories) else none)
access_to-set_default asset_id out s none e =
    access_to-append asset_id out
      (record { asset_id = s.asset_id; access = Access.only s.categories })
access_to-set_default asset_id out s (some a) e = ground arith

or_access-none : (a : Option Access) → a ≡ or_access a none
or_access-none none = refl
or_access-none (some a) = refl

access_to-with_shares :
    (asset_id : ℕ) (out : List Visible) (ss : List AssetShare)
    → access_to asset_id (with_shares out ss)
      ≡ or_access (access_to asset_id out) (shared_access (first (share_of asset_id) ss))
unfolding with_shares
access_to-with_shares asset_id out [] = or_access-none (access_to asset_id out)
access_to-with_shares asset_id out (s ∷ ss) =
    let one = access_to-set_default asset_id out s (access_to s.asset_id out) refl in
    access_to-with_shares asset_id (with_share out s) ss ∙ ground (arith, one)

access_to-fully :
    (asset_id : ℕ) (assets : List Asset)
    → access_to asset_id (fully assets) ≡ (if holds asset_id assets then some Access.full else none)
access_to-fully asset_id [] = refl
access_to-fully asset_id (a ∷ rest) = ground (arith, access_to-fully asset_id rest)

visible_to-exact :
    (db : AccessDb) (user_id asset_id : ℕ)
    → access_to asset_id (visible_to db (some user_id)) ≡ (
        if holds asset_id (select (held_by user_id) db.assets)
        then some Access.full
        else shared_access (first (share_of asset_id) (select (shared_with user_id) db.shares)))
visible_to-exact db user_id asset_id =
    access_to-with_shares asset_id (fully (select (held_by user_id) db.assets))
      (select (shared_with user_id) db.shares)
    ∙ ground (arith, access_to-fully asset_id (select (held_by user_id) db.assets))

-- A person who oversees nothing sees an asset in full where they hold it; else what the first share of it
-- with them opens, if there is one; else nothing. An agent that is registered and active sees just that for
-- its steward, whatever other roles it claims, and one that is registered and not active sees nothing.
pub visible_exact :
    (db : AccessDb) (p : Principal) (asset_id : ℕ)
    → let seen = λ (user_id : ℕ).
      (if holds asset_id (select (held_by user_id) db.assets)
        then some Access.full
        else shared_access (first (share_of asset_id) (select (shared_with user_id) db.shares))) in
      ((u : User)
        → oversees p none ≡ false
        → has_role p.roles Role.agent ≡ false
        → first (has_subject p.sub) db.users ≡ some u
        → access_to asset_id (visible_assets db p) ≡ seen u.id)
      × ((a : Agent)
          → has_role p.roles Role.agent ≡ true
          → first (has_did p.sub) db.agents ≡ some a
          → access_to asset_id (visible_assets db p)
            ≡ (if is_active a.status then seen a.steward_user_id else none))
unfolding visible_assets
visible_exact db p asset_id = (
  λ u mine person there. rw (person, there) (rw mine (visible_to-exact db u.id asset_id)),
  λ a agent there.
      rw (agent, there)
        (elim (Bool-cases (is_active a.status)) [
          | inl on ↦ rw on (visible_to-exact db a.steward_user_id asset_id)
          | inr off ↦ rw off refl
        ]),
)
