-- ===== src/Accounts/Roles.antt =====
-- Roles and principals: backend/app/core/auth.py behind the check of a token.
use can_framework.Prelude.{
  ℕ, Bool, true, false, Option, none, some, List, [], ◌∷◌, String, str_eq, ◌==◌, ◌||◌,
  if◌then◌else◌,
}
use can_framework.Prelude.Table.{first}

pub data Role : Type 0 where
  user attester reviewer admin auditor agent : Role
  unknown : String → Role

abbrev pub same_role : Role → Role → Bool
same_role Role.user Role.user = true
same_role Role.attester Role.attester = true
same_role Role.reviewer Role.reviewer = true
same_role Role.admin Role.admin = true
same_role Role.auditor Role.auditor = true
same_role Role.agent Role.agent = true
same_role _ _ = false

abbrev pub has_role : List Role → Role → Bool
has_role [] r = false
has_role (x ∷ xs) r = same_role x r || has_role xs r

pub record Principal : Type 0 where
  pub sub : String
  pub roles : List Role

pub record User : Type 0 where
  pub id : ℕ
  pub subject : String

abbrev pub has_any_role : Principal → List Role → Bool
has_any_role p [] = false
has_any_role p (r ∷ rs) = has_role p.roles r || has_any_role p rs

abbrev pub has_subject : String → User → Bool
has_subject sub u = str_eq u.subject sub

-- `require_any_role(ROLE_USER)` before it: a principal without the role has no user here.
unfoldable pub get_current_user : List User → Principal → Option User
get_current_user users p =
    if has_role p.roles Role.user then first (has_subject p.sub) users else none

abbrev pub is_reviewer : Principal → Bool
is_reviewer p = has_any_role p (Role.reviewer ∷ Role.admin ∷ [])

abbrev pub is_self : Option User → ℕ → Bool
is_self none target = false
is_self (some u) target = u.id == target

unfoldable pub can_view_user : Principal → Option User → ℕ → Bool
can_view_user p current target =
    is_self current target || has_any_role p (Role.reviewer ∷ Role.admin ∷ Role.auditor ∷ [])
