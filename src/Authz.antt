-- ===== src/Authz.antt =====
-- internal/authz/authz.go: who may act, and within which tenant.
pub mod Laws
use go_tangra_asset.Common.{
  String, Bool, true, false, ◌||◌, Option, none, some, List, [], ◌∷◌, ◌==◌, if◌then◌else◌,
}

abbrev pub actor_user : String
actor_user = "user"

abbrev pub actor_service : String
actor_service = "service"

abbrev pub actor_system : String
actor_system = "system"

abbrev pub role_admin : String
role_admin = "admin"

abbrev pub role_owner : String
role_owner = "owner"

abbrev pub role_system : String
role_system = "system"

abbrev pub role_platform_admin : String
role_platform_admin = "platform-admin"

pub record Subjects : Type 0 where
  pub tenant_id : String
  pub user_id : String
  pub roles : List String
  pub actor_kind : String

role_in : String → List String → Bool
role_in role [] = false
role_in role (r ∷ rs) = if r == role then true else role_in role rs

unfoldable pub has_role : Subjects → String → Bool
unfolding role_in
has_role s role = role_in role s.roles

unfoldable pub is_admin : Subjects → Bool
is_admin s =
    if s.actor_kind == actor_system
    then true
    else has_role s role_admin || has_role s role_owner || has_role s role_system

unfoldable pub is_platform_admin : Subjects → Bool
is_platform_admin s =
    if s.actor_kind == actor_system
    then true
    else has_role s role_platform_admin
      || has_role s role_admin
      || has_role s role_owner
      || has_role s role_system

unfoldable pub actor_id : Subjects → String
actor_id s = if s.user_id == "" then s.actor_kind else s.user_id

-- ErrForbidden, with what was required
unfoldable pub require_admin : Subjects → Option String
unfolding is_admin
require_admin s = if is_admin s then none else some "admin required"

unfoldable pub require_platform_admin : Subjects → Option String
unfolding is_platform_admin
require_platform_admin s = if is_platform_admin s then none else some "platform-admin required"

unfoldable pub require_tenant : Subjects → String → Option String
require_tenant s tenant =
    if tenant == ""
    then some "tenant required"
    else if s.tenant_id == tenant
    then none
    else if s.actor_kind == actor_system
    then none
    else some "tenant mismatch"
