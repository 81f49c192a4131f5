-- ===== src/Authz/Laws.antt =====
-- What each gate lets through.
use go_tangra_asset.Common.{String, ◌≡◌, ◌≢◌, ◌⊎◌, none, true, arith}
use mathlib.Core.Logic.{◌↔◌}
use go_tangra_asset.Authz.{
  Subjects, actor_system, is_admin, is_platform_admin, require_admin, require_platform_admin,
  require_tenant, has_role, role_platform_admin,
}

-- A caller may act in a tenant exactly when the tenant is named, and is the caller's own or the caller is
-- the system.
pub require_tenant_iff :
    (s : Subjects) (tenant : String)
    → (require_tenant s tenant ≡ none)
      ↔ ((tenant ≢ "") × ((s.tenant_id ≡ tenant) ⊎ (s.actor_kind ≡ actor_system)))
unfolding require_tenant
require_tenant_iff s tenant = (ground arith, ground arith)

-- The gate of the cross-tenant operations does not keep tenant admins out: a caller passes the
-- platform-admin gate exactly when it passes the tenant-admin gate or holds the platform-admin role.
pub require_platform_admin_iff :
    (s : Subjects)
    → (require_platform_admin s ≡ none)
      ↔ ((require_admin s ≡ none) ⊎ (has_role s role_platform_admin ≡ true))
unfolding require_admin require_platform_admin is_admin is_platform_admin
require_platform_admin_iff s = (ground arith, ground arith)
