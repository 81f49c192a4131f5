-- ===== src/Tests/Access.antt =====
-- The gates at concrete callers.
use go_tangra_asset.Common.{String, ◌≡◌, ◌≢◌, ◌⊎◌, none, [], true}
use mathlib.Core.Logic.{◌↔◌}
use go_tangra_asset.Authz.{
  Subjects, actor_system, require_admin, require_tenant, require_platform_admin, has_role,
  role_platform_admin,
}
use go_tangra_asset.Authz.Laws.{require_tenant_iff, require_platform_admin_iff}
use go_tangra_asset.Tests.{ann}

abbrev other : String
other = "t2"

require_tenant_iff_example :
    (require_tenant ann other ≡ none)
    ↔ ((other ≢ "") × ((ann.tenant_id ≡ other) ⊎ (ann.actor_kind ≡ actor_system)))
require_tenant_iff_example = require_tenant_iff ann other

abbrev scheduler : Subjects
scheduler = record { tenant_id = "t1"; user_id = ""; roles = []; actor_kind = actor_system }

require_platform_admin_iff_example :
    (require_platform_admin scheduler ≡ none)
    ↔ ((require_admin scheduler ≡ none) ⊎ (has_role scheduler role_platform_admin ≡ true))
require_platform_admin_iff_example = require_platform_admin_iff scheduler
