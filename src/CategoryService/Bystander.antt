-- ===== src/CategoryService/Bystander.antt =====
-- The category service's operations for one tenant move no other tenant's view.
use go_tangra_asset.Common.{String, ◌≢◌}
use go_tangra_asset.Memstore.State.{Mem}
use go_tangra_asset.Authz.{Subjects}
use go_tangra_asset.Service.Keeping.{Keeps, keeping}
use go_tangra_asset.Service.Bystander.{IsUnmoved}
use go_tangra_asset.Service.Bystander.Reads.{reads}
use go_tangra_asset.Service.Bystander.Writes.{writes}
use go_tangra_asset.Service.Bystander.Rows.{rows}
use go_tangra_asset.AssetService.{Ctx}
use go_tangra_asset.CategoryService.{Input, get, create, list, update, delete, check_parent}

module _ (u : String) (m0 : Mem) (ctx : Ctx) (subj : Subjects) (other : u ≢ subj.tenant_id) where
  pub get-Keeps : (id : String) → Keeps (IsUnmoved u m0) (get subj id)
  unfolding get
  get-Keeps id = search (keeping, reads)

  pub create-Keeps : (i : Input) → Keeps (IsUnmoved u m0) (create ctx subj i)
  unfolding create
  create-Keeps i = search (keeping, reads, writes) depth 20

  pub list-Keeps : Keeps (IsUnmoved u m0) (list ctx subj)
  unfolding list
  list-Keeps = search (keeping, reads)

  check_parent-Keeps : (id parent : String) → Keeps (IsUnmoved u m0) (check_parent subj id parent)
  unfolding check_parent
  check_parent-Keeps id parent = search (keeping, reads) depth 20

  pub update-Keeps : (id : String) (i : Input) → Keeps (IsUnmoved u m0) (update ctx subj id i)
  unfolding update
  update-Keeps id i = search (check_parent-Keeps, get-Keeps, rows, keeping, writes) depth 20

  pub delete-Keeps : (id : String) → Keeps (IsUnmoved u m0) (delete subj id)
  unfolding delete
  delete-Keeps id = search (keeping, reads, writes) depth 20
