-- ===== src/ConsumableService/Bystander.antt =====
-- The consumable service's operations for one tenant move no other tenant's view.
use go_tangra_asset.Common.{String, ◌≢◌}
use go_tangra_asset.Models.{ListOpts}
use go_tangra_asset.Memstore.State.{Mem}
use go_tangra_asset.Authz.{Subjects}
use go_tangra_asset.Service.Keeping.{Keeps, keeping}
use go_tangra_asset.Service.Bystander.{IsUnmoved}
use go_tangra_asset.Service.Bystander.Reads.{reads}
use go_tangra_asset.Service.Bystander.Writes.{writes}
use go_tangra_asset.Service.Bystander.Rows.{rows}
use go_tangra_asset.AssetService.{Ctx}
use go_tangra_asset.ConsumableService.{Input, apply, check_refs, create, get, list, update, delete}

module _ (u : String) (m0 : Mem) (ctx : Ctx) (subj : Subjects) (other : u ≢ subj.tenant_id) where
  pub get-Keeps : (id : String) → Keeps (IsUnmoved u m0) (get subj id)
  unfolding get
  get-Keeps id = search (keeping, reads) depth 20

  check_refs-Keeps : (tenant : String) (i : Input) → Keeps (IsUnmoved u m0) (check_refs tenant i)
  unfolding check_refs
  check_refs-Keeps tenant i = search (keeping, reads) depth 20

  pub create-Keeps : (i : Input) → Keeps (IsUnmoved u m0) (create ctx subj i)
  unfolding create apply
  create-Keeps i = search (check_refs-Keeps, keeping, reads, writes) depth 20

  pub list-Keeps : (f : ListOpts) → Keeps (IsUnmoved u m0) (list ctx subj f)
  unfolding list
  list-Keeps f = search (keeping, reads) depth 20

  pub update-Keeps : (id : String) (i : Input) → Keeps (IsUnmoved u m0) (update ctx subj id i)
  unfolding update apply
  update-Keeps id i = search (rows, check_refs-Keeps, keeping, reads, writes) depth 20

  pub delete-Keeps : (id : String) → Keeps (IsUnmoved u m0) (delete subj id)
  unfolding delete
  delete-Keeps id = search (keeping, reads, writes) depth 20
