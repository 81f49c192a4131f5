-- ===== src/InsuranceService/Bystander.antt =====
-- The insurance service's operations for one tenant move no other tenant's view.
use go_tangra_asset.Common.{String, ◌≢◌}
use go_tangra_asset.Float64.{Float64}
use go_tangra_asset.Models.{ListOpts}
use go_tangra_asset.Memstore.State.{Mem}
use go_tangra_asset.Authz.{Subjects}
use go_tangra_asset.Service.Keeping.{Keeps, keeping}
use go_tangra_asset.Service.Bystander.{IsUnmoved}
use go_tangra_asset.Service.Bystander.Reads.{reads}
use go_tangra_asset.Service.Bystander.Writes.{writes}
use go_tangra_asset.Service.Bystander.Rows.{rows}
use go_tangra_asset.AssetService.{Ctx}
use go_tangra_asset.InsuranceService.{
  Input, apply, create, get, list, update, delete, policy_assets, add_asset, remove_asset,
}

module _ (u : String) (m0 : Mem) (ctx : Ctx) (subj : Subjects) (other : u ≢ subj.tenant_id) where
  pub get-Keeps : (id : String) → Keeps (IsUnmoved u m0) (get subj id)
  unfolding get
  get-Keeps id = search (keeping, reads) depth 20

  pub create-Keeps : (i : Input) → Keeps (IsUnmoved u m0) (create ctx subj i)
  unfolding create apply
  create-Keeps i = search (get-Keeps, keeping, reads, writes) depth 20

  pub list-Keeps : (f : ListOpts) → Keeps (IsUnmoved u m0) (list ctx subj f)
  unfolding list
  list-Keeps f = search (keeping, reads) depth 20

  pub update-Keeps : (id : String) (i : Input) → Keeps (IsUnmoved u m0) (update ctx subj id i)
  unfolding update apply
  update-Keeps id i = search (rows, get-Keeps, keeping, reads, writes) depth 20

  pub delete-Keeps : (id : String) → Keeps (IsUnmoved u m0) (delete subj id)
  unfolding delete
  delete-Keeps id = search (keeping, reads, writes) depth 20

  pub policy_assets-Keeps : (id : String) → Keeps (IsUnmoved u m0) (policy_assets subj id)
  unfolding policy_assets
  policy_assets-Keeps id = search (keeping, reads, writes) depth 20

  pub add_asset-Keeps :
      (id asset : String) (cov : Float64) (notes : String)
      → Keeps (IsUnmoved u m0) (add_asset ctx subj id asset cov notes)
  unfolding add_asset
  add_asset-Keeps id asset cov notes = search (rows, keeping, reads, writes) depth 20

  pub remove_asset-Keeps : (id asset : String) → Keeps (IsUnmoved u m0) (remove_asset subj id asset)
  unfolding remove_asset
  remove_asset-Keeps id asset = search (keeping, reads, writes) depth 20
