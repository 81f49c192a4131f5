-- ===== src/LocationService/Bystander.antt =====
-- The location service's operations for one tenant move no other tenant's view.
use go_tangra_asset.Common.{String, ◌≢◌, ◌≡◌, refl}
use go_tangra_asset.Models.{Location}
use go_tangra_asset.Memstore.State.{Mem}
use go_tangra_asset.Authz.{Subjects}
use go_tangra_asset.Service.{Action, ◌>>=◌}
use go_tangra_asset.Service.Contacts.{Vault}
use go_tangra_asset.Service.Keeping.{Keeps, Gives, Gives-bind, Gives-pure, keeping}
use go_tangra_asset.Service.Bystander.{IsUnmoved}
use go_tangra_asset.Service.Bystander.Reads.{reads}
use go_tangra_asset.Service.Bystander.Writes.{writes}
use go_tangra_asset.Service.Bystander.Rows.{rows, Keeps-of_tenant}
use go_tangra_asset.Service.Contacts.{seal_contact-Keeps}
use go_tangra_asset.AssetService.{Ctx}
use go_tangra_asset.LocationService.{
  Input, seal, apply, path, check_parent, create, get, list, update, delete,
}

module _ (u : String) (m0 : Mem) (ctx : Ctx) (subj : Subjects) (other : u ≢ subj.tenant_id) where
  seal-Keeps : (vault : Vault) (s : Location) → Keeps (IsUnmoved u m0) (seal vault s)
  unfolding seal
  seal-Keeps vault s = search (keeping, seal_contact-Keeps) depth 20

  seal-Gives :
      (vault : Vault) (s : Location) → Gives (λ c. c.tenant_id ≡ s.tenant_id) (seal vault s)
  unfolding seal
  seal-Gives vault s =
      Gives-bind _ _ _ (λ a. Gives-bind _ _ _ (λ b. Gives-bind _ _ _ (λ c. Gives-pure _ _ refl)))

  sealed_row :
      {B : Type 0} (vault : Vault) (s : Location) (f : Location → Action B)
      → u ≢ s.tenant_id
      → ((c : Location) → u ≢ c.tenant_id → Keeps (IsUnmoved u m0) (f c))
      → Keeps (IsUnmoved u m0) (seal vault s >>= f)
  sealed_row vault s f =
      Keeps-of_tenant u m0 (λ c. c.tenant_id) s.tenant_id _ f (seal-Gives vault s)
        (seal-Keeps vault s)

  pub get-Keeps : (vault : Vault) (id : String) → Keeps (IsUnmoved u m0) (get vault subj id)
  unfolding get
  get-Keeps vault id = search (keeping, reads) depth 20

  path-Keeps : (tenant parent name : String) → Keeps (IsUnmoved u m0) (path tenant parent name)
  unfolding path
  path-Keeps tenant parent name = search (keeping, reads) depth 20

  check_parent-Keeps : (id parent : String) → Keeps (IsUnmoved u m0) (check_parent subj id parent)
  unfolding check_parent
  check_parent-Keeps id parent = search (keeping, reads) depth 20

  pub create-Keeps : (vault : Vault) (i : Input) → Keeps (IsUnmoved u m0) (create ctx vault subj i)
  unfolding create apply
  create-Keeps vault i = search (sealed_row, get-Keeps, path-Keeps, keeping, writes) depth 20

  pub list-Keeps : (vault : Vault) → Keeps (IsUnmoved u m0) (list ctx vault subj)
  unfolding list
  list-Keeps vault = search (keeping, reads) depth 20

  pub update-Keeps :
      (vault : Vault) (id : String) (i : Input)
      → Keeps (IsUnmoved u m0) (update ctx vault subj id i)
  unfolding update apply
  update-Keeps vault id i =
      search (rows, sealed_row, get-Keeps, path-Keeps, check_parent-Keeps, keeping, writes) depth 20

  pub delete-Keeps : (id : String) → Keeps (IsUnmoved u m0) (delete subj id)
  unfolding delete
  delete-Keeps id = search (keeping, reads, writes) depth 20
