-- ===== src/Services/Tenants.antt =====
-- No tenant's data moves by what the callers of other tenants do, over every operation of these services.
use go_tangra_asset.Common.{String, ◌≢◌}
use go_tangra_asset.Authz.{Subjects}
use go_tangra_asset.Memstore.State.{Mem}
use go_tangra_asset.Memstore.Invariant.{IsValid}
use go_tangra_asset.Memstore.View.{SameView-refl}
use go_tangra_asset.Service.{World}
use go_tangra_asset.Service.Contacts.{Vault}
use go_tangra_asset.Service.Keeping.{Keeps}
use go_tangra_asset.Service.Bystander.{IsUnmoved}
use go_tangra_asset.AssetService.{Ctx}
use go_tangra_asset.AssetService.Bystander as Assets
use go_tangra_asset.CategoryService.Bystander as Categorys
use go_tangra_asset.SupplierService.Bystander as Suppliers
use go_tangra_asset.LocationService.Bystander as Locations
use go_tangra_asset.ConsumableService.Bystander as Consumables
use go_tangra_asset.LicenseService.Bystander as Licenses
use go_tangra_asset.InsuranceService.Bystander as Insurances
use go_tangra_asset.Services.{
  Request, asset_get, asset_list, asset_assignments, asset_create, asset_update, asset_delete,
  asset_assign, asset_unassign, category_get, category_create, category_list, category_update,
  category_delete, supplier_get, supplier_create, supplier_list, supplier_update, supplier_delete,
  location_get, location_create, location_list, location_update, location_delete, consumable_get,
  consumable_create, consumable_list, consumable_update, consumable_delete, license_get,
  license_create, license_list, license_update, license_delete, policy_get, policy_create,
  policy_list, policy_update, policy_delete, policy_policy_assets, policy_add_asset,
  policy_remove_asset, serve, History, start, after,
}

-- One request of a caller of another tenant.
serve-IsUnmoved :
    (u : String) (m0 : Mem) (ctx : Ctx) (vault : Vault) (subj : Subjects)
    → u ≢ subj.tenant_id
    → (r : Request) (w : World) → IsUnmoved u m0 w.mem
    → IsUnmoved u m0 (serve ctx vault subj r w).1.mem
unfolding serve Keeps
serve-IsUnmoved u m0 ctx vault subj other (asset_get a) w h =
    Assets.get-Keeps u m0 ctx subj other a w h
serve-IsUnmoved u m0 ctx vault subj other (asset_list a) w h =
    Assets.list-Keeps u m0 ctx subj other a w h
serve-IsUnmoved u m0 ctx vault subj other (asset_assignments a b) w h =
    Assets.assignments-Keeps u m0 ctx subj other a b w h
serve-IsUnmoved u m0 ctx vault subj other (asset_create a) w h =
    Assets.create-Keeps u m0 ctx subj other a w h
serve-IsUnmoved u m0 ctx vault subj other (asset_update a b) w h =
    Assets.update-Keeps u m0 ctx subj other a b w h
serve-IsUnmoved u m0 ctx vault subj other (asset_delete a) w h =
    Assets.delete-Keeps u m0 ctx subj other a w h
serve-IsUnmoved u m0 ctx vault subj other (asset_assign a b c) w h =
    Assets.assign-Keeps u m0 ctx subj other a b c w h
serve-IsUnmoved u m0 ctx vault subj other (asset_unassign a b c) w h =
    Assets.unassign-Keeps u m0 ctx subj other a b c w h
serve-IsUnmoved u m0 ctx vault subj other (category_get a) w h =
    Categorys.get-Keeps u m0 ctx subj other a w h
serve-IsUnmoved u m0 ctx vault subj other (category_create a) w h =
    Categorys.create-Keeps u m0 ctx subj other a w h
serve-IsUnmoved u m0 ctx vault subj other category_list w h =
    Categorys.list-Keeps u m0 ctx subj other w h
serve-IsUnmoved u m0 ctx vault subj other (category_update a b) w h =
    Categorys.update-Keeps u m0 ctx subj other a b w h
serve-IsUnmoved u m0 ctx vault subj other (category_delete a) w h =
    Categorys.delete-Keeps u m0 ctx subj other a w h
serve-IsUnmoved u m0 ctx vault subj other (supplier_get a) w h =
    Suppliers.get-Keeps u m0 ctx subj other vault a w h
serve-IsUnmoved u m0 ctx vault subj other (supplier_create a) w h =
    Suppliers.create-Keeps u m0 ctx subj other vault a w h
serve-IsUnmoved u m0 ctx vault subj other (supplier_list a) w h =
    Suppliers.list-Keeps u m0 ctx subj other vault a w h
serve-IsUnmoved u m0 ctx vault subj other (supplier_update a b) w h =
    Suppliers.update-Keeps u m0 ctx subj other vault a b w h
serve-IsUnmoved u m0 ctx vault subj other (supplier_delete a) w h =
    Suppliers.delete-Keeps u m0 ctx subj other a w h
serve-IsUnmoved u m0 ctx vault subj other (location_get a) w h =
    Locations.get-Keeps u m0 ctx subj other vault a w h
serve-IsUnmoved u m0 ctx vault subj other (location_create a) w h =
    Locations.create-Keeps u m0 ctx subj other vault a w h
serve-IsUnmoved u m0 ctx vault subj other location_list w h =
    Locations.list-Keeps u m0 ctx subj other vault w h
serve-IsUnmoved u m0 ctx vault subj other (location_update a b) w h =
    Locations.update-Keeps u m0 ctx subj other vault a b w h
serve-IsUnmoved u m0 ctx vault subj other (location_delete a) w h =
    Locations.delete-Keeps u m0 ctx subj other a w h
serve-IsUnmoved u m0 ctx vault subj other (consumable_get a) w h =
    Consumables.get-Keeps u m0 ctx subj other a w h
serve-IsUnmoved u m0 ctx vault subj other (consumable_create a) w h =
    Consumables.create-Keeps u m0 ctx subj other a w h
serve-IsUnmoved u m0 ctx vault subj other (consumable_list a) w h =
    Consumables.list-Keeps u m0 ctx subj other a w h
serve-IsUnmoved u m0 ctx vault subj other (consumable_update a b) w h =
    Consumables.update-Keeps u m0 ctx subj other a b w h
serve-IsUnmoved u m0 ctx vault subj other (consumable_delete a) w h =
    Consumables.delete-Keeps u m0 ctx subj other a w h
serve-IsUnmoved u m0 ctx vault subj other (license_get a) w h =
    Licenses.get-Keeps u m0 ctx subj other a w h
serve-IsUnmoved u m0 ctx vault subj other (license_create a) w h =
    Licenses.create-Keeps u m0 ctx subj other a w h
serve-IsUnmoved u m0 ctx vault subj other (license_list a) w h =
    Licenses.list-Keeps u m0 ctx subj other a w h
serve-IsUnmoved u m0 ctx vault subj other (license_update a b) w h =
    Licenses.update-Keeps u m0 ctx subj other a b w h
serve-IsUnmoved u m0 ctx vault subj other (license_delete a) w h =
    Licenses.delete-Keeps u m0 ctx subj other a w h
serve-IsUnmoved u m0 ctx vault subj other (policy_get a) w h =
    Insurances.get-Keeps u m0 ctx subj other a w h
serve-IsUnmoved u m0 ctx vault subj other (policy_create a) w h =
    Insurances.create-Keeps u m0 ctx subj other a w h
serve-IsUnmoved u m0 ctx vault subj other (policy_list a) w h =
    Insurances.list-Keeps u m0 ctx subj other a w h
serve-IsUnmoved u m0 ctx vault subj other (policy_update a b) w h =
    Insurances.update-Keeps u m0 ctx subj other a b w h
serve-IsUnmoved u m0 ctx vault subj other (policy_delete a) w h =
    Insurances.delete-Keeps u m0 ctx subj other a w h
serve-IsUnmoved u m0 ctx vault subj other (policy_policy_assets a) w h =
    Insurances.policy_assets-Keeps u m0 ctx subj other a w h
serve-IsUnmoved u m0 ctx vault subj other (policy_add_asset a b c d) w h =
    Insurances.add_asset-Keeps u m0 ctx subj other a b c d w h
serve-IsUnmoved u m0 ctx vault subj other (policy_remove_asset a b) w h =
    Insurances.remove_asset-Keeps u m0 ctx subj other a b w h

-- After any history of requests to the services of assets, categories, suppliers, locations, consumables,
-- licenses and insurance, with any failure on the way, by callers of tenants other than `u`, a valid store
-- is still valid, and tenant `u` has the rows it had.
pub History-IsUnmoved :
    (u : String) (w w' : World)
    → History (λ subj. u ≢ subj.tenant_id) w w'
    → IsValid w.mem
    → IsUnmoved u w.mem w'.mem
History-IsUnmoved u w w' start v = record { valid = v; view = SameView-refl u w.mem }
History-IsUnmoved u w w' (after ctx vault subj r h other) v =
    serve-IsUnmoved u w.mem ctx vault subj other r _ (History-IsUnmoved u w _ h v)
