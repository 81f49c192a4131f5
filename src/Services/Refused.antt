-- ===== src/Services/Refused.antt =====
-- A caller without a tenant gets nothing and changes nothing, over every operation of these services.
use go_tangra_asset.Common.{◌≡◌, ap, arith, some}
use mathlib.Core.Option
use go_tangra_asset.Authz.{Subjects, require_tenant}
use go_tangra_asset.Service.{World, Action, forbidden, gate, in_own_tenant, ◌>>=◌, ◌>>◌}
use go_tangra_asset.Service.Contacts.{Vault}
use go_tangra_asset.AssetService.{Ctx}
use go_tangra_asset.AssetService
use go_tangra_asset.AssetService.Assign
use go_tangra_asset.AssetService.Edit
use go_tangra_asset.CategoryService
use go_tangra_asset.ConsumableService
use go_tangra_asset.InsuranceService
use go_tangra_asset.LicenseService
use go_tangra_asset.LocationService
use go_tangra_asset.SupplierService
use go_tangra_asset.Services.{
  Request, asset_get, asset_list, asset_assignments, asset_create, asset_update, asset_delete,
  asset_assign, asset_unassign, category_get, category_create, category_list, category_update,
  category_delete, supplier_get, supplier_create, supplier_list, supplier_update, supplier_delete,
  location_get, location_create, location_list, location_update, location_delete, consumable_get,
  consumable_create, consumable_list, consumable_update, consumable_delete, license_get,
  license_create, license_list, license_update, license_delete, policy_get, policy_create,
  policy_list, policy_update, policy_delete, policy_policy_assets, policy_add_asset,
  policy_remove_asset, answered, serve,
}

no_tenant :
    (subj : Subjects)
    → subj.tenant_id ≡ ""
    → require_tenant subj subj.tenant_id ≡ some "tenant required"
unfolding require_tenant
no_tenant subj e = ground arith

-- What follows the gate does not run.
stopped :
    {B : Type 0} (subj : Subjects) (k : Action B) (w : World)
    → subj.tenant_id ≡ ""
    → answered ((in_own_tenant subj >> k) w) ≡ (some (forbidden "tenant required"), w)
unfolding gate ◌>>=◌
stopped subj k w e = ap (λ o. answered ((gate (Option.map forbidden o) >> k) w)) (no_tenant subj e)

-- A request of a caller whose tenant is empty, to the services of assets, categories, suppliers,
-- locations, consumables, licenses and insurance, ends with the error that it is forbidden, and leaves the
-- store, the audit log, the subscribers and the object store as they were.
pub serve-refused :
    (ctx : Ctx) (vault : Vault) (subj : Subjects) (r : Request) (w : World)
    → subj.tenant_id ≡ ""
    → serve ctx vault subj r w ≡ (some (forbidden "tenant required"), w)
unfolding serve AssetService.get AssetService.list AssetService.assignments AssetService.Edit.create
    AssetService.Edit.update AssetService.Edit.delete AssetService.Assign.assign
    AssetService.Assign.unassign CategoryService.get CategoryService.create CategoryService.list
    CategoryService.update CategoryService.delete SupplierService.get SupplierService.create
    SupplierService.list SupplierService.update SupplierService.delete LocationService.get
    LocationService.create LocationService.list LocationService.update LocationService.delete
    ConsumableService.get ConsumableService.create ConsumableService.list ConsumableService.update
    ConsumableService.delete LicenseService.get LicenseService.create LicenseService.list
    LicenseService.update LicenseService.delete InsuranceService.get InsuranceService.create
    InsuranceService.list InsuranceService.update InsuranceService.delete
    InsuranceService.policy_assets InsuranceService.add_asset InsuranceService.remove_asset
serve-refused ctx vault subj (asset_get a) w e = stopped subj _ w e
serve-refused ctx vault subj (asset_list a) w e = stopped subj _ w e
serve-refused ctx vault subj (asset_assignments a b) w e = stopped subj _ w e
serve-refused ctx vault subj (asset_create a) w e = stopped subj _ w e
serve-refused ctx vault subj (asset_update a b) w e = stopped subj _ w e
serve-refused ctx vault subj (asset_delete a) w e = stopped subj _ w e
serve-refused ctx vault subj (asset_assign a b c) w e = stopped subj _ w e
serve-refused ctx vault subj (asset_unassign a b c) w e = stopped subj _ w e
serve-refused ctx vault subj (category_get a) w e = stopped subj _ w e
serve-refused ctx vault subj (category_create a) w e = stopped subj _ w e
serve-refused ctx vault subj category_list w e = stopped subj _ w e
serve-refused ctx vault subj (category_update a b) w e = stopped subj _ w e
serve-refused ctx vault subj (category_delete a) w e = stopped subj _ w e
serve-refused ctx vault subj (supplier_get a) w e = stopped subj _ w e
serve-refused ctx vault subj (supplier_create a) w e = stopped subj _ w e
serve-refused ctx vault subj (supplier_list a) w e = stopped subj _ w e
serve-refused ctx vault subj (supplier_update a b) w e = stopped subj _ w e
serve-refused ctx vault subj (supplier_delete a) w e = stopped subj _ w e
serve-refused ctx vault subj (location_get a) w e = stopped subj _ w e
serve-refused ctx vault subj (location_create a) w e = stopped subj _ w e
serve-refused ctx vault subj location_list w e = stopped subj _ w e
serve-refused ctx vault subj (location_update a b) w e = stopped subj _ w e
serve-refused ctx vault subj (location_delete a) w e = stopped subj _ w e
serve-refused ctx vault subj (consumable_get a) w e = stopped subj _ w e
serve-refused ctx vault subj (consumable_create a) w e = stopped subj _ w e
serve-refused ctx vault subj (consumable_list a) w e = stopped subj _ w e
serve-refused ctx vault subj (consumable_update a b) w e = stopped subj _ w e
serve-refused ctx vault subj (consumable_delete a) w e = stopped subj _ w e
serve-refused ctx vault subj (license_get a) w e = stopped subj _ w e
serve-refused ctx vault subj (license_create a) w e = stopped subj _ w e
serve-refused ctx vault subj (license_list a) w e = stopped subj _ w e
serve-refused ctx vault subj (license_update a b) w e = stopped subj _ w e
serve-refused ctx vault subj (license_delete a) w e = stopped subj _ w e
serve-refused ctx vault subj (policy_get a) w e = stopped subj _ w e
serve-refused ctx vault subj (policy_create a) w e = stopped subj _ w e
serve-refused ctx vault subj (policy_list a) w e = stopped subj _ w e
serve-refused ctx vault subj (policy_update a b) w e = stopped subj _ w e
serve-refused ctx vault subj (policy_delete a) w e = stopped subj _ w e
serve-refused ctx vault subj (policy_policy_assets a) w e = stopped subj _ w e
serve-refused ctx vault subj (policy_add_asset a b c d) w e = stopped subj _ w e
serve-refused ctx vault subj (policy_remove_asset a b) w e = stopped subj _ w e
