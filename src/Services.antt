-- ===== src/Services.antt =====
-- The services of internal/assets, categories, suppliers, locations, consumables, licenses and insurance as
-- one system: every operation as a request, and the histories of requests.
pub mod Tenants
pub mod Refused
use go_tangra_asset.Common.{String, Option, none, some, ℤ}
use go_tangra_asset.Float64.{Float64}
use go_tangra_asset.Models.{AssetFilter, ListOpts}
use go_tangra_asset.Authz.{Subjects}
use go_tangra_asset.Service.{World, Fault, Outcome, done, failed}
use go_tangra_asset.Service.Contacts.{Vault}
use go_tangra_asset.AssetService
use go_tangra_asset.AssetService.{Ctx}
use go_tangra_asset.AssetService.Edit
use go_tangra_asset.AssetService.Assign
use go_tangra_asset.CategoryService
use go_tangra_asset.SupplierService
use go_tangra_asset.LocationService
use go_tangra_asset.ConsumableService
use go_tangra_asset.LicenseService
use go_tangra_asset.InsuranceService

pub data Request : Type 0 where
  asset_get : String → Request
  asset_list : AssetFilter → Request
  asset_assignments : String → ℤ → Request
  asset_create : AssetService.Input → Request
  asset_update : String → AssetService.Input → Request
  asset_delete : String → Request
  asset_assign : String → String → String → Request
  asset_unassign : String → String → String → Request
  category_get : String → Request
  category_create : CategoryService.Input → Request
  category_list : Request
  category_update : String → CategoryService.Input → Request
  category_delete : String → Request
  supplier_get : String → Request
  supplier_create : SupplierService.Input → Request
  supplier_list : ListOpts → Request
  supplier_update : String → SupplierService.Input → Request
  supplier_delete : String → Request
  location_get : String → Request
  location_create : LocationService.Input → Request
  location_list : Request
  location_update : String → LocationService.Input → Request
  location_delete : String → Request
  consumable_get : String → Request
  consumable_create : ConsumableService.Input → Request
  consumable_list : ListOpts → Request
  consumable_update : String → ConsumableService.Input → Request
  consumable_delete : String → Request
  license_get : String → Request
  license_create : LicenseService.Input → Request
  license_list : ListOpts → Request
  license_update : String → LicenseService.Input → Request
  license_delete : String → Request
  policy_get : String → Request
  policy_create : InsuranceService.Input → Request
  policy_list : ListOpts → Request
  policy_update : String → InsuranceService.Input → Request
  policy_delete : String → Request
  policy_policy_assets : String → Request
  policy_add_asset : String → String → Float64 → String → Request
  policy_remove_asset : String → String → Request

-- The error that an operation ends with.
abbrev pub verdict : {A : Type 0} → Outcome A → Option Fault
verdict (done a) = none
verdict (failed e) = some e

abbrev pub answered : {A : Type 0} → Outcome A × World → Option Fault × World
answered (o, w) = (verdict o, w)

-- The error of a request, if it has one, and the world after it.
unfoldable pub serve : Ctx → Vault → Subjects → Request → World → Option Fault × World
serve ctx vault subj (asset_get a) w = answered (AssetService.get ctx subj a w)
serve ctx vault subj (asset_list a) w = answered (AssetService.list ctx subj a w)
serve ctx vault subj (asset_assignments a b) w = answered (AssetService.assignments ctx subj a b w)
serve ctx vault subj (asset_create a) w = answered (AssetService.Edit.create ctx subj a w)
serve ctx vault subj (asset_update a b) w = answered (AssetService.Edit.update ctx subj a b w)
serve ctx vault subj (asset_delete a) w = answered (AssetService.Edit.delete ctx subj a w)
serve ctx vault subj (asset_assign a b c) w = answered (AssetService.Assign.assign ctx subj a b c w)
serve ctx vault subj (asset_unassign a b c) w =
    answered (AssetService.Assign.unassign ctx subj a b c w)
serve ctx vault subj (category_get a) w = answered (CategoryService.get subj a w)
serve ctx vault subj (category_create a) w = answered (CategoryService.create ctx subj a w)
serve ctx vault subj category_list w = answered (CategoryService.list ctx subj w)
serve ctx vault subj (category_update a b) w = answered (CategoryService.update ctx subj a b w)
serve ctx vault subj (category_delete a) w = answered (CategoryService.delete subj a w)
serve ctx vault subj (supplier_get a) w = answered (SupplierService.get vault subj a w)
serve ctx vault subj (supplier_create a) w = answered (SupplierService.create ctx vault subj a w)
serve ctx vault subj (supplier_list a) w = answered (SupplierService.list ctx vault subj a w)
serve ctx vault subj (supplier_update a b) w =
    answered (SupplierService.update ctx vault subj a b w)
serve ctx vault subj (supplier_delete a) w = answered (SupplierService.delete subj a w)
serve ctx vault subj (location_get a) w = answered (LocationService.get vault subj a w)
serve ctx vault subj (location_create a) w = answered (LocationService.create ctx vault subj a w)
serve ctx vault subj location_list w = answered (LocationService.list ctx vault subj w)
serve ctx vault subj (location_update a b) w =
    answered (LocationService.update ctx vault subj a b w)
serve ctx vault subj (location_delete a) w = answered (LocationService.delete subj a w)
serve ctx vault subj (consumable_get a) w = answered (ConsumableService.get subj a w)
serve ctx vault subj (consumable_create a) w = answered (ConsumableService.create ctx subj a w)
serve ctx vault subj (consumable_list a) w = answered (ConsumableService.list ctx subj a w)
serve ctx vault subj (consumable_update a b) w = answered (ConsumableService.update ctx subj a b w)
serve ctx vault subj (consumable_delete a) w = answered (ConsumableService.delete subj a w)
serve ctx vault subj (license_get a) w = answered (LicenseService.get subj a w)
serve ctx vault subj (license_create a) w = answered (LicenseService.create ctx subj a w)
serve ctx vault subj (license_list a) w = answered (LicenseService.list ctx subj a w)
serve ctx vault subj (license_update a b) w = answered (LicenseService.update ctx subj a b w)
serve ctx vault subj (license_delete a) w = answered (LicenseService.delete subj a w)
serve ctx vault subj (policy_get a) w = answered (InsuranceService.get subj a w)
serve ctx vault subj (policy_create a) w = answered (InsuranceService.create ctx subj a w)
serve ctx vault subj (policy_list a) w = answered (InsuranceService.list ctx subj a w)
serve ctx vault subj (policy_update a b) w = answered (InsuranceService.update ctx subj a b w)
serve ctx vault subj (policy_delete a) w = answered (InsuranceService.delete subj a w)
serve ctx vault subj (policy_policy_assets a) w = answered (InsuranceService.policy_assets subj a w)
serve ctx vault subj (policy_add_asset a b c d) w =
    answered (InsuranceService.add_asset ctx subj a b c d w)
serve ctx vault subj (policy_remove_asset a b) w =
    answered (InsuranceService.remove_asset subj a b w)

-- A history of requests, each by a caller of whom `Who` holds and with its own surroundings.
pub data History (Who : Subjects → Type 0) (w : World) : World → Type 0 where
  start : History Who w w
  after :
      {w' : World} (ctx : Ctx) (vault : Vault) (subj : Subjects) (r : Request)
      → History Who w w'
      → Who subj
      → History Who w (serve ctx vault subj r w').1
