-- ===== src/Service/Bystander/Reads.antt =====
-- The store's reads move no other tenant's view.
use go_tangra_asset.Common.{String, ℤ, arith}
use go_tangra_asset.Models.{AssetFilter, ListOpts}
use go_tangra_asset.Memstore.State.{Mem, Env}
use go_tangra_asset.Memstore.Assets.{get_asset}
use go_tangra_asset.Memstore.AssetReads.{
  list_assets, all_assets, find_asset_by_tag, find_asset_by_serial, count_assets_by_category,
  count_assets_by_supplier, count_assets_by_location,
}
use go_tangra_asset.Memstore.Assignments.{list_assignments}
use go_tangra_asset.Memstore.Categories.{get_category, list_categories, count_child_categories}
use go_tangra_asset.Memstore.Suppliers.{get_supplier, list_suppliers}
use go_tangra_asset.Memstore.Locations.{get_location, list_locations, count_child_locations}
use go_tangra_asset.Memstore.Consumables.{get_consumable, list_consumables}
use go_tangra_asset.Memstore.Licenses.{get_license, list_licenses}
use go_tangra_asset.Memstore.Insurance.{get_insurance, list_insurance, list_policy_assets}
use go_tangra_asset.Memstore.Documents.{list_documents}
use go_tangra_asset.Service.Keeping.{KeepsCall}
use go_tangra_asset.Service.Bystander.{IsUnmoved, KeepsCall-read}

module _ (u : String) (m0 : Mem) where
  pub KeepsCall-get_asset :
      (env : Env) (tenant : String) (id : String)
      → KeepsCall (IsUnmoved u m0) (get_asset env tenant id)
  unfolding get_asset
  KeepsCall-get_asset env tenant id = KeepsCall-read u m0 "GetAsset" _ (λ m. ground arith)

  pub KeepsCall-list_assets :
      (env : Env) (tenant : String) (f : AssetFilter)
      → KeepsCall (IsUnmoved u m0) (list_assets env tenant f)
  unfolding list_assets
  KeepsCall-list_assets env tenant f = KeepsCall-read u m0 "ListAssets" _ (λ m. ground arith)

  pub KeepsCall-all_assets :
      (env : Env) (tenant : String) → KeepsCall (IsUnmoved u m0) (all_assets env tenant)
  unfolding all_assets
  KeepsCall-all_assets env tenant = KeepsCall-read u m0 "AllAssets" _ (λ m. ground arith)

  pub KeepsCall-find_asset_by_tag :
      (env : Env) (tenant : String) (id : String)
      → KeepsCall (IsUnmoved u m0) (find_asset_by_tag env tenant id)
  unfolding find_asset_by_tag
  KeepsCall-find_asset_by_tag env tenant id =
      KeepsCall-read u m0 "FindAssetByTag" _ (λ m. ground arith)

  pub KeepsCall-find_asset_by_serial :
      (env : Env) (tenant : String) (id : String)
      → KeepsCall (IsUnmoved u m0) (find_asset_by_serial env tenant id)
  unfolding find_asset_by_serial
  KeepsCall-find_asset_by_serial env tenant id =
      KeepsCall-read u m0 "FindAssetBySerial" _ (λ m. ground arith)

  pub KeepsCall-count_assets_by_category :
      (tenant : String) (id : String)
      → KeepsCall (IsUnmoved u m0) (count_assets_by_category tenant id)
  unfolding count_assets_by_category
  KeepsCall-count_assets_by_category tenant id =
      KeepsCall-read u m0 "CountAssetsByCategory" _ (λ m. ground arith)

  pub KeepsCall-count_assets_by_supplier :
      (tenant : String) (id : String)
      → KeepsCall (IsUnmoved u m0) (count_assets_by_supplier tenant id)
  unfolding count_assets_by_supplier
  KeepsCall-count_assets_by_supplier tenant id =
      KeepsCall-read u m0 "CountAssetsBySupplier" _ (λ m. ground arith)

  pub KeepsCall-count_assets_by_location :
      (tenant : String) (id : String)
      → KeepsCall (IsUnmoved u m0) (count_assets_by_location tenant id)
  unfolding count_assets_by_location
  KeepsCall-count_assets_by_location tenant id =
      KeepsCall-read u m0 "CountAssetsByLocation" _ (λ m. ground arith)

  pub KeepsCall-list_assignments :
      (tenant : String) (id : String) (n : ℤ)
      → KeepsCall (IsUnmoved u m0) (list_assignments tenant id n)
  unfolding list_assignments
  KeepsCall-list_assignments tenant id n =
      KeepsCall-read u m0 "ListAssignments" _ (λ m. ground arith)

  pub KeepsCall-get_category :
      (tenant : String) (id : String) → KeepsCall (IsUnmoved u m0) (get_category tenant id)
  unfolding get_category
  KeepsCall-get_category tenant id = KeepsCall-read u m0 "GetCategory" _ (λ m. ground arith)

  pub KeepsCall-list_categories :
      (tenant : String) → KeepsCall (IsUnmoved u m0) (list_categories tenant)
  unfolding list_categories
  KeepsCall-list_categories tenant = KeepsCall-read u m0 "ListCategories" _ (λ m. ground arith)

  pub KeepsCall-count_child_categories :
      (tenant : String) (id : String)
      → KeepsCall (IsUnmoved u m0) (count_child_categories tenant id)
  unfolding count_child_categories
  KeepsCall-count_child_categories tenant id =
      KeepsCall-read u m0 "CountChildCategories" _ (λ m. ground arith)

  pub KeepsCall-get_supplier :
      (tenant : String) (id : String) → KeepsCall (IsUnmoved u m0) (get_supplier tenant id)
  unfolding get_supplier
  KeepsCall-get_supplier tenant id = KeepsCall-read u m0 "GetSupplier" _ (λ m. ground arith)

  pub KeepsCall-list_suppliers :
      (env : Env) (tenant : String) (f : ListOpts)
      → KeepsCall (IsUnmoved u m0) (list_suppliers env tenant f)
  unfolding list_suppliers
  KeepsCall-list_suppliers env tenant f = KeepsCall-read u m0 "ListSuppliers" _ (λ m. ground arith)

  pub KeepsCall-get_location :
      (tenant : String) (id : String) → KeepsCall (IsUnmoved u m0) (get_location tenant id)
  unfolding get_location
  KeepsCall-get_location tenant id = KeepsCall-read u m0 "GetLocation" _ (λ m. ground arith)

  pub KeepsCall-list_locations :
      (tenant : String) → KeepsCall (IsUnmoved u m0) (list_locations tenant)
  unfolding list_locations
  KeepsCall-list_locations tenant = KeepsCall-read u m0 "ListLocations" _ (λ m. ground arith)

  pub KeepsCall-count_child_locations :
      (tenant : String) (id : String) → KeepsCall (IsUnmoved u m0) (count_child_locations tenant id)
  unfolding count_child_locations
  KeepsCall-count_child_locations tenant id =
      KeepsCall-read u m0 "CountChildLocations" _ (λ m. ground arith)

  pub KeepsCall-get_consumable :
      (tenant : String) (id : String) → KeepsCall (IsUnmoved u m0) (get_consumable tenant id)
  unfolding get_consumable
  KeepsCall-get_consumable tenant id = KeepsCall-read u m0 "GetConsumable" _ (λ m. ground arith)

  pub KeepsCall-list_consumables :
      (env : Env) (tenant : String) (f : ListOpts)
      → KeepsCall (IsUnmoved u m0) (list_consumables env tenant f)
  unfolding list_consumables
  KeepsCall-list_consumables env tenant f =
      KeepsCall-read u m0 "ListConsumables" _ (λ m. ground arith)

  pub KeepsCall-get_license :
      (tenant : String) (id : String) → KeepsCall (IsUnmoved u m0) (get_license tenant id)
  unfolding get_license
  KeepsCall-get_license tenant id = KeepsCall-read u m0 "GetLicense" _ (λ m. ground arith)

  pub KeepsCall-list_licenses :
      (env : Env) (tenant : String) (f : ListOpts)
      → KeepsCall (IsUnmoved u m0) (list_licenses env tenant f)
  unfolding list_licenses
  KeepsCall-list_licenses env tenant f = KeepsCall-read u m0 "ListLicenses" _ (λ m. ground arith)

  pub KeepsCall-get_insurance :
      (tenant : String) (id : String) → KeepsCall (IsUnmoved u m0) (get_insurance tenant id)
  unfolding get_insurance
  KeepsCall-get_insurance tenant id = KeepsCall-read u m0 "GetInsurance" _ (λ m. ground arith)

  pub KeepsCall-list_insurance :
      (env : Env) (tenant : String) (f : ListOpts)
      → KeepsCall (IsUnmoved u m0) (list_insurance env tenant f)
  unfolding list_insurance
  KeepsCall-list_insurance env tenant f = KeepsCall-read u m0 "ListInsurance" _ (λ m. ground arith)

  pub KeepsCall-list_policy_assets :
      (tenant : String) (id : String) → KeepsCall (IsUnmoved u m0) (list_policy_assets tenant id)
  unfolding list_policy_assets
  KeepsCall-list_policy_assets tenant id =
      KeepsCall-read u m0 "ListPolicyAssets" _ (λ m. ground arith)

  pub KeepsCall-list_documents :
      (tenant : String) (id : String) (key : String)
      → KeepsCall (IsUnmoved u m0) (list_documents tenant id key)
  unfolding list_documents
  KeepsCall-list_documents tenant id key = KeepsCall-read u m0 "ListDocuments" _ (λ m. ground arith)

pub ruleset reads = (
  KeepsCall-get_asset, KeepsCall-list_assets, KeepsCall-count_assets_by_category,
  KeepsCall-count_assets_by_supplier, KeepsCall-count_assets_by_location,
  KeepsCall-list_assignments, KeepsCall-get_category, KeepsCall-list_categories,
  KeepsCall-count_child_categories, KeepsCall-get_supplier, KeepsCall-list_suppliers,
  KeepsCall-get_location, KeepsCall-list_locations, KeepsCall-count_child_locations,
  KeepsCall-get_consumable, KeepsCall-list_consumables, KeepsCall-get_license,
  KeepsCall-list_licenses, KeepsCall-get_insurance, KeepsCall-list_insurance,
  KeepsCall-list_policy_assets, KeepsCall-list_documents,
)
