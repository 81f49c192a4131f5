-- ===== src/Service/Bystander/Writes.antt =====
-- The store's writes for one tenant move no other tenant's view.
use go_tangra_asset.Common.{String, ◌≢◌, Time}
use go_tangra_asset.Models.{
  Asset, Assignment, Category, Consumable, Document, InsurancePolicy, License, Location,
  PolicyAsset, Supplier,
}
use go_tangra_asset.Memstore.State.{Mem, Env}
use go_tangra_asset.Memstore.Assets.{create_asset, update_asset, delete_asset}
use go_tangra_asset.Memstore.Assignments.{insert_assignment, close_active_assignment}
use go_tangra_asset.Memstore.Categories.{create_category, update_category, delete_category}
use go_tangra_asset.Memstore.Suppliers.{create_supplier, update_supplier, delete_supplier}
use go_tangra_asset.Memstore.Locations.{create_location, update_location, delete_location}
use go_tangra_asset.Memstore.Consumables.{create_consumable, update_consumable, delete_consumable}
use go_tangra_asset.Memstore.Licenses.{create_license, update_license, delete_license}
use go_tangra_asset.Memstore.Insurance.{
  create_insurance, update_insurance, add_policy_asset, delete_insurance, remove_policy_asset,
}
use go_tangra_asset.Memstore.Documents.{insert_document, delete_document}
use go_tangra_asset.Memstore.AssetsInvariant.{
  create_asset-IsValid, update_asset-IsValid, insert_assignment-IsValid, insert_document-IsValid,
  delete_asset-IsValid, delete_document-IsValid, close_active_assignment-IsValid,
}
use go_tangra_asset.Memstore.AssetsIsolation.{
  create_asset-SameView, update_asset-SameView, insert_assignment-SameView,
  insert_document-SameView, delete_asset-SameView, delete_document-SameView,
  close_active_assignment-SameView,
}
use go_tangra_asset.Memstore.TreesInvariant.{
  create_category-IsValid, update_category-IsValid, create_supplier-IsValid,
  update_supplier-IsValid, create_location-IsValid, update_location-IsValid,
  delete_category-IsValid, delete_supplier-IsValid, delete_location-IsValid,
}
use go_tangra_asset.Memstore.TreesIsolation.{
  create_category-SameView, update_category-SameView, create_supplier-SameView,
  update_supplier-SameView, create_location-SameView, update_location-SameView,
  delete_category-SameView, delete_supplier-SameView, delete_location-SameView,
}
use go_tangra_asset.Memstore.ContractsInvariant.{
  create_consumable-IsValid, update_consumable-IsValid, create_license-IsValid,
  update_license-IsValid, create_insurance-IsValid, update_insurance-IsValid,
  add_policy_asset-IsValid, delete_consumable-IsValid, delete_license-IsValid,
  delete_insurance-IsValid, remove_policy_asset-IsValid,
}
use go_tangra_asset.Memstore.ContractsIsolation.{
  create_consumable-SameView, update_consumable-SameView, create_license-SameView,
  update_license-SameView, create_insurance-SameView, update_insurance-SameView,
  add_policy_asset-SameView, delete_consumable-SameView, delete_license-SameView,
  delete_insurance-SameView, remove_policy_asset-SameView,
}
use go_tangra_asset.Service.Keeping.{KeepsCall}
use go_tangra_asset.Service.Bystander.{IsUnmoved, KeepsCall-call}

module _ (u : String) (m0 : Mem) where
  pub KeepsCall-create_asset :
      (env : Env) (x : Asset) → u ≢ x.tenant_id → KeepsCall (IsUnmoved u m0) (create_asset env x)
  KeepsCall-create_asset env x other =
      KeepsCall-call u m0 (create_asset env x) (λ m v. create_asset-IsValid env m v x)
        (λ m v. create_asset-SameView u env m x other)

  pub KeepsCall-update_asset :
      (env : Env) (x : Asset) → u ≢ x.tenant_id → KeepsCall (IsUnmoved u m0) (update_asset env x)
  KeepsCall-update_asset env x other =
      KeepsCall-call u m0 (update_asset env x) (λ m v. update_asset-IsValid env m v x)
        (λ m v. update_asset-SameView u env m x other)

  pub KeepsCall-insert_assignment :
      (env : Env) (x : Assignment)
      → u ≢ x.tenant_id
      → KeepsCall (IsUnmoved u m0) (insert_assignment env x)
  KeepsCall-insert_assignment env x other =
      KeepsCall-call u m0 (insert_assignment env x) (λ m v. insert_assignment-IsValid env m v x)
        (λ m v. insert_assignment-SameView u env m x other)

  pub KeepsCall-create_category :
      (env : Env) (x : Category)
      → u ≢ x.tenant_id
      → KeepsCall (IsUnmoved u m0) (create_category env x)
  KeepsCall-create_category env x other =
      KeepsCall-call u m0 (create_category env x) (λ m v. create_category-IsValid env m v x)
        (λ m v. create_category-SameView u env m x other)

  pub KeepsCall-update_category :
      (env : Env) (x : Category)
      → u ≢ x.tenant_id
      → KeepsCall (IsUnmoved u m0) (update_category env x)
  KeepsCall-update_category env x other =
      KeepsCall-call u m0 (update_category env x) (λ m v. update_category-IsValid env m v x)
        (λ m v. update_category-SameView u env m x other)

  pub KeepsCall-create_supplier :
      (env : Env) (x : Supplier)
      → u ≢ x.tenant_id
      → KeepsCall (IsUnmoved u m0) (create_supplier env x)
  KeepsCall-create_supplier env x other =
      KeepsCall-call u m0 (create_supplier env x) (λ m v. create_supplier-IsValid env m v x)
        (λ m v. create_supplier-SameView u env m x other)

  pub KeepsCall-update_supplier :
      (env : Env) (x : Supplier)
      → u ≢ x.tenant_id
      → KeepsCall (IsUnmoved u m0) (update_supplier env x)
  KeepsCall-update_supplier env x other =
      KeepsCall-call u m0 (update_supplier env x) (λ m v. update_supplier-IsValid env m v x)
        (λ m v. update_supplier-SameView u env m x other)

  pub KeepsCall-create_location :
      (env : Env) (x : Location)
      → u ≢ x.tenant_id
      → KeepsCall (IsUnmoved u m0) (create_location env x)
  KeepsCall-create_location env x other =
      KeepsCall-call u m0 (create_location env x) (λ m v. create_location-IsValid env m v x)
        (λ m v. create_location-SameView u env m x other)

  pub KeepsCall-update_location :
      (env : Env) (x : Location)
      → u ≢ x.tenant_id
      → KeepsCall (IsUnmoved u m0) (update_location env x)
  KeepsCall-update_location env x other =
      KeepsCall-call u m0 (update_location env x) (λ m v. update_location-IsValid env m v x)
        (λ m v. update_location-SameView u env m x other)

  pub KeepsCall-create_consumable :
      (env : Env) (x : Consumable)
      → u ≢ x.tenant_id
      → KeepsCall (IsUnmoved u m0) (create_consumable env x)
  KeepsCall-create_consumable env x other =
      KeepsCall-call u m0 (create_consumable env x) (λ m v. create_consumable-IsValid env m v x)
        (λ m v. create_consumable-SameView u env m x other)

  pub KeepsCall-update_consumable :
      (env : Env) (x : Consumable)
      → u ≢ x.tenant_id
      → KeepsCall (IsUnmoved u m0) (update_consumable env x)
  KeepsCall-update_consumable env x other =
      KeepsCall-call u m0 (update_consumable env x) (λ m v. update_consumable-IsValid env m v x)
        (λ m v. update_consumable-SameView u env m x other)

  pub KeepsCall-create_license :
      (env : Env) (x : License)
      → u ≢ x.tenant_id
      → KeepsCall (IsUnmoved u m0) (create_license env x)
  KeepsCall-create_license env x other =
      KeepsCall-call u m0 (create_license env x) (λ m v. create_license-IsValid env m v x)
        (λ m v. create_license-SameView u env m x other)

  pub KeepsCall-update_license :
      (env : Env) (x : License)
      → u ≢ x.tenant_id
      → KeepsCall (IsUnmoved u m0) (update_license env x)
  KeepsCall-update_license env x other =
      KeepsCall-call u m0 (update_license env x) (λ m v. update_license-IsValid env m v x)
        (λ m v. update_license-SameView u env m x other)

  pub KeepsCall-create_insurance :
      (env : Env) (x : InsurancePolicy)
      → u ≢ x.tenant_id
      → KeepsCall (IsUnmoved u m0) (create_insurance env x)
  KeepsCall-create_insurance env x other =
      KeepsCall-call u m0 (create_insurance env x) (λ m v. create_insurance-IsValid env m v x)
        (λ m v. create_insurance-SameView u env m x other)

  pub KeepsCall-update_insurance :
      (env : Env) (x : InsurancePolicy)
      → u ≢ x.tenant_id
      → KeepsCall (IsUnmoved u m0) (update_insurance env x)
  KeepsCall-update_insurance env x other =
      KeepsCall-call u m0 (update_insurance env x) (λ m v. update_insurance-IsValid env m v x)
        (λ m v. update_insurance-SameView u env m x other)

  pub KeepsCall-add_policy_asset :
      (env : Env) (x : PolicyAsset)
      → u ≢ x.tenant_id
      → KeepsCall (IsUnmoved u m0) (add_policy_asset env x)
  KeepsCall-add_policy_asset env x other =
      KeepsCall-call u m0 (add_policy_asset env x) (λ m v. add_policy_asset-IsValid env m v x)
        (λ m v. add_policy_asset-SameView u env m x other)

  pub KeepsCall-insert_document :
      (env : Env) (x : Document)
      → u ≢ x.tenant_id
      → KeepsCall (IsUnmoved u m0) (insert_document env x)
  KeepsCall-insert_document env x other =
      KeepsCall-call u m0 (insert_document env x) (λ m v. insert_document-IsValid env m v x)
        (λ m v. insert_document-SameView u env m x other)

  pub KeepsCall-delete_asset :
      (tenant id : String) → u ≢ tenant → KeepsCall (IsUnmoved u m0) (delete_asset tenant id)
  KeepsCall-delete_asset tenant id other =
      KeepsCall-call u m0 (delete_asset tenant id) (λ m v. delete_asset-IsValid m v tenant id)
        (λ m v. delete_asset-SameView u m tenant id other)

  pub KeepsCall-delete_document :
      (tenant id : String) → u ≢ tenant → KeepsCall (IsUnmoved u m0) (delete_document tenant id)
  KeepsCall-delete_document tenant id other =
      KeepsCall-call u m0 (delete_document tenant id) (λ m v. delete_document-IsValid m v tenant id)
        (λ m v. delete_document-SameView u m tenant id other)

  pub KeepsCall-delete_category :
      (tenant id : String) → u ≢ tenant → KeepsCall (IsUnmoved u m0) (delete_category tenant id)
  KeepsCall-delete_category tenant id other =
      KeepsCall-call u m0 (delete_category tenant id) (λ m v. delete_category-IsValid m v tenant id)
        (λ m v. delete_category-SameView u m tenant id other)

  pub KeepsCall-delete_supplier :
      (tenant id : String) → u ≢ tenant → KeepsCall (IsUnmoved u m0) (delete_supplier tenant id)
  KeepsCall-delete_supplier tenant id other =
      KeepsCall-call u m0 (delete_supplier tenant id) (λ m v. delete_supplier-IsValid m v tenant id)
        (λ m v. delete_supplier-SameView u m tenant id other)

  pub KeepsCall-delete_location :
      (tenant id : String) → u ≢ tenant → KeepsCall (IsUnmoved u m0) (delete_location tenant id)
  KeepsCall-delete_location tenant id other =
      KeepsCall-call u m0 (delete_location tenant id) (λ m v. delete_location-IsValid m v tenant id)
        (λ m v. delete_location-SameView u m tenant id other)

  pub KeepsCall-delete_consumable :
      (tenant id : String) → u ≢ tenant → KeepsCall (IsUnmoved u m0) (delete_consumable tenant id)
  KeepsCall-delete_consumable tenant id other =
      KeepsCall-call u m0 (delete_consumable tenant id)
        (λ m v. delete_consumable-IsValid m v tenant id)
        (λ m v. delete_consumable-SameView u m tenant id other)

  pub KeepsCall-delete_license :
      (tenant id : String) → u ≢ tenant → KeepsCall (IsUnmoved u m0) (delete_license tenant id)
  KeepsCall-delete_license tenant id other =
      KeepsCall-call u m0 (delete_license tenant id) (λ m v. delete_license-IsValid m v tenant id)
        (λ m v. delete_license-SameView u m tenant id other)

  pub KeepsCall-delete_insurance :
      (tenant id : String) → u ≢ tenant → KeepsCall (IsUnmoved u m0) (delete_insurance tenant id)
  KeepsCall-delete_insurance tenant id other =
      KeepsCall-call u m0 (delete_insurance tenant id)
        (λ m v. delete_insurance-IsValid m v tenant id)
        (λ m v. delete_insurance-SameView u m tenant id other)

  pub KeepsCall-close_active_assignment :
      (env : Env) (tenant id : String) (at : Time)
      → u ≢ tenant
      → KeepsCall (IsUnmoved u m0) (close_active_assignment env tenant id at)
  KeepsCall-close_active_assignment env tenant id at other =
      KeepsCall-call u m0 (close_active_assignment env tenant id at)
        (λ m v. close_active_assignment-IsValid env m v tenant id at)
        (λ m v. close_active_assignment-SameView u env m tenant id at other)

  pub KeepsCall-remove_policy_asset :
      (tenant id asset : String)
      → u ≢ tenant
      → KeepsCall (IsUnmoved u m0) (remove_policy_asset tenant id asset)
  KeepsCall-remove_policy_asset tenant id asset other =
      KeepsCall-call u m0 (remove_policy_asset tenant id asset)
        (λ m v. remove_policy_asset-IsValid m v tenant id asset)
        (λ m v. remove_policy_asset-SameView u m v tenant id asset other)

pub ruleset writes = (
  KeepsCall-create_category, KeepsCall-update_category, KeepsCall-delete_category,
  KeepsCall-create_supplier, KeepsCall-update_supplier, KeepsCall-delete_supplier,
  KeepsCall-create_location, KeepsCall-update_location, KeepsCall-delete_location,
  KeepsCall-create_consumable, KeepsCall-update_consumable, KeepsCall-delete_consumable,
  KeepsCall-create_license, KeepsCall-update_license, KeepsCall-delete_license,
  KeepsCall-create_insurance, KeepsCall-update_insurance, KeepsCall-delete_insurance,
  KeepsCall-add_policy_asset, KeepsCall-remove_policy_asset, KeepsCall-create_asset,
  KeepsCall-update_asset, KeepsCall-delete_asset, KeepsCall-insert_assignment,
  KeepsCall-close_active_assignment, KeepsCall-insert_document, KeepsCall-delete_document,
)
