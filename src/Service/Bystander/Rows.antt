-- ===== src/Service/Bystander/Rows.antt =====
-- The row that a lookup gives is of the tenant that was asked for, and what follows may use that.
use go_tangra_asset.Common.{String, ◌≡◌, ◌≢◌, ◌∙◌, arith}
use go_tangra_asset.Memstore.State.{Mem, Env, Err, call}
use go_tangra_asset.Memstore.Assets.{get_asset, fill_asset, stored_book_value}
use go_tangra_asset.Memstore.Categories.{get_category, fill_category}
use go_tangra_asset.Memstore.Suppliers.{get_supplier}
use go_tangra_asset.Memstore.Locations.{get_location, fill_location}
use go_tangra_asset.Memstore.Consumables.{get_consumable}
use go_tangra_asset.Memstore.Licenses.{get_license}
use go_tangra_asset.Memstore.Insurance.{get_insurance, fill_insurance}
use go_tangra_asset.Models.{
  Asset, Category, Supplier, Location, Consumable, License, InsurancePolicy,
}
use go_tangra_asset.Service.{Action, Fault, on_store, ◌>>=◌}
use go_tangra_asset.Service.Keeping.{Gives, Gives-on_store, Keeps, Keeps-bind_given, Keeps-on_store}
use go_tangra_asset.Service.Bystander.{IsUnmoved}
use go_tangra_asset.Service.Bystander.Reads.{
  KeepsCall-get_asset, KeepsCall-get_category, KeepsCall-get_supplier, KeepsCall-get_location,
  KeepsCall-get_consumable, KeepsCall-get_license, KeepsCall-get_insurance,
}

module _ (map_err : Err → Fault) (tenant id : String) where
  pub Gives-get_category :
      Gives (λ c. c.tenant_id ≡ tenant) (on_store map_err (get_category tenant id))
  unfolding get_category call fill_category
  Gives-get_category = Gives-on_store _ map_err (get_category tenant id) (λ m a e. ground arith)

  pub Gives-get_supplier :
      Gives (λ c. c.tenant_id ≡ tenant) (on_store map_err (get_supplier tenant id))
  unfolding get_supplier call
  Gives-get_supplier = Gives-on_store _ map_err (get_supplier tenant id) (λ m a e. ground arith)

  pub Gives-get_location :
      Gives (λ c. c.tenant_id ≡ tenant) (on_store map_err (get_location tenant id))
  unfolding get_location call fill_location
  Gives-get_location = Gives-on_store _ map_err (get_location tenant id) (λ m a e. ground arith)

  pub Gives-get_consumable :
      Gives (λ c. c.tenant_id ≡ tenant) (on_store map_err (get_consumable tenant id))
  unfolding get_consumable call
  Gives-get_consumable = Gives-on_store _ map_err (get_consumable tenant id) (λ m a e. ground arith)

  pub Gives-get_license :
      Gives (λ c. c.tenant_id ≡ tenant) (on_store map_err (get_license tenant id))
  unfolding get_license call
  Gives-get_license = Gives-on_store _ map_err (get_license tenant id) (λ m a e. ground arith)

  pub Gives-get_insurance :
      Gives (λ c. c.tenant_id ≡ tenant) (on_store map_err (get_insurance tenant id))
  unfolding get_insurance call fill_insurance
  Gives-get_insurance = Gives-on_store _ map_err (get_insurance tenant id) (λ m a e. ground arith)

  pub Gives-get_asset :
      (env : Env) → Gives (λ c. c.tenant_id ≡ tenant) (on_store map_err (get_asset env tenant id))
  unfolding get_asset call fill_asset stored_book_value
  Gives-get_asset env = Gives-on_store _ map_err (get_asset env tenant id) (λ m a e. ground arith)

module _ (u : String) (m0 : Mem) {B : Type 0} where
  -- A step that gives a row of `tenant`, which is not `u`.
  pub Keeps-of_tenant :
      {A : Type 0} (tenant_of : A → String) (tenant : String) (o : Action A) (f : A → Action B)
      → Gives (λ c. tenant_of c ≡ tenant) o
      → Keeps (IsUnmoved u m0) o
      → u ≢ tenant
      → ((c : A) → u ≢ tenant_of c → Keeps (IsUnmoved u m0) (f c))
      → Keeps (IsUnmoved u m0) (o >>= f)
  Keeps-of_tenant tenant_of tenant o f g k other rest =
      Keeps-bind_given (IsUnmoved u m0) _ o f g k (λ c e. rest c (λ same. other (same ∙ e)))

  pub Keeps-get_category :
      (map_err : Err → Fault) (tenant id : String) (f : Category → Action B)
      → u ≢ tenant
      → ((c : Category) → u ≢ c.tenant_id → Keeps (IsUnmoved u m0) (f c))
      → Keeps (IsUnmoved u m0) (on_store map_err (get_category tenant id) >>= f)
  Keeps-get_category map_err tenant id f =
      Keeps-of_tenant (λ c. c.tenant_id) tenant _ f (Gives-get_category map_err tenant id)
        (Keeps-on_store _ map_err _ (KeepsCall-get_category u m0 tenant id))

  pub Keeps-get_supplier :
      (map_err : Err → Fault) (tenant id : String) (f : Supplier → Action B)
      → u ≢ tenant
      → ((c : Supplier) → u ≢ c.tenant_id → Keeps (IsUnmoved u m0) (f c))
      → Keeps (IsUnmoved u m0) (on_store map_err (get_supplier tenant id) >>= f)
  Keeps-get_supplier map_err tenant id f =
      Keeps-of_tenant (λ c. c.tenant_id) tenant _ f (Gives-get_supplier map_err tenant id)
        (Keeps-on_store _ map_err _ (KeepsCall-get_supplier u m0 tenant id))

  pub Keeps-get_location :
      (map_err : Err → Fault) (tenant id : String) (f : Location → Action B)
      → u ≢ tenant
      → ((c : Location) → u ≢ c.tenant_id → Keeps (IsUnmoved u m0) (f c))
      → Keeps (IsUnmoved u m0) (on_store map_err (get_location tenant id) >>= f)
  Keeps-get_location map_err tenant id f =
      Keeps-of_tenant (λ c. c.tenant_id) tenant _ f (Gives-get_location map_err tenant id)
        (Keeps-on_store _ map_err _ (KeepsCall-get_location u m0 tenant id))

  pub Keeps-get_consumable :
      (map_err : Err → Fault) (tenant id : String) (f : Consumable → Action B)
      → u ≢ tenant
      → ((c : Consumable) → u ≢ c.tenant_id → Keeps (IsUnmoved u m0) (f c))
      → Keeps (IsUnmoved u m0) (on_store map_err (get_consumable tenant id) >>= f)
  Keeps-get_consumable map_err tenant id f =
      Keeps-of_tenant (λ c. c.tenant_id) tenant _ f (Gives-get_consumable map_err tenant id)
        (Keeps-on_store _ map_err _ (KeepsCall-get_consumable u m0 tenant id))

  pub Keeps-get_license :
      (map_err : Err → Fault) (tenant id : String) (f : License → Action B)
      → u ≢ tenant
      → ((c : License) → u ≢ c.tenant_id → Keeps (IsUnmoved u m0) (f c))
      → Keeps (IsUnmoved u m0) (on_store map_err (get_license tenant id) >>= f)
  Keeps-get_license map_err tenant id f =
      Keeps-of_tenant (λ c. c.tenant_id) tenant _ f (Gives-get_license map_err tenant id)
        (Keeps-on_store _ map_err _ (KeepsCall-get_license u m0 tenant id))

  pub Keeps-get_insurance :
      (map_err : Err → Fault) (tenant id : String) (f : InsurancePolicy → Action B)
      → u ≢ tenant
      → ((c : InsurancePolicy) → u ≢ c.tenant_id → Keeps (IsUnmoved u m0) (f c))
      → Keeps (IsUnmoved u m0) (on_store map_err (get_insurance tenant id) >>= f)
  Keeps-get_insurance map_err tenant id f =
      Keeps-of_tenant (λ c. c.tenant_id) tenant _ f (Gives-get_insurance map_err tenant id)
        (Keeps-on_store _ map_err _ (KeepsCall-get_insurance u m0 tenant id))

  pub Keeps-get_asset :
      (map_err : Err → Fault) (env : Env) (tenant id : String) (f : Asset → Action B)
      → u ≢ tenant
      → ((c : Asset) → u ≢ c.tenant_id → Keeps (IsUnmoved u m0) (f c))
      → Keeps (IsUnmoved u m0) (on_store map_err (get_asset env tenant id) >>= f)
  Keeps-get_asset map_err env tenant id f =
      Keeps-of_tenant (λ c. c.tenant_id) tenant _ f (Gives-get_asset map_err tenant id env)
        (Keeps-on_store _ map_err _ (KeepsCall-get_asset u m0 env tenant id))

pub ruleset rows = (
  Keeps-get_category, Keeps-get_supplier, Keeps-get_location, Keeps-get_consumable,
  Keeps-get_license, Keeps-get_insurance, Keeps-get_asset,
)
