-- ===== src/Memstore/TreesInvariant.antt =====
-- The calls on categories, suppliers and locations keep the store's invariant.
use go_tangra_asset.Common.{String, ◌≡◌, refl, true, arith}
use go_tangra_asset.Table.{Table, update_where}
use go_tangra_asset.Table.Sound.{
  IsSound, insert_new-IsSound, insert_over-IsSound, erase-IsSound, update_where-IsSound,
}
use go_tangra_asset.Models.{Asset, Category, Supplier, Location, Consumable, License}
use go_tangra_asset.Memstore.State.{Mem, Env}
use go_tangra_asset.Memstore.Assets.{same_tag}
use go_tangra_asset.Memstore.Categories.{
  create_category, update_category, delete_category, same_category, consumable_in_category,
}
use go_tangra_asset.Memstore.Suppliers.{
  create_supplier, update_supplier, delete_supplier, same_supplier, asset_from, consumable_from,
  license_from,
}
use go_tangra_asset.Memstore.Locations.{
  create_location, update_location, delete_location, same_location, consumable_at,
}
use go_tangra_asset.Memstore.Invariant.{IsValid, call-IsValid, never, update_free-IsSound}

same_category_sym : (a b : Category) → same_category a b ≡ true → same_category b a ≡ true
same_category_sym a b h = ground arith

same_supplier_sym : (a b : Supplier) → same_supplier a b ≡ true → same_supplier b a ≡ true
same_supplier_sym a b h = ground arith

same_location_sym : (a b : Location) → same_location a b ≡ true → same_location b a ≡ true
same_location_sym a b h = ground arith

module _ (env : Env) (m : Mem) (v : IsValid m) where
  pub create_category-IsValid : (c : Category) → IsValid (create_category env c m).1
  unfolding create_category
  create_category-IsValid c =
      call-IsValid "CreateCategory" _ _ v (grind (arith, insert_new-IsSound, same_category_sym))

  pub update_category-IsValid : (c : Category) → IsValid (update_category env c m).1
  unfolding update_category
  update_category-IsValid c =
      call-IsValid "UpdateCategory" _ _ v (grind (arith, insert_over-IsSound, same_category_sym))

  pub create_supplier-IsValid : (s : Supplier) → IsValid (create_supplier env s m).1
  unfolding create_supplier
  create_supplier-IsValid s =
      call-IsValid "CreateSupplier" _ _ v (grind (arith, insert_new-IsSound, same_supplier_sym))

  pub update_supplier-IsValid : (s : Supplier) → IsValid (update_supplier env s m).1
  unfolding update_supplier
  update_supplier-IsValid s =
      call-IsValid "UpdateSupplier" _ _ v (grind (arith, insert_over-IsSound, same_supplier_sym))

  pub create_location-IsValid : (l : Location) → IsValid (create_location env l m).1
  unfolding create_location
  create_location-IsValid l =
      call-IsValid "CreateLocation" _ _ v (grind (arith, insert_new-IsSound, same_location_sym))

  pub update_location-IsValid : (l : Location) → IsValid (update_location env l m).1
  unfolding update_location
  update_location-IsValid l =
      call-IsValid "UpdateLocation" _ _ v (grind (arith, insert_over-IsSound, same_location_sym))

-- Each reference that a delete clears leaves the table sound.
no_category-IsSound :
    (tenant id : String) (t : Table Consumable)
    → IsSound (λ (x : Consumable). x.id) never t
    → IsSound
        (λ (x : Consumable). x.id)
        never
        (update_where (consumable_in_category tenant id) (λ x. record x { category_id = "" }) t)
no_category-IsSound tenant id t = update_free-IsSound (λ (x : Consumable). x.id) _ _ t (λ x. refl)

no_location-IsSound :
    (tenant id : String) (t : Table Consumable)
    → IsSound (λ (x : Consumable). x.id) never t
    → IsSound
        (λ (x : Consumable). x.id)
        never
        (update_where (consumable_at tenant id) (λ x. record x { location_id = "" }) t)
no_location-IsSound tenant id t = update_free-IsSound (λ (x : Consumable). x.id) _ _ t (λ x. refl)

assets_no_supplier-IsSound :
    (tenant id : String) (t : Table Asset)
    → IsSound (λ (x : Asset). x.id) same_tag t
    → IsSound
        (λ (x : Asset). x.id)
        same_tag
        (update_where (asset_from tenant id) (λ x. record x { supplier_id = "" }) t)
assets_no_supplier-IsSound tenant id t =
    update_where-IsSound (λ (x : Asset). x.id) same_tag _ _ t (λ x. refl) (λ x y. refl)
      (λ x y. refl)

consumables_no_supplier-IsSound :
    (tenant id : String) (t : Table Consumable)
    → IsSound (λ (x : Consumable). x.id) never t
    → IsSound
        (λ (x : Consumable). x.id)
        never
        (update_where (consumable_from tenant id) (λ x. record x { supplier_id = "" }) t)
consumables_no_supplier-IsSound tenant id t =
    update_free-IsSound (λ (x : Consumable). x.id) _ _ t (λ x. refl)

licenses_no_supplier-IsSound :
    (tenant id : String) (t : Table License)
    → IsSound (λ (x : License). x.id) never t
    → IsSound
        (λ (x : License). x.id)
        never
        (update_where (license_from tenant id) (λ x. record x { supplier_id = "" }) t)
licenses_no_supplier-IsSound tenant id t =
    update_free-IsSound (λ (x : License). x.id) _ _ t (λ x. refl)

module _ (m : Mem) (v : IsValid m) (tenant id : String) where
  pub delete_category-IsValid : IsValid (delete_category tenant id m).1
  unfolding delete_category
  delete_category-IsValid =
      call-IsValid "DeleteCategory" _ _ v
        (grind (arith, erase-IsSound, no_category-IsSound tenant id m.consumables))

  pub delete_location-IsValid : IsValid (delete_location tenant id m).1
  unfolding delete_location
  delete_location-IsValid =
      call-IsValid "DeleteLocation" _ _ v
        (grind (arith, erase-IsSound, no_location-IsSound tenant id m.consumables))

  pub delete_supplier-IsValid : IsValid (delete_supplier tenant id m).1
  unfolding delete_supplier
  delete_supplier-IsValid = call-IsValid "DeleteSupplier" _ _ v (
      grind (
        arith,
        erase-IsSound,
        assets_no_supplier-IsSound tenant id m.assets,
        consumables_no_supplier-IsSound tenant id m.consumables,
        licenses_no_supplier-IsSound tenant id m.licenses,
      ))
