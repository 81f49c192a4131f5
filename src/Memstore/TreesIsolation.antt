-- ===== src/Memstore/TreesIsolation.antt =====
-- A call for one tenant on categories, suppliers or locations leaves every other tenant's rows alone.
use go_tangra_asset.Common.{String, ◌≢◌, arith}
use go_tangra_asset.Table.Laws.{lookup-has}
use go_tangra_asset.Table.Select.{select-insert_skip, select-erase_skip, select-update_where_skip}
use go_tangra_asset.Memstore.State.{Mem, Env}
use go_tangra_asset.Memstore.View.{SameView, call-SameView}
use go_tangra_asset.Models.{Category, Supplier, Location}
use go_tangra_asset.Memstore.Categories.{create_category, update_category, delete_category}
use go_tangra_asset.Memstore.Suppliers.{create_supplier, update_supplier, delete_supplier}
use go_tangra_asset.Memstore.Locations.{create_location, update_location, delete_location}

module _ (u : String) (env : Env) (m : Mem) where
  pub create_category-SameView :
      (c : Category) → u ≢ c.tenant_id → SameView u m (create_category env c m).1
  unfolding create_category
  create_category-SameView c other =
      call-SameView u "CreateCategory" _ _ (grind (arith, lookup-has, select-insert_skip))

  pub update_category-SameView :
      (c : Category) → u ≢ c.tenant_id → SameView u m (update_category env c m).1
  unfolding update_category
  update_category-SameView c other =
      call-SameView u "UpdateCategory" _ _ (grind (arith, select-insert_skip))

  pub create_supplier-SameView :
      (s : Supplier) → u ≢ s.tenant_id → SameView u m (create_supplier env s m).1
  unfolding create_supplier
  create_supplier-SameView s other =
      call-SameView u "CreateSupplier" _ _ (grind (arith, lookup-has, select-insert_skip))

  pub update_supplier-SameView :
      (s : Supplier) → u ≢ s.tenant_id → SameView u m (update_supplier env s m).1
  unfolding update_supplier
  update_supplier-SameView s other =
      call-SameView u "UpdateSupplier" _ _ (grind (arith, select-insert_skip))

  pub create_location-SameView :
      (l : Location) → u ≢ l.tenant_id → SameView u m (create_location env l m).1
  unfolding create_location
  create_location-SameView l other =
      call-SameView u "CreateLocation" _ _ (grind (arith, lookup-has, select-insert_skip))

  pub update_location-SameView :
      (l : Location) → u ≢ l.tenant_id → SameView u m (update_location env l m).1
  unfolding update_location
  update_location-SameView l other =
      call-SameView u "UpdateLocation" _ _ (grind (arith, select-insert_skip))

module _ (u : String) (m : Mem) (tenant id : String) (other : u ≢ tenant) where
  pub delete_category-SameView : SameView u m (delete_category tenant id m).1
  unfolding delete_category
  delete_category-SameView =
      call-SameView u "DeleteCategory" _ _
        (grind (arith, select-erase_skip, select-update_where_skip))

  pub delete_supplier-SameView : SameView u m (delete_supplier tenant id m).1
  unfolding delete_supplier
  delete_supplier-SameView =
      call-SameView u "DeleteSupplier" _ _
        (grind (arith, select-erase_skip, select-update_where_skip))

  pub delete_location-SameView : SameView u m (delete_location tenant id m).1
  unfolding delete_location
  delete_location-SameView =
      call-SameView u "DeleteLocation" _ _
        (grind (arith, select-erase_skip, select-update_where_skip))
