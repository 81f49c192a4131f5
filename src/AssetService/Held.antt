-- ===== src/AssetService/Held.antt =====
-- The invariant of the lifecycle: an asset has an assignee exactly while it is assigned, and no
-- location then.
use go_tangra_asset.Common.{
  String, ◌≡◌, ◌≢◌, some, [], arith, Option-cases, inl, inr, ne_of_test, refl, Time,
}
use go_tangra_asset.Table.{Table, lookup, insert, erase, IsDistinct}
use go_tangra_asset.Table.Laws.{lookup-insert, insert-IsDistinct, lookup-erase, erase-IsDistinct}
use go_tangra_asset.Models.{Asset, Assignment, asset_assigned, asset_deployable}
use go_tangra_asset.Memstore.State.{Mem, Env, call, disarm, ok, or_default}
use go_tangra_asset.Memstore.Assets.{
  create_asset, get_asset, update_asset, delete_asset, fill_asset, tagged, defaulted,
  stored_book_value,
}
use go_tangra_asset.Memstore.Assignments.{insert_assignment, close_active_assignment}
use go_tangra_asset.Memstore.Documents.{list_documents, delete_document}
use go_tangra_asset.Memstore.Categories.{get_category}
use go_tangra_asset.Memstore.Suppliers.{get_supplier}
use go_tangra_asset.Memstore.Locations.{get_location}

pub record IsHeld (a : Asset) : Type 0 where
  pub assignee : a.status ≡ asset_assigned → a.user_id ≢ ""
  pub nowhere : a.status ≡ asset_assigned → a.location_id ≡ ""
  pub only_then : a.user_id ≢ "" → a.status ≡ asset_assigned

-- Every asset of the table is so, and the table has one row for each key.
pub record AllHeld (t : Table Asset) : Type 0 where
  pub distinct : IsDistinct t
  pub held : (k : String) (a : Asset) → lookup k t ≡ some a → IsHeld a

pub empty-AllHeld : AllHeld []
unfolding lookup
empty-AllHeld = record { distinct = tt; held = λ k a e. cc }

pub insert-AllHeld :
    (k : String) (a : Asset) (t : Table Asset) → IsHeld a → AllHeld t → AllHeld (insert k a t)
insert-AllHeld k a t h all = record {
  distinct = insert-IsDistinct k a t all.distinct;
  held = λ j b e. ground (arith, lookup-insert j k a t, all.held j b);
}

pub erase-AllHeld : (k : String) (t : Table Asset) → AllHeld t → AllHeld (erase k t)
erase-AllHeld k t all = record {
  distinct = erase-IsDistinct k t all.distinct;
  held = λ j b e. ground (arith, lookup-erase j k t all.distinct, all.held j b);
}

pub deployable-ne-assigned : asset_deployable ≢ asset_assigned
deployable-ne-assigned = ne_of_test asset_deployable asset_assigned refl

-- An asset without an assignee that is not marked assigned.
free-IsHeld : (a : Asset) → a.status ≢ asset_assigned → a.user_id ≡ "" → IsHeld a
free-IsHeld a s u = ground arith

module _ (env : Env) (m : Mem) (all : AllHeld m.assets) where
  pub get_asset-AllHeld : (tenant id : String) → AllHeld (get_asset env tenant id m).1.assets
  unfolding get_asset call disarm
  get_asset-AllHeld tenant id = ground arith

  pub get_asset-IsHeld :
      (tenant id : String) (a : Asset) → (get_asset env tenant id m).0 ≡ ok a → IsHeld a
  unfolding get_asset call disarm fill_asset stored_book_value
  get_asset-IsHeld tenant id a e = elim (Option-cases (lookup id m.assets)) [
    | inl gone ↦ ground arith
    | inr (b, found) ↦ ground (arith, all.held id b found)
  ]

  pub create_asset-AllHeld :
      (a : Asset)
      → a.status ≢ asset_assigned
      → a.user_id ≡ ""
      → AllHeld (create_asset env a m).1.assets
  unfolding create_asset call disarm
  create_asset-AllHeld a s u =
      let row = defaulted env (record (tagged env a) { id = or_default a.id env.new_id }) in
      let h = free-IsHeld row (λ p. ground (arith, deployable-ne-assigned)) u in
      ground (arith, insert-AllHeld row.id row m.assets h all)

  pub update_asset-AllHeld : (a : Asset) → IsHeld a → AllHeld (update_asset env a m).1.assets
  unfolding update_asset call disarm
  update_asset-AllHeld a h = grind (arith, insert-AllHeld)

module _ (m : Mem) (all : AllHeld m.assets) (tenant id : String) where
  pub delete_asset-AllHeld : AllHeld (delete_asset tenant id m).1.assets
  unfolding delete_asset call disarm
  delete_asset-AllHeld = ground (arith, erase-AllHeld id m.assets all)

-- The other calls that the service makes leave the assets alone.
module _ (m : Mem) (tenant id : String) where
  pub list_documents-assets :
      (kind : String) → (list_documents tenant kind id m).1.assets ≡ m.assets
  unfolding list_documents call disarm
  list_documents-assets kind = ground arith

  pub delete_document-assets : (delete_document tenant id m).1.assets ≡ m.assets
  unfolding delete_document call disarm
  delete_document-assets = ground arith

  pub get_category-assets : (get_category tenant id m).1.assets ≡ m.assets
  unfolding get_category call disarm
  get_category-assets = ground arith

  pub get_supplier-assets : (get_supplier tenant id m).1.assets ≡ m.assets
  unfolding get_supplier call disarm
  get_supplier-assets = ground arith

  pub get_location-assets : (get_location tenant id m).1.assets ≡ m.assets
  unfolding get_location call disarm
  get_location-assets = ground arith

  pub insert_assignment-assets :
      (env : Env) (a : Assignment) → (insert_assignment env a m).1.assets ≡ m.assets
  unfolding insert_assignment call disarm
  insert_assignment-assets env a = ground arith

  pub close_active_assignment-assets :
      (env : Env) (at : Time) → (close_active_assignment env tenant id at m).1.assets ≡ m.assets
  unfolding close_active_assignment call disarm
  close_active_assignment-assets env at = ground arith
