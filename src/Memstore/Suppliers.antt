-- ===== src/Memstore/Suppliers.antt =====
-- internal/memstore/memstore.go, `// ---- suppliers`, with `matchSuppliers` of lists.go.
use go_tangra_asset.Common.{String, Bool, not, ◌&&◌, ◌||◌, List, ⊤, ◌==◌, contains}
use go_tangra_asset.Table.{lookup, insert, erase, has, some_row, select, update_where}
use go_tangra_asset.Models.{Asset, Supplier, Consumable, License, ListOpts, sup_active}
use go_tangra_asset.Memstore.State.{
  Env, Op, not_found, conflict, ◌>>=◌, ◌>>◌, pure, get, put, refuse_if, or_refuse, call, or_now,
  or_default, of_tenant,
}
use go_tangra_asset.Memstore.Page.{paginate}

abbrev pub supplier_tenant : Supplier → String
supplier_tenant s = s.tenant_id

abbrev pub same_supplier : Supplier → Supplier → Bool
same_supplier s ex = ex.tenant_id == s.tenant_id && ex.name == s.name

unfoldable pub create_supplier : Env → Supplier → Op ⊤
create_supplier env s = call "CreateSupplier" do
  m ← get
  refuse_if (some_row (same_supplier s) m.suppliers) conflict
  let row = record s {
    id = or_default s.id env.new_id;
    status = or_default s.status sup_active;
    created_at = or_now env s.created_at;
    updated_at = env.now;
  }
  refuse_if (has row.id m.suppliers) conflict
  put (record m { suppliers = insert row.id row m.suppliers })

unfoldable pub get_supplier : String → String → Op Supplier
get_supplier tenant id =
    call "GetSupplier"
      do m ← get; or_refuse (of_tenant supplier_tenant tenant (lookup id m.suppliers)) not_found

unfoldable pub matches_supplier : Env → String → String → Supplier → Bool
matches_supplier env tenant query s =
    let q = env.to_lower query in
    s.tenant_id == tenant
    && (q == "" || contains (env.to_lower s.name) q || contains (env.to_lower s.code) q)

unfoldable pub list_suppliers : Env → String → ListOpts → Op (List Supplier)
list_suppliers env tenant f = call "ListSuppliers" do
  m ← get
  pure (
      paginate (λ s. s.id) f.cursor_id f.limit
        (select (matches_supplier env tenant f.query) m.suppliers))

unfoldable pub update_supplier : Env → Supplier → Op ⊤
update_supplier env s = call "UpdateSupplier" do
  m ← get
  ex ← or_refuse (of_tenant supplier_tenant s.tenant_id (lookup s.id m.suppliers)) not_found
  refuse_if (some_row (λ o. not (o.id == s.id) && same_supplier s o) m.suppliers) conflict
  let row = record s { created_at = ex.created_at; updated_at = env.now }
  put (record m { suppliers = insert s.id row m.suppliers })

abbrev pub asset_from : String → String → Asset → Bool
asset_from tenant id a = a.tenant_id == tenant && a.supplier_id == id

abbrev pub consumable_from : String → String → Consumable → Bool
consumable_from tenant id c = c.tenant_id == tenant && c.supplier_id == id

abbrev pub license_from : String → String → License → Bool
license_from tenant id l = l.tenant_id == tenant && l.supplier_id == id

unfoldable pub delete_supplier : String → String → Op ⊤
delete_supplier tenant id = call "DeleteSupplier" do
  m ← get
  s ← or_refuse (of_tenant supplier_tenant tenant (lookup id m.suppliers)) not_found
  put (record m {
    assets = update_where (asset_from tenant id) (λ a. record a { supplier_id = "" }) m.assets;
    consumables =
        update_where (consumable_from tenant id) (λ c. record c { supplier_id = "" }) m.consumables;
    licenses =
        update_where (license_from tenant id) (λ l. record l { supplier_id = "" }) m.licenses;
    suppliers = erase id m.suppliers;
  })
