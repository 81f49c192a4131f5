-- ===== src/Memstore/Categories.antt =====
-- internal/memstore/memstore.go, `// ---- categories`.
use go_tangra_asset.Common.{ℕ, String, Bool, not, ◌&&◌, List, ⊤, ◌==◌, pos}
use mathlib.Core.List.{map}
use go_tangra_asset.Table.{lookup, insert, erase, has, some_row, count_rows, select, update_where}
use go_tangra_asset.Models.{Asset, Category, Consumable}
use go_tangra_asset.Memstore.State.{
  Mem, Env, Op, not_found, conflict, not_empty, ◌>>=◌, ◌>>◌, pure, get, put, refuse_if, or_refuse,
  call, or_now, or_default, of_tenant,
}
use go_tangra_asset.Memstore.Page.{paginate}

abbrev pub category_tenant : Category → String
category_tenant c = c.tenant_id

abbrev pub asset_in_category : String → String → Asset → Bool
asset_in_category tenant id a = a.tenant_id == tenant && a.category_id == id

abbrev pub child_category : String → String → Category → Bool
child_category tenant id c = c.tenant_id == tenant && c.parent_id == id

unfoldable pub fill_category : Mem → Category → Category
fill_category m c = record c {
  asset_count = count_rows (asset_in_category c.tenant_id c.id) m.assets;
  child_count = count_rows (child_category c.tenant_id c.id) m.categories;
}

abbrev pub same_category : Category → Category → Bool
same_category c ex = ex.tenant_id == c.tenant_id && ex.name == c.name && ex.parent_id == c.parent_id

unfoldable pub create_category : Env → Category → Op ⊤
create_category env c = call "CreateCategory" do
  m ← get
  refuse_if (some_row (same_category c) m.categories) conflict
  let row = record c {
    id = or_default c.id env.new_id;
    created_at = or_now env c.created_at;
    updated_at = env.now;
  }
  refuse_if (has row.id m.categories) conflict
  put (record m { categories = insert row.id row m.categories })

unfoldable pub get_category : String → String → Op Category
get_category tenant id = call "GetCategory" do
  m ← get
  c ← or_refuse (of_tenant category_tenant tenant (lookup id m.categories)) not_found
  pure (fill_category m c)

unfoldable pub list_categories : String → Op (List Category)
list_categories tenant = call "ListCategories" do
  m ← get
  let out = select (λ c. c.tenant_id == tenant) m.categories
  pure (map (fill_category m) (paginate (λ c. c.id) "" (pos 0) out))

unfoldable pub update_category : Env → Category → Op ⊤
update_category env c = call "UpdateCategory" do
  m ← get
  ex ← or_refuse (of_tenant category_tenant c.tenant_id (lookup c.id m.categories)) not_found
  refuse_if (some_row (λ o. not (o.id == c.id) && same_category c o) m.categories) conflict
  let row = record c { created_at = ex.created_at; updated_at = env.now }
  put (record m { categories = insert c.id row m.categories })

abbrev pub consumable_in_category : String → String → Consumable → Bool
consumable_in_category tenant id c = c.tenant_id == tenant && c.category_id == id

unfoldable pub delete_category : String → String → Op ⊤
delete_category tenant id = call "DeleteCategory" do
  m ← get
  c ← or_refuse (of_tenant category_tenant tenant (lookup id m.categories)) not_found
  refuse_if (some_row (child_category tenant id) m.categories) not_empty
  refuse_if (some_row (asset_in_category tenant id) m.assets) not_empty
  put (record m {
    consumables =
        update_where (consumable_in_category tenant id) (λ x. record x { category_id = "" })
          m.consumables;
    categories = erase id m.categories;
  })

unfoldable pub count_child_categories : String → String → Op ℕ
count_child_categories tenant id =
    call "CountChildCategories"
      do m ← get; pure (count_rows (child_category tenant id) m.categories)
