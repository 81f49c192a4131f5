-- ===== src/Memstore/Consumables.antt =====
-- internal/memstore/memstore.go, `// ---- consumables`, with `matchConsumables` of lists.go.
use go_tangra_asset.Common.{String, Bool, ◌&&◌, ◌||◌, List, ⊤, ◌==◌, contains, pos}
use go_tangra_asset.Table.{lookup, insert, erase, has, select, erase_where}
use go_tangra_asset.Models.{Consumable, ListOpts, entity_consumable}
use go_tangra_asset.Memstore.State.{
  Env, Op, not_found, conflict, ◌>>=◌, ◌>>◌, pure, get, put, refuse_if, or_refuse, call, or_now,
  or_default, of_tenant,
}
use go_tangra_asset.Memstore.Page.{paginate}
use go_tangra_asset.Memstore.Assets.{document_of}

abbrev pub consumable_tenant : Consumable → String
consumable_tenant c = c.tenant_id

unfoldable pub create_consumable : Env → Consumable → Op ⊤
create_consumable env c = call "CreateConsumable" do
  m ← get
  let row = record c {
    id = or_default c.id env.new_id;
    created_at = or_now env c.created_at;
    updated_at = env.now;
  }
  refuse_if (has row.id m.consumables) conflict
  put (record m { consumables = insert row.id row m.consumables })

unfoldable pub get_consumable : String → String → Op Consumable
get_consumable tenant id =
    call "GetConsumable"
      do m ← get; or_refuse (of_tenant consumable_tenant tenant (lookup id m.consumables)) not_found

unfoldable pub matches_consumable : Env → String → String → Consumable → Bool
matches_consumable env tenant query c =
    let q = env.to_lower query in
    c.tenant_id == tenant
    && (q == "" || contains (env.to_lower c.name) q || contains (env.to_lower c.model_name) q)

unfoldable pub list_consumables : Env → String → ListOpts → Op (List Consumable)
list_consumables env tenant f = call "ListConsumables" do
  m ← get
  pure (
      paginate (λ c. c.id) f.cursor_id f.limit
        (select (matches_consumable env tenant f.query) m.consumables))

unfoldable pub update_consumable : Env → Consumable → Op ⊤
update_consumable env c = call "UpdateConsumable" do
  m ← get
  ex ← or_refuse (of_tenant consumable_tenant c.tenant_id (lookup c.id m.consumables)) not_found
  let row = record c { created_at = ex.created_at; updated_at = env.now }
  put (record m { consumables = insert c.id row m.consumables })

unfoldable pub delete_consumable : String → String → Op ⊤
delete_consumable tenant id = call "DeleteConsumable" do
  m ← get
  c ← or_refuse (of_tenant consumable_tenant tenant (lookup id m.consumables)) not_found
  put (record m {
    documents = erase_where (document_of tenant entity_consumable id) m.documents;
    consumables = erase id m.consumables;
  })

unfoldable pub all_consumables : String → Op (List Consumable)
all_consumables tenant = call "AllConsumables" do
  m ← get
  pure (paginate (λ c. c.id) "" (pos 0) (select (λ c. c.tenant_id == tenant) m.consumables))
