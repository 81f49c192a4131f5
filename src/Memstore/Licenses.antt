-- ===== src/Memstore/Licenses.antt =====
-- internal/memstore/memstore.go, `// ---- licenses`, with `matchLicenses` of lists.go.
use go_tangra_asset.Common.{String, Bool, ◌&&◌, ◌||◌, List, ⊤, ◌==◌, contains, pos}
use go_tangra_asset.Table.{lookup, insert, erase, has, select, erase_where}
use go_tangra_asset.Models.{License, ListOpts, entity_license, lic_active}
use go_tangra_asset.Memstore.State.{
  Env, Op, not_found, conflict, ◌>>=◌, ◌>>◌, pure, get, put, refuse_if, or_refuse, call, or_now,
  or_default, of_tenant,
}
use go_tangra_asset.Memstore.Page.{paginate}
use go_tangra_asset.Memstore.Assets.{document_of}

abbrev pub license_tenant : License → String
license_tenant l = l.tenant_id

unfoldable pub create_license : Env → License → Op ⊤
create_license env l = call "CreateLicense" do
  m ← get
  let row = record l {
    id = or_default l.id env.new_id;
    status = or_default l.status lic_active;
    created_at = or_now env l.created_at;
    updated_at = env.now;
  }
  refuse_if (has row.id m.licenses) conflict
  put (record m { licenses = insert row.id row m.licenses })

unfoldable pub get_license : String → String → Op License
get_license tenant id =
    call "GetLicense"
      do m ← get; or_refuse (of_tenant license_tenant tenant (lookup id m.licenses)) not_found

unfoldable pub matches_license : Env → String → String → License → Bool
matches_license env tenant query l =
    let q = env.to_lower query in
    l.tenant_id == tenant && (q == "" || contains (env.to_lower l.name) q)

unfoldable pub list_licenses : Env → String → ListOpts → Op (List License)
list_licenses env tenant f = call "ListLicenses" do
  m ← get
  pure (
      paginate (λ l. l.id) f.cursor_id f.limit
        (select (matches_license env tenant f.query) m.licenses))

unfoldable pub update_license : Env → License → Op ⊤
update_license env l = call "UpdateLicense" do
  m ← get
  ex ← or_refuse (of_tenant license_tenant l.tenant_id (lookup l.id m.licenses)) not_found
  let row = record l { created_at = ex.created_at; updated_at = env.now }
  put (record m { licenses = insert l.id row m.licenses })

unfoldable pub delete_license : String → String → Op ⊤
delete_license tenant id = call "DeleteLicense" do
  m ← get
  l ← or_refuse (of_tenant license_tenant tenant (lookup id m.licenses)) not_found
  put (record m {
    documents = erase_where (document_of tenant entity_license id) m.documents;
    licenses = erase id m.licenses;
  })

unfoldable pub all_licenses : String → Op (List License)
all_licenses tenant = call "AllLicenses" do
  m ← get
  pure (paginate (λ l. l.id) "" (pos 0) (select (λ l. l.tenant_id == tenant) m.licenses))
