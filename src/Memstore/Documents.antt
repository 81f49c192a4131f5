-- ===== src/Memstore/Documents.antt =====
-- internal/memstore/memstore.go, `// ---- documents`, and documents_paperless.go.
use go_tangra_asset.Common.{
  String, Bool, false, not, ◌&&◌, ◌||◌, List, [], ◌∷◌, ⊤, ◌==◌, if◌then◌else◌, ℤ, pos, ltb_ℤ, leb_ℤ,
  str_lt,
}
use Prim.Native.String.{◌++◌}
use text.Mathlib.Text.{starts_with}
use go_tangra_asset.Table.{lookup, insert, erase, has, some_row, select}
use go_tangra_asset.Models.{Document, paperless_key_prefix}
use go_tangra_asset.Memstore.State.{
  Env, Op, not_found, conflict, ◌>>=◌, ◌>>◌, pure, get, put, refuse_if, or_refuse, call, or_now,
  or_default, of_tenant,
}
use go_tangra_asset.Memstore.Page.{paginate, sort_by, cut}

abbrev pub document_tenant : Document → String
document_tenant d = d.tenant_id

abbrev pub same_key : Document → Document → Bool
same_key d ex = ex.storage_key == d.storage_key

unfoldable pub insert_document : Env → Document → Op ⊤
insert_document env d = call "InsertDocument" do
  m ← get
  refuse_if (some_row (same_key d) m.documents) conflict
  let row = record d { id = or_default d.id env.new_id; created_at = or_now env d.created_at }
  refuse_if (has row.id m.documents) conflict
  put (record m { documents = insert row.id row m.documents })

unfoldable pub get_document : String → String → Op Document
get_document tenant id =
    call "GetDocument"
      do m ← get; or_refuse (of_tenant document_tenant tenant (lookup id m.documents)) not_found

unfoldable pub list_documents : String → String → String → Op (List Document)
list_documents tenant kind id = call "ListDocuments" do
  m ← get
  let out =
      select (λ d. d.tenant_id == tenant && d.entity_type == kind && d.entity_id == id) m.documents
  pure (paginate (λ d. d.id) "" (pos 0) out)

unfoldable pub delete_document : String → String → Op ⊤
delete_document tenant id = call "DeleteDocument" do
  m ← get
  d ← or_refuse (of_tenant document_tenant tenant (lookup id m.documents)) not_found
  put (record m { documents = erase id m.documents })

-- `want[id]`, a set built from the list of ids
unfoldable pub listed : String → List String → Bool
listed id [] = false
listed id (x ∷ xs) = id == x || listed id xs

unfoldable pub list_documents_by_paperless_ids : String → List String → Op (List Document)
unfolding listed
list_documents_by_paperless_ids tenant ids = call "ListDocumentsByPaperlessIDs" do
  m ← get
  pure (
      select
        (λ d.
          d.tenant_id == tenant
          && not (d.paperless_document_id == "")
          && listed d.paperless_document_id ids)
        m.documents)

abbrev pub unmigrated : Document → Bool
unmigrated d = d.paperless_document_id == "" && starts_with d.storage_key "tenants/"

unfoldable pub list_unmigrated_documents : ℤ → Op (List Document)
list_unmigrated_documents limit = call "ListUnmigratedDocuments" do
  m ← get
  let bound = if leb_ℤ limit (pos 0) || ltb_ℤ (pos 1000) limit then pos 100 else limit
  pure (cut bound (sort_by (λ a b. str_lt a.id b.id) (select unmigrated m.documents)))

abbrev pub moved : String → Document → Document
moved paperless_id d = record d {
  paperless_document_id = paperless_id;
  storage_key = paperless_key_prefix ++ paperless_id;
}

unfoldable pub move_document_to_paperless : String → String → String → Op ⊤
move_document_to_paperless tenant id paperless_id = call "MoveDocumentToPaperless" do
  m ← get
  d ← or_refuse (of_tenant document_tenant tenant (lookup id m.documents)) not_found
  put (record m { documents = insert id (moved paperless_id d) m.documents })
