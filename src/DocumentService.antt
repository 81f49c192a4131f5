-- ===== src/DocumentService.antt =====
-- internal/documents/documents.go and paperless.go: how the objects of document rows are removed.
use Prim.Native.String.{len, slice, ◌++◌}
use go_tangra_asset.Common.{
  String, Bool, not, ◌&&◌, List, [], ◌∷◌, ⊤, ◌==◌, if◌then◌else◌, contains,
}
use go_tangra_asset.Models.{Document}
use go_tangra_asset.Memstore.Documents.{delete_document}
use go_tangra_asset.Service.{Action, ◌>>◌, pure, emit, attempt, blob_deleted, archive_deleted}

abbrev pub tenant_prefix : String → String
tenant_prefix tenant = "tenants/" ++ (tenant ++ "/")

-- strings.HasPrefix
abbrev pub has_prefix : String → String → Bool
has_prefix s p = slice s 0 (len p) == p

-- Whether `checkKey` lets the key through.
unfoldable pub is_key_of : String → String → Bool
is_key_of tenant key = has_prefix key (tenant_prefix tenant) && not (contains key "..")

-- `_ = s.removeObject(ctx, tenantID, d)`, its error ignored; `has_archive` is `s.paper != nil`.
unfoldable pub remove_object : Bool → String → Document → Action ⊤
unfolding is_key_of
remove_object has_archive tenant d =
    if not (d.paperless_document_id == "")
    then (if has_archive then emit (archive_deleted tenant d.paperless_document_id) else pure tt)
    else if is_key_of tenant d.storage_key
    then emit (blob_deleted d.storage_key)
    else pure tt

-- documents.Service.PurgeRows, which removes each object and its row; errors are ignored.
unfoldable pub purge_rows : Bool → String → List Document → Action ⊤
unfolding remove_object
purge_rows has_archive tenant [] = pure tt
purge_rows has_archive tenant (d ∷ ds) =
    let rest = purge_rows has_archive tenant ds in
    if d.tenant_id == tenant
    then remove_object has_archive tenant d >> (attempt (delete_document tenant d.id) >> rest)
    else rest
