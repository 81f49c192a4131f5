-- ===== src/AssetService/Edit.antt =====
-- internal/assets/assets.go: `Create`, `Update` and `Delete`.
use go_tangra_asset.Common.{
  ℕ, zero, suc, ◌+◌, String, Bool, false, not, ◌&&◌, none, List, [], ◌∷◌, ⊤, ◌==◌, if◌then◌else◌,
  pos,
}
use go_tangra_asset.Float64.{fle, f_zero, default_rate}
use go_tangra_asset.Models.{Asset, Document, asset_deployable, asset_assigned, entity_asset}
use go_tangra_asset.Memstore.State.{Err, Result, or_default}
use go_tangra_asset.Memstore.Assets.{create_asset, get_asset, update_asset, delete_asset}
use go_tangra_asset.Memstore.Documents.{list_documents}
use go_tangra_asset.DocumentService.{purge_rows}
use go_tangra_asset.Authz.{Subjects, actor_id}
use go_tangra_asset.Service.{
  Action, invalid, fault_if, ◌>>=◌, ◌>>◌, pure, fault, emit, on_store, attempt, in_own_tenant,
  require_valid, audit_event, blob_deleted,
}
use go_tangra_asset.AssetService.{
  Ctx, Input, View, auto_tag, validate, check_refs, apply, view, map_err,
}

-- The defaults that `Create` and `Update` give after `apply`.
abbrev pub defaulted : Asset → Asset
defaulted a = record a {
  status = or_default a.status asset_deployable;
  depreciation_rate = if fle a.depreciation_rate f_zero then default_rate else a.depreciation_rate;
}

-- The row that `Create` builds before it is tagged.
abbrev pub created : Ctx → Subjects → Input → Asset → Asset
created ctx subj i empty =
    let a = record empty {
      id = ctx.row_id;
      tenant_id = subj.tenant_id;
      created_by = actor_id subj;
      updated_by = actor_id subj;
      created_at = ctx.now;
      updated_at = ctx.now;
    } in
    defaulted (apply a i)

-- The zero value of `store.Asset`.
abbrev pub zero_asset : Asset
zero_asset = record {
  id = "";
  tenant_id = "";
  asset_tag = "";
  name = "";
  serial = "";
  model_name = "";
  model_number = "";
  category_id = "";
  supplier_id = "";
  location_id = "";
  user_id = "";
  status = "";
  photo_key = "";
  warranty_months = pos 0;
  purchase_date = none;
  order_number = "";
  purchase_cost = f_zero;
  notes = "";
  salvage_value = f_zero;
  useful_life_years = pos 0;
  depreciation_rate = f_zero;
  tags = [];
  created_by = "";
  updated_by = "";
  created_at = 0;
  updated_at = 0;
  book_value = f_zero;
}

-- Whether the loop goes round again: only after a conflict on a tag that it drew itself.
abbrev pub retries : Bool → Result ⊤ → Bool
retries auto (Result.err Err.conflict) = auto
retries auto _ = false

-- How a round that is the last ends.
abbrev pub settled : Asset → Result ⊤ → Action Asset
settled a (Result.ok _) = pure a
settled a (Result.err e) = fault (map_err e)

-- The loop of `Create`: `left` further rounds are allowed, and `round` counts those made.
unfoldable pub create_loop : Ctx → Bool → ℕ → ℕ → Asset → Action Asset
create_loop ctx auto zero round a = do
  let tried = if auto then record a { asset_tag = auto_tag (ctx.draw round) } else a
  r ← attempt (create_asset ctx.env tried)
  settled tried r
create_loop ctx auto (suc left) round a = do
  let again = create_loop ctx auto left (round + 1) a
  let tried = if auto then record a { asset_tag = auto_tag (ctx.draw round) } else a
  r ← attempt (create_asset ctx.env tried)
  if retries auto r then again else settled tried r

unfoldable pub create : Ctx → Subjects → Input → Action View
create ctx subj i = do
  in_own_tenant subj
  require_valid (validate i)
  fault_if (i.status == asset_assigned) (invalid "status assigned is set through assign")
  check_refs subj.tenant_id i
  let a = created ctx subj i zero_asset
  row ← create_loop ctx (a.asset_tag == "") 5 0 a
  emit (audit_event subj "asset_created" "asset" row.id "ok" "")
  pure (view ctx row)

-- The row that `Update` writes over `a`.
unfoldable pub edited : Ctx → Subjects → Input → Asset → Asset
edited ctx subj i a =
    let b = apply a i in
    let c =
      defaulted
        (record b { photo_key = a.photo_key; asset_tag = or_default b.asset_tag a.asset_tag }) in
    let d =
      if a.status == asset_assigned
      then record c { status = asset_assigned; user_id = a.user_id; location_id = "" }
      else record c { user_id = "" } in
    record d { updated_by = actor_id subj; updated_at = ctx.now }

unfoldable pub update : Ctx → Subjects → String → Input → Action View
update ctx subj id i = do
  in_own_tenant subj
  require_valid (validate i)
  fault_if (i.status == asset_assigned) (invalid "status assigned is set through assign")
  check_refs subj.tenant_id i
  a ← on_store map_err (get_asset ctx.env subj.tenant_id id)
  let row = edited ctx subj i a
  on_store map_err (update_asset ctx.env row)
  emit (audit_event subj "asset_updated" "asset" row.id "ok" "")
  pure (view ctx row)

-- `_ = s.blobs.Delete(ctx, d.StorageKey)` for each document
unfoldable pub delete_blobs : List Document → Action ⊤
delete_blobs [] = pure tt
delete_blobs (d ∷ ds) = let rest = delete_blobs ds in emit (blob_deleted d.storage_key) >> rest

-- What `Delete` does with the documents that it could list.
abbrev pub drop_documents : Ctx → String → Result (List Document) → Action ⊤
drop_documents ctx tenant (Result.err e) = pure tt
drop_documents ctx tenant (Result.ok docs) =
    if ctx.has_purger
    then purge_rows ctx.has_archive tenant docs
    else if ctx.has_blobs
    then delete_blobs docs
    else pure tt

unfoldable pub delete : Ctx → Subjects → String → Action ⊤
delete ctx subj id = do
  in_own_tenant subj
  a ← on_store map_err (get_asset ctx.env subj.tenant_id id)
  if ctx.has_blobs && not (a.photo_key == "") then emit (blob_deleted a.photo_key) else pure tt
  docs ← attempt (list_documents subj.tenant_id entity_asset id)
  drop_documents ctx subj.tenant_id docs
  on_store map_err (delete_asset subj.tenant_id id)
  emit (audit_event subj "asset_deleted" "asset" id "ok" "")
