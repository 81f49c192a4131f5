-- ===== src/Memstore/Assets.antt =====
-- internal/memstore/memstore.go, `// ---- assets`.
use go_tangra_asset.Common.{
  String, Bool, ◌&&◌, not, none, some, ⊤, ◌==◌, if◌then◌else◌, upper_hex, Time,
}
use Prim.Native.String.{slice, ◌++◌}
use go_tangra_asset.Table.{lookup, insert, erase, has, some_row, erase_where}
use go_tangra_asset.Float64.{feq, f_zero, default_rate}
use go_tangra_asset.Deprec.{book_value}
use go_tangra_asset.Models.{
  Asset, Assignment, Document, PolicyAsset, asset_deployable, entity_asset,
}
use go_tangra_asset.Memstore.State.{
  Env, Op, not_found, conflict, ◌>>=◌, ◌>>◌, pure, get, put, refuse_if, or_refuse, call, or_now,
  or_default, of_tenant,
}

abbrev pub asset_tenant : Asset → String
asset_tenant a = a.tenant_id

unfoldable pub stored_book_value : Env → Asset → Time → Asset
stored_book_value env a at = record a {
  book_value =
      book_value env.floats a.purchase_cost a.salvage_value a.useful_life_years a.depreciation_rate
        (elim a.purchase_date [ none ↦ 0 | some t ↦ t ]) at;
}

unfoldable pub fill_asset : Env → Asset → Asset
unfolding stored_book_value
fill_asset env a = stored_book_value env a env.now

unfoldable pub auto_tag : Env → String
auto_tag env = "AST-" ++ upper_hex (slice env.tag_id 0 6)

-- The tag that `CreateAsset` gives an asset without one.
abbrev pub tagged : Env → Asset → Asset
tagged env a = record a { asset_tag = or_default a.asset_tag (auto_tag env) }

-- The other defaults of `CreateAsset`.
abbrev pub defaulted : Env → Asset → Asset
defaulted env a = record a {
  status = or_default a.status asset_deployable;
  depreciation_rate = if feq a.depreciation_rate f_zero then default_rate else a.depreciation_rate;
  created_at = or_now env a.created_at;
  updated_at = env.now;
}

abbrev pub same_tag : Asset → Asset → Bool
same_tag a ex = ex.tenant_id == a.tenant_id && ex.asset_tag == a.asset_tag

unfoldable pub create_asset : Env → Asset → Op ⊤
create_asset env a = call "CreateAsset" do
  m ← get
  let tagged_asset = tagged env a
  refuse_if (some_row (same_tag tagged_asset) m.assets) conflict
  let named = record tagged_asset { id = or_default a.id env.new_id }
  refuse_if (has named.id m.assets) conflict
  put (record m { assets = insert named.id (defaulted env named) m.assets })

unfoldable pub get_asset : Env → String → String → Op Asset
get_asset env tenant id = call "GetAsset" do
  m ← get
  a ← or_refuse (of_tenant asset_tenant tenant (lookup id m.assets)) not_found
  pure (fill_asset env a)

unfoldable pub update_asset : Env → Asset → Op ⊤
update_asset env a = call "UpdateAsset" do
  m ← get
  ex ← or_refuse (of_tenant asset_tenant a.tenant_id (lookup a.id m.assets)) not_found
  let kept = record a { asset_tag = or_default a.asset_tag ex.asset_tag }
  refuse_if (some_row (λ o. not (o.id == a.id) && same_tag kept o) m.assets) conflict
  let rated = if feq a.depreciation_rate f_zero then default_rate else a.depreciation_rate
  let row = record kept {
    depreciation_rate = rated;
    created_at = ex.created_at;
    updated_at = env.now;
  }
  put (record m { assets = insert a.id row m.assets })

abbrev pub assignment_of : String → String → Assignment → Bool
assignment_of tenant id as' = as'.tenant_id == tenant && as'.asset_id == id

abbrev pub document_of : String → String → String → Document → Bool
document_of tenant kind id d = d.tenant_id == tenant && d.entity_type == kind && d.entity_id == id

abbrev pub link_to_asset : String → String → PolicyAsset → Bool
link_to_asset tenant id pa = pa.tenant_id == tenant && pa.asset_id == id

unfoldable pub delete_asset : String → String → Op ⊤
delete_asset tenant id = call "DeleteAsset" do
  m ← get
  a ← or_refuse (of_tenant asset_tenant tenant (lookup id m.assets)) not_found
  put (record m {
    assignments = erase_where (assignment_of tenant id) m.assignments;
    documents = erase_where (document_of tenant entity_asset id) m.documents;
    policy_assets = erase_where (link_to_asset tenant id) m.policy_assets;
    assets = erase id m.assets;
  })
