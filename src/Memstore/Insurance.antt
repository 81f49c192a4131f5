-- ===== src/Memstore/Insurance.antt =====
-- internal/memstore/memstore.go, `// ---- insurance policies + policy-assets`, with `matchInsurance` of
-- lists.go.
use go_tangra_asset.Common.{String, Bool, not, ◌&&◌, ◌||◌, List, ⊤, ◌==◌, contains, pos}
use mathlib.Core.List.{map}
use go_tangra_asset.Table.{
  lookup, insert, erase, has, some_row, find_entry, count_rows, select, erase_where,
}
use go_tangra_asset.Models.{InsurancePolicy, PolicyAsset, ListOpts, ins_active}
use go_tangra_asset.Memstore.State.{
  Mem, Env, Op, not_found, conflict, ◌>>=◌, ◌>>◌, pure, get, put, refuse_if, or_refuse, call,
  or_now, or_default, of_tenant,
}
use go_tangra_asset.Memstore.Page.{paginate}

abbrev pub policy_tenant : InsurancePolicy → String
policy_tenant p = p.tenant_id

abbrev pub link_of_policy : String → String → PolicyAsset → Bool
link_of_policy tenant id pa = pa.tenant_id == tenant && pa.policy_id == id

unfoldable pub fill_insurance : Mem → InsurancePolicy → InsurancePolicy
fill_insurance m p = record p {
  asset_count = count_rows (link_of_policy p.tenant_id p.id) m.policy_assets;
}

abbrev pub same_policy : InsurancePolicy → InsurancePolicy → Bool
same_policy p ex =
    ex.tenant_id == p.tenant_id && (ex.policy_number == p.policy_number || ex.name == p.name)

unfoldable pub create_insurance : Env → InsurancePolicy → Op ⊤
create_insurance env p = call "CreateInsurance" do
  m ← get
  refuse_if (some_row (same_policy p) m.insurance) conflict
  let row = record p {
    id = or_default p.id env.new_id;
    status = or_default p.status ins_active;
    created_at = or_now env p.created_at;
    updated_at = env.now;
  }
  refuse_if (has row.id m.insurance) conflict
  put (record m { insurance = insert row.id row m.insurance })

unfoldable pub get_insurance : String → String → Op InsurancePolicy
get_insurance tenant id = call "GetInsurance" do
  m ← get
  p ← or_refuse (of_tenant policy_tenant tenant (lookup id m.insurance)) not_found
  pure (fill_insurance m p)

unfoldable pub matches_policy : Env → String → String → InsurancePolicy → Bool
matches_policy env tenant query p =
    let q = env.to_lower query in
    p.tenant_id == tenant
    && (q == "" || contains (env.to_lower p.name) q || contains (env.to_lower p.policy_number) q)

unfoldable pub list_insurance : Env → String → ListOpts → Op (List InsurancePolicy)
list_insurance env tenant f = call "ListInsurance" do
  m ← get
  let out = select (matches_policy env tenant f.query) m.insurance
  pure (map (fill_insurance m) (paginate (λ p. p.id) f.cursor_id f.limit out))

unfoldable pub update_insurance : Env → InsurancePolicy → Op ⊤
update_insurance env p = call "UpdateInsurance" do
  m ← get
  ex ← or_refuse (of_tenant policy_tenant p.tenant_id (lookup p.id m.insurance)) not_found
  refuse_if (some_row (λ o. not (o.id == p.id) && same_policy p o) m.insurance) conflict
  let row = record p { created_at = ex.created_at; updated_at = env.now }
  put (record m { insurance = insert p.id row m.insurance })

unfoldable pub delete_insurance : String → String → Op ⊤
delete_insurance tenant id = call "DeleteInsurance" do
  m ← get
  p ← or_refuse (of_tenant policy_tenant tenant (lookup id m.insurance)) not_found
  put (record m {
    policy_assets = erase_where (link_of_policy tenant id) m.policy_assets;
    insurance = erase id m.insurance;
  })

unfoldable pub all_insurance : String → Op (List InsurancePolicy)
all_insurance tenant = call "AllInsurance" do
  m ← get
  let out = select (λ p. p.tenant_id == tenant) m.insurance
  pure (map (fill_insurance m) (paginate (λ p. p.id) "" (pos 0) out))

abbrev pub same_link : PolicyAsset → PolicyAsset → Bool
same_link pa ex = ex.policy_id == pa.policy_id && ex.asset_id == pa.asset_id

unfoldable pub add_policy_asset : Env → PolicyAsset → Op ⊤
add_policy_asset env pa = call "AddPolicyAsset" do
  m ← get
  refuse_if (some_row (same_link pa) m.policy_assets) conflict
  let row = record pa { id = or_default pa.id env.new_id; created_at = or_now env pa.created_at }
  refuse_if (has row.id m.policy_assets) conflict
  put (record m { policy_assets = insert row.id row m.policy_assets })

unfoldable pub remove_policy_asset : String → String → String → Op ⊤
remove_policy_asset tenant policy asset = call "RemovePolicyAsset" do
  m ← get
  e ←
      or_refuse
        (find_entry (λ pa. pa.tenant_id == tenant && pa.policy_id == policy && pa.asset_id == asset)
          m.policy_assets)
        not_found
  put (record m { policy_assets = erase e.0 m.policy_assets })

unfoldable pub list_policy_assets : String → String → Op (List PolicyAsset)
list_policy_assets tenant policy = call "ListPolicyAssets" do
  m ← get
  pure (paginate (λ pa. pa.id) "" (pos 0) (select (link_of_policy tenant policy) m.policy_assets))
