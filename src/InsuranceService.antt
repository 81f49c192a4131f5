-- ===== src/InsuranceService.antt =====
-- internal/insurance/insurance.go: the service of insurance policies and the assets that they cover.
pub mod Bystander
use Prim.Native.String.{len, ◌++◌}
use go_tangra_asset.Common.{
  String, Bool, true, false, not, ◌||◌, Option, none, some, List, [], ⊤, ltb, ◌==◌, if◌then◌else◌,
  trim_space, Time,
}
use go_tangra_asset.Table.{Table}
use go_tangra_asset.Float64.{Float64, flt, f_zero}
use go_tangra_asset.Models.{
  Asset, InsurancePolicy, PolicyAsset, ListOpts, ins_active, ins_expired, ins_cancelled,
  cov_all_risk, cov_fire_theft, cov_liability, cov_equipment, cov_cyber,
}
use go_tangra_asset.Memstore.State.{Err, or_default}
use go_tangra_asset.Memstore.Page.{length}
use go_tangra_asset.Memstore.Assets.{get_asset}
use go_tangra_asset.Memstore.Insurance.{
  create_insurance, get_insurance, list_insurance, update_insurance, delete_insurance,
  add_policy_asset, remove_policy_asset, list_policy_assets,
}
use go_tangra_asset.LicenseService.{ends_early}
use go_tangra_asset.Authz.{Subjects, actor_id, is_admin}
use go_tangra_asset.Service.{
  Action, Fault, invalid, missing, duplicate, in_use, store_failed, fault_if, gate, fault, attempt,
  ◌>>=◌, ◌>>◌, pure, emit, on_store, in_own_tenant, require_valid, audit_event,
}
use go_tangra_asset.AssetService.{Ctx, check_ref}

pub record Input : Type 0 where
  pub name : String
  pub policy_number : String
  pub provider : String
  pub coverage_type : String
  pub premium_amount : Float64
  pub deductible : Float64
  pub coverage_limit : Float64
  pub valid_from : Option Time
  pub valid_to : Option Time
  pub status : String
  pub notes : String
  pub metadata : Table String

unfoldable pub map_err : Err → Fault
map_err Err.not_found = missing
map_err Err.conflict = duplicate
map_err e = store_failed e

abbrev pub is_coverage : String → Bool
is_coverage t =
    t == ""
    || t == cov_all_risk
    || t == cov_fire_theft
    || t == cov_liability
    || t == cov_equipment
    || t == cov_cyber

unfoldable pub validate : Input → Option String
validate i =
    if trim_space i.name == "" || ltb 200 (len i.name)
    then some "name is required (max 200)"
    else if trim_space i.policy_number == "" || ltb 100 (len i.policy_number)
    then some "policy_number is required (max 100)"
    else if not (is_coverage i.coverage_type)
    then some "coverage_type is invalid"
    else if not (
        i.status == ""
        || i.status == ins_active
        || i.status == ins_expired
        || i.status == ins_cancelled)
    then some "status is invalid"
    else if flt i.premium_amount f_zero || flt i.deductible f_zero || flt i.coverage_limit f_zero
    then some "amounts out of range"
    else if ends_early i.valid_from i.valid_to
    then some "valid_to precedes valid_from"
    else if ltb 64 (length i.metadata)
    then some "too many metadata entries"
    else none

unfoldable pub apply : InsurancePolicy → Input → InsurancePolicy
apply p i = record p {
  name = trim_space i.name;
  policy_number = trim_space i.policy_number;
  provider = i.provider;
  coverage_type = i.coverage_type;
  premium_amount = i.premium_amount;
  deductible = i.deductible;
  coverage_limit = i.coverage_limit;
  valid_from = i.valid_from;
  valid_to = i.valid_to;
  notes = i.notes;
  metadata = i.metadata;
  status = or_default i.status ins_active;
}

abbrev pub blank : Ctx → Subjects → InsurancePolicy
blank ctx subj = record {
  id = ctx.row_id;
  tenant_id = subj.tenant_id;
  name = "";
  policy_number = "";
  provider = "";
  coverage_type = "";
  premium_amount = f_zero;
  deductible = f_zero;
  coverage_limit = f_zero;
  valid_from = none;
  valid_to = none;
  status = "";
  notes = "";
  metadata = [];
  created_by = actor_id subj;
  created_at = ctx.now;
  updated_at = ctx.now;
  asset_count = 0;
}

unfoldable pub get : Subjects → String → Action InsurancePolicy
get subj id = do in_own_tenant subj; on_store map_err (get_insurance subj.tenant_id id)

unfoldable pub create : Ctx → Subjects → Input → Action InsurancePolicy
create ctx subj i = do
  in_own_tenant subj
  require_valid (validate i)
  let p = apply (blank ctx subj) i
  on_store map_err (create_insurance ctx.env p)
  emit (audit_event subj "insurance_created" "insurance" p.id "ok" "")
  get subj p.id

unfoldable pub list : Ctx → Subjects → ListOpts → Action (List InsurancePolicy)
list ctx subj f = do
  in_own_tenant subj
  on_store store_failed (list_insurance ctx.env subj.tenant_id f)

unfoldable pub update : Ctx → Subjects → String → Input → Action InsurancePolicy
update ctx subj id i = do
  in_own_tenant subj
  require_valid (validate i)
  old ← on_store map_err (get_insurance subj.tenant_id id)
  on_store map_err (update_insurance ctx.env (record (apply old i) { updated_at = ctx.now }))
  emit (audit_event subj "insurance_updated" "insurance" id "ok" "")
  get subj id

unfoldable pub delete : Subjects → String → Action ⊤
delete subj id = do
  in_own_tenant subj
  on_store map_err (delete_insurance subj.tenant_id id)
  emit (audit_event subj "insurance_deleted" "insurance" id "ok" "")

unfoldable pub policy_assets : Subjects → String → Action (List PolicyAsset)
policy_assets subj policy_id = do
  in_own_tenant subj
  p ← on_store map_err (get_insurance subj.tenant_id policy_id)
  on_store store_failed (list_policy_assets subj.tenant_id policy_id)

-- A missing asset is the caller's mistake; another error of that read is passed on.
abbrev pub asset_err : Err → Fault
asset_err Err.not_found = invalid "asset_id does not exist"
asset_err e = store_failed e

abbrev pub covered : Ctx → Subjects → String → String → Float64 → String → Asset → PolicyAsset
covered ctx subj policy_id asset_id covered_value notes a = record {
  id = ctx.row_id;
  tenant_id = subj.tenant_id;
  policy_id = policy_id;
  asset_id = asset_id;
  covered_value = covered_value;
  notes = notes;
  asset_tag = a.asset_tag;
  asset_name = a.name;
  model_name = a.model_name;
  created_by = actor_id subj;
  created_at = ctx.now;
}

unfoldable pub add_asset : Ctx → Subjects → String → String → Float64 → String → Action PolicyAsset
add_asset ctx subj policy_id asset_id covered_value notes = do
  in_own_tenant subj
  fault_if (asset_id == "") (invalid "asset_id is required")
  fault_if (flt covered_value f_zero) (invalid "covered_value out of range")
  p ← on_store map_err (get_insurance subj.tenant_id policy_id)
  a ← on_store asset_err (get_asset ctx.env subj.tenant_id asset_id)
  let pa = covered ctx subj policy_id asset_id covered_value notes a
  on_store map_err (add_policy_asset ctx.env pa)
  emit (audit_event subj "policy_asset_added" "policy_asset" pa.id "ok" "")
  pure pa

unfoldable pub remove_asset : Subjects → String → String → Action ⊤
remove_asset subj policy_id asset_id = do
  in_own_tenant subj
  on_store map_err (remove_policy_asset subj.tenant_id policy_id asset_id)
  emit (
      audit_event subj "policy_asset_removed" "policy_asset" (policy_id ++ ("/" ++ asset_id)) "ok"
        "")
