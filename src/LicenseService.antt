-- ===== src/LicenseService.antt =====
-- internal/licenses/licenses.go: the license service.
pub mod Bystander
use Prim.Native.String.{len}
use go_tangra_asset.Common.{
  String, Bool, true, false, not, ◌||◌, Option, none, some, List, [], ⊤, ltb, ◌==◌, if◌then◌else◌,
  trim_space, Time, before,
}
use go_tangra_asset.Table.{Table}
use go_tangra_asset.Float64.{Float64, flt, f_zero}
use go_tangra_asset.Models.{License, ListOpts, lic_active, lic_expired, lic_suspended}
use go_tangra_asset.Memstore.State.{Err, or_default}
use go_tangra_asset.Memstore.Page.{length}
use go_tangra_asset.Memstore.Suppliers.{get_supplier}
use go_tangra_asset.Memstore.Licenses.{
  create_license, get_license, list_licenses, update_license, delete_license,
}
use go_tangra_asset.Authz.{Subjects, actor_id, is_admin}
use go_tangra_asset.Service.{
  Action, Fault, invalid, missing, duplicate, in_use, store_failed, fault_if, gate, fault, attempt,
  ◌>>=◌, ◌>>◌, pure, emit, on_store, in_own_tenant, require_valid, audit_event,
}
use go_tangra_asset.AssetService.{Ctx, check_ref}

pub record Input : Type 0 where
  pub name : String
  pub supplier_id : String
  pub purchase_date : Option Time
  pub purchase_cost : Float64
  pub order_number : String
  pub valid_from : Option Time
  pub valid_to : Option Time
  pub notes : String
  pub status : String
  pub metadata : Table String

unfoldable pub map_err : Err → Fault
map_err Err.not_found = missing
map_err e = store_failed e

-- `in.ValidFrom != nil && in.ValidTo != nil && in.ValidTo.Before(*in.ValidFrom)`
abbrev pub ends_early : Option Time → Option Time → Bool
ends_early (some from) (some to) = before to from
ends_early _ _ = false

unfoldable pub validate : Input → Option String
validate i =
    if trim_space i.name == "" || ltb 200 (len i.name)
    then some "name is required (max 200)"
    else if not (
        i.status == ""
        || i.status == lic_active
        || i.status == lic_expired
        || i.status == lic_suspended)
    then some "status is invalid"
    else if flt i.purchase_cost f_zero
    then some "purchase_cost out of range"
    else if ends_early i.valid_from i.valid_to
    then some "valid_to precedes valid_from"
    else if ltb 64 (length i.metadata)
    then some "too many metadata entries"
    else none

unfoldable pub apply : License → Input → License
apply l i = record l {
  name = trim_space i.name;
  supplier_id = i.supplier_id;
  purchase_date = i.purchase_date;
  purchase_cost = i.purchase_cost;
  order_number = i.order_number;
  valid_from = i.valid_from;
  valid_to = i.valid_to;
  notes = i.notes;
  metadata = i.metadata;
  status = or_default i.status lic_active;
}

abbrev pub blank : Ctx → Subjects → License
blank ctx subj = record {
  id = ctx.row_id;
  tenant_id = subj.tenant_id;
  name = "";
  supplier_id = "";
  purchase_date = none;
  purchase_cost = f_zero;
  order_number = "";
  valid_from = none;
  valid_to = none;
  notes = "";
  status = "";
  metadata = [];
  created_by = actor_id subj;
  created_at = ctx.now;
  updated_at = ctx.now;
}

unfoldable pub check_supplier : String → String → Action ⊤
check_supplier tenant id = check_ref id (get_supplier tenant) "supplier_id does not exist"

unfoldable pub create : Ctx → Subjects → Input → Action License
create ctx subj i = do
  in_own_tenant subj
  require_valid (validate i)
  check_supplier subj.tenant_id i.supplier_id
  let l = apply (blank ctx subj) i
  on_store map_err (create_license ctx.env l)
  emit (audit_event subj "license_created" "license" l.id "ok" "")
  pure l

unfoldable pub get : Subjects → String → Action License
get subj id = do in_own_tenant subj; on_store map_err (get_license subj.tenant_id id)

unfoldable pub list : Ctx → Subjects → ListOpts → Action (List License)
list ctx subj f = do
  in_own_tenant subj
  on_store store_failed (list_licenses ctx.env subj.tenant_id f)

unfoldable pub update : Ctx → Subjects → String → Input → Action License
update ctx subj id i = do
  in_own_tenant subj
  require_valid (validate i)
  check_supplier subj.tenant_id i.supplier_id
  old ← on_store map_err (get_license subj.tenant_id id)
  let l = record (apply old i) { updated_at = ctx.now }
  on_store map_err (update_license ctx.env l)
  emit (audit_event subj "license_updated" "license" id "ok" "")
  pure l

unfoldable pub delete : Subjects → String → Action ⊤
delete subj id = do
  in_own_tenant subj
  on_store map_err (delete_license subj.tenant_id id)
  emit (audit_event subj "license_deleted" "license" id "ok" "")
