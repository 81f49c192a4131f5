-- ===== src/ConsumableService.antt =====
-- internal/consumables/consumables.go: the consumable service.
pub mod Bystander
use Prim.Native.String.{len}
use go_tangra_asset.Common.{
  String, Bool, true, false, not, ◌||◌, ◌&&◌, Option, none, some, List, [], ⊤, ℤ, pos, ltb, ltb_ℤ,
  leb_ℤ, ◌==◌, if◌then◌else◌, trim_space, Time,
}
use mathlib.Core.List.{map}
use go_tangra_asset.Table.{Table}
use go_tangra_asset.Float64.{Float64, flt, f_zero}
use go_tangra_asset.Models.{Consumable, ListOpts}
use go_tangra_asset.Memstore.State.{Err}
use go_tangra_asset.Memstore.Page.{length}
use go_tangra_asset.Memstore.Categories.{get_category}
use go_tangra_asset.Memstore.Suppliers.{get_supplier}
use go_tangra_asset.Memstore.Locations.{get_location}
use go_tangra_asset.Memstore.Consumables.{
  create_consumable, get_consumable, list_consumables, update_consumable, delete_consumable,
}
use go_tangra_asset.Authz.{Subjects, actor_id, is_admin}
use go_tangra_asset.Service.{
  Action, Fault, invalid, missing, duplicate, in_use, store_failed, fault_if, gate, fault, attempt,
  ◌>>=◌, ◌>>◌, pure, emit, on_store, in_own_tenant, require_valid, audit_event,
}
use go_tangra_asset.AssetService.{Ctx, check_ref}

pub record Input : Type 0 where
  pub name : String
  pub description : String
  pub category_id : String
  pub supplier_id : String
  pub location_id : String
  pub model_name : String
  pub model_number : String
  pub amount : ℤ
  pub min_amount : ℤ
  pub purchase_date : Option Time
  pub purchase_cost : Float64
  pub order_number : String
  pub notes : String
  pub tags : Table String

pub record View : Type 0 where
  pub consumable : Consumable
  pub low_stock : Bool

unfoldable pub is_low_stock : Consumable → Bool
is_low_stock c = ltb_ℤ (pos 0) c.min_amount && leb_ℤ c.amount c.min_amount

unfoldable pub map_err : Err → Fault
map_err Err.not_found = missing
map_err e = store_failed e

unfoldable pub view : Consumable → View
unfolding is_low_stock
view c = record { consumable = c; low_stock = is_low_stock c }

unfoldable pub validate : Input → Option String
validate i =
    if trim_space i.name == "" || ltb 200 (len i.name)
    then some "name is required (max 200)"
    else if ltb_ℤ i.amount (pos 0) || ltb_ℤ i.min_amount (pos 0) || flt i.purchase_cost f_zero
    then some "numeric fields out of range"
    else if ltb 64 (length i.tags)
    then some "too many tags"
    else none

unfoldable pub check_refs : String → Input → Action ⊤
check_refs tenant i = do
  check_ref i.category_id (get_category tenant) "category_id does not exist"
  check_ref i.supplier_id (get_supplier tenant) "supplier_id does not exist"
  check_ref i.location_id (get_location tenant) "location_id does not exist"

unfoldable pub apply : Consumable → Input → Consumable
apply c i = record c {
  name = trim_space i.name;
  description = i.description;
  category_id = i.category_id;
  supplier_id = i.supplier_id;
  location_id = i.location_id;
  model_name = i.model_name;
  model_number = i.model_number;
  amount = i.amount;
  min_amount = i.min_amount;
  purchase_date = i.purchase_date;
  purchase_cost = i.purchase_cost;
  order_number = i.order_number;
  notes = i.notes;
  tags = i.tags;
}

abbrev pub blank : Ctx → Subjects → Consumable
blank ctx subj = record {
  id = ctx.row_id;
  tenant_id = subj.tenant_id;
  name = "";
  description = "";
  category_id = "";
  supplier_id = "";
  location_id = "";
  model_name = "";
  model_number = "";
  amount = pos 0;
  min_amount = pos 0;
  purchase_date = none;
  purchase_cost = f_zero;
  order_number = "";
  notes = "";
  tags = [];
  created_by = actor_id subj;
  created_at = ctx.now;
  updated_at = ctx.now;
}

unfoldable pub create : Ctx → Subjects → Input → Action View
create ctx subj i = do
  in_own_tenant subj
  require_valid (validate i)
  check_refs subj.tenant_id i
  let c = apply (blank ctx subj) i
  on_store map_err (create_consumable ctx.env c)
  emit (audit_event subj "consumable_created" "consumable" c.id "ok" "")
  pure (view c)

unfoldable pub get : Subjects → String → Action View
get subj id = do
  in_own_tenant subj
  c ← on_store map_err (get_consumable subj.tenant_id id)
  pure (view c)

unfoldable pub list : Ctx → Subjects → ListOpts → Action (List View)
list ctx subj f = do
  in_own_tenant subj
  rows ← on_store store_failed (list_consumables ctx.env subj.tenant_id f)
  pure (map view rows)

unfoldable pub update : Ctx → Subjects → String → Input → Action View
update ctx subj id i = do
  in_own_tenant subj
  require_valid (validate i)
  check_refs subj.tenant_id i
  old ← on_store map_err (get_consumable subj.tenant_id id)
  let c = record (apply old i) { updated_at = ctx.now }
  on_store map_err (update_consumable ctx.env c)
  emit (audit_event subj "consumable_updated" "consumable" id "ok" "")
  pure (view c)

unfoldable pub delete : Subjects → String → Action ⊤
delete subj id = do
  in_own_tenant subj
  on_store map_err (delete_consumable subj.tenant_id id)
  emit (audit_event subj "consumable_deleted" "consumable" id "ok" "")
