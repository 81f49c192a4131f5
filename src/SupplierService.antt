-- ===== src/SupplierService.antt =====
-- internal/suppliers/suppliers.go: the supplier service, whose contact fields are sealed at rest.
pub mod Bystander
pub mod Secrets
use Prim.Native.String.{len}
use go_tangra_asset.Common.{
  String, Bool, true, false, not, ◌||◌, Option, none, some, List, ⊤, pos, ltb, ◌==◌, if◌then◌else◌,
  trim_space,
}
use mathlib.Core.List.{map}
use go_tangra_asset.Table.{Table}
use go_tangra_asset.Models.{Supplier, ListOpts, sup_active, sup_inactive}
use go_tangra_asset.Memstore.State.{Err, or_default}
use go_tangra_asset.Memstore.Page.{length}
use go_tangra_asset.Memstore.AssetReads.{count_assets_by_supplier}
use go_tangra_asset.Memstore.Suppliers.{
  create_supplier, get_supplier, list_suppliers, update_supplier, delete_supplier,
}
use go_tangra_asset.Authz.{Subjects, actor_id, is_admin}
use go_tangra_asset.Sealed.{ad_contact}
use go_tangra_asset.Service.{
  Action, Fault, invalid, missing, duplicate, in_use, store_failed, fault_if, ◌>>=◌, ◌>>◌, pure,
  emit, on_store, in_own_tenant, require_valid, audit_event,
}
use go_tangra_asset.Service.Contacts.{Vault, seal_contact, open_contact}
use go_tangra_asset.AssetService.{Ctx}

abbrev pub supplier_kind : String
supplier_kind = "supplier"

pub record Input : Type 0 where
  pub name : String
  pub code : String
  pub address : String
  pub city : String
  pub state : String
  pub country : String
  pub postal_code : String
  pub contact_person : String
  pub telephone : String
  pub email : String
  pub website : String
  pub notes : String
  pub status : String
  pub tags : Table String

unfoldable pub map_err : Err → Fault
map_err Err.not_found = missing
map_err Err.conflict = duplicate
map_err Err.not_empty = in_use
map_err e = store_failed e

unfoldable pub validate : Input → Option String
validate i =
    if trim_space i.name == "" || ltb 200 (len i.name)
    then some "name is required (max 200)"
    else if not (i.status == "" || i.status == sup_active || i.status == sup_inactive)
    then some "status is invalid"
    else if ltb 512 (len i.contact_person) || ltb 512 (len i.telephone) || ltb 512 (len i.email)
    then some "contact field too long"
    else if ltb 64 (length i.tags)
    then some "too many tags"
    else none

unfoldable pub seal : Vault → Supplier → Action Supplier
seal vault sp = do
  contact_person ← seal_contact vault supplier_kind sp.id "contact_person" sp.contact_person
  telephone ← seal_contact vault supplier_kind sp.id "telephone" sp.telephone
  email ← seal_contact vault supplier_kind sp.id "email" sp.email
  pure (record sp { contact_person = contact_person; telephone = telephone; email = email })

-- The contact fields are opened for admins, and blank for everyone else.
unfoldable pub present : Vault → Supplier → Subjects → Supplier
present vault sp subj =
    if is_admin subj
    then record sp {
      contact_person = open_contact vault supplier_kind sp.id "contact_person" sp.contact_person;
      telephone = open_contact vault supplier_kind sp.id "telephone" sp.telephone;
      email = open_contact vault supplier_kind sp.id "email" sp.email;
    }
    else record sp { contact_person = ""; telephone = ""; email = "" }

unfoldable pub apply : Supplier → Input → Supplier
apply sp i = record sp {
  name = trim_space i.name;
  code = i.code;
  address = i.address;
  city = i.city;
  state = i.state;
  country = i.country;
  postal_code = i.postal_code;
  contact_person = trim_space i.contact_person;
  telephone = trim_space i.telephone;
  email = trim_space i.email;
  website = i.website;
  notes = i.notes;
  tags = i.tags;
  status = or_default i.status sup_active;
}

abbrev pub blank : Ctx → Subjects → Supplier
blank ctx subj = record {
  id = ctx.row_id;
  tenant_id = subj.tenant_id;
  name = "";
  code = "";
  address = "";
  city = "";
  state = "";
  country = "";
  postal_code = "";
  contact_person = "";
  telephone = "";
  email = "";
  website = "";
  notes = "";
  status = "";
  tags = List.[];
  created_by = actor_id subj;
  created_at = ctx.now;
  updated_at = ctx.now;
}

unfoldable pub create : Ctx → Vault → Subjects → Input → Action Supplier
create ctx vault subj i = do
  in_own_tenant subj
  require_valid (validate i)
  sp ← seal vault (apply (blank ctx subj) i)
  on_store map_err (create_supplier ctx.env sp)
  emit (audit_event subj "supplier_created" "supplier" sp.id "ok" "")
  pure (present vault sp subj)

unfoldable pub get : Vault → Subjects → String → Action Supplier
get vault subj id = do
  in_own_tenant subj
  sp ← on_store map_err (get_supplier subj.tenant_id id)
  pure (present vault sp subj)

unfoldable pub list : Ctx → Vault → Subjects → ListOpts → Action (List Supplier)
list ctx vault subj f = do
  in_own_tenant subj
  rows ← on_store store_failed (list_suppliers ctx.env subj.tenant_id f)
  pure (map (λ sp. present vault sp subj) rows)

unfoldable pub update : Ctx → Vault → Subjects → String → Input → Action Supplier
update ctx vault subj id i = do
  in_own_tenant subj
  require_valid (validate i)
  old ← on_store map_err (get_supplier subj.tenant_id id)
  sp ← seal vault (record (apply old i) { updated_at = ctx.now })
  on_store map_err (update_supplier ctx.env sp)
  emit (audit_event subj "supplier_updated" "supplier" id "ok" "")
  pure (present vault sp subj)

unfoldable pub delete : Subjects → String → Action ⊤
delete subj id = do
  in_own_tenant subj
  sp ← on_store map_err (get_supplier subj.tenant_id id)
  used ← on_store store_failed (count_assets_by_supplier subj.tenant_id id)
  fault_if (ltb 0 used) in_use
  on_store map_err (delete_supplier subj.tenant_id id)
  emit (audit_event subj "supplier_deleted" "supplier" id "ok" "")
