-- ===== src/LocationService.antt =====
-- internal/locations/locations.go: the location service, whose contact fields are sealed at rest.
pub mod Bystander
pub mod Secrets
pub mod Guards
use Prim.Native.String.{len, ◌++◌}
use go_tangra_asset.Common.{
  String, Bool, true, false, not, ◌||◌, Option, none, some, List, [], ⊤, pos, ltb, ◌==◌,
  if◌then◌else◌, trim_space, str_lt,
}
use mathlib.Core.List.{map}
use go_tangra_asset.Table.{Table}
use go_tangra_asset.Models.{Location, loc_active, loc_planned, loc_decommissioned}
use go_tangra_asset.Memstore.State.{Err, or_default}
use go_tangra_asset.Memstore.Page.{length, sort_by}
use go_tangra_asset.Memstore.AssetReads.{count_assets_by_location}
use go_tangra_asset.Memstore.Locations.{
  create_location, get_location, list_locations, update_location, delete_location,
  count_child_locations,
}
use go_tangra_asset.Service.Contacts.{Vault, seal_contact, open_contact}
use go_tangra_asset.Tree.{nodes_of, is_ancestor}
use go_tangra_asset.Authz.{Subjects, actor_id, is_admin}
use go_tangra_asset.Service.{
  Action, Fault, invalid, missing, duplicate, in_use, store_failed, fault_if, gate, fault, attempt,
  ◌>>=◌, ◌>>◌, pure, emit, on_store, in_own_tenant, require_valid, audit_event,
}
use go_tangra_asset.AssetService.{Ctx, check_ref}

abbrev pub location_kind : String
location_kind = "location"

abbrev pub location_id : Location → String
location_id l = l.id

abbrev pub location_parent : Location → String
location_parent l = l.parent_id

pub record Input : Type 0 where
  pub name : String
  pub code : String
  pub description : String
  pub parent_id : String
  pub address : String
  pub city : String
  pub state : String
  pub country : String
  pub postal_code : String
  pub contact : String
  pub phone : String
  pub email : String
  pub status : String
  pub tags : Table String

unfoldable pub map_err : Err → Fault
map_err Err.not_found = missing
map_err Err.conflict = duplicate
map_err Err.not_empty = in_use
map_err e = store_failed e

unfoldable pub validate : Input → Option String
validate i =
    if trim_space i.name == "" || ltb 200 (len i.name)
    then some "name is required (max 200)"
    else if not (
        i.status == ""
        || i.status == loc_active
        || i.status == loc_planned
        || i.status == loc_decommissioned)
    then some "status is invalid"
    else if ltb 512 (len i.contact) || ltb 512 (len i.phone) || ltb 512 (len i.email)
    then some "contact field too long"
    else if ltb 64 (length i.tags)
    then some "too many tags"
    else none

unfoldable pub seal : Vault → Location → Action Location
seal vault l = do
  contact ← seal_contact vault location_kind l.id "contact" l.contact
  phone ← seal_contact vault location_kind l.id "phone" l.phone
  email ← seal_contact vault location_kind l.id "email" l.email
  pure (record l { contact = contact; phone = phone; email = email })

unfoldable pub present : Vault → Location → Subjects → Location
present vault l subj =
    if is_admin subj
    then record l {
      contact = open_contact vault location_kind l.id "contact" l.contact;
      phone = open_contact vault location_kind l.id "phone" l.phone;
      email = open_contact vault location_kind l.id "email" l.email;
    }
    else record l { contact = ""; phone = ""; email = "" }

unfoldable pub apply : Location → Input → Location
apply l i = record l {
  name = trim_space i.name;
  code = i.code;
  description = i.description;
  parent_id = i.parent_id;
  address = i.address;
  city = i.city;
  state = i.state;
  country = i.country;
  postal_code = i.postal_code;
  contact = trim_space i.contact;
  phone = trim_space i.phone;
  email = trim_space i.email;
  status = or_default i.status loc_active;
  tags = i.tags;
}

-- "Parent / Child", from the path that the parent has.
unfoldable pub path : String → String → String → Action String
path tenant parent name =
    if parent == ""
    then pure name
    else on_store (λ e. invalid "parent_id does not exist") (get_location tenant parent) >>= λ p.
        pure (or_default p.path p.name ++ (" / " ++ name))

abbrev pub blank : Ctx → Subjects → Location
blank ctx subj = record {
  id = ctx.row_id;
  tenant_id = subj.tenant_id;
  name = "";
  code = "";
  description = "";
  parent_id = "";
  path = "";
  address = "";
  city = "";
  state = "";
  country = "";
  postal_code = "";
  contact = "";
  phone = "";
  email = "";
  status = "";
  tags = [];
  created_by = actor_id subj;
  created_at = ctx.now;
  updated_at = ctx.now;
  child_count = 0;
  asset_count = 0;
}

unfoldable pub get : Vault → Subjects → String → Action Location
get vault subj id = do
  in_own_tenant subj
  l ← on_store map_err (get_location subj.tenant_id id)
  pure (present vault l subj)

unfoldable pub create : Ctx → Vault → Subjects → Input → Action Location
create ctx vault subj i = do
  in_own_tenant subj
  require_valid (validate i)
  let l = apply (blank ctx subj) i
  p ← path subj.tenant_id l.parent_id l.name
  sealed ← seal vault (record l { path = p })
  on_store map_err (create_location ctx.env sealed)
  emit (audit_event subj "location_created" "location" l.id "ok" "")
  get vault subj l.id

unfoldable pub list : Ctx → Vault → Subjects → Action (List Location)
list ctx vault subj = do
  in_own_tenant subj
  rows ← on_store store_failed (list_locations subj.tenant_id)
  pure (
      sort_by (λ a b. str_lt (ctx.env.to_lower a.path) (ctx.env.to_lower b.path))
        (map (λ l. present vault l subj) rows))

abbrev pub check_other : Subjects → String → String → Action ⊤
check_other subj id parent = do
  fault_if (parent == id) (invalid "a location cannot be its own parent")
  rows ← on_store store_failed (list_locations subj.tenant_id)
  fault_if (is_ancestor location_parent (nodes_of location_id rows) id parent)
      (invalid "parent_id would create a cycle")

-- The checks of `Update` on a new parent.
unfoldable pub check_parent : Subjects → String → String → Action ⊤
check_parent subj id parent = if parent == "" then pure tt else check_other subj id parent

unfoldable pub update : Ctx → Vault → Subjects → String → Input → Action Location
update ctx vault subj id i = do
  in_own_tenant subj
  require_valid (validate i)
  old ← on_store map_err (get_location subj.tenant_id id)
  check_parent subj id i.parent_id
  let l = apply old i
  p ← path subj.tenant_id l.parent_id l.name
  sealed ← seal vault (record l { path = p; updated_at = ctx.now })
  on_store map_err (update_location ctx.env sealed)
  emit (audit_event subj "location_updated" "location" id "ok" "")
  get vault subj id

unfoldable pub delete : Subjects → String → Action ⊤
delete subj id = do
  in_own_tenant subj
  l ← on_store map_err (get_location subj.tenant_id id)
  children ← on_store store_failed (count_child_locations subj.tenant_id id)
  fault_if (ltb 0 children) in_use
  used ← on_store store_failed (count_assets_by_location subj.tenant_id id)
  fault_if (ltb 0 used) in_use
  on_store map_err (delete_location subj.tenant_id id)
  emit (audit_event subj "location_deleted" "location" id "ok" "")
