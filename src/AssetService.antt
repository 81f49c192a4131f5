-- ===== src/AssetService.antt =====
-- internal/assets/assets.go: the asset service's data, its validation and its reads.
pub mod Bystander
pub mod Edit
pub mod Assign
pub mod Held
pub mod Keeps
pub mod Requests
pub mod Custody
pub mod Handover
use Prim.Native.String.{len, char_at, ◌++◌, String}
use Prim.Native.Char.{code}
use go_tangra_asset.Common.{
  ℕ, ◌/◌, ◌%◌, Bool, true, false, not, ◌&&◌, ◌||◌, Option, none, some, List, [], ◌∷◌, ⊤, ℤ, pos,
  Time, ltb, leb, eqb, ltb_ℤ, leb_ℤ, ◌==◌, if◌then◌else◌, trim_space,
}
use mathlib.Core.List.{map}
use go_tangra_asset.Table.{Table}
use go_tangra_asset.Float64.{Float64, flt, f_zero, f_one}
use go_tangra_asset.Deprec.{FloatOps, book_value}
use go_tangra_asset.Models.{
  Asset, Assignment, AssetFilter, asset_deployable, asset_assigned, asset_broken, asset_archived,
}
use go_tangra_asset.Memstore.State as State
use go_tangra_asset.Memstore.State.{Env, Err, Result}
use go_tangra_asset.Memstore.Page.{length}
use go_tangra_asset.Memstore.Assets.{get_asset}
use go_tangra_asset.Memstore.AssetReads.{list_assets}
use go_tangra_asset.Memstore.Assignments.{list_assignments}
use go_tangra_asset.Memstore.Categories.{get_category}
use go_tangra_asset.Memstore.Suppliers.{get_supplier}
use go_tangra_asset.Memstore.Locations.{get_location}
use go_tangra_asset.Authz.{Subjects}
use go_tangra_asset.Service.{
  Action, Fault, invalid, missing, duplicate, store_failed, fault_if, ◌>>=◌, ◌>>◌, pure, fault,
  on_store, attempt, in_own_tenant,
}

-- The answer of the user directory, which is another service.
pub data Resolved : Type 0 where
  user : String → Resolved
  unknown_user : Resolved
  unreachable : Resolved

-- The service's surroundings for one operation: its clock, the ids that `store.NewID` mints for its
-- rows, the 24-bit draws that `AutoTag` makes, the store's own surroundings, the user directory, and
-- which optional parts are attached.
pub record Ctx : Type 0 where
  pub now : Time
  pub row_id : String
  pub draw : ℕ → ℕ
  pub env : Env
  pub directory : Option (String → String → Resolved)
  pub has_blobs : Bool
  pub has_purger : Bool
  pub has_archive : Bool

pub record Input : Type 0 where
  pub asset_tag : String
  pub name : String
  pub serial : String
  pub model_name : String
  pub model_number : String
  pub category_id : String
  pub supplier_id : String
  pub location_id : String
  pub status : String
  pub warranty_months : ℤ
  pub purchase_date : Option Time
  pub order_number : String
  pub purchase_cost : Float64
  pub notes : String
  pub salvage_value : Float64
  pub useful_life_years : ℤ
  pub depreciation_rate : Float64
  pub tags : Table String

-- The projection that every operation answers with.
pub record View : Type 0 where
  pub asset : Asset
  pub assignee_name : String
  pub has_photo : Bool

hex_digit : ℕ → String
hex_digit n = String.◌∷◌ (char_at "0123456789ABCDEF" (n % 16)) String.[]

-- `AutoTag`: three random bytes, as six digits.
unfoldable pub auto_tag : ℕ → String
unfolding hex_digit
auto_tag r =
    "AST-"
    ++ hex_digit (r / 1048576)
    ++ hex_digit (r / 65536)
    ++ hex_digit (r / 4096)
    ++ hex_digit (r / 256)
    ++ hex_digit (r / 16)
    ++ hex_digit r

visible : String → Bool
visible String.[] = true
visible (String.◌∷◌ c s) = if leb (code c) 0x20 || eqb (code c) 0x7f then false else visible s

unfoldable pub valid_tag : String → Bool
unfolding visible
valid_tag tag = if tag == "" || ltb 64 (len tag) then false else visible tag

unfoldable pub valid_status : String → Bool
valid_status st =
    st == asset_deployable || st == asset_assigned || st == asset_broken || st == asset_archived

unfoldable pub map_err : Err → Fault
map_err Err.not_found = missing
map_err Err.conflict = duplicate
map_err e = store_failed e

unfoldable pub validate : Input → Option String
unfolding valid_tag valid_status
validate i =
    if trim_space i.name == "" || ltb 200 (len i.name)
    then some "name is required (max 200)"
    else if not (i.asset_tag == "") && not (valid_tag i.asset_tag)
    then some "asset_tag is invalid"
    else if not (i.status == "") && not (valid_status i.status)
    then some "status is invalid"
    else if flt i.purchase_cost f_zero
        || flt i.salvage_value f_zero
        || ltb_ℤ i.warranty_months (pos 0)
        || ltb_ℤ i.useful_life_years (pos 0)
        || flt i.depreciation_rate f_zero
        || flt f_one i.depreciation_rate
    then some "numeric fields out of range"
    else if ltb 64 (length i.tags)
    then some "too many tags"
    else none

unfoldable pub book_value_of : Ctx → Asset → Float64
book_value_of ctx a =
    book_value ctx.env.floats a.purchase_cost a.salvage_value a.useful_life_years
      a.depreciation_rate (elim a.purchase_date [ none ↦ 0 | some t ↦ t ]) ctx.now

-- The assignee's name, where a directory is attached and knows the user.
unfoldable pub assignee_name : Ctx → Asset → String
assignee_name ctx a = elim ctx.directory [
  | none ↦ ""
  | some resolve ↦
      if a.user_id == ""
      then ""
      else elim (resolve a.tenant_id a.user_id) [ user name ↦ name | _ ↦ "" ]
]

unfoldable pub view : Ctx → Asset → View
unfolding book_value_of assignee_name
view ctx a = record {
  asset = record a { book_value = book_value_of ctx a };
  assignee_name = assignee_name ctx a;
  has_photo = not (a.photo_key == "");
}

-- A reference that is given must resolve in the tenant.
abbrev pub check_ref : {A : Type 0} → String → (String → State.Op A) → String → Action ⊤
check_ref id look msg =
    if id == "" then pure tt else on_store (λ e. invalid msg) (look id) >> pure tt

unfoldable pub check_refs : String → Input → Action ⊤
check_refs tenant i = do
  check_ref i.category_id (get_category tenant) "category_id does not exist"
  check_ref i.supplier_id (get_supplier tenant) "supplier_id does not exist"
  check_ref i.location_id (get_location tenant) "location_id does not exist"

unfoldable pub apply : Asset → Input → Asset
apply a i = record a {
  asset_tag = trim_space i.asset_tag;
  name = trim_space i.name;
  serial = trim_space i.serial;
  model_name = i.model_name;
  model_number = i.model_number;
  category_id = i.category_id;
  supplier_id = i.supplier_id;
  location_id = i.location_id;
  status = i.status;
  warranty_months = i.warranty_months;
  purchase_date = i.purchase_date;
  order_number = i.order_number;
  purchase_cost = i.purchase_cost;
  notes = i.notes;
  salvage_value = i.salvage_value;
  useful_life_years = i.useful_life_years;
  depreciation_rate = i.depreciation_rate;
  tags = i.tags;
}

unfoldable pub get : Ctx → Subjects → String → Action View
get ctx subj id = do
  in_own_tenant subj
  a ← on_store map_err (get_asset ctx.env subj.tenant_id id)
  pure (view ctx a)

unfoldable pub list : Ctx → Subjects → AssetFilter → Action (List View)
list ctx subj f = do
  in_own_tenant subj
  rows ← on_store store_failed (list_assets ctx.env subj.tenant_id f)
  pure (map (view ctx) rows)

unfoldable pub assignments : Ctx → Subjects → String → ℤ → Action (List Assignment)
assignments ctx subj id limit = do
  in_own_tenant subj
  a ← on_store map_err (get_asset ctx.env subj.tenant_id id)
  let bound = if leb_ℤ limit (pos 0) || ltb_ℤ (pos 500) limit then pos 100 else limit
  on_store store_failed (list_assignments subj.tenant_id id bound)
