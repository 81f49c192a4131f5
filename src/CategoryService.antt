-- ===== src/CategoryService.antt =====
-- internal/categories/categories.go: the category service, over the store.
pub mod Guards
pub mod Bystander
use Prim.Native.String.{len}
use go_tangra_asset.Common.{
  ℕ, String, Bool, true, false, ◌||◌, Option, none, some, List, [], ◌∷◌, ⊤, ltb, ◌==◌,
  if◌then◌else◌, trim_space, str_lt,
}
use go_tangra_asset.Table.{Table}
use go_tangra_asset.Models.{Category}
use go_tangra_asset.Memstore.State.{Err, Result}
use go_tangra_asset.Memstore.Page.{length, sort_by}
use go_tangra_asset.Memstore.Assets.{asset_tenant}
use go_tangra_asset.Memstore.AssetReads.{count_assets_by_category}
use go_tangra_asset.Memstore.Categories.{
  create_category, get_category, list_categories, update_category, delete_category,
  count_child_categories,
}
use go_tangra_asset.Authz.{Subjects, actor_id}
use go_tangra_asset.Service.{
  Action, Fault, invalid, missing, duplicate, in_use, store_failed, fault_if, ◌>>=◌, ◌>>◌, pure,
  fault, emit, on_store, in_own_tenant, require_valid, audit_event,
}
use go_tangra_asset.AssetService.{Ctx, check_ref}
use go_tangra_asset.Tree.{nodes_of, is_ancestor}

abbrev pub category_id : Category → String
category_id c = c.id

abbrev pub category_parent : Category → String
category_parent c = c.parent_id

pub record Input : Type 0 where
  pub name : String
  pub description : String
  pub parent_id : String
  pub icon : String
  pub tags : Table String

unfoldable pub map_err : Err → Fault
map_err Err.not_found = missing
map_err Err.conflict = duplicate
map_err Err.not_empty = in_use
map_err e = store_failed e

unfoldable pub validate : Input → Option String
validate i =
    if trim_space i.name == "" || ltb 200 (len i.name)
    then some "name is required (max 200)"
    else if ltb 64 (length i.tags)
    then some "too many tags"
    else none

unfoldable pub get : Subjects → String → Action Category
get subj id = do in_own_tenant subj; on_store map_err (get_category subj.tenant_id id)

abbrev pub created : Ctx → Subjects → Input → Category
created ctx subj i = record {
  id = ctx.row_id;
  tenant_id = subj.tenant_id;
  name = trim_space i.name;
  description = i.description;
  parent_id = i.parent_id;
  icon = i.icon;
  tags = i.tags;
  created_by = actor_id subj;
  created_at = ctx.now;
  updated_at = ctx.now;
  asset_count = 0;
  child_count = 0;
}

unfoldable pub create : Ctx → Subjects → Input → Action Category
unfolding get
create ctx subj i = do
  in_own_tenant subj
  require_valid (validate i)
  check_ref i.parent_id (get_category subj.tenant_id) "parent_id does not exist"
  let c = created ctx subj i
  on_store map_err (create_category ctx.env c)
  emit (audit_event subj "category_created" "category" c.id "ok" "")
  get subj c.id

-- By lower-cased name; `sort.Slice` is not stable, so the order of equal names is one of several.
unfoldable pub list : Ctx → Subjects → Action (List Category)
list ctx subj = do
  in_own_tenant subj
  rows ← on_store store_failed (list_categories subj.tenant_id)
  pure (sort_by (λ a b. str_lt (ctx.env.to_lower a.name) (ctx.env.to_lower b.name)) rows)

abbrev pub check_other : Subjects → String → String → Action ⊤
check_other subj id parent = do
  fault_if (parent == id) (invalid "a category cannot be its own parent")
  on_store (λ e. invalid "parent_id does not exist") (get_category subj.tenant_id parent)
  rows ← on_store store_failed (list_categories subj.tenant_id)
  fault_if (is_ancestor category_parent (nodes_of category_id rows) id parent)
      (invalid "parent_id would create a cycle")

-- The checks of `Update` on a new parent.
unfoldable pub check_parent : Subjects → String → String → Action ⊤
check_parent subj id parent = if parent == "" then pure tt else check_other subj id parent

abbrev pub edited : Ctx → Input → Category → Category
edited ctx i c = record c {
  name = trim_space i.name;
  description = i.description;
  parent_id = i.parent_id;
  icon = i.icon;
  tags = i.tags;
  updated_at = ctx.now;
}

unfoldable pub update : Ctx → Subjects → String → Input → Action Category
update ctx subj id i = do
  in_own_tenant subj
  require_valid (validate i)
  c ← on_store map_err (get_category subj.tenant_id id)
  check_parent subj id i.parent_id
  on_store map_err (update_category ctx.env (edited ctx i c))
  emit (audit_event subj "category_updated" "category" id "ok" "")
  get subj id

unfoldable pub delete : Subjects → String → Action ⊤
delete subj id = do
  in_own_tenant subj
  c ← on_store map_err (get_category subj.tenant_id id)
  children ← on_store store_failed (count_child_categories subj.tenant_id id)
  fault_if (ltb 0 children) in_use
  used ← on_store store_failed (count_assets_by_category subj.tenant_id id)
  fault_if (ltb 0 used) in_use
  on_store map_err (delete_category subj.tenant_id id)
  emit (audit_event subj "category_deleted" "category" id "ok" "")
