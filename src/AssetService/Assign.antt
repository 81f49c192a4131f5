-- ===== src/AssetService/Assign.antt =====
-- internal/assets/assets.go: `Assign` and `Unassign`.
use go_tangra_asset.Common.{String, none, some, [], ◌∷◌, ⊤, ◌==◌, if◌then◌else◌}
use Prim.Native.String.{◌++◌}
use go_tangra_asset.Models.{
  Asset, Assignment, asset_deployable, asset_assigned, action_assigned, action_unassigned,
}
use go_tangra_asset.Memstore.State.{Err, Result}
use go_tangra_asset.Memstore.Assets.{get_asset, update_asset}
use go_tangra_asset.Memstore.Assignments.{insert_assignment, close_active_assignment}
use go_tangra_asset.Memstore.Locations.{get_location}
use go_tangra_asset.Authz.{Subjects, actor_id}
use go_tangra_asset.Service.{
  Action, invalid, bad_state, directory_failed, store_failed, fault_if, ◌>>=◌, ◌>>◌, pure, fault,
  emit, on_store, attempt, in_own_tenant, audit_event, published,
}
use go_tangra_asset.AssetService.{
  Ctx, View, Resolved, user, unknown_user, unreachable, check_ref, view, map_err,
}

-- An asset in another state is refused, and the refusal is audited.
abbrev pub require_status : Subjects → String → String → String → Asset → Action ⊤
require_status subj status type id a =
    if a.status == status
    then pure tt
    else emit (audit_event subj type "asset" id "refused" ("status " ++ a.status))
      >> fault (bad_state a.status)

abbrev pub of_resolved : Resolved → Action String
of_resolved (user name) = pure name
of_resolved unknown_user = fault (invalid "user_id does not exist")
of_resolved unreachable = fault directory_failed

-- The assignee must be known to the directory, where one is attached.
abbrev pub resolve_assignee : Ctx → String → String → Action String
resolve_assignee ctx tenant id = elim ctx.directory [
  | none ↦ pure ""
  | some resolve ↦ of_resolved (resolve tenant id)
]

abbrev pub checked_out : Ctx → Subjects → String → Asset → Asset
checked_out ctx subj user_id a = record a {
  status = asset_assigned;
  user_id = user_id;
  location_id = "";
  updated_by = actor_id subj;
  updated_at = ctx.now;
}

abbrev pub assigned_row : Ctx → Subjects → Asset → String → String → String → Assignment
assigned_row ctx subj a user_id user_name notes = record {
  id = ctx.row_id;
  tenant_id = subj.tenant_id;
  asset_id = a.id;
  asset_name = a.name;
  user_id = user_id;
  user_name = user_name;
  action = action_assigned;
  assigned_at = ctx.now;
  returned_at = none;
  assigned_by = actor_id subj;
  notes = notes;
}

unfoldable pub assign : Ctx → Subjects → String → String → String → Action View
assign ctx subj id user_id notes = do
  in_own_tenant subj
  fault_if (user_id == "") (invalid "user_id is required")
  a ← on_store map_err (get_asset ctx.env subj.tenant_id id)
  require_status subj asset_deployable "asset_assigned" id a
  user_name ← resolve_assignee ctx subj.tenant_id user_id
  let b = checked_out ctx subj user_id a
  on_store map_err (update_asset ctx.env b)
  let row = assigned_row ctx subj b user_id user_name notes
  on_store store_failed (insert_assignment ctx.env row)
  emit (published subj.tenant_id "asset.assigned" (b.id ∷ b.asset_tag ∷ user_id ∷ []))
  emit (audit_event subj "asset_assigned" "assignment" row.id "ok" "")
  pure (view ctx b)

-- The name of the user who gives the asset back, where it can be found.
abbrev pub previous_name : Ctx → String → String → String
previous_name ctx tenant id = elim ctx.directory [
  | none ↦ ""
  | some resolve ↦ if id == "" then "" else elim (resolve tenant id) [ user name ↦ name | _ ↦ "" ]
]

abbrev pub checked_in : Ctx → Subjects → String → Asset → Asset
checked_in ctx subj location_id a = record a {
  status = asset_deployable;
  user_id = "";
  location_id = location_id;
  updated_by = actor_id subj;
  updated_at = ctx.now;
}

abbrev pub unassigned_row : Ctx → Subjects → Asset → String → Assignment
unassigned_row ctx subj a notes = record {
  id = ctx.row_id;
  tenant_id = subj.tenant_id;
  asset_id = a.id;
  asset_name = a.name;
  user_id = a.user_id;
  user_name = previous_name ctx subj.tenant_id a.user_id;
  action = action_unassigned;
  assigned_at = ctx.now;
  returned_at = some ctx.now;
  assigned_by = actor_id subj;
  notes = notes;
}

-- `if err != nil && !errors.Is(err, repo.ErrNotFound) { return err }`
abbrev pub unless_missing : Result ⊤ → Action ⊤
unless_missing (Result.ok _) = pure tt
unless_missing (Result.err Err.not_found) = pure tt
unless_missing (Result.err e) = fault (store_failed e)

unfoldable pub unassign : Ctx → Subjects → String → String → String → Action View
unassign ctx subj id location_id notes = do
  in_own_tenant subj
  a ← on_store map_err (get_asset ctx.env subj.tenant_id id)
  require_status subj asset_assigned "asset_unassigned" id a
  check_ref location_id (get_location subj.tenant_id) "location_id does not exist"
  let b = checked_in ctx subj location_id a
  on_store map_err (update_asset ctx.env b)
  unless_missing (← attempt (close_active_assignment ctx.env subj.tenant_id b.id ctx.now))
  let row = unassigned_row ctx subj a notes
  on_store store_failed (insert_assignment ctx.env row)
  emit (published subj.tenant_id "asset.unassigned" (b.id ∷ b.asset_tag ∷ a.user_id ∷ []))
  emit (audit_event subj "asset_unassigned" "assignment" row.id "ok" "")
  pure (view ctx b)
