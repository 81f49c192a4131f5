-- ===== src/AssetService/Bystander.antt =====
-- The asset service's operations for one tenant move no other tenant's view.
use go_tangra_asset.Common.{
  arith, ℕ, zero, suc, ◌+◌, true, false, String, ℤ, ◌≢◌, Bool, Option, none, some, List, [], ◌∷◌, ⊤,
}
use go_tangra_asset.Models.{AssetFilter, Asset, Document}
use go_tangra_asset.Memstore.State.{Mem, Result, Err}
use go_tangra_asset.Authz.{Subjects}
use go_tangra_asset.Service.{Action, pure}
use go_tangra_asset.Service.Keeping.{Keeps, Keeps-fault, Keeps-pure, Keeps-attempt, keeping}
use go_tangra_asset.Service.Bystander.{IsUnmoved}
use go_tangra_asset.Service.Bystander.Reads.{reads}
use go_tangra_asset.Service.Bystander.Writes.{writes}
use go_tangra_asset.Service.Bystander.Rows.{rows}
use go_tangra_asset.AssetService.{
  Ctx, Input, check_refs, apply, get, list, assignments, Resolved, user, unknown_user, unreachable,
}
use go_tangra_asset.DocumentService.{purge_rows, remove_object}
use go_tangra_asset.AssetService.Edit.{
  create, update, delete, create_loop, settled, edited, delete_blobs, drop_documents,
}
use go_tangra_asset.AssetService.Assign.{
  assign, unassign, require_status, of_resolved, resolve_assignee, unless_missing,
}

module _ (u : String) (m0 : Mem) (ctx : Ctx) (subj : Subjects) (other : u ≢ subj.tenant_id) where
  pub get-Keeps : (id : String) → Keeps (IsUnmoved u m0) (get ctx subj id)
  unfolding get
  get-Keeps id = search (keeping, reads) depth 20

  pub list-Keeps : (f : AssetFilter) → Keeps (IsUnmoved u m0) (list ctx subj f)
  unfolding list
  list-Keeps f = search (keeping, reads) depth 20

  pub assignments-Keeps :
      (id : String) (limit : ℤ) → Keeps (IsUnmoved u m0) (assignments ctx subj id limit)
  unfolding assignments
  assignments-Keeps id limit = search (keeping, reads) depth 20

  check_refs-Keeps : (tenant : String) (i : Input) → Keeps (IsUnmoved u m0) (check_refs tenant i)
  unfolding check_refs
  check_refs-Keeps tenant i = search (keeping, reads) depth 20

  settled-Keeps : (a : Asset) (r : Result ⊤) → Keeps (IsUnmoved u m0) (settled a r)
  settled-Keeps a (Result.ok x) = Keeps-pure _ a
  settled-Keeps a (Result.err e) = Keeps-fault _ Asset _

  create_loop-Keeps :
      (auto : Bool) (left round : ℕ) (a : Asset)
      → u ≢ a.tenant_id
      → Keeps (IsUnmoved u m0) (create_loop ctx auto left round a)
  unfolding create_loop
  create_loop-Keeps true zero round a h =
      search (settled-Keeps, Keeps-attempt, keeping, writes) depth 20
  create_loop-Keeps false zero round a h =
      search (settled-Keeps, Keeps-attempt, keeping, writes) depth 20
  create_loop-Keeps true (suc left) round a h =
      search
        (create_loop-Keeps true left (round + 1) a h, settled-Keeps, Keeps-attempt, keeping, writes)
        depth 20
  create_loop-Keeps false (suc left) round a h =
      search
        (
          create_loop-Keeps false left (round + 1) a h,
          settled-Keeps,
          Keeps-attempt,
          keeping,
          writes,
        )
        depth 20

  pub create-Keeps : (i : Input) → Keeps (IsUnmoved u m0) (create ctx subj i)
  unfolding create apply
  create-Keeps i = search (create_loop-Keeps, check_refs-Keeps, keeping) depth 20

  edited-other : (i : Input) (a : Asset) → u ≢ a.tenant_id → u ≢ (edited ctx subj i a).tenant_id
  unfolding edited apply
  edited-other i a h = ground arith

  pub update-Keeps : (id : String) (i : Input) → Keeps (IsUnmoved u m0) (update ctx subj id i)
  unfolding update
  update-Keeps id i = search (edited-other, check_refs-Keeps, rows, keeping, writes) depth 20

  delete_blobs-Keeps : (ds : List Document) → Keeps (IsUnmoved u m0) (delete_blobs ds)
  unfolding delete_blobs
  delete_blobs-Keeps [] = search (keeping)
  delete_blobs-Keeps (d ∷ ds) = search (delete_blobs-Keeps ds, keeping)

  remove_object-Keeps :
      (archive : Bool) (d : Document)
      → Keeps (IsUnmoved u m0) (remove_object archive subj.tenant_id d)
  unfolding remove_object
  remove_object-Keeps archive d = search (keeping) depth 20

  purge_rows-Keeps :
      (archive : Bool) (ds : List Document)
      → Keeps (IsUnmoved u m0) (purge_rows archive subj.tenant_id ds)
  unfolding purge_rows
  purge_rows-Keeps archive [] = search (keeping)
  purge_rows-Keeps archive (d ∷ ds) =
      search (purge_rows-Keeps archive ds, remove_object-Keeps, Keeps-attempt, writes, keeping)
        depth 20

  drop_documents-Keeps :
      (r : Result (List Document)) → Keeps (IsUnmoved u m0) (drop_documents ctx subj.tenant_id r)
  drop_documents-Keeps (Result.ok docs) = search (purge_rows-Keeps, delete_blobs-Keeps, keeping)
  drop_documents-Keeps (Result.err e) = search (keeping)

  pub delete-Keeps : (id : String) → Keeps (IsUnmoved u m0) (delete ctx subj id)
  unfolding delete
  delete-Keeps id = search (drop_documents-Keeps, Keeps-attempt, keeping, reads, writes) depth 20

  require_status-Keeps :
      (status type id : String) (a : Asset)
      → Keeps (IsUnmoved u m0) (require_status subj status type id a)
  require_status-Keeps status type id a = search (keeping, Keeps-fault) depth 20

  of_resolved-Keeps : (r : Resolved) → Keeps (IsUnmoved u m0) (of_resolved r)
  of_resolved-Keeps (user name) = search (keeping)
  of_resolved-Keeps unknown_user = search (Keeps-fault)
  of_resolved-Keeps unreachable = search (Keeps-fault)

  resolve_assignee-Keeps :
      (tenant id : String) → Keeps (IsUnmoved u m0) (resolve_assignee ctx tenant id)
  resolve_assignee-Keeps tenant id = go ctx.directory
    where
      go :
          (d : Option (String → String → Resolved))
          → Keeps (IsUnmoved u m0) (elim d as (λ x. Action String) [
            | none ↦ pure ""
            | some resolve ↦ of_resolved (resolve tenant id)
          ])
      go none = Keeps-pure _ ""
      go (some resolve) = of_resolved-Keeps (resolve tenant id)

  unless_missing-Keeps : (r : Result ⊤) → Keeps (IsUnmoved u m0) (unless_missing r)
  unless_missing-Keeps (Result.ok x) = search (keeping)
  unless_missing-Keeps (Result.err Err.not_found) = search (keeping)
  unless_missing-Keeps (Result.err Err.conflict) = search (Keeps-fault)
  unless_missing-Keeps (Result.err Err.not_empty) = search (Keeps-fault)
  unless_missing-Keeps (Result.err (Err.injected k)) = search (Keeps-fault)

  pub assign-Keeps :
      (id user_id notes : String) → Keeps (IsUnmoved u m0) (assign ctx subj id user_id notes)
  unfolding assign
  assign-Keeps id user_id notes =
      search (rows, require_status-Keeps, resolve_assignee-Keeps, keeping, writes) depth 30 fits
        3000

  pub unassign-Keeps :
      (id location notes : String) → Keeps (IsUnmoved u m0) (unassign ctx subj id location notes)
  unfolding unassign
  unassign-Keeps id location notes =
      search
        (rows, require_status-Keeps, unless_missing-Keeps, Keeps-attempt, keeping, reads, writes)
        depth 30 fits 3000
