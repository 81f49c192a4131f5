-- ===== src/AssetService/Requests.antt =====
-- Check-out and check-in keep the lifecycle's invariant, and with them every operation.
use Prim.Native.String.{String}
use go_tangra_asset.Common.{Option, none, some, List, [], ◌∷◌, ⊤, arith, ◌==◌}
use go_tangra_asset.Models.{Asset, asset_assigned, asset_deployable}
use go_tangra_asset.Memstore.State.{Result, Err}
use go_tangra_asset.Memstore.Assets.{update_asset}
use go_tangra_asset.Memstore.Assignments.{close_active_assignment}
use go_tangra_asset.Memstore.Locations.{get_location}
use go_tangra_asset.Authz.{Subjects}
use go_tangra_asset.Service.{Action, World, pure}
use go_tangra_asset.Service.Rules.{
  After-gate, After-fault_if, After-store, After-attempt, After-bind, After-pure, After-emit,
  After-fault,
}
use go_tangra_asset.AssetService.{Ctx, Input, Resolved, user, unknown_user, unreachable}
use go_tangra_asset.AssetService.Edit.{create, update, delete}
use go_tangra_asset.AssetService.Assign.{
  assign, unassign, require_status, of_resolved, resolve_assignee, checked_out, checked_in,
  unless_missing,
}
use go_tangra_asset.AssetService.Held.{
  AllHeld, get_asset-AllHeld, update_asset-AllHeld, get_location-assets, insert_assignment-assets,
  close_active_assignment-assets, deployable-ne-assigned,
}
use go_tangra_asset.AssetService.Keeps.{
  Kept, Keeps, Keeps-world, check_ref-Keeps, branch-Keeps, create-Keeps, update-Keeps, delete-Keeps,
}

module _ (ctx : Ctx) (subj : Subjects) where
  require_status-Keeps :
      (status type id : String) (a : Asset) (w : World)
      → Kept w
      → Keeps (require_status subj status type id a w)
  require_status-Keeps status type id a w h =
      branch-Keeps (a.status == status) _ _ w (After-pure _ Kept _ w h)
        (After-emit _ Kept _ _ w (After-fault _ Kept _ _ h))

  of_resolved-Keeps : (r : Resolved) (w : World) → Kept w → Keeps (of_resolved r w)
  of_resolved-Keeps (user name) w h = After-pure _ Kept _ w h
  of_resolved-Keeps unknown_user w h = After-fault _ Kept _ w h
  of_resolved-Keeps unreachable w h = After-fault _ Kept _ w h

  resolve_assignee-Keeps :
      (tenant id : String) (w : World) → Kept w → Keeps (resolve_assignee ctx tenant id w)
  resolve_assignee-Keeps tenant id w h = go ctx.directory
    where
      go :
          (d : Option (String → String → Resolved))
          → Keeps (
              (elim d as (λ x. Action String) [
                | none ↦ pure ""
                | some resolve ↦ of_resolved (resolve tenant id)
              ])
                w)
      go none = After-pure _ Kept _ w h
      go (some resolve) = of_resolved-Keeps (resolve tenant id) w h

  assign-Keeps :
      (id user_id notes : String) (w : World) → Kept w → Keeps (assign ctx subj id user_id notes w)
  unfolding assign
  assign-Keeps id user_id notes w h = After-gate _ Kept _ _ w h (λ own.
      After-fault_if _ Kept _ _ _ w h (λ named.
        let h1 = get_asset-AllHeld ctx.env w.mem h subj.tenant_id id in
        After-store _ Kept _ _ _ w (λ x e. h1)
          (λ a e.
            After-bind _ Kept (λ b w'. Kept w') _ _ _
              (require_status-Keeps asset_deployable "asset_assigned" id a _ h1)
              (λ b w2 h2.
                After-bind _ Kept (λ n w'. Kept w') _ _ w2
                  (resolve_assignee-Keeps subj.tenant_id user_id w2 h2)
                  (λ n w3 h3.
                    let h4 =
                      update_asset-AllHeld ctx.env w3.mem h3 (checked_out ctx subj user_id a)
                        (ground arith) in
                    After-store _ Kept _ _ _ w3 (λ x e'. h4)
                      (λ u e'.
                        After-store _ Kept _ _ _ _ (λ x e''. rw insert_assignment-assets h4)
                          (λ u' e''. After-emit _ Kept _ _ _ (
                            After-emit _ Kept _ _ _
                              (After-pure _ Kept _ _ (rw insert_assignment-assets h4))))))))))

  unless_missing-Keeps : (r : Result ⊤) (w : World) → Kept w → Keeps (unless_missing r w)
  unless_missing-Keeps (Result.ok x) w h = After-pure _ Kept _ w h
  unless_missing-Keeps (Result.err Err.not_found) w h = After-pure _ Kept _ w h
  unless_missing-Keeps (Result.err Err.conflict) w h = After-fault _ Kept _ w h
  unless_missing-Keeps (Result.err Err.not_empty) w h = After-fault _ Kept _ w h
  unless_missing-Keeps (Result.err (Err.injected k)) w h = After-fault _ Kept _ w h

  unassign-Keeps :
      (id location notes : String) (w : World)
      → Kept w
      → Keeps (unassign ctx subj id location notes w)
  unfolding unassign
  unassign-Keeps id location notes w h = After-gate _ Kept _ _ w h (λ own.
      let h1 = get_asset-AllHeld ctx.env w.mem h subj.tenant_id id in
      After-store _ Kept _ _ _ w (λ x e. h1)
        (λ a e.
          After-bind _ Kept (λ b w'. Kept w') _ _ _
            (require_status-Keeps asset_assigned "asset_unassigned" id a _ h1)
            (λ b w2 h2.
              After-bind _ Kept (λ n w'. Kept w') _ _ w2
                (check_ref-Keeps location "location_id does not exist" (get_location subj.tenant_id)
                  w2 (rw get_location-assets h2) h2)
                (λ n w3 h3.
                  let b' = checked_in ctx subj location a in
                  let h4 =
                    update_asset-AllHeld ctx.env w3.mem h3 b'
                      (ground (arith, deployable-ne-assigned)) in
                  let m4 = (update_asset ctx.env b' w3.mem).1 in
                  let closed = close_active_assignment ctx.env subj.tenant_id b'.id ctx.now m4 in
                  After-store _ Kept _ _ _ w3 (λ x e'. h4)
                    (λ u e'. After-attempt _ Kept _ _ _ (
                      After-bind _ Kept (λ c w'. Kept w') _ _ _
                        (unless_missing-Keeps closed.0 _ (rw close_active_assignment-assets h4))
                        (λ c w5 h5.
                          After-store _ Kept _ _ _ w5 (λ x e''. rw insert_assignment-assets h5)
                            (λ u' e''. After-emit _ Kept _ _ _ (
                              After-emit _ Kept _ _ _
                                (After-pure _ Kept _ _ (rw insert_assignment-assets h5)))))))))))

-- The operations that write, as data.
pub data Request : Type 0 where
  creates : Input → Request
  updates : String → Input → Request
  deletes : String → Request
  assigns unassigns : String → String → String → Request

-- The world after an operation, whether it is done or fails.
unfoldable pub serve : Ctx → Subjects → Request → World → World
serve ctx subj (creates i) w = (create ctx subj i w).1
serve ctx subj (updates id i) w = (update ctx subj id i w).1
serve ctx subj (deletes id) w = (delete ctx subj id w).1
serve ctx subj (assigns id user_id notes) w = (assign ctx subj id user_id notes w).1
serve ctx subj (unassigns id location notes) w = (unassign ctx subj id location notes w).1

-- An operation keeps the lifecycle's invariant, with any fault on the way.
pub serve-AllHeld :
    (ctx : Ctx) (subj : Subjects) (r : Request) (w : World)
    → AllHeld w.mem.assets
    → AllHeld (serve ctx subj r w).mem.assets
unfolding serve
serve-AllHeld ctx subj (creates i) w h = Keeps-world _ (create-Keeps ctx subj i w h)
serve-AllHeld ctx subj (updates id i) w h = Keeps-world _ (update-Keeps ctx subj id i w h)
serve-AllHeld ctx subj (deletes id) w h = Keeps-world _ (delete-Keeps ctx subj id w h)
serve-AllHeld ctx subj (assigns id user_id notes) w h =
    Keeps-world _ (assign-Keeps ctx subj id user_id notes w h)
serve-AllHeld ctx subj (unassigns id location notes) w h =
    Keeps-world _ (unassign-Keeps ctx subj id location notes w h)

-- The world after a history of operations.
unfoldable pub serve_all : List (Ctx × Subjects × Request) → World → World
unfolding serve
serve_all [] w = w
serve_all ((ctx, subj, r) ∷ rs) w = serve_all rs (serve ctx subj r w)

-- From a store where every asset has an assignee exactly while it is assigned, and no location then,
-- any history of operations, by any callers and with any faults, ends in such a store.
pub serve_all-AllHeld :
    (rs : List (Ctx × Subjects × Request)) (w : World)
    → AllHeld w.mem.assets
    → AllHeld (serve_all rs w).mem.assets
unfolding serve_all
serve_all-AllHeld [] w h = h
serve_all-AllHeld ((ctx, subj, r) ∷ rs) w h =
    serve_all-AllHeld rs (serve ctx subj r w) (serve-AllHeld ctx subj r w h)
