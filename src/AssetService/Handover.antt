-- ===== src/AssetService/Handover.antt =====
-- A check-out and a check-in that are done do what they say.
use go_tangra_asset.Common.{
  ◌+◌, String, ◌≡◌, ◌≢◌, refl, Option, none, some, ⊤, arith, ◌==◌, Bool-cases, inl, inr,
}
use go_tangra_asset.Models.{Asset, Location, asset_assigned, asset_deployable}
use go_tangra_asset.Memstore.State.{Mem, Result, Err, ok, call, disarm, not_found}
use go_tangra_asset.Memstore.Invariant.{IsValid}
use go_tangra_asset.Memstore.Assets.{update_asset}
use go_tangra_asset.Memstore.Assignments.{insert_assignment, close_active_assignment}
use go_tangra_asset.Memstore.Locations.{get_location}
use go_tangra_asset.Authz.{Subjects}
use go_tangra_asset.Service.{Action, World, done, pure}
use go_tangra_asset.Service.Rules.{
  After, After-gate, After-fault_if, After-store, After-attempt, After-bind, After-pure, After-emit,
  After-fault, After-done,
}
use go_tangra_asset.AssetService.{Ctx, View, Resolved, user, unknown_user, unreachable, check_ref}
use go_tangra_asset.AssetService.Assign.{
  assign, unassign, require_status, of_resolved, resolve_assignee, checked_out, checked_in,
  unless_missing, assigned_row, unassigned_row,
}
use go_tangra_asset.AssetService.Held.{insert_assignment-assets, close_active_assignment-assets}
use go_tangra_asset.AssetService.Custody.{
  open_rows, status_at, custody_at, get_asset-found, update_asset-written, insert_assignment-opens,
  insert_assignment-closed, close_active_assignment-none, close_active_assignment-error,
}

-- The asset was free and is with the user, and one more assignment of it is open.
pub record CheckedOut (tenant id user_id : String) (m m' : Mem) : Type 0 where
  pub before : status_at id m ≡ some (tenant, asset_deployable)
  pub after : custody_at id m' ≡ some (asset_assigned, user_id, "")
  pub opened : open_rows tenant id m' ≡ open_rows tenant id m + 1

-- The asset was out and is free at the location, and no assignment of it is open.
pub record CheckedIn (tenant id location : String) (m m' : Mem) : Type 0 where
  pub before : status_at id m ≡ some (tenant, asset_assigned)
  pub after : custody_at id m' ≡ some (asset_deployable, "", location)
  pub closed : open_rows tenant id m' ≡ 0

-- Nothing is claimed of an operation that fails.
abbrev Any : World → Type 0
Any w = ⊤

get_location-same :
    (tenant id : String) (m : Mem) (l : Location)
    → (get_location tenant id m).0 ≡ ok l
    → (get_location tenant id m).1 ≡ m
unfolding get_location call disarm
get_location-same tenant id m l e = ground arith

module _ (ctx : Ctx) (subj : Subjects) where
  -- The two store calls of a check-out, of an asset read from the same store.
  handed_out :
      (id user_id user_name notes : String) (a : Asset) (m m3 : Mem)
      → m3 ≡ m
      → a.id ≡ id
      → status_at id m ≡ some (subj.tenant_id, a.status)
      → a.status ≡ asset_deployable
      → let b = checked_out ctx subj user_id a in
        let m4 = (update_asset ctx.env b m3).1 in
        let row = assigned_row ctx subj b user_id user_name notes in
        (update_asset ctx.env b m3).0 ≡ ok tt
        → (insert_assignment ctx.env row m4).0 ≡ ok tt
        → CheckedOut subj.tenant_id id user_id m (insert_assignment ctx.env row m4).1
  handed_out id user_id user_name notes a m m3 e i st dep written inserted =
      let b = checked_out ctx subj user_id a in
      let m4 = (update_asset ctx.env b m3).1 in
      let row = assigned_row ctx subj b user_id user_name notes in
      let wrote = update_asset-written ctx.env m3 b written in
      let kept = insert_assignment-assets m4 subj.tenant_id id ctx.env row in
      let more = insert_assignment-opens ctx.env m4 subj.tenant_id id row inserted refl i refl in
      record { before = grind arith; after = grind arith; opened = grind arith }

  -- Past the check, the asset has the status, and the store is as before.
  require_status-passed :
      (status type id : String) (a : Asset) (w : World)
      → After
          (λ b w'. (w'.mem ≡ w.mem) × (a.status ≡ status))
          Any
          (require_status subj status type id a w)
  require_status-passed status type id a w = elim (Bool-cases (a.status == status)) [
    | inl same ↦ rw same (After-pure _ Any _ w (refl, ground arith))
    | inr other ↦ rw other (After-emit _ Any _ _ w (After-fault _ Any _ _ tt))
  ]

  of_resolved-same :
      (r : Resolved) (w : World) → After (λ n w'. w'.mem ≡ w.mem) Any (of_resolved r w)
  of_resolved-same (user name) w = After-pure _ Any _ w refl
  of_resolved-same unknown_user w = After-fault _ Any _ w tt
  of_resolved-same unreachable w = After-fault _ Any _ w tt

  resolve_assignee-same :
      (tenant id : String) (w : World)
      → After (λ n w'. w'.mem ≡ w.mem) Any (resolve_assignee ctx tenant id w)
  resolve_assignee-same tenant id w = go ctx.directory
    where
      go :
          (d : Option (String → String → Resolved))
          → After
              (λ n w'. w'.mem ≡ w.mem)
              Any
              ((elim d as (λ x. Action String) [
                | none ↦ pure ""
                | some resolve ↦ of_resolved (resolve tenant id)
              ])
                w)
      go none = After-pure _ Any _ w refl
      go (some resolve) = of_resolved-same (resolve tenant id) w

  assign-After :
      (id user_id notes : String) (w : World)
      → IsValid w.mem
      → After
          (λ v w'. CheckedOut subj.tenant_id id user_id w.mem w'.mem)
          Any
          (assign ctx subj id user_id notes w)
  unfolding assign
  assign-After id user_id notes w valid = After-gate _ Any _ _ w tt (λ own.
      After-fault_if _ Any _ _ _ w tt (λ named.
        After-store _ Any _ _ _ w (λ x e. tt)
          (λ a read.
            let found = get_asset-found ctx.env w.mem subj.tenant_id id a valid read in
            After-bind _ Any _ _ _ _
              (require_status-passed asset_deployable "asset_assigned" id a _)
              (λ b w2 h2.
                After-bind _ Any _ _ _ w2 (resolve_assignee-same subj.tenant_id user_id w2)
                  (λ n w3 h3.
                    After-store _ Any _ _ _ w3 (λ x e. tt)
                      (λ u written.
                        After-store _ Any _ _ _ _ (λ x e. tt)
                          (λ u' inserted. After-emit _ Any _ _ _ (
                            After-emit _ Any _ _ _ (
                              After-pure _ Any _ _ (
                                handed_out id user_id n notes a w.mem w3.mem (ground arith) found.1
                                  found.3 (ground arith) (ground arith) (ground arith)))))))))))

  -- The store calls of a check-in, of an asset read from the same store.
  handed_in :
      (id location notes : String) (a : Asset) (m m3 : Mem)
      → m3 ≡ m
      → a.id ≡ id
      → status_at id m ≡ some (subj.tenant_id, a.status)
      → a.status ≡ asset_assigned
      → let b = checked_in ctx subj location a in
        let m4 = (update_asset ctx.env b m3).1 in
        let m5 = (close_active_assignment ctx.env subj.tenant_id b.id ctx.now m4).1 in
        let row = unassigned_row ctx subj a notes in
        (update_asset ctx.env b m3).0 ≡ ok tt
        → (close_active_assignment ctx.env subj.tenant_id b.id ctx.now m4).0 ≡ ok tt
        → (insert_assignment ctx.env row m5).0 ≡ ok tt
        → CheckedIn subj.tenant_id id location m (insert_assignment ctx.env row m5).1
  handed_in id location notes a m m3 e i st out written shut inserted =
      let b = checked_in ctx subj location a in
      let m4 = (update_asset ctx.env b m3).1 in
      let m5 = (close_active_assignment ctx.env subj.tenant_id b.id ctx.now m4).1 in
      let row = unassigned_row ctx subj a notes in
      let wrote = update_asset-written ctx.env m3 b written in
      let none_left = close_active_assignment-none ctx.env m4 subj.tenant_id b.id ctx.now shut in
      let kept = close_active_assignment-assets m4 subj.tenant_id b.id ctx.env ctx.now in
      let kept' = insert_assignment-assets m5 subj.tenant_id id ctx.env row in
      let same =
        insert_assignment-closed ctx.env m5 subj.tenant_id b.id row ctx.now inserted refl in
      record { before = grind arith; after = grind arith; closed = grind arith }

  -- Past the close, it was done: its only error, an armed failure, stops the operation.
  unless_missing-passed :
      (r : Result ⊤) (w : World)
      → r ≢ Result.err not_found
      → After (λ b w'. (w' ≡ w) × (r ≡ ok tt)) Any (unless_missing r w)
  unless_missing-passed (Result.ok x) w h = After-pure _ Any _ w (refl, refl)
  unless_missing-passed (Result.err Err.not_found) w h = After-pure _ Any _ w (refl, ground arith)
  unless_missing-passed (Result.err Err.conflict) w h = After-fault _ Any _ w tt
  unless_missing-passed (Result.err Err.not_empty) w h = After-fault _ Any _ w tt
  unless_missing-passed (Result.err (Err.injected k)) w h = After-fault _ Any _ w tt

  check_location-same :
      (tenant id msg : String) (w : World)
      → After (λ b w'. w'.mem ≡ w.mem) Any (check_ref id (get_location tenant) msg w)
  check_location-same tenant id msg w = elim (Bool-cases (id == "")) [
    | inl blank ↦ rw blank (After-pure _ Any _ w refl)
    | inr given ↦ rw given (
        After-store _ Any _ _ _ w (λ x e. tt)
          (λ l e. After-pure _ Any _ _ (get_location-same tenant id w.mem l e)))
  ]

  unassign-After :
      (id location notes : String) (w : World)
      → IsValid w.mem
      → After
          (λ v w'. CheckedIn subj.tenant_id id location w.mem w'.mem)
          Any
          (unassign ctx subj id location notes w)
  unfolding unassign
  unassign-After id location notes w valid = After-gate _ Any _ _ w tt (λ own.
      After-store _ Any _ _ _ w (λ x e. tt)
        (λ a read.
          let found = get_asset-found ctx.env w.mem subj.tenant_id id a valid read in
          After-bind _ Any _ _ _ _ (require_status-passed asset_assigned "asset_unassigned" id a _)
            (λ b w2 h2.
              After-bind _ Any _ _ _ w2
                (check_location-same subj.tenant_id location "location_id does not exist" w2)
                (λ n w3 h3.
                  After-store _ Any _ _ _ w3 (λ x e. tt)
                    (λ u written. After-attempt _ Any _ _ _ (
                      After-bind _ Any _ _ _ _
                        (unless_missing-passed _ _ (close_active_assignment-error ctx.env _ _ _ _))
                        (λ c w5 h5.
                          After-store _ Any _ _ _ w5 (λ x e. tt)
                            (λ u' inserted. After-emit _ Any _ _ _ (
                              After-emit _ Any _ _ _ (
                                After-pure _ Any _ _ (
                                  rw h5.0 (
                                    handed_in id location notes a w.mem w3.mem (ground arith)
                                      found.1 found.3 (ground arith) (ground arith) (ground arith)
                                      (ground arith)))))))))))))

  -- From a valid store, a check-out that is done was of the tenant's deployable asset; the asset is then
  -- assigned to the user and at no location, and one more assignment of it is open than before.
  pub assign-CheckedOut :
      (id user_id notes : String) (w w' : World) (v : View)
      → IsValid w.mem
      → assign ctx subj id user_id notes w ≡ (done v, w')
      → CheckedOut subj.tenant_id id user_id w.mem w'.mem
  assign-CheckedOut id user_id notes w w' v valid e =
      After-done _ _ _ v w' e (assign-After id user_id notes w valid)

  -- From a valid store, a check-in that is done was of the tenant's assigned asset; the asset is then
  -- deployable, with no assignee, at the location, and no assignment of it is open.
  pub unassign-CheckedIn :
      (id location notes : String) (w w' : World) (v : View)
      → IsValid w.mem
      → unassign ctx subj id location notes w ≡ (done v, w')
      → CheckedIn subj.tenant_id id location w.mem w'.mem
  unassign-CheckedIn id location notes w w' v valid e =
      After-done _ _ _ v w' e (unassign-After id location notes w valid)
