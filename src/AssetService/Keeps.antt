-- ===== src/AssetService/Keeps.antt =====
-- Every operation of the asset service keeps the lifecycle's invariant, however it ends.
use Prim.Native.String.{String}
use go_tangra_asset.Common.{
  ℕ, zero, suc, ◌+◌, ◌≡◌, ◌≢◌, refl, Bool, true, false, not, ◌&&◌, List, [], ◌∷◌, ⊤, arith, ◌==◌,
  if◌then◌else◌, Bool-cases, inl, inr,
}
use go_tangra_asset.Models.{Asset, Document, asset_assigned, entity_asset}
use go_tangra_asset.Memstore.State.{Op, Result}
use go_tangra_asset.Memstore.Assets.{create_asset, get_asset}
use go_tangra_asset.Memstore.Documents.{list_documents}
use go_tangra_asset.Memstore.Categories.{get_category}
use go_tangra_asset.Memstore.Suppliers.{get_supplier}
use go_tangra_asset.Memstore.Locations.{get_location}
use go_tangra_asset.Authz.{Subjects}
use go_tangra_asset.Service.{
  Action, Effect, emit, blob_deleted, World, Outcome, done, failed, invalid, pure,
}
use go_tangra_asset.Service.Rules.{
  After, After-gate, After-fault_if, After-store, After-attempt, After-bind, After-pure, After-emit,
  After-fault,
}
use go_tangra_asset.AssetService.{Ctx, Input, check_ref, check_refs, apply, auto_tag}
use go_tangra_asset.DocumentService.{purge_rows, remove_object, is_key_of}
use go_tangra_asset.AssetService.Edit.{
  create, create_loop, created, zero_asset, update, edited, delete, delete_blobs, drop_documents,
  settled, retries,
}
use go_tangra_asset.AssetService.Held.{
  IsHeld, AllHeld, get_asset-AllHeld, get_asset-IsHeld, create_asset-AllHeld, update_asset-AllHeld,
  delete_asset-AllHeld, list_documents-assets, delete_document-assets, get_category-assets,
  get_supplier-assets, get_location-assets, deployable-ne-assigned,
}

abbrev pub Kept : World → Type 0
Kept w = AllHeld w.mem.assets

-- A step after which the invariant holds whether it is done or fails.
abbrev pub Keeps : {B : Type 0} → Outcome B × World → Type 0
Keeps r = After (λ b w. Kept w) Kept r

pub Keeps-world : {B : Type 0} (r : Outcome B × World) → Keeps r → Kept r.1
unfolding After
Keeps-world (done b, w) h = h
Keeps-world (failed e, w) h = h

-- A reference check only reads.
pub check_ref-Keeps :
    {A : Type 0} (id msg : String) (look : String → Op A) (w : World)
    → AllHeld (look id w.mem).1.assets
    → Kept w
    → Keeps (check_ref id look msg w)
check_ref-Keeps id msg look w looked h = elim (Bool-cases (id == "")) [
  | inl blank ↦ rw blank (After-pure _ Kept tt w h)
  | inr given ↦ rw given (
      After-store (λ (b : ⊤) w'. Kept w') Kept (λ e. invalid msg) (look id) (λ a. pure tt) w
        (λ x e. looked) (λ a e. After-pure _ Kept tt _ looked))
]

pub check_refs-Keeps :
    (tenant : String) (i : Input) (w : World) → Kept w → Keeps (check_refs tenant i w)
unfolding check_refs
check_refs-Keeps tenant i w h =
    After-bind _ Kept (λ b w'. Kept w') _ _ w
      (check_ref-Keeps i.category_id "category_id does not exist" (get_category tenant) w
        (rw get_category-assets h) h)
      (λ b w1 h1.
        After-bind _ Kept (λ b' w'. Kept w') _ _ w1
          (check_ref-Keeps i.supplier_id "supplier_id does not exist" (get_supplier tenant) w1
            (rw get_supplier-assets h1) h1)
          (λ b' w2 h2.
            check_ref-Keeps i.location_id "location_id does not exist" (get_location tenant) w2
              (rw get_location-assets h2) h2))

edited-IsHeld :
    (ctx : Ctx) (subj : Subjects) (i : Input) (a : Asset)
    → i.status ≢ asset_assigned
    → IsHeld a
    → IsHeld (edited ctx subj i a)
unfolding edited apply
edited-IsHeld ctx subj i a s h = ground (arith, deployable-ne-assigned)

-- The test by which an input that asks for the assigned status is refused.
pub not_assigned : (i : Input) → (i.status == asset_assigned) ≡ false → i.status ≢ asset_assigned
not_assigned i e = ground arith

pub settled-Keeps : (a : Asset) (r : Result ⊤) (w : World) → Kept w → Keeps (settled a r w)
settled-Keeps a (Result.ok x) w h = After-pure _ Kept _ w h
settled-Keeps a (Result.err e) w h = After-fault _ Kept _ w h

pub emit-Keeps : (x : Effect) (w : World) → Kept w → Keeps (emit x w)
unfolding emit After
emit-Keeps x w h = h

pub branch-Keeps :
    {B : Type 0} (c : Bool) (x y : Action B) (w : World)
    → Keeps (x w)
    → Keeps (y w)
    → Keeps ((if c then x else y) w)
branch-Keeps true x y w h k = h
branch-Keeps false x y w h k = k

pub delete_blobs-Keeps : (ds : List Document) (w : World) → Kept w → Keeps (delete_blobs ds w)
unfolding delete_blobs
delete_blobs-Keeps [] w h = After-pure _ Kept _ w h
delete_blobs-Keeps (d ∷ ds) w h = After-emit _ Kept _ _ w (delete_blobs-Keeps ds _ h)

remove_object-Keeps :
    (archive : Bool) (tenant : String) (d : Document) (w : World)
    → Kept w
    → Keeps (remove_object archive tenant d w)
unfolding remove_object
remove_object-Keeps archive tenant d w h =
    branch-Keeps (not (d.paperless_document_id == "")) _ _ w
      (branch-Keeps archive _ _ w (emit-Keeps _ w h) (After-pure _ Kept _ w h))
      (branch-Keeps (is_key_of tenant d.storage_key) _ _ w (emit-Keeps _ w h)
        (After-pure _ Kept _ w h))

pub purge_rows-Keeps :
    (archive : Bool) (tenant : String) (ds : List Document) (w : World)
    → Kept w
    → Keeps (purge_rows archive tenant ds w)
unfolding purge_rows
purge_rows-Keeps archive tenant [] w h = After-pure _ Kept _ w h
purge_rows-Keeps archive tenant (d ∷ ds) w h =
    let rest = purge_rows-Keeps archive tenant ds in
    branch-Keeps (d.tenant_id == tenant) _ _ w
      (After-bind _ Kept (λ b w'. Kept w') _ _ w (remove_object-Keeps archive tenant d w h)
        (λ b w1 h1. After-attempt _ Kept _ _ _ (rest _ (rw delete_document-assets h1))))
      (rest w h)

pub drop_documents-Keeps :
    (ctx : Ctx) (tenant : String) (r : Result (List Document)) (w : World)
    → Kept w
    → Keeps (drop_documents ctx tenant r w)
drop_documents-Keeps ctx tenant (Result.err e) w h = After-pure _ Kept _ w h
drop_documents-Keeps ctx tenant (Result.ok docs) w h =
    branch-Keeps ctx.has_purger _ _ w (purge_rows-Keeps ctx.has_archive tenant docs w h)
      (branch-Keeps ctx.has_blobs _ _ w (delete_blobs-Keeps docs w h) (After-pure _ Kept _ w h))

module _ (ctx : Ctx) (subj : Subjects) where
  pub update-Keeps : (id : String) (i : Input) (w : World) → Kept w → Keeps (update ctx subj id i w)
  unfolding update
  update-Keeps id i w h = After-gate _ Kept _ _ w h (λ own. After-gate _ Kept _ _ w h (λ valid.
      After-fault_if _ Kept _ _ _ w h (λ free.
        After-bind _ Kept (λ b w'. Kept w') _ _ w (check_refs-Keeps subj.tenant_id i w h)
          (λ b w1 h1.
            After-store _ Kept _ _ _ w1
              (λ x e. get_asset-AllHeld ctx.env w1.mem h1 subj.tenant_id id)
              (λ a e.
                let held = get_asset-IsHeld ctx.env w1.mem h1 subj.tenant_id id a e in
                let m2 = (get_asset ctx.env subj.tenant_id id w1.mem).1 in
                let h2 = get_asset-AllHeld ctx.env w1.mem h1 subj.tenant_id id in
                let h3 =
                  update_asset-AllHeld ctx.env m2 h2 (edited ctx subj i a)
                    (edited-IsHeld ctx subj i a (not_assigned i free) held) in
                After-store _ Kept _ _ _ (record w1 { mem = m2 }) (λ x e. h3)
                  (λ u e. After-emit _ Kept _ _ _ (After-pure _ Kept _ _ h3)))))))

  pub create_loop-Keeps :
      (auto : Bool) (left round : ℕ) (a : Asset) (w : World)
      → a.status ≢ asset_assigned
      → a.user_id ≡ ""
      → Kept w
      → Keeps (create_loop ctx auto left round a w)
  unfolding create_loop
  create_loop-Keeps auto zero round a w s u h =
      let tried = if auto then record a { asset_tag = auto_tag (ctx.draw round) } else a in
      let made = create_asset-AllHeld ctx.env w.mem h tried (ground arith) (ground arith) in
      After-attempt _ Kept _ _ w (settled-Keeps tried (create_asset ctx.env tried w.mem).0 _ made)
  create_loop-Keeps auto (suc left) round a w s u h =
      let again = create_loop-Keeps auto left (round + 1) a in
      let tried = if auto then record a { asset_tag = auto_tag (ctx.draw round) } else a in
      let made = create_asset-AllHeld ctx.env w.mem h tried (ground arith) (ground arith) in
      let w1 = record w { mem = (create_asset ctx.env tried w.mem).1 } in
      let r = (create_asset ctx.env tried w.mem).0 in
      After-attempt _ Kept _ _ w
        (branch-Keeps (retries auto r) _ _ w1 (again w1 s u made) (settled-Keeps tried r w1 made))

  pub create-Keeps : (i : Input) (w : World) → Kept w → Keeps (create ctx subj i w)
  unfolding create apply
  create-Keeps i w h = After-gate _ Kept _ _ w h (λ own. After-gate _ Kept _ _ w h (λ valid.
      After-fault_if _ Kept _ _ _ w h (λ free.
        After-bind _ Kept (λ b w'. Kept w') _ _ w (check_refs-Keeps subj.tenant_id i w h)
          (λ b w1 h1.
            let a = created ctx subj i zero_asset in
            let s = not_assigned i free in
            After-bind _ Kept (λ x w'. Kept w') _ _ w1
              (create_loop-Keeps (a.asset_tag == "") 5 0 a w1
                (ground (arith, deployable-ne-assigned)) refl h1)
              (λ row w2 h2. After-emit _ Kept _ _ w2 (After-pure _ Kept _ _ h2))))))

  pub delete-Keeps : (id : String) (w : World) → Kept w → Keeps (delete ctx subj id w)
  unfolding delete
  delete-Keeps id w h = After-gate _ Kept _ _ w h (λ own.
      let h1 = get_asset-AllHeld ctx.env w.mem h subj.tenant_id id in
      After-store _ Kept _ _ _ w (λ x e. h1)
        (λ a e.
          After-bind _ Kept (λ b w'. Kept w') _ _ _
            (branch-Keeps (ctx.has_blobs && not (a.photo_key == "")) _ _ _
              (emit-Keeps (blob_deleted a.photo_key) _ h1) (After-pure _ Kept _ _ h1))
            (λ b w2 h2. After-attempt _ Kept _ _ w2 (
              After-bind _ Kept (λ c w'. Kept w') _ _ _
                (drop_documents-Keeps ctx subj.tenant_id
                  (list_documents subj.tenant_id entity_asset id w2.mem).0 _
                  (rw list_documents-assets h2))
                (λ c w3 h3.
                  let h4 = delete_asset-AllHeld w3.mem h3 subj.tenant_id id in
                  After-store _ Kept _ _ _ w3 (λ x e'. h4) (λ u e'. emit-Keeps _ _ h4))))))
