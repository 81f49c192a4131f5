-- ===== src/Memstore/AssetsInvariant.antt =====
-- The calls on assets, assignments and documents keep the store's invariant.
use go_tangra_asset.Common.{
  String, ◌≡◌, refl, true, some, arith, Time, Option-cases, inl, inr, ◌⊎◌, ◌≢◌,
}
use Prim.Native.String.{◌++◌}
use go_tangra_asset.Table.{Table, lookup, insert, update_where}
use go_tangra_asset.Table.Sound.{
  IsSound, insert_new-IsSound, insert_over-IsSound, insert-IsSound, erase-IsSound,
  erase_where-IsSound, parts,
}
use go_tangra_asset.Models.{Asset, Assignment, Document, paperless_key_prefix}
use go_tangra_asset.Memstore.State.{Mem, Env, or_now}
use go_tangra_asset.Memstore.Assets.{create_asset, update_asset, delete_asset, same_tag}
use go_tangra_asset.Memstore.Assignments.{insert_assignment, close_active_assignment, active}
use go_tangra_asset.Memstore.Documents.{
  insert_document, delete_document, move_document_to_paperless, moved, same_key,
}
use go_tangra_asset.Memstore.Invariant.{
  IsValid, call-IsValid, never, insert_free-IsSound, update_free-IsSound,
}

same_tag_sym : (a b : Asset) → same_tag a b ≡ true → same_tag b a ≡ true
same_tag_sym a b h = ground arith

same_key_sym : (a b : Document) → same_key a b ≡ true → same_key b a ≡ true
same_key_sym a b h = ground arith

close_active-IsSound :
    (tenant id : String) (at : Time) (t : Table Assignment)
    → IsSound (λ (x : Assignment). x.id) never t
    → IsSound
        (λ (x : Assignment). x.id)
        never
        (update_where (active tenant id) (λ a. record a { returned_at = some at }) t)
close_active-IsSound tenant id at t =
    update_free-IsSound (λ (x : Assignment). x.id) _ _ t (λ v. refl)

moved-IsSound :
    (id paperless_id : String) (t : Table Document) (d : Document)
    → lookup id t ≡ some d
    → ((j : String) (w : Document)
        → lookup j t ≡ some w
        → (j ≡ id) ⊎ (w.storage_key ≢ paperless_key_prefix ++ paperless_id))
    → IsSound (λ (x : Document). x.id) same_key t
    → IsSound (λ (x : Document). x.id) same_key (insert id (moved paperless_id d) t)
moved-IsSound id paperless_id t d found free s =
    insert-IsSound (λ (x : Document). x.id) same_key id (moved paperless_id d) t same_key_sym
      (λ j w f. ground (arith, free j w f))
      ((parts (λ (x : Document). x.id) same_key t s).keyed id d found) s

module _ (env : Env) (m : Mem) (v : IsValid m) where
  pub create_asset-IsValid : (a : Asset) → IsValid (create_asset env a m).1
  unfolding create_asset
  create_asset-IsValid a =
      call-IsValid "CreateAsset" _ _ v (grind (arith, insert_new-IsSound, same_tag_sym))

  pub update_asset-IsValid : (a : Asset) → IsValid (update_asset env a m).1
  unfolding update_asset
  update_asset-IsValid a =
      call-IsValid "UpdateAsset" _ _ v (grind (arith, insert_over-IsSound, same_tag_sym))

  pub insert_assignment-IsValid : (a : Assignment) → IsValid (insert_assignment env a m).1
  unfolding insert_assignment
  insert_assignment-IsValid a =
      call-IsValid "InsertAssignment" _ _ v (grind (arith, insert_free-IsSound))

  pub close_active_assignment-IsValid :
      (tenant id : String) (at : Time) → IsValid (close_active_assignment env tenant id at m).1
  unfolding close_active_assignment
  close_active_assignment-IsValid tenant id at =
      call-IsValid "CloseActiveAssignment" _ _ v
        (grind (arith, close_active-IsSound tenant id (or_now env at) m.assignments))

  pub insert_document-IsValid : (d : Document) → IsValid (insert_document env d m).1
  unfolding insert_document
  insert_document-IsValid d =
      call-IsValid "InsertDocument" _ _ v (grind (arith, insert_new-IsSound, same_key_sym))

module _ (m : Mem) (v : IsValid m) (tenant id : String) where
  pub delete_asset-IsValid : IsValid (delete_asset tenant id m).1
  unfolding delete_asset
  delete_asset-IsValid =
      call-IsValid "DeleteAsset" _ _ v (grind (arith, erase-IsSound, erase_where-IsSound))

  pub delete_document-IsValid : IsValid (delete_document tenant id m).1
  unfolding delete_document
  delete_document-IsValid = call-IsValid "DeleteDocument" _ _ v (grind (arith, erase-IsSound))

  -- The move does not look for the new storage key, so that it must be free is a condition.
  pub move_document_to_paperless-IsValid :
      (paperless_id : String)
      → ((j : String) (d : Document)
          → lookup j m.documents ≡ some d
          → (j ≡ id) ⊎ (d.storage_key ≢ paperless_key_prefix ++ paperless_id))
      → IsValid (move_document_to_paperless tenant id paperless_id m).1
  unfolding move_document_to_paperless
  move_document_to_paperless-IsValid paperless_id free =
      call-IsValid "MoveDocumentToPaperless" _ _ v (elim (Option-cases (lookup id m.documents)) [
        | inl gone ↦ ground arith
        | inr (d, found) ↦
            ground (arith, moved-IsSound id paperless_id m.documents d found free v.documents)
      ])
