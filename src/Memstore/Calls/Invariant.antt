-- ===== src/Memstore/Calls/Invariant.antt =====
-- The invariant over every call and every run.
use go_tangra_asset.Common.{String, List, [], ◌∷◌, arith}
use go_tangra_asset.Memstore.State.{Mem, Env, fail_next_call}
use go_tangra_asset.Memstore.Invariant.{IsValid}
use go_tangra_asset.Memstore.AssetsInvariant.{
  create_asset-IsValid, update_asset-IsValid, delete_asset-IsValid, insert_assignment-IsValid,
  close_active_assignment-IsValid, insert_document-IsValid, delete_document-IsValid,
  move_document_to_paperless-IsValid,
}
use go_tangra_asset.Memstore.TreesInvariant.{
  create_category-IsValid, update_category-IsValid, delete_category-IsValid,
  create_supplier-IsValid, update_supplier-IsValid, delete_supplier-IsValid,
  create_location-IsValid, update_location-IsValid, delete_location-IsValid,
}
use go_tangra_asset.Memstore.ContractsInvariant.{
  create_consumable-IsValid, update_consumable-IsValid, delete_consumable-IsValid,
  create_license-IsValid, update_license-IsValid, delete_license-IsValid, create_insurance-IsValid,
  update_insurance-IsValid, delete_insurance-IsValid, add_policy_asset-IsValid,
  remove_policy_asset-IsValid, upsert_notify_state-IsValid, put_inv_sync_settings-IsValid,
  append_audit-IsValid,
}
use go_tangra_asset.Memstore.Calls.{Write, perform, perform_all, IsFresh, AllFresh}

fail_next_call-IsValid :
    (method : String) (m : Mem) → IsValid m → IsValid (fail_next_call method m).1
unfolding fail_next_call
fail_next_call-IsValid method m v = ground arith

-- Every call that writes, on every outcome, keeps the store's invariant.
pub perform-IsValid :
    (env : Env) (w : Write) (m : Mem) → IsFresh env w m → IsValid m → IsValid (perform env w m)
unfolding perform
perform-IsValid env (Write.asset_create a) m fresh v = create_asset-IsValid env m v a
perform-IsValid env (Write.asset_update a) m fresh v = update_asset-IsValid env m v a
perform-IsValid env (Write.asset_delete t id) m fresh v = delete_asset-IsValid m v t id
perform-IsValid env (Write.assignment_insert a) m fresh v = insert_assignment-IsValid env m v a
perform-IsValid env (Write.assignments_close t id at) m fresh v =
    close_active_assignment-IsValid env m v t id at
perform-IsValid env (Write.document_insert d) m fresh v = insert_document-IsValid env m v d
perform-IsValid env (Write.document_delete t id) m fresh v = delete_document-IsValid m v t id
perform-IsValid env (Write.document_move t id p) m fresh v =
    move_document_to_paperless-IsValid m v t id p fresh
perform-IsValid env (Write.category_create c) m fresh v = create_category-IsValid env m v c
perform-IsValid env (Write.category_update c) m fresh v = update_category-IsValid env m v c
perform-IsValid env (Write.category_delete t id) m fresh v = delete_category-IsValid m v t id
perform-IsValid env (Write.supplier_create s) m fresh v = create_supplier-IsValid env m v s
perform-IsValid env (Write.supplier_update s) m fresh v = update_supplier-IsValid env m v s
perform-IsValid env (Write.supplier_delete t id) m fresh v = delete_supplier-IsValid m v t id
perform-IsValid env (Write.location_create l) m fresh v = create_location-IsValid env m v l
perform-IsValid env (Write.location_update l) m fresh v = update_location-IsValid env m v l
perform-IsValid env (Write.location_delete t id) m fresh v = delete_location-IsValid m v t id
perform-IsValid env (Write.consumable_create c) m fresh v = create_consumable-IsValid env m v c
perform-IsValid env (Write.consumable_update c) m fresh v = update_consumable-IsValid env m v c
perform-IsValid env (Write.consumable_delete t id) m fresh v = delete_consumable-IsValid m v t id
perform-IsValid env (Write.license_create l) m fresh v = create_license-IsValid env m v l
perform-IsValid env (Write.license_update l) m fresh v = update_license-IsValid env m v l
perform-IsValid env (Write.license_delete t id) m fresh v = delete_license-IsValid m v t id
perform-IsValid env (Write.insurance_create p) m fresh v = create_insurance-IsValid env m v p
perform-IsValid env (Write.insurance_update p) m fresh v = update_insurance-IsValid env m v p
perform-IsValid env (Write.insurance_delete t id) m fresh v = delete_insurance-IsValid m v t id
perform-IsValid env (Write.policy_asset_add pa) m fresh v = add_policy_asset-IsValid env m v pa
perform-IsValid env (Write.policy_asset_remove t p a) m fresh v =
    remove_policy_asset-IsValid m v t p a
perform-IsValid env (Write.notify_upsert n) m fresh v = upsert_notify_state-IsValid env m v n
perform-IsValid env (Write.settings_put s) m fresh v = put_inv_sync_settings-IsValid env m v s
perform-IsValid env (Write.audit_append row) m fresh v = append_audit-IsValid env m v row
perform-IsValid env (Write.failure_arm method) m fresh v = fail_next_call-IsValid method m v

-- A run of writing calls from a valid store ends in a valid store, if the ids that new notices and moved
-- documents take are not in use at the time.
pub perform_all-IsValid :
    (ws : List (Env × Write)) (m : Mem) → AllFresh ws m → IsValid m → IsValid (perform_all ws m)
unfolding perform_all
perform_all-IsValid [] m fresh v = v
perform_all-IsValid ((env, w) ∷ ws) m fresh v =
    perform_all-IsValid ws (perform env w m) fresh.1 (perform-IsValid env w m fresh.0 v)
