-- ===== src/Memstore/Calls/Isolation.antt =====
-- Tenants do not see one another's calls, over every call and every run.
use go_tangra_asset.Common.{String, List, [], ◌∷◌, arith}
use go_tangra_asset.Memstore.State.{Mem, Env, fail_next_call}
use go_tangra_asset.Memstore.Invariant.{IsValid}
use go_tangra_asset.Memstore.View.{SameView, SameView-refl, SameView-trans, call-SameView}
use go_tangra_asset.Memstore.Housekeeping.{append_audit}
use go_tangra_asset.Memstore.AssetsIsolation.{
  create_asset-SameView, update_asset-SameView, delete_asset-SameView, insert_assignment-SameView,
  close_active_assignment-SameView, insert_document-SameView, delete_document-SameView,
  move_document_to_paperless-SameView,
}
use go_tangra_asset.Memstore.TreesIsolation.{
  create_category-SameView, update_category-SameView, delete_category-SameView,
  create_supplier-SameView, update_supplier-SameView, delete_supplier-SameView,
  create_location-SameView, update_location-SameView, delete_location-SameView,
}
use go_tangra_asset.Memstore.ContractsIsolation.{
  create_consumable-SameView, update_consumable-SameView, delete_consumable-SameView,
  create_license-SameView, update_license-SameView, delete_license-SameView,
  create_insurance-SameView, update_insurance-SameView, delete_insurance-SameView,
  add_policy_asset-SameView, remove_policy_asset-SameView, upsert_notify_state-SameView,
  put_inv_sync_settings-SameView,
}
use go_tangra_asset.Models.{AuditRow}
use go_tangra_asset.Memstore.Calls.{Write, perform, perform_all, IsFor, NoneFor, IsFresh, AllFresh}
use go_tangra_asset.Memstore.Calls.Invariant.{perform-IsValid}

fail_next_call-SameView : (u method : String) (m : Mem) → SameView u m (fail_next_call method m).1
unfolding fail_next_call
fail_next_call-SameView u method m = ground arith

append_audit-SameView :
    (u : String) (env : Env) (m : Mem) (row : AuditRow) → SameView u m (append_audit env row m).1
unfolding append_audit
append_audit-SameView u env m row = call-SameView u "AppendAudit" _ _ (ground arith)

-- A call for another tenant leaves what tenant `u` sees as it was, on every outcome.
pub perform-SameView :
    (u : String) (env : Env) (w : Write) (m : Mem)
    → IsFresh env w m
    → IsValid m
    → ¬ (IsFor u w)
    → SameView u m (perform env w m)
unfolding perform
perform-SameView u env (Write.asset_create a) m fresh v other =
    create_asset-SameView u env m a other
perform-SameView u env (Write.asset_update a) m fresh v other =
    update_asset-SameView u env m a other
perform-SameView u env (Write.asset_delete t id) m fresh v other =
    delete_asset-SameView u m t id other
perform-SameView u env (Write.assignment_insert a) m fresh v other =
    insert_assignment-SameView u env m a other
perform-SameView u env (Write.assignments_close t id at) m fresh v other =
    close_active_assignment-SameView u env m t id at other
perform-SameView u env (Write.document_insert d) m fresh v other =
    insert_document-SameView u env m d other
perform-SameView u env (Write.document_delete t id) m fresh v other =
    delete_document-SameView u m t id other
perform-SameView u env (Write.document_move t id p) m fresh v other =
    move_document_to_paperless-SameView u m t id other p
perform-SameView u env (Write.category_create c) m fresh v other =
    create_category-SameView u env m c other
perform-SameView u env (Write.category_update c) m fresh v other =
    update_category-SameView u env m c other
perform-SameView u env (Write.category_delete t id) m fresh v other =
    delete_category-SameView u m t id other
perform-SameView u env (Write.supplier_create s) m fresh v other =
    create_supplier-SameView u env m s other
perform-SameView u env (Write.supplier_update s) m fresh v other =
    update_supplier-SameView u env m s other
perform-SameView u env (Write.supplier_delete t id) m fresh v other =
    delete_supplier-SameView u m t id other
perform-SameView u env (Write.location_create l) m fresh v other =
    create_location-SameView u env m l other
perform-SameView u env (Write.location_update l) m fresh v other =
    update_location-SameView u env m l other
perform-SameView u env (Write.location_delete t id) m fresh v other =
    delete_location-SameView u m t id other
perform-SameView u env (Write.consumable_create c) m fresh v other =
    create_consumable-SameView u env m c other
perform-SameView u env (Write.consumable_update c) m fresh v other =
    update_consumable-SameView u env m c other
perform-SameView u env (Write.consumable_delete t id) m fresh v other =
    delete_consumable-SameView u m t id other
perform-SameView u env (Write.license_create l) m fresh v other =
    create_license-SameView u env m l other
perform-SameView u env (Write.license_update l) m fresh v other =
    update_license-SameView u env m l other
perform-SameView u env (Write.license_delete t id) m fresh v other =
    delete_license-SameView u m t id other
perform-SameView u env (Write.insurance_create p) m fresh v other =
    create_insurance-SameView u env m p other
perform-SameView u env (Write.insurance_update p) m fresh v other =
    update_insurance-SameView u env m p other
perform-SameView u env (Write.insurance_delete t id) m fresh v other =
    delete_insurance-SameView u m t id other
perform-SameView u env (Write.policy_asset_add pa) m fresh v other =
    add_policy_asset-SameView u env m pa other
perform-SameView u env (Write.policy_asset_remove t p a) m fresh v other =
    remove_policy_asset-SameView u m v t p a other
perform-SameView u env (Write.notify_upsert n) m fresh v other =
    upsert_notify_state-SameView u m v env n fresh other
perform-SameView u env (Write.settings_put s) m fresh v other =
    put_inv_sync_settings-SameView u m v env s other
perform-SameView u env (Write.audit_append row) m fresh v other = append_audit-SameView u env m row
perform-SameView u env (Write.failure_arm method) m fresh v other =
    fail_next_call-SameView u method m

-- A run of writing calls for other tenants, from a valid store and with ids not in use for new notices
-- and moved documents, leaves tenant `u` the same rows in the same order in every table.
pub perform_all-SameView :
    (u : String) (ws : List (Env × Write)) (m : Mem)
    → AllFresh ws m
    → IsValid m
    → NoneFor u ws
    → SameView u m (perform_all ws m)
unfolding perform_all
perform_all-SameView u [] m fresh v others = SameView-refl u m
perform_all-SameView u ((env, w) ∷ ws) m fresh v others =
    SameView-trans u m (perform env w m) (perform_all ws (perform env w m))
      (perform-SameView u env w m fresh.0 v others.0)
      (perform_all-SameView u ws (perform env w m) fresh.1 (perform-IsValid env w m fresh.0 v)
        others.1)
