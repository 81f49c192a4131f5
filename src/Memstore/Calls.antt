-- ===== src/Memstore/Calls.antt =====
-- The calls of the store that write, as data, and their runs in any order. The mutex makes a run of
-- concurrent callers such a list.
pub mod Invariant
pub mod Isolation
use Prim.Native.String.{◌++◌}
use go_tangra_asset.Common.{String, ◌≡◌, ◌≢◌, ◌⊎◌, none, some, List, [], ◌∷◌, ⊤, Time}
use go_tangra_asset.Table.{lookup}
use go_tangra_asset.Models.{
  Asset, Assignment, Document, Category, Supplier, Location, Consumable, License, InsurancePolicy,
  PolicyAsset, NotifyState, InvSyncSettings, AuditRow, paperless_key_prefix,
}
use go_tangra_asset.Memstore.State.{Mem, Env, fail_next_call, or_default}
use go_tangra_asset.Memstore.Assets.{create_asset, update_asset, delete_asset}
use go_tangra_asset.Memstore.Assignments.{insert_assignment, close_active_assignment}
use go_tangra_asset.Memstore.Documents.{
  insert_document, delete_document, move_document_to_paperless,
}
use go_tangra_asset.Memstore.Categories.{create_category, update_category, delete_category}
use go_tangra_asset.Memstore.Suppliers.{create_supplier, update_supplier, delete_supplier}
use go_tangra_asset.Memstore.Locations.{create_location, update_location, delete_location}
use go_tangra_asset.Memstore.Consumables.{create_consumable, update_consumable, delete_consumable}
use go_tangra_asset.Memstore.Licenses.{create_license, update_license, delete_license}
use go_tangra_asset.Memstore.Insurance.{
  create_insurance, update_insurance, delete_insurance, add_policy_asset, remove_policy_asset,
}
use go_tangra_asset.Memstore.Housekeeping.{upsert_notify_state, put_inv_sync_settings, append_audit}

pub data Write : Type 0 where
  asset_create asset_update : Asset → Write
  asset_delete : String → String → Write
  assignment_insert : Assignment → Write
  assignments_close : String → String → Time → Write
  document_insert : Document → Write
  document_delete : String → String → Write
  document_move : String → String → String → Write
  category_create category_update : Category → Write
  category_delete : String → String → Write
  supplier_create supplier_update : Supplier → Write
  supplier_delete : String → String → Write
  location_create location_update : Location → Write
  location_delete : String → String → Write
  consumable_create consumable_update : Consumable → Write
  consumable_delete : String → String → Write
  license_create license_update : License → Write
  license_delete : String → String → Write
  insurance_create insurance_update : InsurancePolicy → Write
  insurance_delete : String → String → Write
  policy_asset_add : PolicyAsset → Write
  policy_asset_remove : String → String → String → Write
  notify_upsert : NotifyState → Write
  settings_put : InvSyncSettings → Write
  audit_append : AuditRow → Write
  failure_arm : String → Write

-- The state after a call, whether it succeeds or not.
unfoldable pub perform : Env → Write → Mem → Mem
perform env (asset_create a) m = (create_asset env a m).1
perform env (asset_update a) m = (update_asset env a m).1
perform env (asset_delete t id) m = (delete_asset t id m).1
perform env (assignment_insert a) m = (insert_assignment env a m).1
perform env (assignments_close t id at) m = (close_active_assignment env t id at m).1
perform env (document_insert d) m = (insert_document env d m).1
perform env (document_delete t id) m = (delete_document t id m).1
perform env (document_move t id p) m = (move_document_to_paperless t id p m).1
perform env (category_create c) m = (create_category env c m).1
perform env (category_update c) m = (update_category env c m).1
perform env (category_delete t id) m = (delete_category t id m).1
perform env (supplier_create s) m = (create_supplier env s m).1
perform env (supplier_update s) m = (update_supplier env s m).1
perform env (supplier_delete t id) m = (delete_supplier t id m).1
perform env (location_create l) m = (create_location env l m).1
perform env (location_update l) m = (update_location env l m).1
perform env (location_delete t id) m = (delete_location t id m).1
perform env (consumable_create c) m = (create_consumable env c m).1
perform env (consumable_update c) m = (update_consumable env c m).1
perform env (consumable_delete t id) m = (delete_consumable t id m).1
perform env (license_create l) m = (create_license env l m).1
perform env (license_update l) m = (update_license env l m).1
perform env (license_delete t id) m = (delete_license t id m).1
perform env (insurance_create p) m = (create_insurance env p m).1
perform env (insurance_update p) m = (update_insurance env p m).1
perform env (insurance_delete t id) m = (delete_insurance t id m).1
perform env (policy_asset_add pa) m = (add_policy_asset env pa m).1
perform env (policy_asset_remove t p a) m = (remove_policy_asset t p a m).1
perform env (notify_upsert n) m = (upsert_notify_state env n m).1
perform env (settings_put s) m = (put_inv_sync_settings env s m).1
perform env (audit_append row) m = (append_audit env row m).1
perform env (failure_arm method) m = (fail_next_call method m).1

-- The tenant that a call writes for; an audit row and an armed failure are no tenant's data.
abbrev pub IsFor : String → Write → Type 0
IsFor u (asset_create a) = u ≡ a.tenant_id
IsFor u (asset_update a) = u ≡ a.tenant_id
IsFor u (asset_delete t id) = u ≡ t
IsFor u (assignment_insert a) = u ≡ a.tenant_id
IsFor u (assignments_close t id at) = u ≡ t
IsFor u (document_insert d) = u ≡ d.tenant_id
IsFor u (document_delete t id) = u ≡ t
IsFor u (document_move t id p) = u ≡ t
IsFor u (category_create c) = u ≡ c.tenant_id
IsFor u (category_update c) = u ≡ c.tenant_id
IsFor u (category_delete t id) = u ≡ t
IsFor u (supplier_create s) = u ≡ s.tenant_id
IsFor u (supplier_update s) = u ≡ s.tenant_id
IsFor u (supplier_delete t id) = u ≡ t
IsFor u (location_create l) = u ≡ l.tenant_id
IsFor u (location_update l) = u ≡ l.tenant_id
IsFor u (location_delete t id) = u ≡ t
IsFor u (consumable_create c) = u ≡ c.tenant_id
IsFor u (consumable_update c) = u ≡ c.tenant_id
IsFor u (consumable_delete t id) = u ≡ t
IsFor u (license_create l) = u ≡ l.tenant_id
IsFor u (license_update l) = u ≡ l.tenant_id
IsFor u (license_delete t id) = u ≡ t
IsFor u (insurance_create p) = u ≡ p.tenant_id
IsFor u (insurance_update p) = u ≡ p.tenant_id
IsFor u (insurance_delete t id) = u ≡ t
IsFor u (policy_asset_add pa) = u ≡ pa.tenant_id
IsFor u (policy_asset_remove t p a) = u ≡ t
IsFor u (notify_upsert n) = u ≡ n.tenant_id
IsFor u (settings_put s) = u ≡ s.tenant_id
IsFor u (audit_append row) = ⊥
IsFor u (failure_arm method) = ⊥

-- What two calls rely on and do not test: the id of a new notify state is not in use, and no other
-- document has the storage key that a move gives.
abbrev pub IsFresh : Env → Write → Mem → Type 0
IsFresh env (notify_upsert n) m = lookup (or_default n.id env.new_id) m.notify ≡ none
IsFresh env (document_move t id p) m =
    (j : String) (d : Document)
    → lookup j m.documents ≡ some d
    → (j ≡ id) ⊎ (d.storage_key ≢ paperless_key_prefix ++ p)
IsFresh env _ m = ⊤

-- The calls of a list one after the other, each with its own clock and ids.
unfoldable pub perform_all : List (Env × Write) → Mem → Mem
unfolding perform
perform_all [] m = m
perform_all ((env, w) ∷ ws) m = perform_all ws (perform env w m)

abbrev pub AllFresh : List (Env × Write) → Mem → Type 0
AllFresh [] m = ⊤
AllFresh ((env, w) ∷ ws) m = IsFresh env w m × AllFresh ws (perform env w m)

abbrev pub NoneFor : String → List (Env × Write) → Type 0
NoneFor u [] = ⊤
NoneFor u ((env, w) ∷ ws) = ¬ (IsFor u w) × NoneFor u ws
