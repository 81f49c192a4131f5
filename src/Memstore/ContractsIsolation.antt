-- ===== src/Memstore/ContractsIsolation.antt =====
-- A call for one tenant on stock, licenses, insurance or the sync's and scheduler's state leaves every
-- other tenant's rows alone.
use go_tangra_asset.Common.{String, ◌≡◌, ◌≢◌, none, arith, Option-cases, inl, inr, ◌==◌, ◌&&◌}
use go_tangra_asset.Table.{lookup}
use go_tangra_asset.Table.Laws.{lookup-has}
use go_tangra_asset.Table.Select.{select-insert_skip, select-erase_skip, select-erase_where_skip}
use go_tangra_asset.Memstore.State.{Mem, Env, or_default}
use go_tangra_asset.Memstore.View.{SameView, SameView-refl, call-SameView}
use go_tangra_asset.Models.{
  Consumable, License, InsurancePolicy, PolicyAsset, NotifyState, InvSyncSettings,
}
use go_tangra_asset.Memstore.Consumables.{create_consumable, update_consumable, delete_consumable}
use go_tangra_asset.Memstore.Licenses.{create_license, update_license, delete_license}
use go_tangra_asset.Memstore.Insurance.{
  create_insurance, update_insurance, delete_insurance, add_policy_asset, remove_policy_asset,
  same_link,
}
use go_tangra_asset.Memstore.Housekeeping.{
  upsert_notify_state, put_inv_sync_settings, condition_of, same_condition,
}
use go_tangra_asset.Table.{find_entry}
use go_tangra_asset.Table.Select.{find_entry-lookup}
use go_tangra_asset.Table.Sound.{parts}
use go_tangra_asset.Memstore.Invariant.{IsValid, never}

module _ (u : String) (env : Env) (m : Mem) where
  pub create_consumable-SameView :
      (c : Consumable) → u ≢ c.tenant_id → SameView u m (create_consumable env c m).1
  unfolding create_consumable
  create_consumable-SameView c other =
      call-SameView u "CreateConsumable" _ _ (grind (arith, lookup-has, select-insert_skip))

  pub update_consumable-SameView :
      (c : Consumable) → u ≢ c.tenant_id → SameView u m (update_consumable env c m).1
  unfolding update_consumable
  update_consumable-SameView c other =
      call-SameView u "UpdateConsumable" _ _ (grind (arith, select-insert_skip))

  pub create_license-SameView :
      (l : License) → u ≢ l.tenant_id → SameView u m (create_license env l m).1
  unfolding create_license
  create_license-SameView l other =
      call-SameView u "CreateLicense" _ _ (grind (arith, lookup-has, select-insert_skip))

  pub update_license-SameView :
      (l : License) → u ≢ l.tenant_id → SameView u m (update_license env l m).1
  unfolding update_license
  update_license-SameView l other =
      call-SameView u "UpdateLicense" _ _ (grind (arith, select-insert_skip))

  pub create_insurance-SameView :
      (p : InsurancePolicy) → u ≢ p.tenant_id → SameView u m (create_insurance env p m).1
  unfolding create_insurance
  create_insurance-SameView p other =
      call-SameView u "CreateInsurance" _ _ (grind (arith, lookup-has, select-insert_skip))

  pub update_insurance-SameView :
      (p : InsurancePolicy) → u ≢ p.tenant_id → SameView u m (update_insurance env p m).1
  unfolding update_insurance
  update_insurance-SameView p other =
      call-SameView u "UpdateInsurance" _ _ (grind (arith, select-insert_skip))

  pub add_policy_asset-SameView :
      (pa : PolicyAsset) → u ≢ pa.tenant_id → SameView u m (add_policy_asset env pa m).1
  unfolding add_policy_asset
  add_policy_asset-SameView pa other =
      call-SameView u "AddPolicyAsset" _ _ (grind (arith, lookup-has, select-insert_skip))

module _ (u : String) (m : Mem) (tenant id : String) (other : u ≢ tenant) where
  pub delete_consumable-SameView : SameView u m (delete_consumable tenant id m).1
  unfolding delete_consumable
  delete_consumable-SameView =
      call-SameView u "DeleteConsumable" _ _
        (grind (arith, select-erase_skip, select-erase_where_skip))

  pub delete_license-SameView : SameView u m (delete_license tenant id m).1
  unfolding delete_license
  delete_license-SameView =
      call-SameView u "DeleteLicense" _ _
        (grind (arith, select-erase_skip, select-erase_where_skip))

  pub delete_insurance-SameView : SameView u m (delete_insurance tenant id m).1
  unfolding delete_insurance
  delete_insurance-SameView =
      call-SameView u "DeleteInsurance" _ _
        (grind (arith, select-erase_skip, select-erase_where_skip))

module _ (u : String) (m : Mem) (v : IsValid m) where
  pub remove_policy_asset-SameView :
      (tenant policy asset : String)
      → u ≢ tenant
      → SameView u m (remove_policy_asset tenant policy asset m).1
  unfolding remove_policy_asset
  remove_policy_asset-SameView tenant policy asset other =
      let test = λ (pa : PolicyAsset).
        pa.tenant_id == tenant && pa.policy_id == policy && pa.asset_id == asset in
      let table = parts (λ (x : PolicyAsset). x.id) same_link m.policy_assets v.policy_assets in
      call-SameView u "RemovePolicyAsset" _ _
        (elim (Option-cases (find_entry test m.policy_assets)) [
          | inl missing ↦ rw missing (SameView-refl u m)
          | inr ((id, pa), found) ↦ rw found (
              grind (
                arith,
                select-erase_skip,
                find_entry-lookup test id pa m.policy_assets table.distinct found,
              ))
        ])

  pub put_inv_sync_settings-SameView :
      (env : Env) (s : InvSyncSettings)
      → u ≢ s.tenant_id
      → SameView u m (put_inv_sync_settings env s m).1
  unfolding put_inv_sync_settings
  put_inv_sync_settings-SameView env s other =
      let table = parts (λ (x : InvSyncSettings). x.tenant_id) never m.invsync v.invsync in
      call-SameView u "PutInvSyncSettings" _ _ (elim (Option-cases (lookup s.tenant_id m.invsync)) [
        | inl new ↦ grind (arith, select-insert_skip)
        | inr (old, found) ↦ grind (arith, select-insert_skip, table.keyed s.tenant_id old found)
      ])

  -- A new condition is stored under an id that no row has.
  pub upsert_notify_state-SameView :
      (env : Env) (n : NotifyState)
      → lookup (or_default n.id env.new_id) m.notify ≡ none
      → u ≢ n.tenant_id
      → SameView u m (upsert_notify_state env n m).1
  unfolding upsert_notify_state
  upsert_notify_state-SameView env n fresh other =
      let test = condition_of n.tenant_id n.condition_key in
      let table = parts (λ (x : NotifyState). x.id) same_condition m.notify v.notify in
      call-SameView u "UpsertNotifyState" _ _ (elim (Option-cases (find_entry test m.notify)) [
        | inl new ↦ rw new (grind (arith, select-insert_skip))
        | inr ((id, ex), found) ↦ rw found (
            grind (
              arith,
              select-insert_skip,
              find_entry-lookup test id ex m.notify table.distinct found,
            ))
      ])
