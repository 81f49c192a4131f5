-- ===== src/Memstore/ContractsInvariant.antt =====
-- The calls on consumables, licenses, insurance, notify states and settings keep the store's
-- invariant.
use go_tangra_asset.Common.{
  String, ◌≡◌, ◌⊎◌, refl, true, false, Option, none, some, Bool-cases, inl, inr, arith,
}
use go_tangra_asset.Table.{lookup, find_entry}
use go_tangra_asset.Table.Sound.{
  insert-IsSound, insert_new-IsSound, insert_over-IsSound, erase-IsSound, erase_where-IsSound,
  parts,
}
use go_tangra_asset.Table.Select.{find_entry-lookup, find_entry-none}
use go_tangra_asset.Models.{
  Consumable, License, InsurancePolicy, PolicyAsset, NotifyState, InvSyncSettings, AuditRow,
}
use go_tangra_asset.Memstore.State.{Mem, Env}
use go_tangra_asset.Memstore.Consumables.{create_consumable, update_consumable, delete_consumable}
use go_tangra_asset.Memstore.Licenses.{create_license, update_license, delete_license}
use go_tangra_asset.Memstore.Insurance.{
  create_insurance, update_insurance, delete_insurance, add_policy_asset, remove_policy_asset,
  same_policy, same_link,
}
use go_tangra_asset.Memstore.Housekeeping.{
  upsert_notify_state, put_inv_sync_settings, append_audit, condition_of, same_condition, upserted,
}
use go_tangra_asset.Memstore.Invariant.{IsValid, call-IsValid, insert_free-IsSound}

same_policy_sym : (a b : InsurancePolicy) → same_policy a b ≡ true → same_policy b a ≡ true
same_policy_sym a b h = ground arith

same_link_sym : (a b : PolicyAsset) → same_link a b ≡ true → same_link b a ≡ true
same_link_sym a b h = ground arith

same_condition_sym : (a b : NotifyState) → same_condition a b ≡ true → same_condition b a ≡ true
same_condition_sym a b h = ground arith

module _ (env : Env) (m : Mem) (v : IsValid m) where
  pub create_consumable-IsValid : (c : Consumable) → IsValid (create_consumable env c m).1
  unfolding create_consumable
  create_consumable-IsValid c =
      call-IsValid "CreateConsumable" _ _ v (grind (arith, insert_free-IsSound))

  pub update_consumable-IsValid : (c : Consumable) → IsValid (update_consumable env c m).1
  unfolding update_consumable
  update_consumable-IsValid c =
      call-IsValid "UpdateConsumable" _ _ v (grind (arith, insert_free-IsSound))

  pub create_license-IsValid : (l : License) → IsValid (create_license env l m).1
  unfolding create_license
  create_license-IsValid l = call-IsValid "CreateLicense" _ _ v (grind (arith, insert_free-IsSound))

  pub update_license-IsValid : (l : License) → IsValid (update_license env l m).1
  unfolding update_license
  update_license-IsValid l = call-IsValid "UpdateLicense" _ _ v (grind (arith, insert_free-IsSound))

  pub create_insurance-IsValid : (p : InsurancePolicy) → IsValid (create_insurance env p m).1
  unfolding create_insurance
  create_insurance-IsValid p =
      call-IsValid "CreateInsurance" _ _ v (grind (arith, insert_new-IsSound, same_policy_sym))

  pub update_insurance-IsValid : (p : InsurancePolicy) → IsValid (update_insurance env p m).1
  unfolding update_insurance
  update_insurance-IsValid p =
      call-IsValid "UpdateInsurance" _ _ v (grind (arith, insert_over-IsSound, same_policy_sym))

  pub add_policy_asset-IsValid : (pa : PolicyAsset) → IsValid (add_policy_asset env pa m).1
  unfolding add_policy_asset
  add_policy_asset-IsValid pa =
      call-IsValid "AddPolicyAsset" _ _ v (grind (arith, insert_new-IsSound, same_link_sym))

  -- What the upsert writes agrees with no row but the one that it writes over.
  upserted-apart :
      (n : NotifyState) (o : Option (String × NotifyState))
      → find_entry (condition_of n.tenant_id n.condition_key) m.notify ≡ o
      → (j : String) (x : NotifyState) → lookup j m.notify ≡ some x
      → (j ≡ (upserted env n o).0) ⊎ (same_condition (upserted env n o).1 x ≡ false)
  upserted-apart n none e j x f =
      inr (find_entry-none (condition_of n.tenant_id n.condition_key) j x m.notify e f)
  upserted-apart n (some (id, ex)) e j x f =
      let table = parts (λ (y : NotifyState). y.id) same_condition m.notify v.notify in
      let (there, same) =
        find_entry-lookup (condition_of n.tenant_id n.condition_key) id ex m.notify table.distinct
          e in
      elim (Bool-cases (same_condition n x)) [
        | inl again ↦ inl (table.unique j id x ex f there (ground arith))
        | inr other ↦ inr other
      ]

  upserted-keyed :
      (n : NotifyState) (o : Option (String × NotifyState))
      → find_entry (condition_of n.tenant_id n.condition_key) m.notify ≡ o
      → (upserted env n o).1.id ≡ (upserted env n o).0
  upserted-keyed n none e = refl
  upserted-keyed n (some (id, ex)) e =
      let table = parts (λ (y : NotifyState). y.id) same_condition m.notify v.notify in
      table.keyed id ex
        (find_entry-lookup (condition_of n.tenant_id n.condition_key) id ex m.notify table.distinct
          e).0

  pub upsert_notify_state-IsValid : (n : NotifyState) → IsValid (upsert_notify_state env n m).1
  unfolding upsert_notify_state
  upsert_notify_state-IsValid n =
      let o = find_entry (condition_of n.tenant_id n.condition_key) m.notify in
      call-IsValid "UpsertNotifyState" _ _ v (record {
        assets = v.assets;
        assignments = v.assignments;
        documents = v.documents;
        categories = v.categories;
        suppliers = v.suppliers;
        locations = v.locations;
        consumables = v.consumables;
        licenses = v.licenses;
        insurance = v.insurance;
        policy_assets = v.policy_assets;
        invsync = v.invsync;
        notify =
            insert-IsSound (λ (x : NotifyState). x.id) same_condition (upserted env n o).0
              (upserted env n o).1 m.notify same_condition_sym (upserted-apart n o refl)
              (upserted-keyed n o refl) v.notify;
      })

  pub put_inv_sync_settings-IsValid :
      (s : InvSyncSettings) → IsValid (put_inv_sync_settings env s m).1
  unfolding put_inv_sync_settings
  put_inv_sync_settings-IsValid s =
      call-IsValid "PutInvSyncSettings" _ _ v (grind (arith, insert_free-IsSound))

  pub append_audit-IsValid : (row : AuditRow) → IsValid (append_audit env row m).1
  unfolding append_audit
  append_audit-IsValid row = call-IsValid "AppendAudit" _ _ v (ground arith)

module _ (m : Mem) (v : IsValid m) (tenant id : String) where
  pub delete_consumable-IsValid : IsValid (delete_consumable tenant id m).1
  unfolding delete_consumable
  delete_consumable-IsValid =
      call-IsValid "DeleteConsumable" _ _ v (grind (arith, erase-IsSound, erase_where-IsSound))

  pub delete_license-IsValid : IsValid (delete_license tenant id m).1
  unfolding delete_license
  delete_license-IsValid =
      call-IsValid "DeleteLicense" _ _ v (grind (arith, erase-IsSound, erase_where-IsSound))

  pub delete_insurance-IsValid : IsValid (delete_insurance tenant id m).1
  unfolding delete_insurance
  delete_insurance-IsValid =
      call-IsValid "DeleteInsurance" _ _ v (grind (arith, erase-IsSound, erase_where-IsSound))

  pub remove_policy_asset-IsValid :
      (asset : String) → IsValid (remove_policy_asset tenant id asset m).1
  unfolding remove_policy_asset
  remove_policy_asset-IsValid asset =
      call-IsValid "RemovePolicyAsset" _ _ v (grind (arith, erase-IsSound))
