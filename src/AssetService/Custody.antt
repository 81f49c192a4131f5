-- ===== src/AssetService/Custody.antt =====
-- What a check-out and a check-in that are done have changed in the store.
use go_tangra_asset.Common.{
  ℕ, ◌+◌, String, ◌≡◌, ◌≢◌, Option, none, some, arith, Option-cases, inl, inr, Time,
}
use go_tangra_asset.Table.{lookup, count_rows}
use go_tangra_asset.Table.Laws.{lookup-insert, lookup-has}
use go_tangra_asset.Table.Select.{
  count_rows-insert_new, count_rows-insert_skip, count_rows-update_where,
}
use go_tangra_asset.Table.Sound.{parts}
use go_tangra_asset.Models.{Asset, Assignment}
use go_tangra_asset.Memstore.State.{Mem, Env, Result, call, disarm, ok, not_found}
use go_tangra_asset.Memstore.Invariant.{IsValid}
use go_tangra_asset.Memstore.Assets.{
  get_asset, update_asset, fill_asset, same_tag, stored_book_value,
}
use go_tangra_asset.Memstore.Assignments.{insert_assignment, close_active_assignment, active}

-- The open assignments of an asset.
abbrev pub open_rows : String → String → Mem → ℕ
open_rows tenant id m = count_rows (active tenant id) m.assignments

-- The tenant and status of the asset under an id.
abbrev pub status_at : String → Mem → Option (String × String)
status_at id m = elim (lookup id m.assets) [ none ↦ none | some a ↦ some (a.tenant_id, a.status) ]

-- Its status, assignee and location.
abbrev pub custody_at : String → Mem → Option (String × String × String)
custody_at id m = elim (lookup id m.assets) [
  | none ↦ none
  | some a ↦ some (a.status, a.user_id, a.location_id)
]

module _ (env : Env) (m : Mem) (tenant id : String) (a : Asset) where
  -- A read that finds the asset has changed nothing, and has found the tenant's row with that id.
  pub get_asset-found :
      IsValid m
      → (get_asset env tenant id m).0 ≡ ok a
      → ((get_asset env tenant id m).1 ≡ m)
        × (a.id ≡ id)
        × (a.tenant_id ≡ tenant)
        × (status_at id m ≡ some (tenant, a.status))
  unfolding get_asset call disarm fill_asset stored_book_value
  get_asset-found v e = elim (Option-cases (lookup id m.assets)) [
    | inl gone ↦ ground arith
    | inr (b, found) ↦
        let keyed = (parts (λ (x : Asset). x.id) same_tag m.assets v.assets).keyed id b found in
        ground (arith, keyed, found)
  ]

module _ (env : Env) (m : Mem) (a : Asset) where
  -- A write that succeeds leaves the row that it was given, but for defaults, under its id.
  pub update_asset-written :
      (update_asset env a m).0 ≡ ok tt
      → ((update_asset env a m).1.assignments ≡ m.assignments)
        × (custody_at a.id (update_asset env a m).1 ≡ some (a.status, a.user_id, a.location_id))
  unfolding update_asset call disarm
  update_asset-written e = grind (arith, lookup-insert)

module _ (env : Env) (m : Mem) (tenant id : String) (a : Assignment) where
  -- A row that is inserted is one more that is open, if it is of the asset and not returned.
  pub insert_assignment-opens :
      (insert_assignment env a m).0 ≡ ok tt
      → a.tenant_id ≡ tenant
      → a.asset_id ≡ id
      → a.returned_at ≡ none
      → open_rows tenant id (insert_assignment env a m).1 ≡ open_rows tenant id m + 1
  unfolding insert_assignment call disarm
  insert_assignment-opens e t i r = grind (arith, count_rows-insert_new, lookup-has)

  pub insert_assignment-closed :
      (at : Time)
      → (insert_assignment env a m).0 ≡ ok tt
      → a.returned_at ≡ some at
      → open_rows tenant id (insert_assignment env a m).1 ≡ open_rows tenant id m
  unfolding insert_assignment call disarm
  insert_assignment-closed at e r = grind (arith, count_rows-insert_skip, lookup-has)

module _ (env : Env) (m : Mem) (tenant id : String) (at : Time) where
  pub close_active_assignment-none :
      (close_active_assignment env tenant id at m).0 ≡ ok tt
      → open_rows tenant id (close_active_assignment env tenant id at m).1 ≡ 0
  unfolding close_active_assignment call disarm
  close_active_assignment-none e = grind (arith, count_rows-update_where)

  -- Its only error is an armed failure.
  pub close_active_assignment-error :
      (close_active_assignment env tenant id at m).0 ≢ Result.err not_found
  unfolding close_active_assignment call disarm
  close_active_assignment-error = ground arith
