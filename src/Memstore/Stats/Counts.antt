-- ===== src/Memstore/Stats/Counts.antt =====
-- internal/memstore/memstore.go, `TenantStats`: what its counters count.
use go_tangra_asset.Common.{
  ℕ, suc, ◌+◌, String, ◌≡◌, subst, ◌∙◌, Bool, true, false, ◌&&◌, [], ◌∷◌, ◌==◌, if◌then◌else◌,
  arith, String-discrete,
}
use go_tangra_asset.Table.{Table, lookup, count_rows}
use go_tangra_asset.Table.Laws.{lookup-insert}
use go_tangra_asset.Float64.{Float64}
use go_tangra_asset.Models.{Asset}
use go_tangra_asset.Memstore.State.{Mem, Env, Result, call}
use go_tangra_asset.Memstore.Stats.{
  Stats, amount, tally, add_assets, with_asset, no_assets, tenant_stats,
}

amount-tally :
    (k j : String) (t : Table ℕ)
    → amount k (tally j t) ≡ (if k == j then suc (amount k t) else amount k t)
unfolding amount
amount-tally k j t = elim (String-discrete k j) [
  | yes e ↦
      subst (λ i. amount k (tally i t) ≡ (if k == i then suc (amount k t) else amount k t)) e
        (ground (arith, lookup-insert k k (suc (amount k t)) t))
  | no n ↦ ground (arith, lookup-insert k j (suc (amount j t)) t)
]

module _ (add : Float64 → Float64 → Float64) (env : Env) (tenant : String) where
  add_assets-total :
      (t : Table Asset) (st : Stats)
      → (add_assets add env tenant t st).total_assets
        ≡ st.total_assets + count_rows (λ a. a.tenant_id == tenant) t
  unfolding add_assets count_rows
  add_assets-total [] st = ground arith
  add_assets-total (e ∷ t) st = go (e.1.tenant_id == tenant) (add_assets-total t)
    where
      go :
          (b : Bool)
          → ((s : Stats)
              → (add_assets add env tenant t s).total_assets
                ≡ s.total_assets + count_rows (λ a. a.tenant_id == tenant) t)
          → (add_assets add env tenant t
              (if b then with_asset add env tenant e.1 st else st)).total_assets
            ≡ st.total_assets
              + (if b
                  then suc (count_rows (λ a. a.tenant_id == tenant) t)
                  else count_rows (λ a. a.tenant_id == tenant) t)
      go true rest = grind (arith, rest (with_asset add env tenant e.1 st))
      go false rest = rest st

  add_assets-amount :
      (k : String) (t : Table Asset) (st : Stats)
      → amount k (add_assets add env tenant t st).assets_by_status
        ≡ amount k st.assets_by_status + count_rows (λ a. a.tenant_id == tenant && k == a.status) t
  unfolding add_assets count_rows
  add_assets-amount k [] st = ground arith
  add_assets-amount k (e ∷ t) st = go (e.1.tenant_id == tenant) (add_assets-amount k t)
    where
      go :
          (b : Bool)
          → ((s : Stats)
              → amount k (add_assets add env tenant t s).assets_by_status
                ≡ amount k s.assets_by_status
                  + count_rows (λ a. a.tenant_id == tenant && k == a.status) t)
          → amount k
              (add_assets add env tenant t
                (if b then with_asset add env tenant e.1 st else st)).assets_by_status
            ≡ amount k st.assets_by_status
              + (if b && k == e.1.status
                  then suc (count_rows (λ a. a.tenant_id == tenant && k == a.status) t)
                  else count_rows (λ a. a.tenant_id == tenant && k == a.status) t)
      go true rest = grind (
        arith,
        rest (with_asset add env tenant e.1 st),
        amount-tally k e.1.status st.assets_by_status,
      )
      go false rest = rest st

-- Statistics are returned unless a failure of the call is armed, and leave the store as it was: they count
-- the tenant's assets, and under each status those of the tenant's assets that have it.
pub tenant_stats-count_rows :
    (add : Float64 → Float64 → Float64) (env : Env) (tenant : String) (m : Mem)
    → m.fail_next "TenantStats" ≡ false
    → (st : Stats) × (tenant_stats add env tenant m ≡ (Result.ok st, m))
      × (st.total_assets ≡ count_rows (λ a. a.tenant_id == tenant) m.assets)
      × ((k : String)
          → amount k st.assets_by_status
            ≡ count_rows (λ a. a.tenant_id == tenant && k == a.status) m.assets)
unfolding tenant_stats call amount lookup
tenant_stats-count_rows add env tenant m clear =
    let begin_ = no_assets add env tenant m in
    (
      add_assets add env tenant m.assets begin_,
      ground arith,
      add_assets-total add env tenant m.assets begin_ ∙ ground arith,
      λ k. add_assets-amount add env tenant k m.assets begin_ ∙ ground arith,
    )
