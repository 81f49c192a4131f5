-- ===== src/Memstore/Stats.antt =====
-- internal/memstore/memstore.go, `// ---- statistics`, and the counters of internal/repo/repo.go.
pub mod Counts
use go_tangra_asset.Common.{
  ℕ, suc, ◌+◌, String, ◌≡◌, refl, ap, ◌∙◌, sym, Bool, true, false, ◌&&◌, Option, none, some, List,
  [], ◌∷◌, ◌==◌, if◌then◌else◌, leb_ℤ, arith, Bool-cases, String-discrete,
}
use go_tangra_asset.Table.{Table, lookup, insert, count_rows}
use go_tangra_asset.Table.Laws.{lookup-insert_here, lookup-insert_other}
use go_tangra_asset.Float64.{Float64, f_zero}
use go_tangra_asset.Models.{Asset, Consumable}
use go_tangra_asset.Memstore.State.{Mem, Env, Op, Result, ◌>>=◌, pure, get, call}
use go_tangra_asset.Memstore.Assets.{fill_asset}

pub record Stats : Type 0 where
  pub total_assets : ℕ
  pub assets_by_status : Table ℕ
  pub total_consumables : ℕ
  pub total_suppliers : ℕ
  pub total_categories : ℕ
  pub total_locations : ℕ
  pub total_licenses : ℕ
  pub total_insurance : ℕ
  pub total_cost : Float64
  pub total_depreciated_value : Float64
  pub expiring_soon : ℕ
  pub low_stock : ℕ

-- `m[k]` of a map into numbers
unfoldable pub amount : String → Table ℕ → ℕ
unfolding lookup
amount k t = elim (lookup k t) [ none ↦ 0 | some n ↦ n ]

-- `m[k]++`
abbrev pub tally : String → Table ℕ → Table ℕ
tally k t = insert k (suc (amount k t)) t

-- The sum of floats, `+=`, is the machine's.
module _ (add : Float64 → Float64 → Float64) (env : Env) (tenant : String) where
  abbrev pub with_asset : Asset → Stats → Stats
  with_asset a st = record st {
    total_assets = suc st.total_assets;
    assets_by_status = tally a.status st.assets_by_status;
    total_cost = add st.total_cost a.purchase_cost;
    total_depreciated_value = add st.total_depreciated_value (fill_asset env a).book_value;
  }

  -- The loop over the assets.
  unfoldable pub add_assets : Table Asset → Stats → Stats
  add_assets [] st = st
  add_assets (e ∷ t) st = add_assets t (if e.1.tenant_id == tenant then with_asset e.1 st else st)

  abbrev pub no_assets : Mem → Stats
  no_assets m = record {
    total_assets = 0;
    assets_by_status = [];
    total_consumables = count_rows (λ c. c.tenant_id == tenant) m.consumables;
    total_suppliers = count_rows (λ s. s.tenant_id == tenant) m.suppliers;
    total_categories = count_rows (λ c. c.tenant_id == tenant) m.categories;
    total_locations = count_rows (λ l. l.tenant_id == tenant) m.locations;
    total_licenses = count_rows (λ l. l.tenant_id == tenant) m.licenses;
    total_insurance = count_rows (λ p. p.tenant_id == tenant) m.insurance;
    total_cost = f_zero;
    total_depreciated_value = f_zero;
    expiring_soon = 0;
    low_stock =
        count_rows (λ c. c.tenant_id == tenant && leb_ℤ c.amount c.min_amount) m.consumables;
  }

  unfoldable pub tenant_stats : Op Stats
  unfolding add_assets
  tenant_stats = call "TenantStats" do m ← get; pure (add_assets m.assets (no_assets m))
