-- ===== src/Memstore/AssetReads.antt =====
-- internal/memstore/memstore.go and lists.go: the finds, lists and counts of assets.
use go_tangra_asset.Common.{ℕ, String, Bool, ◌&&◌, ◌||◌, not, List, ◌==◌, contains, pos}
use mathlib.Core.List.{map}
use go_tangra_asset.Table.{find_row, count_rows, select}
use go_tangra_asset.Models.{Asset, AssetFilter}
use go_tangra_asset.Memstore.State.{Env, Op, not_found, ◌>>=◌, pure, get, or_refuse, call}
use go_tangra_asset.Memstore.Page.{paginate}
use go_tangra_asset.Memstore.Assets.{fill_asset}

unfoldable pub find_asset_by_tag : Env → String → String → Op Asset
find_asset_by_tag env tenant tag = call "FindAssetByTag" do
  m ← get
  a ← or_refuse (find_row (λ a. a.tenant_id == tenant && a.asset_tag == tag) m.assets) not_found
  pure (fill_asset env a)

unfoldable pub find_asset_by_serial : Env → String → String → Op Asset
find_asset_by_serial env tenant serial = call "FindAssetBySerial" do
  m ← get
  a ←
      or_refuse
        (find_row (λ a. a.tenant_id == tenant && not (a.serial == "") && a.serial == serial)
          m.assets)
        not_found
  pure (fill_asset env a)

-- `want == "" || have == want`
abbrev pub fits : String → String → Bool
fits want have = want == "" || have == want

-- The rows that `matchAssets` does not skip.
unfoldable pub matches_filter : Env → String → AssetFilter → Asset → Bool
matches_filter env tenant f a =
    let q = env.to_lower f.query in
    a.tenant_id == tenant
    && fits f.status a.status
    && fits f.category_id a.category_id
    && fits f.supplier_id a.supplier_id
    && fits f.location_id a.location_id
    && fits f.user_id a.user_id
    && (q == ""
        || contains (env.to_lower a.asset_tag) q
        || contains (env.to_lower a.name) q
        || contains (env.to_lower a.serial) q
        || contains (env.to_lower a.model_name) q)

unfoldable pub list_assets : Env → String → AssetFilter → Op (List Asset)
list_assets env tenant f = call "ListAssets" do
  m ← get
  let out = select (matches_filter env tenant f) m.assets
  pure (map (fill_asset env) (paginate (λ a. a.id) f.cursor_id f.limit out))

unfoldable pub all_assets : Env → String → Op (List Asset)
all_assets env tenant = call "AllAssets" do
  m ← get
  let out = select (λ a. a.tenant_id == tenant) m.assets
  pure (map (fill_asset env) (paginate (λ a. a.id) "" (pos 0) out))

unfoldable pub count_assets_by_category : String → String → Op ℕ
count_assets_by_category tenant id =
    call "CountAssetsByCategory"
      do m ← get; pure (count_rows (λ a. a.tenant_id == tenant && a.category_id == id) m.assets)

unfoldable pub count_assets_by_supplier : String → String → Op ℕ
count_assets_by_supplier tenant id =
    call "CountAssetsBySupplier"
      do m ← get; pure (count_rows (λ a. a.tenant_id == tenant && a.supplier_id == id) m.assets)

unfoldable pub count_assets_by_location : String → String → Op ℕ
count_assets_by_location tenant id =
    call "CountAssetsByLocation"
      do m ← get; pure (count_rows (λ a. a.tenant_id == tenant && a.location_id == id) m.assets)
