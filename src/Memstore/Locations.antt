-- ===== src/Memstore/Locations.antt =====
-- internal/memstore/memstore.go, `// ---- locations`.
use go_tangra_asset.Common.{ℕ, String, Bool, not, ◌&&◌, List, ⊤, ◌==◌, pos}
use mathlib.Core.List.{map}
use go_tangra_asset.Table.{lookup, insert, erase, has, some_row, count_rows, select, update_where}
use go_tangra_asset.Models.{Asset, Location, Consumable, loc_active}
use go_tangra_asset.Memstore.State.{
  Mem, Env, Op, not_found, conflict, not_empty, ◌>>=◌, ◌>>◌, pure, get, put, refuse_if, or_refuse,
  call, or_now, or_default, of_tenant,
}
use go_tangra_asset.Memstore.Page.{paginate}

abbrev pub location_tenant : Location → String
location_tenant l = l.tenant_id

abbrev pub asset_at : String → String → Asset → Bool
asset_at tenant id a = a.tenant_id == tenant && a.location_id == id

abbrev pub child_location : String → String → Location → Bool
child_location tenant id l = l.tenant_id == tenant && l.parent_id == id

unfoldable pub fill_location : Mem → Location → Location
fill_location m l = record l {
  child_count = count_rows (child_location l.tenant_id l.id) m.locations;
  asset_count = count_rows (asset_at l.tenant_id l.id) m.assets;
}

abbrev pub same_location : Location → Location → Bool
same_location l ex = ex.tenant_id == l.tenant_id && ex.name == l.name

unfoldable pub create_location : Env → Location → Op ⊤
create_location env l = call "CreateLocation" do
  m ← get
  refuse_if (some_row (same_location l) m.locations) conflict
  let row = record l {
    id = or_default l.id env.new_id;
    status = or_default l.status loc_active;
    created_at = or_now env l.created_at;
    updated_at = env.now;
  }
  refuse_if (has row.id m.locations) conflict
  put (record m { locations = insert row.id row m.locations })

unfoldable pub get_location : String → String → Op Location
get_location tenant id = call "GetLocation" do
  m ← get
  l ← or_refuse (of_tenant location_tenant tenant (lookup id m.locations)) not_found
  pure (fill_location m l)

unfoldable pub list_locations : String → Op (List Location)
list_locations tenant = call "ListLocations" do
  m ← get
  let out = select (λ l. l.tenant_id == tenant) m.locations
  pure (map (fill_location m) (paginate (λ l. l.id) "" (pos 0) out))

unfoldable pub update_location : Env → Location → Op ⊤
update_location env l = call "UpdateLocation" do
  m ← get
  ex ← or_refuse (of_tenant location_tenant l.tenant_id (lookup l.id m.locations)) not_found
  refuse_if (some_row (λ o. not (o.id == l.id) && same_location l o) m.locations) conflict
  let row = record l { created_at = ex.created_at; updated_at = env.now }
  put (record m { locations = insert l.id row m.locations })

abbrev pub consumable_at : String → String → Consumable → Bool
consumable_at tenant id c = c.tenant_id == tenant && c.location_id == id

unfoldable pub delete_location : String → String → Op ⊤
delete_location tenant id = call "DeleteLocation" do
  m ← get
  l ← or_refuse (of_tenant location_tenant tenant (lookup id m.locations)) not_found
  refuse_if (some_row (child_location tenant id) m.locations) not_empty
  refuse_if (some_row (asset_at tenant id) m.assets) not_empty
  put (record m {
    consumables =
        update_where (consumable_at tenant id) (λ c. record c { location_id = "" }) m.consumables;
    locations = erase id m.locations;
  })

unfoldable pub count_child_locations : String → String → Op ℕ
count_child_locations tenant id =
    call "CountChildLocations" do m ← get; pure (count_rows (child_location tenant id) m.locations)
