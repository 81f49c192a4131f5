-- ===== src/Tests.antt =====
-- Concrete surroundings and data, on which the tests under this module run the code.
mod Store
mod Assets
mod Access
mod Values
mod Sync
mod Trees
mod Secrets
mod Events
mod Systems
mod Places
use Prim.Native.String.{String}
use go_tangra_asset.Common.{ℕ, none, some, [], ◌∷◌, pos, true, false}
use go_tangra_asset.Float64.{f_zero, f_one}
use go_tangra_asset.Deprec.{FloatOps}
use go_tangra_asset.Models.{Asset, NotifyState}
use go_tangra_asset.Memstore.State.{Env, Mem, new}
use go_tangra_asset.Authz.{Subjects, actor_user, actor_system, role_admin}
use go_tangra_asset.Service.{World}
use go_tangra_asset.AssetService.{Ctx, Input, user}

-- Arithmetic that is exact on nought and one, which is what the test data holds.
abbrev pub floats : FloatOps
floats = record {
  sub = λ x y. x;
  mul = λ x y. x;
  div = λ x y. x;
  pow = λ x y. f_one;
  of_int = λ n. f_one;
  seconds = λ n. f_zero;
}

abbrev pub env : String → Env
env id = record { now = 1000; new_id = id; tag_id = "01HV5Z7Q"; floats = floats; to_lower = λ s. s }

abbrev pub ctx : String → Ctx
ctx id = record {
  now = 1000;
  row_id = id;
  draw = λ n. n;
  env = env id;
  directory = some (λ tenant id'. user "Ann");
  has_blobs = true;
  has_purger = false;
  has_archive = false;
}

abbrev pub ann : Subjects
ann = record { tenant_id = "t1"; user_id = "ann"; roles = role_admin ∷ []; actor_kind = actor_user }

abbrev pub laptop : Input
laptop = record {
  asset_tag = "";
  name = "Laptop";
  serial = "S-1";
  model_name = "X1";
  model_number = "";
  category_id = "";
  supplier_id = "";
  location_id = "";
  status = "";
  warranty_months = pos 24;
  purchase_date = some 500;
  order_number = "";
  purchase_cost = f_one;
  notes = "";
  salvage_value = f_zero;
  useful_life_years = pos 3;
  depreciation_rate = f_zero;
  tags = [];
}

abbrev pub asset : String → String → String → Asset
asset tenant id tag = record {
  id = id;
  tenant_id = tenant;
  asset_tag = tag;
  name = "Laptop";
  serial = "S-1";
  model_name = "X1";
  model_number = "";
  category_id = "";
  supplier_id = "";
  location_id = "";
  user_id = "";
  status = "";
  photo_key = "";
  warranty_months = pos 24;
  purchase_date = some 500;
  order_number = "";
  purchase_cost = f_one;
  notes = "";
  salvage_value = f_zero;
  useful_life_years = pos 3;
  depreciation_rate = f_zero;
  tags = [];
  created_by = "ann";
  updated_by = "ann";
  created_at = 0;
  updated_at = 0;
  book_value = f_zero;
}

abbrev pub empty_world : World
empty_world = record { mem = new; effects = [] }
