-- ===== src/Models/Trees.antt =====
-- internal/store/models.go: categories, locations and suppliers, which assets refer to.
use go_tangra_asset.Common.{ℕ, String, Time}
use go_tangra_asset.Table.{Table}

-- The two counts are computed on every read.
pub record Category : Type 0 where
  pub id : String
  pub tenant_id : String
  pub name : String
  pub description : String
  pub parent_id : String
  pub icon : String
  pub tags : Table String
  pub created_by : String
  pub created_at : Time
  pub updated_at : Time
  pub asset_count : ℕ
  pub child_count : ℕ

pub record Supplier : Type 0 where
  pub id : String
  pub tenant_id : String
  pub name : String
  pub code : String
  pub address : String
  pub city : String
  pub state : String
  pub country : String
  pub postal_code : String
  pub contact_person : String
  pub telephone : String
  pub email : String
  pub website : String
  pub notes : String
  pub status : String
  pub tags : Table String
  pub created_by : String
  pub created_at : Time
  pub updated_at : Time

pub record Location : Type 0 where
  pub id : String
  pub tenant_id : String
  pub name : String
  pub code : String
  pub description : String
  pub parent_id : String
  pub path : String
  pub address : String
  pub city : String
  pub state : String
  pub country : String
  pub postal_code : String
  pub contact : String
  pub phone : String
  pub email : String
  pub status : String
  pub tags : Table String
  pub created_by : String
  pub created_at : Time
  pub updated_at : Time
  pub child_count : ℕ
  pub asset_count : ℕ
