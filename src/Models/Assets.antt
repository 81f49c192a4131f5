-- ===== src/Models/Assets.antt =====
-- internal/store/models.go: assets, their assignment history and documents, and the list filters.
use go_tangra_asset.Common.{String, Option, ℤ, Time}
use go_tangra_asset.Table.{Table}
use go_tangra_asset.Float64.{Float64}

-- `book_value` is computed on every read, and what is stored there is not used.
pub record Asset : Type 0 where
  pub id : String
  pub tenant_id : String
  pub asset_tag : String
  pub name : String
  pub serial : String
  pub model_name : String
  pub model_number : String
  pub category_id : String
  pub supplier_id : String
  pub location_id : String
  pub user_id : String
  pub status : String
  pub photo_key : String
  pub warranty_months : ℤ
  pub purchase_date : Option Time
  pub order_number : String
  pub purchase_cost : Float64
  pub notes : String
  pub salvage_value : Float64
  pub useful_life_years : ℤ
  pub depreciation_rate : Float64
  pub tags : Table String
  pub created_by : String
  pub updated_by : String
  pub created_at : Time
  pub updated_at : Time
  pub book_value : Float64

pub record Assignment : Type 0 where
  pub id : String
  pub tenant_id : String
  pub asset_id : String
  pub asset_name : String
  pub user_id : String
  pub user_name : String
  pub action : String
  pub assigned_at : Time
  pub returned_at : Option Time
  pub assigned_by : String
  pub notes : String

pub record Document : Type 0 where
  pub id : String
  pub tenant_id : String
  pub entity_type : String
  pub entity_id : String
  pub file_name : String
  pub file_size : ℤ
  pub mime_type : String
  pub storage_key : String
  pub checksum : String
  pub description : String
  pub uploaded_by : String
  pub created_at : Time
  pub paperless_document_id : String

pub record AssetFilter : Type 0 where
  pub status : String
  pub category_id : String
  pub supplier_id : String
  pub location_id : String
  pub user_id : String
  pub query : String
  pub limit : ℤ
  pub cursor_id : String

pub record ListOpts : Type 0 where
  pub query : String
  pub limit : ℤ
  pub cursor_id : String
