-- ===== src/Models/Contracts.antt =====
-- internal/store/models.go: stock, licenses, insurance, the scheduler's state and the audit rows.
use go_tangra_asset.Common.{ℕ, String, Bool, Option, List, ℤ, Time}
use go_tangra_asset.Table.{Table}
use go_tangra_asset.Float64.{Float64}

pub record Consumable : Type 0 where
  pub id : String
  pub tenant_id : String
  pub name : String
  pub description : String
  pub category_id : String
  pub supplier_id : String
  pub location_id : String
  pub model_name : String
  pub model_number : String
  pub amount : ℤ
  pub min_amount : ℤ
  pub purchase_date : Option Time
  pub purchase_cost : Float64
  pub order_number : String
  pub notes : String
  pub tags : Table String
  pub created_by : String
  pub created_at : Time
  pub updated_at : Time

pub record License : Type 0 where
  pub id : String
  pub tenant_id : String
  pub name : String
  pub supplier_id : String
  pub purchase_date : Option Time
  pub purchase_cost : Float64
  pub order_number : String
  pub valid_from : Option Time
  pub valid_to : Option Time
  pub notes : String
  pub status : String
  pub metadata : Table String
  pub created_by : String
  pub created_at : Time
  pub updated_at : Time

pub record InsurancePolicy : Type 0 where
  pub id : String
  pub tenant_id : String
  pub name : String
  pub policy_number : String
  pub provider : String
  pub coverage_type : String
  pub premium_amount : Float64
  pub deductible : Float64
  pub coverage_limit : Float64
  pub valid_from : Option Time
  pub valid_to : Option Time
  pub status : String
  pub notes : String
  pub metadata : Table String
  pub created_by : String
  pub created_at : Time
  pub updated_at : Time
  pub asset_count : ℕ

pub record PolicyAsset : Type 0 where
  pub id : String
  pub tenant_id : String
  pub policy_id : String
  pub asset_id : String
  pub covered_value : Float64
  pub notes : String
  pub asset_tag : String
  pub asset_name : String
  pub model_name : String
  pub created_by : String
  pub created_at : Time

pub record NotifyState : Type 0 where
  pub id : String
  pub tenant_id : String
  pub condition_key : String
  pub last_notified_at : Time
  pub last_state : String

pub record InvSyncSettings : Type 0 where
  pub tenant_id : String
  pub exclude_vms : Bool
  pub exclude_containers : Bool
  pub skip_stale : Bool
  pub skip_retired : Bool
  pub hostname_include : List String
  pub hostname_exclude : List String
  pub os_include : List String
  pub os_exclude : List String
  pub updated_by : String
  pub updated_at : Time

-- `detail`, a map to any values, is left out.
pub record AuditRow : Type 0 where
  pub id : String
  pub tenant_id : String
  pub at : Time
  pub actor_kind : String
  pub actor_id : String
  pub action : String
  pub subject_kind : String
  pub subject_id : String
  pub outcome : String
  pub reason : String
