-- ===== src/Models.antt =====
-- internal/store/models.go: the domain types. A status or kind is a text, as it is stored; a nullable
-- time is an option, and a map of tags a table.
mod Assets
mod Trees
mod Contracts
pub use Assets.*
pub use Trees.*
pub use Contracts.*
use go_tangra_asset.Common.{String}

abbrev pub asset_deployable : String
asset_deployable = "deployable"

abbrev pub asset_assigned : String
asset_assigned = "assigned"

abbrev pub asset_broken : String
asset_broken = "broken"

abbrev pub asset_archived : String
asset_archived = "archived"

abbrev pub action_assigned : String
action_assigned = "assigned"

abbrev pub action_unassigned : String
action_unassigned = "unassigned"

abbrev pub loc_active : String
loc_active = "active"

abbrev pub loc_planned : String
loc_planned = "planned"

abbrev pub loc_decommissioned : String
loc_decommissioned = "decommissioned"

abbrev pub sup_active : String
sup_active = "active"

abbrev pub sup_inactive : String
sup_inactive = "inactive"

abbrev pub lic_active : String
lic_active = "active"

abbrev pub lic_expired : String
lic_expired = "expired"

abbrev pub lic_suspended : String
lic_suspended = "suspended"

abbrev pub ins_active : String
ins_active = "active"

abbrev pub ins_expired : String
ins_expired = "expired"

abbrev pub ins_cancelled : String
ins_cancelled = "cancelled"

abbrev pub cov_all_risk : String
cov_all_risk = "all_risk"

abbrev pub cov_fire_theft : String
cov_fire_theft = "fire_theft"

abbrev pub cov_liability : String
cov_liability = "liability"

abbrev pub cov_equipment : String
cov_equipment = "equipment_breakdown"

abbrev pub cov_cyber : String
cov_cyber = "cyber"

abbrev pub entity_asset : String
entity_asset = "asset"

abbrev pub entity_consumable : String
entity_consumable = "consumable"

abbrev pub entity_license : String
entity_license = "license"

abbrev pub paperless_key_prefix : String
paperless_key_prefix = "paperless:"
