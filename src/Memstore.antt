-- ===== src/Memstore.antt =====
-- internal/memstore: the in-memory store, a record of tables and a function for each call.
pub mod State
pub mod Page
pub mod Assets
pub mod AssetReads
pub mod Assignments
pub mod Documents
pub mod Categories
pub mod Suppliers
pub mod Locations
pub mod Consumables
pub mod Licenses
pub mod Insurance
pub mod Housekeeping
pub mod Stats
pub mod Invariant
pub mod AssetsInvariant
pub mod TreesInvariant
pub mod ContractsInvariant
pub mod View
pub mod AssetsIsolation
pub mod TreesIsolation
pub mod ContractsIsolation
pub mod Calls
