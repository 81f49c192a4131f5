-- ===== src/Lib.antt =====
-- Verification of go-tangra-asset, the asset management service: assets with their lifecycle and
-- depreciation, categories, suppliers, locations, consumables, licenses, insurance policies and
-- documents, for many tenants.
--
-- The parts, and how they interact. A handler (internal/httpapi, internal/grpcapi) authenticates a
-- caller and calls a service with the caller's subjects (internal/authz). A service (internal/assets,
-- categories, suppliers, locations, consumables, licenses, insurance) checks the tenant, validates, and
-- calls the store (internal/repo's interface) and other ports: the user directory, the object store, the
-- realtime hub (internal/stream) and the audit recorder. Contact fields are sealed by internal/sealed
-- before they are stored. The scheduler (internal/scheduler) goes through the store and publishes to the
-- hub. The store here is the in-memory implementation of internal/memstore. Book values are computed at
-- each read by internal/deprec.
--
-- Which file models which part:
--   Common, Table        the shared tests, texts, integers and clock; Go maps as association lists
--   Float64, Deprec      internal/deprec/deprec.go; float64 is its bit pattern, its comparisons are
--                        written out, and the arithmetic and math.Pow are the parameter FloatOps
--   Models               internal/store/models.go
--   Memstore             internal/memstore: State has the state, the error injection and the monad of
--                        a call; Page, Assets, AssetReads, Assignments, Documents, Categories,
--                        Suppliers, Locations, Consumables, Licenses, Insurance, Housekeeping and Stats have
--                        a function for each method; Invariant and the files named after it state what
--                        keeps the tables sound, View and the files named after it what a tenant can
--                        see; Calls has every writing method as data and runs of them
--   Authz                internal/authz/authz.go
--   Service              what the services share: a world of store and emitted effects, errors as
--                        values, and the rules to follow an operation step by step
--   AssetService         internal/assets/assets.go: Edit has Create, Update and Delete, Assign has
--                        Assign and Unassign, Held the lifecycle's invariant, Requests its histories,
--                        Custody and Handover what a check-out and a check-in change
--   DocumentService      internal/documents: PurgeRows and removeObject, which a deletion of an asset calls
--   Tree                 the cycle guard that internal/categories/categories.go and
--                        internal/locations/locations.go have alike, on fuel
--   CategoryService      the rest of internal/categories/categories.go but BuildTree
--   LocationService      the rest of internal/locations/locations.go but BuildTree
--   SupplierService      internal/suppliers/suppliers.go
--   ConsumableService    internal/consumables/consumables.go
--   LicenseService       internal/licenses/licenses.go
--   InsuranceService     internal/insurance/insurance.go
--   Services             every operation of these services as a request, and histories of requests; the
--                        files named Bystander follow each operation for another tenant's sake
--   Sealed               internal/sealed/sealed.go: the envelope, and in Settings the hidden fields
--   Scheduler            internal/scheduler/scheduler.go; Told and Later follow one condition, Onward and
--                        Lapse a license past its end
--   Stream               internal/stream/client.go and hub.go: ids, recipients and what is refused; Queue
--                        has one subscription, Hub the hub and its methods, Runs its reachable states
--   Ids                  internal/store/ids.go: the ids as bytes, and their order
--   Invsync              internal/invsync/diff.go and filter.go: the comparison with the inventory's
--                        hosts, and the settings that keep hosts out
--   Tests                concrete data and the theorems applied to it
--
-- A method of the store holds the mutex from end to end, so it is one step on the state, and runs of
-- concurrent callers are lists of steps. Every method can fail by an armed failure first, which the
-- model has as the source does. Go's iteration order over a map is the order of the association list:
-- the theorems hold for every such list.
--
-- Bounds. The retry loop of assets.Create is structural recursion on the five rounds that may follow
-- the first. A time is a natural number of nanoseconds from Go's zero time, and a difference of times
-- saturates at the ends of int64. The loop of isAncestor runs on one round more than the map has rows:
-- no chain of parents without repetition is longer.
--
-- A pointer to a subscription of the hub is a number. What the hub holds the mutex for is a step, and so
-- are each push of a replay and a dispatch to the connections that it found: readers take events and
-- dispatches come between the steps. What the stream
-- client reads is an argument of each step.
--
-- Parameters, for code that is not of this repository or is drawn at random: the clock, new ids, the
-- random tags, strings.ToLower, path.Match, float arithmetic, the calendar's AddDate, json.Valid, the
-- user directory's answers, the cipher (crypto/cipher's GCM), base64 and the conversions between texts
-- and bytes. Nothing is assumed of them but what a theorem names; IsLawful says what is assumed of the
-- cipher and the encodings.
--
-- Not modelled: the transports, the database adapter (its SQL runs elsewhere), backup, the caches and
-- their external stores, configuration, the dashboard, the key and the JSON of the sealed settings, the
-- in-process stream client and the tickers; the manifest lists them.
pub mod Common
pub mod Table
pub mod Float64
pub mod Deprec
pub mod Models
pub mod Memstore
pub mod Authz
pub mod Service
pub mod Scheduler
pub mod Services
pub mod Stream
pub mod DocumentService
pub mod AssetService
pub mod Tests
pub mod Ids
pub mod Invsync
pub mod Tree
pub mod CategoryService
pub mod Sealed
pub mod SupplierService
pub mod LocationService
pub mod ConsumableService
pub mod LicenseService
pub mod InsuranceService
