-- ===== src/Service.antt =====
-- What the services of internal/ share: the store behind them, what they emit, and their errors. The
-- store is the one of internal/memstore.
pub mod Rules
pub mod Contacts
pub mod Keeping
pub mod Bystander
use go_tangra_asset.Common.{
  ℕ, String, ◌≡◌, Bool, true, false, Option, none, some, List, [], ◌∷◌, ⊤, Time, ◌==◌,
  if◌then◌else◌,
}
use mathlib.Core.Option
use go_tangra_asset.Authz.{Subjects, require_tenant, actor_id}
use go_tangra_asset.Sealed.{SealError}
use go_tangra_asset.Memstore.State as State
use go_tangra_asset.Memstore.State.{Mem, Op, Result, Err}

-- An audit event (internal/audit); its details are left out.
pub record AuditEvent : Type 0 where
  pub tenant_id : String
  pub event_type : String
  pub actor_kind : String
  pub actor_id : String
  pub subject_kind : String
  pub subject_id : String
  pub outcome : String
  pub reason : String

-- What a service does outside the store: audit events, realtime events to the tenant's subscribers with
-- the ids in their payload, and removals from the object store and from a tenant's document archive (whose
-- errors are ignored).
pub data Effect : Type 0 where
  audited : AuditEvent → Effect
  published : String → String → List String → Effect
  blob_deleted : String → Effect
  archive_deleted : String → String → Effect

-- The effects stand newest first.
pub record World : Type 0 where
  pub mem : Mem
  pub effects : List Effect

-- A service's errors: the forbidden scope, its own sentinels, a validation message, the lifecycle state
-- that refuses, a failure of the user directory, a store error that is passed on, and a failure to seal.
pub data Fault : Type 0 where
  forbidden invalid bad_state : String → Fault
  missing duplicate in_use directory_failed : Fault
  store_failed : Err → Fault
  seal_failed : SealError → Fault

pub data Outcome (A : Type 0) : Type 0 where
  done : A → Outcome A
  failed : Fault → Outcome A

abbrev pub Action : Type 0 → Type 0
Action A = World → Outcome A × World

-- What follows a step: the rest, or the step's error.
abbrev pub go_on : {A B : Type 0} → Outcome A × World → (A → Action B) → Outcome B × World
go_on (done a, w) f = f a w
go_on (failed e, w) f = (failed e, w)

infixl 5 ◌>>=◌ ◌>>◌
unfoldable pub ◌>>=◌ : {A B : Type 0} → Action A → (A → Action B) → Action B
◌>>=◌ o f w = go_on (o w) f

abbrev pub ◌>>◌ : {A B : Type 0} → Action A → Action B → Action B
o >> k = o >>= λ _. k

abbrev pub pure : {A : Type 0} → A → Action A
pure a w = (done a, w)

abbrev pub fault : {A : Type 0} → Fault → Action A
fault e w = (failed e, w)

unfoldable pub fault_if : Bool → Fault → Action ⊤
fault_if true e w = (failed e, w)
fault_if false e w = (done tt, w)

unfoldable pub emit : Effect → Action ⊤
emit e w = (done tt, record w { effects = e ∷ w.effects })

-- How a store call's result and state come back into a service.
abbrev pub from_store : {A : Type 0} → (Err → Fault) → Result A × Mem → World → Outcome A × World
from_store map_err (Result.ok a, m) w = (done a, record w { mem = m })
from_store map_err (Result.err e, m) w = (failed (map_err e), record w { mem = m })

-- A store call, with the service's `mapErr` on its error.
unfoldable pub on_store : {A : Type 0} → (Err → Fault) → Op A → Action A
on_store map_err op w = from_store map_err (op w.mem) w

-- A store call whose result decides: `none` on any error.
unfoldable pub attempt : {A : Type 0} → Op A → Action (Result A)
attempt op w = let (r, m) = op w.mem in (done r, record w { mem = m })

-- A check that stops the operation with an error.
unfoldable pub gate : Option Fault → Action ⊤
gate none w = (done tt, w)
gate (some e) w = (failed e, w)

-- `authz.RequireTenant(subj, subj.TenantID)`, which opens every operation.
abbrev pub in_own_tenant : Subjects → Action ⊤
in_own_tenant subj = gate (Option.map forbidden (require_tenant subj subj.tenant_id))

-- A validation failure as the operation's error.
abbrev pub require_valid : Option String → Action ⊤
require_valid o = gate (Option.map invalid o)

abbrev pub audit_event : Subjects → String → String → String → String → String → Effect
audit_event subj type kind id outcome reason = audited (record {
  tenant_id = subj.tenant_id;
  event_type = type;
  actor_kind = subj.actor_kind;
  actor_id = actor_id subj;
  subject_kind = kind;
  subject_id = id;
  outcome = outcome;
  reason = reason;
})
