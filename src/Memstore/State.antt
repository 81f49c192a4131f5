-- ===== src/Memstore/State.antt =====
-- internal/memstore/memstore.go: the store's state and the calls' effects. Each call holds the mutex
-- from end to end, so a call is one step on the state.
use go_tangra_asset.Common.{
  String, Bool, true, false, Option, none, some, List, [], ⊤, Time, is_zero_time, ◌==◌,
  if◌then◌else◌,
}
use go_tangra_asset.Table.{Table}
use go_tangra_asset.Models.{
  Asset, Assignment, Document, Category, Supplier, Location, Consumable, License, InsurancePolicy,
  PolicyAsset, NotifyState, InvSyncSettings, AuditRow,
}
use go_tangra_asset.Deprec.{FloatOps}

pub record Mem : Type 0 where
  pub assets : Table Asset
  pub assignments : Table Assignment
  pub documents : Table Document
  pub invsync : Table InvSyncSettings
  pub categories : Table Category
  pub suppliers : Table Supplier
  pub locations : Table Location
  pub consumables : Table Consumable
  pub licenses : Table License
  pub insurance : Table InsurancePolicy
  pub policy_assets : Table PolicyAsset
  pub notify : Table NotifyState
  pub audit : List AuditRow
  pub fail_next : String → Bool

abbrev pub new : Mem
new = record {
  assets = [];
  assignments = [];
  documents = [];
  invsync = [];
  categories = [];
  suppliers = [];
  locations = [];
  consumables = [];
  licenses = [];
  insurance = [];
  policy_assets = [];
  notify = [];
  audit = [];
  fail_next = λ _. false;
}

-- What a call takes from its surroundings: the clock, the ids that `store.NewID` would mint for a row
-- and for a tag, the float arithmetic, and `strings.ToLower`.
pub record Env : Type 0 where
  pub now : Time
  pub new_id : String
  pub tag_id : String
  pub floats : FloatOps
  pub to_lower : String → String

-- repo.ErrNotFound, repo.ErrConflict, repo.ErrNotEmpty and the error that `FailNext` arms
pub data Err : Type 0 where
  not_found conflict not_empty : Err
  injected : String → Err

pub data Result (A : Type 0) : Type 0 where
  ok : A → Result A
  err : Err → Result A

abbrev pub Op : Type 0 → Type 0
Op A = Mem → Result A × Mem

infixl 5 ◌>>=◌ ◌>>◌
abbrev pub ◌>>=◌ : {A B : Type 0} → Op A → (A → Op B) → Op B
◌>>=◌ o f m = let (r, m') = o m in elim r [ ok a ↦ f a m' | err e ↦ (err e, m') ]

abbrev pub ◌>>◌ : {A B : Type 0} → Op A → Op B → Op B
o >> k = o >>= λ _. k

abbrev pub pure : {A : Type 0} → A → Op A
pure a m = (ok a, m)

abbrev pub get : Op Mem
get m = (ok m, m)

abbrev pub put : Mem → Op ⊤
put m' m = (ok tt, m')

abbrev pub refuse_if : Bool → Err → Op ⊤
refuse_if c e m = (if c then err e else ok tt, m)

abbrev pub or_refuse : {A : Type 0} → Option A → Err → Op A
or_refuse none e m = (err e, m)
or_refuse (some a) e m = (ok a, m)

unfoldable pub fail_next_call : String → Op ⊤
fail_next_call method m =
    (ok tt, record m { fail_next = λ k. if k == method then true else m.fail_next k })

-- `delete(m.failNext, method)`
unfoldable pub disarm : String → Mem → Mem
disarm method m = record m { fail_next = λ k. if k == method then false else m.fail_next k }

-- A method of the store: `fail` reports an injected failure, and disarms it, before the body runs.
unfoldable pub call : {A : Type 0} → String → Op A → Op A
call method body m = elim (m.fail_next method) [
  | true ↦ (err (injected method), disarm method m)
  | false ↦ body m
]

-- `if t.IsZero() { t = now }`
abbrev pub or_now : Env → Time → Time
or_now env t = if is_zero_time t then env.now else t

-- `if s == "" { s = d }`
abbrev pub or_default : String → String → String
or_default s d = if s == "" then d else s

-- `row, ok := table[id]; if !ok || row.TenantID != tenantID { return ErrNotFound }`
abbrev pub of_tenant : {V : Type 0} → (V → String) → String → Option V → Option V
of_tenant tenant_of tenant none = none
of_tenant tenant_of tenant (some v) = if tenant_of v == tenant then some v else none
