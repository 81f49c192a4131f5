-- ===== src/Memstore/Housekeeping.antt =====
-- internal/memstore/memstore.go, `// ---- notify-state`, `TenantIDs` and `// ---- audit`, and invsync.go.
use go_tangra_asset.Common.{
  String, Bool, true, false, ◌&&◌, Option, none, some, List, [], ◌∷◌, ◌++◌, ⊤, ◌==◌, if◌then◌else◌,
  str_lt,
}
use go_tangra_asset.Table.{Table, lookup, insert, find_row, find_entry}
use go_tangra_asset.Models.{NotifyState, InvSyncSettings, AuditRow}
use go_tangra_asset.Memstore.State.{
  Env, Op, not_found, ◌>>=◌, pure, get, put, or_refuse, call, or_now, or_default,
}
use go_tangra_asset.Memstore.Page.{sort_by}

abbrev pub condition_of : String → String → NotifyState → Bool
condition_of tenant key n = n.tenant_id == tenant && n.condition_key == key

-- UNIQUE (tenant_id, condition_key)
abbrev pub same_condition : NotifyState → NotifyState → Bool
same_condition n ex = condition_of n.tenant_id n.condition_key ex

unfoldable pub get_notify_state : String → String → Op NotifyState
get_notify_state tenant key =
    call "GetNotifyState"
      do m ← get; or_refuse (find_row (condition_of tenant key) m.notify) not_found

-- The entry that the upsert writes: over the row of the condition, or under a new id.
abbrev pub upserted : Env → NotifyState → Option (String × NotifyState) → String × NotifyState
upserted env n (some (id, ex)) =
    (id, record n { id = ex.id; last_notified_at = or_now env n.last_notified_at })
upserted env n none =
    let id' = or_default n.id env.new_id in
    (id', record n { id = id'; last_notified_at = or_now env n.last_notified_at })

unfoldable pub upsert_notify_state : Env → NotifyState → Op ⊤
upsert_notify_state env n = call "UpsertNotifyState" do
  m ← get
  let e = upserted env n (find_entry (condition_of n.tenant_id n.condition_key) m.notify)
  put (record m { notify = insert e.0 e.1 m.notify })

-- The settings of a tenant that has never set any.
abbrev pub no_settings : String → InvSyncSettings
no_settings tenant = record {
  tenant_id = tenant;
  exclude_vms = false;
  exclude_containers = false;
  skip_stale = false;
  skip_retired = false;
  hostname_include = [];
  hostname_exclude = [];
  os_include = [];
  os_exclude = [];
  updated_by = "";
  updated_at = 0;
}

unfoldable pub get_inv_sync_settings : String → Op (InvSyncSettings × Bool)
get_inv_sync_settings tenant = call "GetInvSyncSettings" do
  m ← get
  pure (elim (lookup tenant m.invsync) [ none ↦ (no_settings tenant, false) | some s ↦ (s, true) ])

unfoldable pub put_inv_sync_settings : Env → InvSyncSettings → Op ⊤
put_inv_sync_settings env s =
    call "PutInvSyncSettings"
      do m ← get; put (record m { invsync = insert s.tenant_id s m.invsync })

-- `set[id] = true` over a map that is a set
add_to_set : String → List String → List String
add_to_set x [] = x ∷ []
add_to_set x (y ∷ ys) = if x == y then y ∷ ys else y ∷ add_to_set x ys

unfoldable pub tenant_set : {V : Type 0} → (V → String) → Table V → List String → List String
unfolding add_to_set
tenant_set tenant_of [] set = set
tenant_set tenant_of (e ∷ t) set = tenant_set tenant_of t (add_to_set (tenant_of e.1) set)

-- sort.Strings(out)
unfoldable pub tenant_ids : Op (List String)
unfolding tenant_set
tenant_ids = call "TenantIDs" do
  m ← get
  let assets = tenant_set (λ a. a.tenant_id) m.assets []
  let categories = tenant_set (λ c. c.tenant_id) m.categories assets
  let suppliers = tenant_set (λ s. s.tenant_id) m.suppliers categories
  let locations = tenant_set (λ l. l.tenant_id) m.locations suppliers
  let consumables = tenant_set (λ c. c.tenant_id) m.consumables locations
  let licenses = tenant_set (λ l. l.tenant_id) m.licenses consumables
  let insurance = tenant_set (λ p. p.tenant_id) m.insurance licenses
  pure (sort_by str_lt insurance)

unfoldable pub append_audit : Env → AuditRow → Op ⊤
append_audit env row = call "AppendAudit" do
  m ← get
  let stored = record row { id = or_default row.id env.new_id; at = or_now env row.at }
  put (record m { audit = m.audit ++ stored ∷ [] })
