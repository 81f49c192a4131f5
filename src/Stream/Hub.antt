-- ===== src/Stream/Hub.antt =====
-- internal/stream/hub.go: the hub's subscriptions, by tenant and by user. A pointer to a subscription is
-- a number. The hub's mutex makes each part of a method a step.
pub mod Counts
pub mod Within
pub mod Steps
pub mod Subscribing
pub mod Runs
use go_tangra_asset.Common.{
  ℕ, suc, ◌+◌, ◌-◌, ◌⊎◌, inl, inr, String, Bool, true, false, Option, none, some, List, [], ◌∷◌,
  ◌++◌, ltb, leb, eqb, ◌==◌, ◌||◌, not, if◌then◌else◌, ℤ, pos, ltb_ℤ,
}
use go_tangra_asset.Memstore.Page.{length}
use go_tangra_asset.Table.{Table, lookup, insert, erase}
use go_tangra_asset.Stream.{targets, parse_id}
use go_tangra_asset.Stream.Queue.{Event, Subscription, push, shut, opened, taken_from}

-- `byUser`, where a user without an entry has none open.
pub record TenantSub : Type 0 where
  pub conns : List ℕ
  pub by_user : String → ℕ

pub record Config : Type 0 where
  pub streams_per_user : ℕ
  pub streams_per_tenant : ℕ

-- `subs` is what the pointers below `next` point to.
pub record Hub : Type 0 where
  pub subs : ℕ → Subscription
  pub next : ℕ
  pub tenants : Table TenantSub
  pub stopped : Bool

abbrev pub new_hub : Hub
new_hub = record { subs = λ _. opened "" ""; next = 0; tenants = []; stopped = false }

-- An entry of a tenant's stream, as the client reads it.
pub record Entry : Type 0 where
  pub event : Event
  pub to : String

abbrev pub put : ℕ → Subscription → (ℕ → Subscription) → ℕ → Subscription
put n s subs k = if eqb k n then s else subs k

-- `s.push(ev)`
unfoldable pub push_to : ℕ → Event → Hub → Bool × Hub
push_to n ev h = let (sent, s) = push ev (h.subs n) in (sent, record h { subs = put n s h.subs })

-- The reader of a subscription takes an event, where there is one.
unfoldable pub receive : ℕ → Hub → List Event × Hub
receive n h =
    let (got, s) = taken_from (h.subs n) (h.subs n).ch in (got, record h { subs = put n s h.subs })

unfoldable pub remove : ℕ → List ℕ → List ℕ
remove n [] = []
remove n (k ∷ ks) = let rest = remove n ks in if eqb n k then ks else k ∷ rest

abbrev pub one_less : String → (String → ℕ) → String → ℕ
one_less user by_user u = if u == user then by_user u - 1 else by_user u

abbrev pub one_more : String → (String → ℕ) → String → ℕ
one_more user by_user u = if u == user then by_user u + 1 else by_user u

-- The tenant's entry after one subscription has gone: the last one takes the entry along.
abbrev pub kept_tenant : String → List ℕ → (String → ℕ) → Table TenantSub → Table TenantSub
kept_tenant tenant [] by_user tenants = erase tenant tenants
kept_tenant tenant (k ∷ ks) by_user tenants =
    insert tenant (record { conns = k ∷ ks; by_user = by_user }) tenants

abbrev pub left_by : ℕ → Subscription → Table TenantSub → Table TenantSub
left_by n s tenants = elim (lookup s.tenant tenants) [
  | none ↦ tenants
  | some t ↦ kept_tenant s.tenant (remove n t.conns) (one_less s.user t.by_user) tenants
]

-- `s.Close()`, which does its work once.
unfoldable pub close : ℕ → Hub → Hub
unfolding remove
close n h =
    let s = h.subs n in
    if s.closed
    then h
    else record h { subs = put n (shut s) h.subs; tenants = left_by n s h.tenants }

pub data Refused : Type 0 where
  hub_closed too_many client_failed : Refused

abbrev pub no_conns : TenantSub
no_conns = record { conns = []; by_user = λ _. 0 }

-- The tenant's entry, made where the client could tell the tail of its stream.
abbrev pub tenant_entry : Option TenantSub → Bool → Option TenantSub
tenant_entry (some t) tail_read = some t
tenant_entry none true = some no_conns
tenant_entry none false = none

-- The hub with one subscription more, at the pointer `next`.
abbrev pub joined : String → String → TenantSub → Hub → Hub
joined tenant user t h = record h {
  subs = put h.next (opened tenant user) h.subs;
  next = suc h.next;
  tenants =
      insert tenant (record { conns = h.next ∷ t.conns; by_user = one_more user t.by_user })
        h.tenants;
}

-- The limits, once the tenant's entry is there.
abbrev pub admit : Config → String → String → Hub → Option TenantSub → (Refused ⊎ ℕ) × Hub
admit cfg tenant user h none = (inl client_failed, h)
admit cfg tenant user h (some t) =
    if leb cfg.streams_per_user (t.by_user user) || leb cfg.streams_per_tenant (length t.conns)
    then (inl too_many, record h { tenants = insert tenant t h.tenants })
    else (inr h.next, joined tenant user t h)

-- `Subscribe` up to the replay, under the hub's mutex; `tail_read` is whether the client could read the tail.
unfoldable pub register : Config → String → String → Bool → Hub → (Refused ⊎ ℕ) × Hub
register cfg tenant user tail_read h =
    if h.stopped
    then (inl hub_closed, h)
    else admit cfg tenant user h (tenant_entry (lookup tenant h.tenants) tail_read)

-- What the replay pushes of the entries that the client reads; what does not fit is left out.
unfoldable pub push_all : ℕ → List Entry → Hub → Hub
push_all n [] h = h
push_all n (e ∷ es) h =
    let after = push_all n es (push_to n e.event h).1 in
    let without = push_all n es h in if targets e.to (h.subs n).user then after else without

abbrev pub reset_event : String → Event
reset_event reason = record { id = ""; type = "reset"; data_ = reason }

-- `replay`: `oldest` is the first millisecond of the window, and `entries` what the client reads.
unfoldable pub replay : ℕ → String → ℤ → Option (List Entry) → Hub → Hub
replay n last_id oldest entries h =
    let (parts, ok) = parse_id last_id in
    if not ok || ltb_ℤ parts.0 oldest
    then (push_to n (reset_event "{\"reason\":\"replay_window\"}") h).1
    else elim entries [
      | none ↦ (push_to n (reset_event "{\"reason\":\"replay_unavailable\"}") h).1
      | some es ↦ push_all n es h
    ]

-- The end of `Subscribe`, which does not hold the hub's mutex: each push of the replay is a step of its
-- own, and dispatches may come between them.
unfoldable pub resume : ℕ → String → ℤ → Option (List Entry) → Hub → Hub
resume n last_id oldest entries h = if last_id == "" then h else replay n last_id oldest entries h

-- The subscriptions of `ns` that the entry is for.
unfoldable pub addressed : Entry → (ℕ → Subscription) → List ℕ → List ℕ
addressed e subs [] = []
addressed e subs (n ∷ ns) =
    let rest = addressed e subs ns in if targets e.to (subs n).user then n ∷ rest else rest

-- A subscription whose buffer is full is closed.
unfoldable pub push_each : Event → List ℕ → Hub → Hub
push_each ev [] h = h
push_each ev (n ∷ ns) h =
    let (sent, h') = push_to n ev h in push_each ev ns (if sent then h' else close n h')

abbrev pub conns_of : Option TenantSub → List ℕ
conns_of none = []
conns_of (some t) = t.conns

-- `dispatch` of one entry of the tenant's stream.
unfoldable pub dispatch : String → Entry → Hub → Hub
dispatch tenant e h = push_each e.event (addressed e h.subs (conns_of (lookup tenant h.tenants))) h

unfoldable pub close_each : List ℕ → Hub → Hub
close_each [] h = h
close_each (n ∷ ns) h = close_each ns (close n h)

unfoldable pub all_conns : Table TenantSub → List ℕ
all_conns [] = []
all_conns ((k, t) ∷ ts) = t.conns ++ all_conns ts

-- `OpenStreams`
unfoldable pub open_streams : Hub → ℕ
open_streams h = length (all_conns h.tenants)

-- The hub's `Close`
unfoldable pub stop : Hub → Hub
stop h = close_each (all_conns h.tenants) (record h { stopped = true })
