-- ===== src/Scheduler.antt =====
-- internal/scheduler/scheduler.go: the lifecycle sweeps. Each sweep goes through a tenant's rows, lapses
-- what is past its end, and tells the tenant of a condition when its state is a new one.
pub mod Told
pub mod Later
pub mod Lapse
pub mod Onward
use Prim.Native.String.{◌++◌}
use go_tangra_asset.Common.{
  ℕ, suc, String, Bool, true, false, not, ◌&&◌, ◌||◌, Option, none, some, List, [], ◌∷◌, ⊤, ℤ, pos,
  Time, before, sub_time, leb_ℤ, ◌==◌, if◌then◌else◌,
}
use go_tangra_asset.Models.{
  Asset, License, InsurancePolicy, Consumable, NotifyState, asset_archived, lic_suspended,
  lic_expired, ins_cancelled, ins_expired,
}
use go_tangra_asset.Memstore.State.{Mem, Env, Result, Op}
use go_tangra_asset.Memstore.Housekeeping.{get_notify_state, upsert_notify_state, tenant_ids}
use go_tangra_asset.Memstore.AssetReads.{all_assets}
use go_tangra_asset.Memstore.Licenses.{all_licenses, update_license}
use go_tangra_asset.Memstore.Insurance.{all_insurance, update_insurance}
use go_tangra_asset.Memstore.Consumables.{all_consumables}
use go_tangra_asset.Service.{World, Effect, AuditEvent, audited, published}

abbrev pub state_soon : String
state_soon = "soon"

abbrev pub state_expired : String
state_expired = "expired"

abbrev pub state_low : String
state_low = "low"

abbrev pub state_ok : String
state_ok = "ok"

pub record Report : Type 0 where
  pub tenant_id : String
  pub warranty_expiring : ℕ
  pub license_events : ℕ
  pub licenses_expired : ℕ
  pub insurance_events : ℕ
  pub insurance_expired : ℕ
  pub low_stock : ℕ
  pub errors : ℕ

-- One sweep's surroundings: its clock, the windows in nanoseconds, the store's surroundings at each
-- condition, the calendar's `AddDate(0, n, 0)`, and `strconv.Itoa`.
pub record Watch : Type 0 where
  pub now : Time
  pub warranty_window : ℕ
  pub license_window : ℕ
  pub insurance_window : ℕ
  pub env : String → Env
  pub add_months : Time → ℤ → Time
  pub itoa : ℤ → String

abbrev pub Sweep : Type 0
Sweep = Report × World → Report × World

abbrev pub failing : Report → Report
failing rep = record rep { errors = suc rep.errors }

abbrev pub in_store : Mem → World → World
in_store m w = record w { mem = m }

abbrev pub with_effect : Effect → World → World
with_effect x w = record w { effects = x ∷ w.effects }

-- `err == nil && prev.LastState == state`
abbrev pub is_told : Result NotifyState → String → Bool
is_told (Result.ok prev) state = prev.last_state == state
is_told (Result.err e) state = false

abbrev pub notice : Watch → String → String → String → NotifyState
notice watch tenant key state = record {
  id = "";
  tenant_id = tenant;
  condition_key = key;
  last_notified_at = watch.now;
  last_state = state;
}

-- What the upsert decides.
abbrev pub noted : String → Report → Result ⊤ × Mem → World → Bool × (Report × World)
noted state rep (Result.ok x, m) w = (not (state == state_ok), (rep, in_store m w))
noted state rep (Result.err e, m) w = (false, (failing rep, in_store m w))

unfoldable pub should_notify :
    Watch → String → String → String → Report × World → Bool × (Report × World)
should_notify watch tenant key state (rep, w) =
    let (prev, m) = get_notify_state tenant key w.mem in
    if is_told prev state
    then (false, (rep, in_store m w))
    else noted state rep (upsert_notify_state (watch.env key) (notice watch tenant key state) m)
        (in_store m w)

-- The state of something that ends at `end_`.
unfoldable pub state_at : Time → Time → ℕ → String
state_at end_ now window =
    if before end_ now
    then state_expired
    else if leb_ℤ (sub_time end_ now) (pos window)
    then state_soon
    else state_ok

-- `if s.shouldNotify(...) { s.pub.Publish(...); rep...++ }`
abbrev pub tell : Watch → String → String → String → Effect → (Report → Report) → Sweep
tell watch tenant key state event count s =
    let (told, (rep, w)) = should_notify watch tenant key state s in
    if told then (count rep, with_effect event w) else (rep, w)

abbrev pub lapsed_event : String → String → String → String → Effect
lapsed_event tenant type kind id = audited (record {
  tenant_id = tenant;
  event_type = type;
  actor_kind = "system";
  actor_id = "scheduler";
  subject_kind = kind;
  subject_id = id;
  outcome = "ok";
  reason = "";
})

-- What a lapse leaves: the report counts it and it is audited, or the report counts the error.
abbrev pub lapsed : (Report → Report) → Effect → Report → World → Result ⊤ × Mem → Report × World
lapsed count event rep w (Result.ok x, m) = (count rep, with_effect event (in_store m w))
lapsed count event rep w (Result.err e, m) = (failing rep, in_store m w)

-- The rest of a sweep after its read of the rows.
abbrev pub over :
    {A : Type 0} → (List A → Sweep) → Report → World → Result (List A) × Mem → Report × World
over each rep w (Result.ok rows, m) = each rows (rep, in_store m w)
over each rep w (Result.err e, m) = (failing rep, in_store m w)

unfoldable pub warranty_of : Watch → String → Asset → Sweep
unfolding should_notify state_at
warranty_of watch tenant a s = elim a.purchase_date [
  | none ↦ s
  | some bought ↦
      if leb_ℤ a.warranty_months (pos 0) || a.status == asset_archived
      then s
      else tell watch tenant ("warranty:" ++ a.id)
          (state_at (watch.add_months bought a.warranty_months) watch.now watch.warranty_window)
          (published tenant "asset.warranty.expiring" (a.id ∷ a.asset_tag ∷ []))
          (λ rep. record rep { warranty_expiring = suc rep.warranty_expiring }) s
]

-- A license is written as expired, which is counted and audited.
abbrev pub mark_expired : Watch → String → License → Report → World → Report × World
mark_expired watch tenant l rep w =
    lapsed (λ r. record r { licenses_expired = suc r.licenses_expired })
      (lapsed_event tenant "license_expired" "license" l.id) rep w
      (update_license (watch.env l.id) (record l { status = lic_expired; updated_at = watch.now })
        w.mem)

-- A license past its end that is not yet marked so.
abbrev pub expire_license : Watch → String → License → String → Sweep
expire_license watch tenant l state (rep, w) =
    if state == state_expired && not (l.status == lic_expired)
    then mark_expired watch tenant l rep w
    else (rep, w)

abbrev pub tell_license : Watch → String → License → String → Sweep
tell_license watch tenant l state =
    tell watch tenant ("license:" ++ l.id) state
      (published tenant "license.expiring" (l.id ∷ l.name ∷ []))
      (λ rep. record rep { license_events = suc rep.license_events })

-- A license that ends at `end_`.
abbrev pub ending_license : Watch → String → License → Time → Sweep
ending_license watch tenant l end_ s =
    if l.status == lic_suspended
    then s
    else let state = state_at end_ watch.now watch.license_window in
      tell_license watch tenant l state (expire_license watch tenant l state s)

unfoldable pub license_of : Watch → String → License → Sweep
unfolding should_notify state_at
license_of watch tenant l s = elim l.valid_to [
  | none ↦ s
  | some end_ ↦ ending_license watch tenant l end_ s
]

abbrev pub expire_insurance : Watch → String → InsurancePolicy → String → Sweep
expire_insurance watch tenant p state (rep, w) =
    if state == state_expired && not (p.status == ins_expired)
    then lapsed (λ r. record r { insurance_expired = suc r.insurance_expired })
        (lapsed_event tenant "insurance_expired" "insurance" p.id) rep w
        (update_insurance (watch.env p.id)
          (record p { status = ins_expired; updated_at = watch.now }) w.mem)
    else (rep, w)

unfoldable pub insurance_of : Watch → String → InsurancePolicy → Sweep
unfolding should_notify state_at
insurance_of watch tenant p s = elim p.valid_to [
  | none ↦ s
  | some end_ ↦
      if p.status == ins_cancelled
      then s
      else let state = state_at end_ watch.now watch.insurance_window in
        tell watch tenant ("insurance:" ++ p.id) state
          (published tenant "insurance.expiring" (p.id ∷ p.policy_number ∷ []))
          (λ rep. record rep { insurance_events = suc rep.insurance_events })
          (expire_insurance watch tenant p state s)
]

unfoldable pub stock_of : Watch → String → Consumable → Sweep
unfolding should_notify
stock_of watch tenant c s =
    if leb_ℤ c.min_amount (pos 0)
    then s
    else tell watch tenant ("low_stock:" ++ c.id)
        (if leb_ℤ c.amount c.min_amount
          then state_low ++ (":" ++ watch.itoa c.amount)
          else state_ok)
        (published tenant "consumable.low_stock" (c.id ∷ c.name ∷ []))
        (λ rep. record rep { low_stock = suc rep.low_stock }) s

-- `for _, row := range rows { ... }`
unfoldable pub each : {A : Type 0} → (A → Sweep) → List A → Sweep
each f [] s = s
each f (a ∷ as_) s = each f as_ (f a s)

unfoldable pub sweep_warranty : Watch → String → Sweep
sweep_warranty watch tenant (rep, w) =
    over (each (warranty_of watch tenant)) rep w (all_assets (watch.env "") tenant w.mem)

unfoldable pub sweep_licenses : Watch → String → Sweep
sweep_licenses watch tenant (rep, w) =
    over (each (license_of watch tenant)) rep w (all_licenses tenant w.mem)

unfoldable pub sweep_insurance : Watch → String → Sweep
sweep_insurance watch tenant (rep, w) =
    over (each (insurance_of watch tenant)) rep w (all_insurance tenant w.mem)

unfoldable pub sweep_consumables : Watch → String → Sweep
sweep_consumables watch tenant (rep, w) =
    over (each (stock_of watch tenant)) rep w (all_consumables tenant w.mem)

abbrev pub empty_report : String → Report
empty_report tenant = record {
  tenant_id = tenant;
  warranty_expiring = 0;
  license_events = 0;
  licenses_expired = 0;
  insurance_events = 0;
  insurance_expired = 0;
  low_stock = 0;
  errors = 0;
}

unfoldable pub sweep : Watch → String → World → Report × World
sweep watch tenant w = sweep_consumables watch tenant (
    sweep_insurance watch tenant
      (sweep_licenses watch tenant (sweep_warranty watch tenant (empty_report tenant, w))))

unfoldable pub sweep_each : Watch → List String → World → List Report × World
unfolding sweep
sweep_each watch [] w = ([], w)
sweep_each watch (t ∷ ts) w =
    let (rep, w1) = sweep watch t w in let (reps, w2) = sweep_each watch ts w1 in (rep ∷ reps, w2)

-- `SweepAll`; a failure to list the tenants ends it.
abbrev pub swept : Watch → World → Result (List String) × Mem → List Report × World
swept watch w (Result.ok ids, m) = sweep_each watch ids (in_store m w)
swept watch w (Result.err e, m) = ([], in_store m w)

unfoldable pub sweep_all : Watch → World → List Report × World
unfolding sweep_each
sweep_all watch w = swept watch w (tenant_ids w.mem)
