-- ===== src/Scheduler/Onward.antt =====
-- internal/scheduler/scheduler.go: what a sweep of the licenses leaves of the store's licenses.
use Prim.Native.String.{◌++◌}
use go_tangra_asset.Common.{
  suc, ◌≤◌, String, ◌≡◌, ◌⊎◌, inl, inr, refl, ◌∙◌, ap, Bool, true, false, not, ◌&&◌, Option, none,
  some, List, [], ◌∷◌, ⊤, Time, ◌==◌, if◌then◌else◌, arith, Bool-cases, Option-cases,
  String-discrete,
}
use go_tangra_asset.Table.{Table, lookup, insert}
use go_tangra_asset.Table.Laws.{lookup-insert_here, lookup-insert_other}
use go_tangra_asset.Models.{License, NotifyState, lic_expired, lic_suspended}
use go_tangra_asset.Memstore.State.{Mem, Env, Result, Err, of_tenant, call, disarm}
use go_tangra_asset.Memstore.Housekeeping.{get_notify_state, upsert_notify_state}
use go_tangra_asset.Memstore.Licenses.{update_license, license_tenant}
use go_tangra_asset.Service.{World, Effect, published}
use go_tangra_asset.Scheduler.{
  Watch, Report, should_notify, is_told, noted, notice, tell, license_of, expire_license, lapsed,
  mark_expired, tell_license, ending_license, lapsed_event, state_at, state_expired, in_store, each,
}

-- The store's license under the id is marked as expired.
pub IsExpired : String → Mem → Type 0
IsExpired k m = (l : License) × (lookup k m.licenses ≡ some l) × (l.status ≡ lic_expired)

IsExpired-same :
    (k : String) (m m' : Mem) → m'.licenses ≡ m.licenses → IsExpired k m → IsExpired k m'
unfolding IsExpired
IsExpired-same k m m' e (l, found, status) = (l, ap (lookup k) e ∙ found, status)

get-licenses :
    (tenant key : String) (m : Mem) → (get_notify_state tenant key m).1.licenses ≡ m.licenses
unfolding get_notify_state call disarm
get-licenses tenant key m = ground arith

upsert-licenses :
    (env : Env) (n : NotifyState) (m : Mem) → (upsert_notify_state env n m).1.licenses ≡ m.licenses
unfolding upsert_notify_state call disarm
upsert-licenses env n m = ground arith

-- A check of a condition leaves the licenses alone, and counts no fewer errors.
noted-keeps :
    (state : String) (rep : Report) (r : Result ⊤ × Mem) (w : World)
    → ((noted state rep r w).1.1.mem.licenses ≡ r.1.licenses)
      × (rep.errors ≤ (noted state rep r w).1.0.errors)
noted-keeps state rep (Result.ok x, m) w = (refl, ground arith)
noted-keeps state rep (Result.err e, m) w = (refl, ground arith)

should_notify-keeps :
    (watch : Watch) (tenant key state : String) (rep : Report) (w : World)
    → ((should_notify watch tenant key state (rep, w)).1.1.mem.licenses ≡ w.mem.licenses)
      × (rep.errors ≤ (should_notify watch tenant key state (rep, w)).1.0.errors)
unfolding should_notify
should_notify-keeps watch tenant key state rep w =
    let m = (get_notify_state tenant key w.mem).1 in
    let got = get-licenses tenant key w.mem in
    let n =
      noted-keeps state rep (upsert_notify_state (watch.env key) (notice watch tenant key state) m)
        (in_store m w) in
    elim (Bool-cases (is_told (get_notify_state tenant key w.mem).0 state)) [
      | inl told ↦ rw told (got, ground arith)
      | inr new ↦
          rw new
            (n.0 ∙ upsert-licenses (watch.env key) (notice watch tenant key state) m ∙ got, n.1)
    ]

-- An update of a license is refused and writes nothing, or writes its status.
update-cases :
    (env : Env) (l : License) (m : Mem)
    → ((e : Err) × ((update_license env l m).0 ≡ Result.err e)
        × ((update_license env l m).1.licenses ≡ m.licenses))
      ⊎ ((row : License) × ((update_license env l m).0 ≡ Result.ok tt)
          × ((update_license env l m).1.licenses ≡ insert l.id row m.licenses)
          × (row.status ≡ l.status))
unfolding update_license call disarm
update-cases env l m = elim (Bool-cases (m.fail_next "UpdateLicense")) [
  | inl armed ↦ inl (Err.injected "UpdateLicense", ground arith, ground arith)
  | inr clear ↦
      elim (Option-cases (of_tenant license_tenant l.tenant_id (lookup l.id m.licenses))) [
        | inl missing_ ↦ inl (Err.not_found, ground arith, ground arith)
        | inr (ex, found) ↦ inr (
          record l { created_at = ex.created_at; updated_at = env.now },
          ground arith,
          ground arith,
          refl,
        )
      ]
]

insert-IsExpired :
    (k id : String) (row : License) (m m' : Mem)
    → m'.licenses ≡ insert id row m.licenses
    → row.status ≡ lic_expired
    → (k ≡ id) ⊎ IsExpired k m
    → IsExpired k m'
unfolding IsExpired
insert-IsExpired k id row m m' e status old = elim (String-discrete k id) [
  | yes q ↦ (row, ap (lookup k) e ∙ lookup-insert_here k id row m.licenses q, status)
  | no q ↦ elim old [
    | inl p ↦ absurd (q p)
    | inr (l, found, s) ↦
        (l, ap (lookup k) e ∙ lookup-insert_other k id row m.licenses q ∙ found, s)
  ]
]

-- A step of a sweep unmarks no license and takes no error back.
pub record IsOnward (s s' : Report × World) : Type 0 where
  pub marked : (k : String) → IsExpired k s.1.mem → IsExpired k s'.1.mem
  pub errors : s.0.errors ≤ s'.0.errors

IsOnward-trans : (a b c : Report × World) → IsOnward a b → IsOnward b c → IsOnward a c
IsOnward-trans a b c p q = record {
  marked = λ k e. q.marked k (p.marked k e);
  errors = grind (arith, p.errors, q.errors);
}

IsOnward-refl : (s : Report × World) → IsOnward s s
IsOnward-refl s = record { marked = λ k e. e; errors = ground arith }

-- What an update answers, and what it leaves of the licenses.
abbrev Answers : String → Table License → Result ⊤ × Mem → Type 0
Answers id old r =
    ((e : Err) × (r.0 ≡ Result.err e) × (r.1.licenses ≡ old))
    ⊎ ((row : License) × (r.0 ≡ Result.ok tt)
        × (r.1.licenses ≡ insert id row old)
        × (row.status ≡ lic_expired))

lapsed-marks :
    (count : Report → Report) (event : Effect) (rep : Report) (w : World) (id : String)
    (r : Result ⊤ × Mem)
    → ((x : Report) → (count x).errors ≡ x.errors)
    → Answers id w.mem.licenses r
    → IsOnward (rep, w) (lapsed count event rep w r)
      × (IsExpired id (lapsed count event rep w r).1.mem
          ⊎ ((lapsed count event rep w r).0.errors ≡ suc rep.errors))
lapsed-marks count event rep w id (Result.ok x, m) same (inl (e, r, kept)) = absurd (ground arith)
lapsed-marks count event rep w id (Result.ok x, m) same (inr (row, r, wrote, status)) = (
  record {
    marked = λ k old. insert-IsExpired k id row w.mem m wrote status (inr old);
    errors = grind (arith, same rep);
  },
  inl (insert-IsExpired id id row w.mem m wrote status (inl refl)),
)
lapsed-marks count event rep w id (Result.err x, m) same (inl (e, r, kept)) = (
  record { marked = λ k old. IsExpired-same k w.mem m kept old; errors = ground arith },
  inr refl,
)
lapsed-marks count event rep w id (Result.err x, m) same (inr (row, r, wrote, status)) =
    absurd (ground arith)

pub mark_expired-marks :
    (watch : Watch) (tenant : String) (l : License) (rep : Report) (w : World)
    → IsOnward (rep, w) (mark_expired watch tenant l rep w)
      × (IsExpired l.id (mark_expired watch tenant l rep w).1.mem
          ⊎ ((mark_expired watch tenant l rep w).0.errors ≡ suc rep.errors))
mark_expired-marks watch tenant l rep w =
    let row = record l { status = lic_expired; updated_at = watch.now } in
    lapsed-marks (λ r. record r { licenses_expired = suc r.licenses_expired })
      (lapsed_event tenant "license_expired" "license" l.id) rep w l.id
      (update_license (watch.env l.id) row w.mem) (λ x. refl)
      (update-cases (watch.env l.id) row w.mem)

-- A branch of a test.
branch-IsOnward :
    (s : Report × World) (b : Bool) (x y : Report × World)
    → IsOnward s x
    → IsOnward s y
    → IsOnward s (if b then x else y)
branch-IsOnward s true x y p q = p
branch-IsOnward s false x y p q = q

expire_license-IsOnward :
    (watch : Watch) (tenant state : String) (l : License) (rep : Report) (w : World)
    → IsOnward (rep, w) (expire_license watch tenant l state (rep, w))
expire_license-IsOnward watch tenant state l rep w =
    branch-IsOnward (rep, w) (state == state_expired && not (l.status == lic_expired))
      (mark_expired watch tenant l rep w) (rep, w) (mark_expired-marks watch tenant l rep w).0
      (IsOnward-refl (rep, w))

pub tell-IsOnward :
    (watch : Watch) (tenant key state : String) (event : Effect) (count : Report → Report)
    (s : Report × World)
    → ((x : Report) → (count x).errors ≡ x.errors)
    → IsOnward s (tell watch tenant key state event count s)
tell-IsOnward watch tenant key state event count s same =
    let o = should_notify watch tenant key state s in
    let (kept, more) = should_notify-keeps watch tenant key state s.0 s.1 in
    branch-IsOnward s o.0 _ _
      (record {
        marked = λ k e. IsExpired-same k s.1.mem o.1.1.mem kept e;
        errors = grind (arith, same o.1.0, more);
      })
      (record { marked = λ k e. IsExpired-same k s.1.mem o.1.1.mem kept e; errors = more })

ending_license-IsOnward :
    (watch : Watch) (tenant : String) (l : License) (end_ : Time) (s : Report × World)
    → IsOnward s (ending_license watch tenant l end_ s)
ending_license-IsOnward watch tenant l end_ s =
    let state = state_at end_ watch.now watch.license_window in
    let there = expire_license watch tenant l state s in
    branch-IsOnward s (l.status == lic_suspended) s (tell_license watch tenant l state there)
      (IsOnward-refl s)
      (IsOnward-trans s there (tell_license watch tenant l state there)
        (expire_license-IsOnward watch tenant state l s.0 s.1)
        (tell-IsOnward watch tenant ("license:" ++ l.id) state
          (published tenant "license.expiring" (l.id ∷ l.name ∷ []))
          (λ rep. record rep { license_events = suc rep.license_events }) there (λ x. refl)))

pub license_of-IsOnward :
    (watch : Watch) (tenant : String) (l : License) (s : Report × World)
    → IsOnward s (license_of watch tenant l s)
unfolding license_of
license_of-IsOnward watch tenant l s = go l.valid_to
  where
    go :
        (o : Option Time)
        → IsOnward s (elim o as (λ x. Report × World) [
          | none ↦ s
          | some end_ ↦ ending_license watch tenant l end_ s
        ])
    go none = IsOnward-refl s
    go (some end_) = ending_license-IsOnward watch tenant l end_ s

pub each-IsOnward :
    (watch : Watch) (tenant : String) (rows : List License) (s : Report × World)
    → IsOnward s (each (license_of watch tenant) rows s)
unfolding each
each-IsOnward watch tenant [] s = IsOnward-refl s
each-IsOnward watch tenant (x ∷ rows) s =
    IsOnward-trans s (license_of watch tenant x s) _ (license_of-IsOnward watch tenant x s)
      (each-IsOnward watch tenant rows (license_of watch tenant x s))
