-- ===== src/Scheduler/Lapse.antt =====
-- internal/scheduler/scheduler.go: a sweep marks every license that has lapsed.
use Prim.Native.String.{◌++◌}
use go_tangra_asset.Common.{
  ℕ, suc, ◌≤◌, String, ◌≡◌, ◌⊎◌, inl, inr, refl, subst, true, false, some, List, [], ◌∷◌, Time,
  before, ◌==◌, arith, Bool-cases, String-discrete,
}
use go_tangra_asset.Models.{License, lic_expired, lic_suspended}
use go_tangra_asset.Service.{World, published}
use go_tangra_asset.Scheduler.{
  Watch, Report, license_of, expire_license, tell_license, state_at, state_expired, each,
}
use go_tangra_asset.Scheduler.Onward.{
  IsExpired, mark_expired-marks, tell-IsOnward, license_of-IsOnward, each-IsOnward,
}

self : ("expired" == "expired") ≡ true
unfolding String-discrete Bool-cases
self = refl

-- A license that is taken for lapsed is marked then, unless an error is counted.
expire_license-marks :
    (watch : Watch) (tenant : String) (l : License) (rep : Report) (w : World)
    → (l.status ≡ lic_expired → IsExpired l.id w.mem)
    → IsExpired l.id (expire_license watch tenant l state_expired (rep, w)).1.mem
      ⊎ ((expire_license watch tenant l state_expired (rep, w)).0.errors ≡ suc rep.errors)
expire_license-marks watch tenant l rep w listed = elim (Bool-cases (l.status == lic_expired)) [
  | inl yes_ ↦ rw (self, yes_) (inl (listed (ground arith)))
  | inr no_ ↦ rw (self, no_) (mark_expired-marks watch tenant l rep w).1
]

-- The license has passed its end and is not suspended.
unfoldable pub HasLapsed : Watch → License → Type 0
HasLapsed watch l =
    (end_ : Time) × (l.valid_to ≡ some end_)
    × (before end_ watch.now ≡ true)
    × ((l.status == lic_suspended) ≡ false)

lapsed-state :
    (end_ now : Time) (window : ℕ)
    → before end_ now ≡ true
    → state_at end_ now window ≡ state_expired
unfolding state_at
lapsed-state end_ now window h = rw h refl

license_of-lapsed :
    (watch : Watch) (tenant : String) (l : License) (end_ : Time) (s : Report × World)
    → l.valid_to ≡ some end_
    → before end_ watch.now ≡ true
    → (l.status == lic_suspended) ≡ false
    → license_of watch tenant l s
      ≡ tell_license watch tenant l state_expired (expire_license watch tenant l state_expired s)
unfolding license_of
license_of-lapsed watch tenant l end_ s e past active =
    rw (e, active, lapsed-state end_ watch.now watch.license_window past) refl

-- Its turn in a sweep marks it, or counts an error.
license_of-marks :
    (watch : Watch) (tenant : String) (l : License) (s : Report × World)
    → HasLapsed watch l
    → (l.status ≡ lic_expired → IsExpired l.id s.1.mem)
    → IsExpired l.id (license_of watch tenant l s).1.mem
      ⊎ (suc s.0.errors ≤ (license_of watch tenant l s).0.errors)
unfolding HasLapsed
license_of-marks watch tenant l s (end_, e, past, active) listed =
    let there = expire_license watch tenant l state_expired s in
    let told =
      tell-IsOnward watch tenant ("license:" ++ l.id) state_expired
        (published tenant "license.expiring" (l.id ∷ l.name ∷ []))
        (λ rep. record rep { license_events = suc rep.license_events }) there (λ x. refl) in
    rw (license_of-lapsed watch tenant l end_ s e past active)
      (elim (expire_license-marks watch tenant l s.0 s.1 listed) [
        | inl done ↦ inl (told.marked l.id done)
        | inr more ↦ inr (grind (arith, told.errors, more))
      ])

abbrev pub IsIn : License → List License → Type 0
IsIn l [] = ⊥
IsIn l (x ∷ xs) = (l ≡ x) ⊎ IsIn l xs

-- After the turns of a list of licenses that count no error, every license of the list that is past its
-- end and not suspended is marked as expired in the store, if each one that the list gives as expired was
-- marked so in the store before.
pub each-IsExpired :
    (watch : Watch) (tenant : String) (rows : List License) (s : Report × World) (l : License)
    → ((x : License) → IsIn x rows → x.status ≡ lic_expired → IsExpired x.id s.1.mem)
    → (each (license_of watch tenant) rows s).0.errors ≡ s.0.errors
    → IsIn l rows
    → HasLapsed watch l
    → IsExpired l.id (each (license_of watch tenant) rows s).1.mem
unfolding each
each-IsExpired watch tenant [] s l listed clean there lapse = elim there [ ]
each-IsExpired watch tenant (x ∷ rows) s l listed clean (inl here) lapse =
    let next = license_of watch tenant x s in
    let rest = each-IsOnward watch tenant rows next in
    elim (license_of-marks watch tenant l s lapse (listed l (inl here))) [
      | inl done ↦
          rest.marked l.id
            (subst (λ y. IsExpired l.id (license_of watch tenant y s).1.mem) here done)
      | inr more ↦ absurd (
          grind (
            arith,
            rest.errors,
            clean,
            subst (λ y. suc s.0.errors ≤ (license_of watch tenant y s).0.errors) here more,
          ))
    ]
each-IsExpired watch tenant (x ∷ rows) s l listed clean (inr later) lapse =
    let next = license_of watch tenant x s in
    let onward = license_of-IsOnward watch tenant x s in
    let rest = each-IsOnward watch tenant rows next in
    each-IsExpired watch tenant rows next l
      (λ y there status. onward.marked y.id (listed y (inr there) status))
      (grind (arith, onward.errors, rest.errors, clean)) later lapse
