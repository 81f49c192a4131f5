-- ===== src/Deprec/Laws.antt =====
-- Between which bounds a book value lies.
use go_tangra_asset.Common.{
  ℕ, suc, ℤ, pos, ◌≡◌, refl, ap, true, false, List, [], ◌∷◌, arith, Time, before, sub_time,
  max_duration, ◌-◌, if◌then◌else◌, ltb, ⊤,
}
use go_tangra_asset.Memstore.Page.{length}
use go_tangra_asset.Float64.{Float64, flt, feq, fle, f_zero, f_one}
use go_tangra_asset.Deprec.{
  FloatOps, year_seconds, effective_rate, salvage_floor, elapsed_years, book_value, schedule_from,
  annual_schedule,
}

flt_irrefl : (x : Float64) → flt x x ≡ false
unfolding flt
flt_irrefl x = ground arith

pub salvage_floor-flt : (salvage cost : Float64) → flt cost (salvage_floor salvage cost) ≡ false
unfolding salvage_floor
salvage_floor-flt salvage cost = grind (arith, flt_irrefl)

-- The salvage floor is not above the cost, and not below nought if the cost is not.
pub salvage_floor_bounds :
    (salvage cost : Float64)
    → (flt cost (salvage_floor salvage cost) ≡ false)
      × (flt cost f_zero ≡ false → flt (salvage_floor salvage cost) f_zero ≡ false)
unfolding salvage_floor
salvage_floor_bounds salvage cost = (salvage_floor-flt salvage cost, grind (arith, flt_irrefl))

-- No book value is below the salvage floor, whatever the arithmetic does.
pub book_value-floor :
    (fl : FloatOps) (cost salvage : Float64) (life : ℤ) (rate : Float64) (purchased now : Time)
    → flt (book_value fl cost salvage life rate purchased now) (salvage_floor salvage cost) ≡ false
unfolding book_value
book_value-floor fl cost salvage life rate purchased now =
    grind (arith, flt_irrefl, salvage_floor-flt)

effective_rate_bounds :
    (rate : Float64)
    → (flt f_one (effective_rate rate) ≡ false) × (flt (effective_rate rate) f_zero ≡ false)
unfolding effective_rate flt feq fle
effective_rate_bounds rate = ground arith

-- What the bound from above asks of the arithmetic on nought to one: a difference from one and a power
-- stay there, a product of a positive number with such a factor is not above the number, and the quotient of
-- elapsed seconds by the seconds of a year is not negative.
pub record Shrinks (fl : FloatOps) : Type 0 where
  pub rest :
      (r : Float64)
      → flt f_one r ≡ false
      → flt r f_zero ≡ false
      → (flt f_one (fl.sub f_one r) ≡ false) × (flt (fl.sub f_one r) f_zero ≡ false)
  pub power :
      (b e : Float64)
      → flt f_one b ≡ false
      → flt b f_zero ≡ false
      → flt e f_zero ≡ false
      → flt f_one (fl.pow b e) ≡ false
  pub product :
      (x y : Float64) → fle x f_zero ≡ false → flt f_one y ≡ false → flt x (fl.mul x y) ≡ false
  pub elapsed : (n : ℕ) → flt (fl.div (fl.seconds (pos n)) year_seconds) f_zero ≡ false

module _ (fl : FloatOps) (shrinks : Shrinks fl) where
  elapsed_years-flt : (purchased now : Time) → flt (elapsed_years fl purchased now) f_zero ≡ false
  unfolding elapsed_years
  elapsed_years-flt purchased now =
      let k = if ltb max_duration (now - purchased) then max_duration else now - purchased in
      let since : before purchased now ≡ true → sub_time now purchased ≡ pos k = ground arith in
      ground (arith, since, flt_irrefl f_zero, shrinks.elapsed k)

  -- No book value is above the cost, if the arithmetic shrinks.
  pub book_value-cost :
      (cost salvage : Float64) (life : ℤ) (rate : Float64) (purchased now : Time)
      → flt cost (book_value fl cost salvage life rate purchased now) ≡ false
  unfolding book_value
  book_value-cost cost salvage life rate purchased now =
      let (low, high) = effective_rate_bounds rate in
      let r = shrinks.rest (effective_rate rate) low high in
      let years = elapsed_years fl purchased now in
      let p =
        shrinks.power (fl.sub f_one (effective_rate rate)) years r.0 r.1
          (elapsed_years-flt purchased now) in
      let q = shrinks.product cost (fl.pow (fl.sub f_one (effective_rate rate)) years) in
      grind (arith, flt_irrefl, salvage_floor-flt)

-- No entry of the list is below `floor`.
pub NoneBelow : Float64 → List Float64 → Type 0
NoneBelow floor [] = ⊤
NoneBelow floor (x ∷ xs) = (flt x floor ≡ false) × NoneBelow floor xs

abbrev pub last_or : Float64 → List Float64 → Float64
last_or d [] = d
last_or d (x ∷ xs) = last_or x xs

module _ (fl : FloatOps) (keep floor : Float64) where
  schedule_from-length : (n : ℕ) (v : Float64) → length (schedule_from fl keep floor v n) ≡ suc n
  unfolding schedule_from
  schedule_from-length ℕ.zero v = refl
  schedule_from-length (suc n) v = ap suc (schedule_from-length n _)

  schedule_from-last : (n : ℕ) (d v : Float64) → last_or d (schedule_from fl keep floor v n) ≡ floor
  unfolding schedule_from
  schedule_from-last ℕ.zero d v = refl
  schedule_from-last (suc n) d v = schedule_from-last n v _

  schedule_from-NoneBelow :
      (n : ℕ) (v : Float64)
      → flt v floor ≡ false
      → NoneBelow floor (schedule_from fl keep floor v n)
  unfolding schedule_from NoneBelow
  schedule_from-NoneBelow ℕ.zero v h = (flt_irrefl floor, tt)
  schedule_from-NoneBelow (suc n) v h =
      (h, schedule_from-NoneBelow n _ (ground (arith, flt_irrefl floor)))

-- A schedule has an entry for the purchase and for the end of each year of the life, none below the
-- salvage floor, and it ends at the floor.
pub annual_schedule_lem :
    (fl : FloatOps) (cost salvage : Float64) (years : ℕ) (rate : Float64)
    → let schedule = annual_schedule fl cost salvage (pos (suc years)) rate in
      (length schedule ≡ suc (suc years))
      × NoneBelow (salvage_floor salvage cost) schedule
      × (last_or cost schedule ≡ salvage_floor salvage cost)
unfolding annual_schedule
annual_schedule_lem fl cost salvage years rate = (
  schedule_from-length fl _ _ (suc years) cost,
  schedule_from-NoneBelow fl _ _ (suc years) cost (salvage_floor-flt salvage cost),
  schedule_from-last fl _ _ (suc years) cost cost,
)
