-- ===== src/Deprec.antt =====
-- internal/deprec/deprec.go: the book value under double-declining balance.
pub mod Laws
use go_tangra_asset.Common.{
  ℕ, suc, ℤ, pos, negsuc, Time, before, is_zero_time, sub_time, leb_ℤ, List, [], ◌∷◌, ◌||◌,
  if◌then◌else◌,
}
use go_tangra_asset.Float64.{Float64, flt, fle, f_zero, f_one, default_rate}

-- The machine's float64 arithmetic, Go's conversions into it and `math.Pow`.
pub record FloatOps : Type 0 where
  pub sub : Float64 → Float64 → Float64
  pub mul : Float64 → Float64 → Float64
  pub div : Float64 → Float64 → Float64
  pub pow : Float64 → Float64 → Float64
  pub of_int : ℤ → Float64
  pub seconds : ℤ → Float64

-- 365.25 * 24 * 3600
abbrev pub year_seconds : Float64
year_seconds = record { bits = 0x417e_187e_0000_0000 }

-- The two tests on the rate that `BookValue` and `AnnualSchedule` share.
unfoldable pub effective_rate : Float64 → Float64
effective_rate rate =
    let chosen = if fle rate f_zero then default_rate else rate in
    if flt f_one chosen then f_one else chosen

unfoldable pub salvage_floor : Float64 → Float64 → Float64
salvage_floor salvage cost =
    let floor = if flt salvage f_zero then f_zero else salvage in
    if flt cost floor then cost else floor

module _ (fl : FloatOps) where
  unfoldable pub elapsed_years : Time → Time → Float64
  elapsed_years purchased now =
      if before purchased now
      then fl.div (fl.seconds (sub_time now purchased)) year_seconds
      else f_zero

  unfoldable pub book_value : Float64 → Float64 → ℤ → Float64 → Time → Time → Float64
  unfolding elapsed_years effective_rate salvage_floor
  book_value cost salvage life rate purchased now =
      if fle cost f_zero || leb_ℤ life (pos 0) || is_zero_time purchased
      then cost
      else let floor = salvage_floor salvage cost in
        let years = elapsed_years purchased now in
        let value = fl.mul cost (fl.pow (fl.sub f_one (effective_rate rate)) years) in
        if fle (fl.of_int life) years then floor else if flt value floor then floor else value

  -- The loop of `AnnualSchedule` from one year to the last, whose entry is then set to the floor.
  unfoldable pub schedule_from : Float64 → Float64 → Float64 → ℕ → List Float64
  schedule_from keep floor v ℕ.zero = floor ∷ []
  schedule_from keep floor v (suc left) =
      let next = fl.mul v keep in
      let kept = if flt next floor then floor else next in v ∷ schedule_from keep floor kept left

  -- `nil` for a life of no years
  unfoldable pub annual_schedule : Float64 → Float64 → ℤ → Float64 → List Float64
  unfolding schedule_from effective_rate salvage_floor
  annual_schedule cost salvage (negsuc n) rate = []
  annual_schedule cost salvage (pos ℕ.zero) rate = []
  annual_schedule cost salvage (pos (suc n)) rate =
      schedule_from (fl.sub f_one (effective_rate rate)) (salvage_floor salvage cost) cost (suc n)
