-- ===== src/Tests/Values.antt =====
-- Book values and ids at concrete figures.
use go_tangra_asset.Common.{◌≡◌, false, List, [], ◌∷◌, pos, refl, arith, ℕ}
use go_tangra_asset.Float64.{Float64, flt, f_zero, f_one, default_rate}
use go_tangra_asset.Deprec.{book_value, salvage_floor, annual_schedule}
use go_tangra_asset.Deprec.Laws.{
  Shrinks, NoneBelow, last_or, salvage_floor_bounds, book_value-floor, book_value-cost,
  annual_schedule_lem,
}
use go_tangra_asset.Common.{String, ◌≤◌, ◌≢◌, str_lt}
use go_tangra_asset.Memstore.Page.{length, paginate}
use go_tangra_asset.Memstore.Page.Bounds.{AllPass, paginate_bounds}
use go_tangra_asset.Ids.{Draw, fresh_minter, advance, new_id, new_ids}
use go_tangra_asset.Ids.Order.{Ascending, new_ids-Ascending}
use go_tangra_asset.Tests.{floats}

flt_same : (x : Float64) → flt x x ≡ false
unfolding flt
flt_same x = ground arith

one_flt : flt f_one f_zero ≡ false
unfolding flt
one_flt = refl

floats-Shrinks : Shrinks floats
floats-Shrinks = record {
  rest = λ r low high. (flt_same f_one, one_flt);
  power = λ b e low high later. flt_same f_one;
  product = λ x y positive low. flt_same x;
  elapsed = λ n. flt_same f_zero;
}

salvage_floor_bounds_example :
    (flt f_one (salvage_floor default_rate f_one) ≡ false)
    × (flt f_one f_zero ≡ false → flt (salvage_floor default_rate f_one) f_zero ≡ false)
salvage_floor_bounds_example = salvage_floor_bounds default_rate f_one

book_value-floor_example :
    flt
      (book_value floats f_one default_rate (pos 3) f_zero 500 1000)
      (salvage_floor default_rate f_one)
    ≡ false
book_value-floor_example = book_value-floor floats f_one default_rate (pos 3) f_zero 500 1000

book_value-cost_example :
    flt f_one (book_value floats f_one default_rate (pos 3) f_zero 500 1000) ≡ false
book_value-cost_example =
    book_value-cost floats floats-Shrinks f_one default_rate (pos 3) f_zero 500 1000

annual_schedule_lem_example :
    (length (annual_schedule floats f_one default_rate (pos 3) f_zero) ≡ 4)
    × NoneBelow
        (salvage_floor default_rate f_one)
        (annual_schedule floats f_one default_rate (pos 3) f_zero)
    × (last_or f_one (annual_schedule floats f_one default_rate (pos 3) f_zero)
        ≡ salvage_floor default_rate f_one)
annual_schedule_lem_example = annual_schedule_lem floats f_one default_rate 2 f_zero

abbrev draw : ℕ → Draw
draw ms = record { ms = ms; byte6 = 255; byte7 = 255; byte8 = 17; tail = 5 ∷ [] }

-- Three ids, two of them in one millisecond.
abbrev draws : List Draw
draws = draw 1000 ∷ draw 1000 ∷ draw 2000 ∷ []

new_ids-Ascending_example : Ascending (new_ids draws fresh_minter).0
unfolding new_ids new_id advance
new_ids-Ascending_example = new_ids-Ascending draws fresh_minter (ground arith) (ground arith)

abbrev names : List String
names = "03" ∷ "01" ∷ "04" ∷ "02" ∷ []

abbrev cursor : String
cursor = "04"

abbrev same_text : String → String
same_text s = s

-- The second page of four rows, with one row.
paginate_bounds_example :
    (length (paginate same_text cursor (pos 1) names) ≤ 1)
    × (cursor ≢ ""
        → AllPass (λ x. str_lt (same_text x) cursor) (paginate same_text cursor (pos 1) names))
paginate_bounds_example = paginate_bounds same_text cursor 0 names
