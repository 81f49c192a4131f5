-- ===== src/Float64.antt =====
-- float64 as its IEEE 754 bit pattern, with the comparisons that the service makes.
use go_tangra_asset.Common.{ℕ, ◌+◌, ◌%◌, Bool, false, ◌||◌, ltb, leb, eqb, if◌then◌else◌}

pub record Float64 : Type 0 where
  pub bits : ℕ

abbrev pub sign_bit : ℕ
sign_bit = 0x8000_0000_0000_0000

-- The bits of infinity; a magnitude above it is no number.
abbrev pub infinity_bits : ℕ
infinity_bits = 0x7ff0_0000_0000_0000

abbrev pub is_negative : Float64 → Bool
is_negative x = leb sign_bit x.bits

abbrev pub magnitude : Float64 → ℕ
magnitude x = x.bits % 0x8000_0000_0000_0000

abbrev pub is_nan : Float64 → Bool
is_nan x = ltb infinity_bits (magnitude x)

-- `x < y`
unfoldable pub flt : Float64 → Float64 → Bool
flt x y =
    if is_nan x || is_nan y
    then false
    else if is_negative x
    then (if is_negative y
        then ltb (magnitude y) (magnitude x)
        else ltb 0 (magnitude x + magnitude y))
    else (if is_negative y then false else ltb (magnitude x) (magnitude y))

-- `x == y`
unfoldable pub feq : Float64 → Float64 → Bool
feq x y =
    if is_nan x || is_nan y
    then false
    else if eqb (magnitude x) 0
    then eqb (magnitude y) 0
    else eqb x.bits y.bits

-- `x <= y`
unfoldable pub fle : Float64 → Float64 → Bool
unfolding flt feq
fle x y = flt x y || feq x y

abbrev pub f_zero : Float64
f_zero = record { bits = 0 }

abbrev pub f_one : Float64
f_one = record { bits = 0x3ff0_0000_0000_0000 }

-- deprec.DefaultRate, the nearest double to 0.40
abbrev pub default_rate : Float64
default_rate = record { bits = 0x3fd9_9999_9999_999a }
