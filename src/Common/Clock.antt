-- ===== src/Common/Clock.antt =====
-- Go's `time.Time` and `time.Duration`, in nanoseconds.
use go_tangra_asset.Common.Tests.{ltb, leb, eqb, if◌then◌else◌}
use go_tangra_asset.Common.Int.{ℤ, pos, negsuc}
use Prim.Native.Nat.{ℕ, ◌-◌}
use mathlib.Core.Bool.{Bool}

-- An instant, counted from Go's zero time (1 January of year 1, UTC); earlier ones are not modelled.
abbrev pub Time : Type 0
Time = ℕ

abbrev pub is_zero_time : Time → Bool
is_zero_time t = eqb t 0

-- `t.Before(u)`; `t.After(u)` is `before u t`.
abbrev pub before : Time → Time → Bool
before t u = ltb t u

-- A duration is an int64; `t.Sub(u)` saturates at its ends.
abbrev pub max_duration : ℕ
max_duration = 0x7fff_ffff_ffff_ffff

abbrev pub sub_time : Time → Time → ℤ
sub_time t u =
    if leb u t
    then pos (if ltb max_duration (t - u) then max_duration else t - u)
    else negsuc (if ltb max_duration (u - t - 1) then max_duration else u - t - 1)
