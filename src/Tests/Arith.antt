-- ===== src/Tests/Arith.antt =====
-- Runs of src/core/rational.h and src/core/exact_int.h.
use mediadiff.Base.{arith, negsuc, pos, refl, some, true, ◌*ℤ◌, ◌-ℤ◌, ◌∷◌, ◌≡◌}
use mediadiff.Core.Accum.{gcd_loop, try_isqrt, try_reduce_ratio}
use mediadiff.Core.Accum.Ratio.{IsRatioResult, try_reduce_ratio-IsRatioResult}
use mediadiff.Core.Accum.Root.{IsRootResult, try_isqrt-IsRootResult}
use mediadiff.Core.CheckedArith.{checked_mul}
use mediadiff.Core.ExactInt.{
  ExactInt, compare_exact_int, exact_zero, to_decimal, try_mul, try_sub, zeros,
}
use mediadiff.Core.ExactInt.Decimal.{IsRendering, to_decimal-IsRendering}
use mediadiff.Core.ExactInt.Exact.{IsExactResult, try_mul-IsExactResult}
use mediadiff.Core.ExactInt.Signed.{IsOrder, compare_exact_int-IsOrder, try_sub-IsExactResult}
use mediadiff.Core.ExactInt.Value.{IsExact, exact_value, limbs_value}
use mediadiff.Core.Ticks.{Ticks, compare_ticks_checked}
use mediadiff.Core.Ticks.Order.{IsTickOrder, compare_ticks_checked-IsTickOrder, cross}

abbrev minus_seven : ExactInt
minus_seven = record { mag = 7 ∷ zeros 7; negative = true }

minus_seven-IsExact : IsExact minus_seven
unfolding limbs_value
minus_seven-IsExact = record { width = refl; limbs = omega arith; sign = λ _. omega arith }

exact_zero-IsExact : IsExact exact_zero
exact_zero-IsExact = record { width = refl; limbs = omega arith; sign = λ e. cc }

abbrev ntsc : Ticks
ntsc = record { value = pos 1; tb = record { num = pos 30000; den = pos 1001 } }

abbrev rounded : Ticks
rounded = record { value = pos 1; tb = record { num = pos 2997; den = pos 100 } }

try_mul-IsExactResult_example :
    IsExactResult
      (try_mul minus_seven minus_seven)
      (exact_value minus_seven *ℤ exact_value minus_seven)
try_mul-IsExactResult_example =
    try_mul-IsExactResult minus_seven minus_seven minus_seven-IsExact minus_seven-IsExact

try_sub-IsExactResult_example :
    IsExactResult
      (try_sub minus_seven minus_seven)
      (exact_value minus_seven -ℤ exact_value minus_seven)
try_sub-IsExactResult_example =
    try_sub-IsExactResult minus_seven minus_seven minus_seven-IsExact minus_seven-IsExact

compare_exact_int-IsOrder_example :
    IsOrder
      (compare_exact_int minus_seven exact_zero)
      (exact_value minus_seven)
      (exact_value exact_zero)
compare_exact_int-IsOrder_example =
    compare_exact_int-IsOrder minus_seven exact_zero minus_seven-IsExact exact_zero-IsExact

to_decimal-IsRendering_example : IsRendering (to_decimal minus_seven) (exact_value minus_seven)
to_decimal-IsRendering_example = to_decimal-IsRendering minus_seven minus_seven-IsExact

try_isqrt-IsRootResult_example : IsRootResult (pos 10) (try_isqrt (record { value = pos 10 }))
try_isqrt-IsRootResult_example = try_isqrt-IsRootResult (record { value = pos 10 }) (omega arith)

try_reduce_ratio-IsRatioResult_example :
    IsRatioResult
      (negsuc 5)
      (negsuc 3)
      (try_reduce_ratio (record { value = negsuc 5 }) (record { value = negsuc 3 }))
try_reduce_ratio-IsRatioResult_example =
    try_reduce_ratio-IsRatioResult (record { value = negsuc 5 }) (record { value = negsuc 3 })
      (omega arith) (omega arith)

-- -6 / -4 is 3 / 2.
try_reduce_ratio_test :
    try_reduce_ratio (record { value = negsuc 5 }) (record { value = negsuc 3 })
    ≡ some (pos 3, pos 2)
unfolding try_reduce_ratio gcd_loop
try_reduce_ratio_test = refl

-- 30000/1001 s and 29.97 s are not equal.
compare_ticks_checked-IsTickOrder_example :
    IsTickOrder (compare_ticks_checked ntsc rounded).order (cross ntsc rounded) (cross rounded ntsc)
compare_ticks_checked-IsTickOrder_example =
    compare_ticks_checked-IsTickOrder ntsc rounded
      (unfold compare_ticks_checked checked_mul ◌*ℤ◌ in refl)
