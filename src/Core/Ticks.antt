-- ===== src/Core/Ticks.antt =====
-- src/core/rational.h: rationals, time values and their comparison by cross-multiplication.
pub mod Order
use mediadiff.Base.{
  Bool, Option, eqb_ℤ, false, if◌then◌else◌, ltb_ℤ, negsuc, none, pos, some, true, ℤ,
}
use mediadiff.Core.CheckedArith.{checked_mul}

pub record Rational : Type 0 where
  pub num : ℤ
  pub den : ℤ

-- `value` ticks of a `tb`-second timebase.
pub record Ticks : Type 0 where
  pub value : ℤ
  pub tb : Rational

-- `checked_mul(a, b, &lhs) && checked_mul(lhs, c, &lhs)`.
unfoldable pub checked_mul3 : ℤ → ℤ → ℤ → Option ℤ
checked_mul3 a b c = elim (checked_mul a b) [ none ↦ none | some p ↦ checked_mul p c ]

-- -1, 0 or 1.
abbrev pub order_of : ℤ → ℤ → ℤ
order_of lhs rhs = if ltb_ℤ lhs rhs then negsuc 0 else if ltb_ℤ rhs lhs then pos 1 else pos 0

abbrev pub sign_of : ℤ → ℤ
sign_of v = order_of v (pos 0)

-- The signs of the two values alone, where a product overflows.
unfoldable pub compare_signs : Ticks → Ticks → ℤ
compare_signs a b =
    let sign_a = sign_of a.value in
    let sign_b = sign_of b.value in
    if eqb_ℤ sign_a sign_b then pos 0 else if ltb_ℤ sign_a sign_b then negsuc 0 else pos 1

-- The order of the two products, or the fallback where one of them overflowed.
unfoldable pub order_or : ℤ → Option ℤ → Option ℤ → ℤ
order_or fallback none rhs = fallback
order_or fallback (some l) none = fallback
order_or fallback (some l) (some r) = order_of l r

-- On overflow of a product only the signs of the values are compared.
unfoldable pub compare_ticks : Ticks → Ticks → ℤ
unfolding checked_mul3 compare_signs order_or
compare_ticks a b =
    order_or (compare_signs a b) (checked_mul3 a.value a.tb.num b.tb.den)
      (checked_mul3 b.value b.tb.num a.tb.den)

pub record TickOrder : Type 0 where
  pub order : ℤ
  pub overflowed : Bool

unfoldable pub checked_order : Option ℤ → Option ℤ → TickOrder
checked_order none rhs = record { order = pos 0; overflowed = true }
checked_order (some l) none = record { order = pos 0; overflowed = true }
checked_order (some l) (some r) = record { order = order_of l r; overflowed = false }

unfoldable pub compare_ticks_checked : Ticks → Ticks → TickOrder
unfolding checked_mul3 checked_order
compare_ticks_checked a b =
    checked_order (checked_mul3 a.value a.tb.num b.tb.den) (checked_mul3 b.value b.tb.num a.tb.den)
