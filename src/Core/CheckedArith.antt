-- ===== src/Core/CheckedArith.antt =====
-- src/core/rational.h: int64_t arithmetic with overflow detection. A function with an out
-- parameter and a bool result returns an `Option`.
pub mod Exact
use mediadiff.Base.{
  Bool, Option, eqb_ℤ, if◌then◌else◌, leb_ℤ, ltb_ℤ, neg_ℕ, negsuc, none, pos, some, suc, ℤ, ◌&&◌,
  ◌*ℤ◌, ◌+ℤ◌, ◌-ℤ◌, ◌-◌, ◌/◌, ◌^◌, ◌≤ℤ◌,
}

abbrev pub int64_max : ℤ
int64_max = pos (2 ^ 63 - 1)

abbrev pub int64_min : ℤ
int64_min = negsuc (2 ^ 63 - 1)

-- The values that an int64_t has.
abbrev pub IsInt64 : ℤ → Type 0
IsInt64 a = (int64_min ≤ℤ a) × (a ≤ℤ int64_max)

abbrev pub fits_int64 : ℤ → Bool
fits_int64 a = leb_ℤ int64_min a && leb_ℤ a int64_max

-- `__builtin_mul_overflow`: the true product, if it is an int64_t.
unfoldable pub checked_mul : ℤ → ℤ → Option ℤ
unfolding ◌*ℤ◌
checked_mul a b = let p = a *ℤ b in if fits_int64 p then some p else none

unfoldable pub checked_sub : ℤ → ℤ → Option ℤ
unfolding ◌+ℤ◌ ◌-ℤ◌
checked_sub a b =
    if ltb_ℤ (pos 0) b && ltb_ℤ a (int64_min +ℤ b)
    then none
    else if ltb_ℤ b (pos 0) && ltb_ℤ (int64_max +ℤ b) a
    then none
    else some (a -ℤ b)

unfoldable pub checked_add : ℤ → ℤ → Option ℤ
unfolding ◌+ℤ◌ ◌-ℤ◌
checked_add a b =
    if ltb_ℤ (pos 0) b && ltb_ℤ (int64_max -ℤ b) a
    then none
    else if ltb_ℤ b (pos 0) && ltb_ℤ a (int64_min -ℤ b)
    then none
    else some (a +ℤ b)

unfoldable pub checked_negate : ℤ → Option ℤ
unfolding ◌-ℤ◌
checked_negate a = if eqb_ℤ a int64_min then none else some (pos 0 -ℤ a)

-- C++ division truncates toward zero.
abbrev pub trunc_div : ℤ → ℤ → ℤ
trunc_div (pos a) (pos b) = pos (a / b)
trunc_div (pos a) (negsuc b) = neg_ℕ (a / suc b)
trunc_div (negsuc a) (pos b) = neg_ℕ (suc a / b)
trunc_div (negsuc a) (negsuc b) = pos (suc a / suc b)

unfoldable pub checked_div : ℤ → ℤ → Option ℤ
checked_div a b =
    if eqb_ℤ b (pos 0)
    then none
    else if eqb_ℤ a int64_min && eqb_ℤ b (negsuc 0)
    then none
    else some (trunc_div a b)
