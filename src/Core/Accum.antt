-- ===== src/Core/Accum.antt =====
-- src/core/rational.h: `Int128Accum`, the arm for compilers with a 128-bit integer. A sum that
-- leaves the 128-bit range is undefined in C++; the model keeps the true sum, and its theorems ask
-- for sums in range.
pub mod Root
pub mod Ratio
use mediadiff.Base.{
  Bool, Option, abs_ℤ, eqb_ℤ, if◌then◌else◌, leb, ltb, ltb_ℤ, neg_ℕ, none, pos, pos_part, some, suc,
  zero, ℕ, ℤ, ◌%◌, ◌*ℤ◌, ◌+ℤ◌, ◌+◌, ◌-ℤ◌, ◌-◌, ◌/◌, ◌==◌, ◌^◌, ◌||◌,
}
use mediadiff.Core.CheckedArith.{int64_max, int64_min}

-- The running sum.
pub record Int128Accum : Type 0 where
  pub value : ℤ

abbrev pub accum_zero : Int128Accum
accum_zero = record { value = pos 0 }

unfoldable pub add_product : Int128Accum → ℤ → ℤ → Int128Accum
unfolding ◌+ℤ◌ ◌*ℤ◌
add_product s a b = record { value = s.value +ℤ a *ℤ b }

unfoldable pub add : Int128Accum → ℤ → Int128Accum
unfolding ◌+ℤ◌
add s v = record { value = s.value +ℤ v }

unfoldable pub try_narrow : Int128Accum → Option ℤ
try_narrow s = if ltb_ℤ int64_max s.value || ltb_ℤ s.value int64_min then none else some s.value

-- Arithmetic in `unsigned __int128`.
abbrev pub u128 : ℕ → ℕ
u128 n = n % 2 ^ 128

-- `while (bit != 0)`, with fuel for the rounds; `none` means that the fuel ran out.
unfoldable pub isqrt_loop : ℕ → ℕ → ℕ → ℕ → Option ℕ
isqrt_loop zero n root bit = none
isqrt_loop (suc fuel) n root bit =
    let candidate = u128 (root + bit) in
    let taken = isqrt_loop fuel (n - candidate) (u128 (root / 2 + bit)) (bit / 4) in
    let skipped = isqrt_loop fuel n (root / 2) (bit / 4) in
    if bit == 0 then some root else if leb candidate n then taken else skipped

-- The root, if it is an int64_t.
unfoldable pub narrow_root : Option ℕ → Option ℤ
narrow_root none = none
narrow_root (some root) = if ltb (2 ^ 63 - 1) root then none else some (pos root)

-- `bit` starts at 2^126 and loses two bits a round: 64 rounds and the last test.
unfoldable pub try_isqrt : Int128Accum → Option ℤ
unfolding narrow_root
try_isqrt s =
    if ltb_ℤ s.value (pos 0)
    then none
    else narrow_root (isqrt_loop 65 (pos_part s.value) 0 (2 ^ 126))

unfoldable pub isqrt_i64 : ℤ → Option ℤ
unfolding add
isqrt_i64 n = try_isqrt (add accum_zero n)

-- Euclid's loop, with fuel for the rounds; `none` means that the fuel ran out.
unfoldable pub gcd_loop : ℕ → ℕ → ℕ → Option ℕ
gcd_loop zero a b = none
gcd_loop (suc fuel) a b = let rest = gcd_loop fuel b (a % b) in if b == 0 then some a else rest

-- The reduced fraction, if both parts are in range.
abbrev pub narrow_ratio : Bool → ℕ → ℕ → Option (ℤ × ℤ)
narrow_ratio num_negative reduced_num reduced_den =
    if ltb (2 ^ 63 - 1) reduced_num
    then none
    else if reduced_den == 0 || ltb (2 ^ 63 - 1) reduced_den
    then none
    else some (if num_negative then neg_ℕ reduced_num else pos reduced_num, pos reduced_den)

unfoldable pub reduce_by : Bool → ℕ → ℕ → Option ℕ → Option (ℤ × ℤ)
reduce_by num_negative abs_num den none = none
reduce_by num_negative abs_num den (some g) = narrow_ratio num_negative (abs_num / g) (den / g)

-- The sign of the denominator goes to the numerator.
unfoldable pub try_reduce_ratio : Int128Accum → Int128Accum → Option (ℤ × ℤ)
unfolding ◌-ℤ◌ reduce_by
try_reduce_ratio s denominator =
    let num = if ltb_ℤ denominator.value (pos 0) then pos 0 -ℤ s.value else s.value in
    let den = abs_ℤ denominator.value in
    if eqb_ℤ denominator.value (pos 0)
    then none
    else reduce_by (ltb_ℤ num (pos 0)) (abs_ℤ num) den (gcd_loop (suc den) (abs_ℤ num) den)
