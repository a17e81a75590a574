-- ===== src/Core/ExactInt/Value.antt =====
-- The number that the limbs of src/core/exact_int.h stand for, and when they are well formed.
use mediadiff.Base.{
  All, List, [], arith, if◌then◌else◌, length, neg_ℕ, pos, suc, true, zero, ℕ, ℤ, ◌*◌, ◌+◌, ◌<◌,
  ◌^◌, ◌↔◌, ◌∷◌, ◌≡◌,
}
use mediadiff.Core.CheckedArith.{IsInt64}
use mediadiff.Core.ExactInt.{ExactInt, all_zero, from_i64}

-- The magnitude that a list of limbs stands for.
unfoldable pub limbs_value : List ℕ → ℕ
limbs_value [] = 0
limbs_value (x ∷ xs) = x + 2 ^ 32 * limbs_value xs

abbrev pub IsLimb : ℕ → Type 0
IsLimb x = x < 2 ^ 32

-- 2 ^ (32 * n), times c.
unfoldable pub shift_limbs : ℕ → ℕ → ℕ
shift_limbs zero c = c
shift_limbs (suc n) c = 2 ^ 32 * shift_limbs n c

-- The integer that an ExactInt stands for.
unfoldable pub exact_value : ExactInt → ℤ
unfolding limbs_value
exact_value a = if a.negative then neg_ℕ (limbs_value a.mag) else pos (limbs_value a.mag)

-- Eight limbs of 32 bits, and zero is not negative.
pub record IsExact (a : ExactInt) : Type 0 where
  pub width : length a.mag ≡ 8
  pub limbs : All IsLimb a.mag
  pub sign : a.negative ≡ true → 0 < limbs_value a.mag

pub all_zero-value : (xs : List ℕ) → (all_zero xs ≡ true) ↔ (limbs_value xs ≡ 0)
unfolding all_zero limbs_value
all_zero-value [] = ground arith
all_zero-value (x ∷ xs) = ground (arith, all_zero-value xs)

pub limbs_value-lt : (xs : List ℕ) → All IsLimb xs → limbs_value xs < shift_limbs (length xs) 1
unfolding limbs_value shift_limbs
limbs_value-lt [] h = omega arith
limbs_value-lt (x ∷ xs) (h, hs) = omega (arith, limbs_value-lt xs hs)

pub from_i64-IsExact : (v : ℤ) → IsInt64 v → IsExact (from_i64 v)
unfolding from_i64 limbs_value
from_i64-IsExact v h = ground arith

pub from_i64-value : (v : ℤ) → IsInt64 v → exact_value (from_i64 v) ≡ v
unfolding from_i64 exact_value limbs_value
from_i64-value v h = ground arith
