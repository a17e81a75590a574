-- ===== src/Core/CheckedArith/Exact.antt =====
-- The checked operations of src/core/rational.h return the true result exactly when it fits.
use mediadiff.Base.{Option, arith, if◌then◌else◌, none, pos, some, ℕ, ℤ, ◌*ℤ◌, ◌*◌, ◌+ℤ◌, ◌-ℤ◌, ◌≡◌}
use mediadiff.Core.CheckedArith.{
  IsInt64, checked_add, checked_mul, checked_negate, checked_sub, fits_int64,
}

-- The result of an exact operation: the integer if it is an int64_t, and nothing otherwise.
abbrev pub exact_int64 : ℤ → Option ℤ
exact_int64 r = if fits_int64 r then some r else none

-- For int64_t operands `checked_sub` returns the true difference if that is an int64_t, and
-- reports overflow otherwise.
pub checked_sub-eq-exact :
    (a b : ℤ) → IsInt64 a → IsInt64 b → checked_sub a b ≡ exact_int64 (a -ℤ b)
unfolding checked_sub ◌-ℤ◌
checked_sub-eq-exact a b ha hb = ground arith

-- For int64_t operands `checked_add` returns the true sum if that is an int64_t, and reports
-- overflow otherwise.
pub checked_add-eq-exact :
    (a b : ℤ) → IsInt64 a → IsInt64 b → checked_add a b ≡ exact_int64 (a +ℤ b)
unfolding checked_add ◌+ℤ◌
checked_add-eq-exact a b ha hb = ground arith

-- The same for `checked_negate`.
pub checked_negate-eq-exact : (a : ℤ) → IsInt64 a → checked_negate a ≡ exact_int64 (pos 0 -ℤ a)
unfolding checked_negate ◌-ℤ◌
checked_negate-eq-exact a ha = ground arith

-- A result that was returned is the true one, for any operands.
pub checked_sub-some : (a b c : ℤ) → checked_sub a b ≡ some c → c ≡ a -ℤ b
unfolding checked_sub
checked_sub-some a b c e = ground arith

pub checked_add-some : (a b c : ℤ) → checked_add a b ≡ some c → c ≡ a +ℤ b
unfolding checked_add
checked_add-some a b c e = ground arith

pub checked_mul-some : (a b c : ℤ) → checked_mul a b ≡ some c → c ≡ a *ℤ b
unfolding checked_mul
checked_mul-some a b c e = ground arith

pub mul-pos : (a b : ℕ) → pos a *ℤ pos b ≡ pos (a * b)
unfolding ◌*ℤ◌
mul-pos a b = ground arith
