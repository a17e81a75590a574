-- ===== src/Probe/Cadence/Bounds.antt =====
-- Bounds under which the grid test of src/probe/cadence.cpp does not overflow.
use mediadiff.Base.{
  abs_ℤ, arith, negsuc, pos, some, ℕ, ℤ, ◌*ℤ◌, ◌+ℤ◌, ◌+◌, ◌-ℤ◌, ◌<◌, ◌^◌, ◌≡◌, ◌≤◌,
}
use mediadiff.Core.CheckedArith.{checked_add, checked_mul, checked_sub}
use mediadiff.Probe.Cadence.{high_bound, low_bound, max_packets_per_stream}
use native.Mathlib.Nat.{mul-le-mul}

-- Bounds under which nothing overflows.
abbrev pub IsSmall : ℤ → Type 0
IsSmall a = abs_ℤ a ≤ 2 ^ 38

product_fits :
    (d : ℕ) (x : ℤ)
    → d ≤ max_packets_per_stream
    → abs_ℤ x ≤ 2 ^ 40
    → checked_mul (pos d) x ≡ some (pos d *ℤ x)
unfolding checked_mul ◌*ℤ◌
product_fits d (pos x) h l = let i = mul-le-mul h l in ground (arith, i)
product_fits d (negsuc x) h l = let i = mul-le-mul h l in ground (arith, i)

double_fits : (k : ℤ) → abs_ℤ k ≤ 2 ^ 38 + 1 → checked_mul k (pos 2) ≡ some (k *ℤ pos 2)
unfolding checked_mul ◌*ℤ◌
double_fits k h = ground (arith, h)

odd_below_fits :
    (k : ℤ) → abs_ℤ k ≤ 2 ^ 38 + 1 → checked_sub (k *ℤ pos 2) (pos 1) ≡ some (k *ℤ pos 2 -ℤ pos 1)
unfolding checked_sub ◌*ℤ◌ ◌-ℤ◌
odd_below_fits k h = ground (arith, h)

odd_above_fits :
    (k : ℤ) → abs_ℤ k ≤ 2 ^ 38 + 1 → checked_add (k *ℤ pos 2) (pos 1) ≡ some (k *ℤ pos 2 +ℤ pos 1)
unfolding checked_add ◌*ℤ◌ ◌+ℤ◌
odd_above_fits k h = ground (arith, h)

abs-odd_below : (k : ℤ) → abs_ℤ k ≤ 2 ^ 38 + 1 → abs_ℤ (k *ℤ pos 2 -ℤ pos 1) ≤ 2 ^ 40
unfolding ◌*ℤ◌ ◌-ℤ◌
abs-odd_below k h = ground (arith, h)

abs-odd_above : (k : ℤ) → abs_ℤ k ≤ 2 ^ 38 + 1 → abs_ℤ (k *ℤ pos 2 +ℤ pos 1) ≤ 2 ^ 40
unfolding ◌*ℤ◌ ◌+ℤ◌
abs-odd_above k h = ground (arith, h)

pub low_bound_fits :
    (d : ℕ) (k : ℤ)
    → d ≤ max_packets_per_stream
    → abs_ℤ k ≤ 2 ^ 38 + 1
    → low_bound (pos d) k ≡ some (pos d *ℤ (k *ℤ pos 2 -ℤ pos 1))
unfolding low_bound
low_bound_fits d k h l =
    rw (double_fits k l, odd_below_fits k l)
      (product_fits d (k *ℤ pos 2 -ℤ pos 1) h (abs-odd_below k l))

pub high_bound_fits :
    (d : ℕ) (k : ℤ)
    → d ≤ max_packets_per_stream
    → abs_ℤ k ≤ 2 ^ 38 + 1
    → high_bound (pos d) k ≡ some (pos d *ℤ (k *ℤ pos 2 +ℤ pos 1))
unfolding high_bound
high_bound_fits d k h l =
    rw (double_fits k l, odd_above_fits k l)
      (product_fits d (k *ℤ pos 2 +ℤ pos 1) h (abs-odd_above k l))

pub numerator_fits : (n : ℕ) → n < 2 ^ 62 → checked_add (pos n) (pos n) ≡ some (pos n +ℤ pos n)
unfolding checked_add ◌+ℤ◌
numerator_fits n h = ground (arith, h)

pub before_fits :
    (a : ℤ)
    → IsSmall a
    → (checked_sub a (pos 1) ≡ some (a -ℤ pos 1)) × (abs_ℤ (a -ℤ pos 1) ≤ 2 ^ 38 + 1)
unfolding checked_sub ◌-ℤ◌
before_fits a h = (ground (arith, h), ground (arith, h))

pub after_fits :
    (a : ℤ)
    → IsSmall a
    → (checked_add a (pos 1) ≡ some (a +ℤ pos 1)) × (abs_ℤ (a +ℤ pos 1) ≤ 2 ^ 38 + 1)
unfolding checked_add ◌+ℤ◌
after_fits a h = (ground (arith, h), ground (arith, h))
