-- ===== src/Probe/Cadence/Rounding.antt =====
-- The two bounds of the grid test of src/probe/cadence.cpp for a k that is not negative.
use mediadiff.Base.{
  ap, arith, if◌then◌else◌, inl, inr, leb, lt_or_le, ltb, pos, suc, ℕ, ◌%◌, ◌*◌, ◌+◌, ◌/◌, ◌<◌, ◌≡◌,
  ◌≤◌,
}
use mediadiff.Probe.Cadence.{high_ok, low_ok}
use native.Mathlib.Nat.{mul-le-mul_left}

-- The quotient q of remainder r by d, rounded, and to even where it lies half way.
abbrev pub rounded : ℕ → ℕ → ℕ → ℕ
rounded q r d = if ltb (2 * r) d then q else if ltb d (2 * r) then suc q else q + q % 2

-- n / d, rounded half to even.
abbrev pub round_half_even : ℕ → ℕ → ℕ
round_half_even n d = rounded (n / d) (n % d) d

-- Below, P is d * q, K is d * k and n is P + r. The lower bound b is d * (2 * k - 1).
low_test_below :
    (d q r k P K b : ℕ)
    → r < d
    → b + d ≡ K + K
    → k ≤ q
    → K ≤ P
    → low_ok (pos (P + r + (P + r))) (pos b) (pos k) ≡ leb k (rounded q r d)
low_test_below d q r k P K b h e l m = ground arith

low_test_at :
    (d q r k P K b : ℕ)
    → r < d
    → b + d ≡ K + K
    → k ≡ suc q
    → K ≡ P + d
    → low_ok (pos (P + r + (P + r))) (pos b) (pos k) ≡ leb k (rounded q r d)
low_test_at d q r k P K b h e l m = ground arith

low_test_above :
    (d q r k P K b : ℕ)
    → r < d
    → b + d ≡ K + K
    → 2 + q ≤ k
    → P + d + d ≤ K
    → low_ok (pos (P + r + (P + r))) (pos b) (pos k) ≡ leb k (rounded q r d)
low_test_above d q r k P K b h e l m = ground arith

-- The upper bound b is d * (2 * k + 1).
high_test_above :
    (d q r k P K b : ℕ)
    → r < d
    → b ≡ K + K + d
    → suc q ≤ k
    → P + d ≤ K
    → high_ok (pos (P + r + (P + r))) (pos b) (pos k) ≡ leb (rounded q r d) k
high_test_above d q r k P K b h e l m = ground arith

high_test_at :
    (d q r k P K b : ℕ)
    → r < d
    → b ≡ K + K + d
    → k ≡ q
    → K ≡ P
    → high_ok (pos (P + r + (P + r))) (pos b) (pos k) ≡ leb (rounded q r d) k
high_test_at d q r k P K b h e l m = ground arith

high_test_below :
    (d q r k P K b : ℕ)
    → r < d
    → b ≡ K + K + d
    → suc k ≤ q
    → K + d ≤ P
    → high_ok (pos (P + r + (P + r))) (pos b) (pos k) ≡ leb (rounded q r d) k
high_test_below d q r k P K b h e l m = ground arith

twice_even : (d m : ℕ) → d * (m + m + 1) + d ≡ d * suc m + d * suc m
twice_even d m = omega arith

twice_odd : (d k : ℕ) → d * (k + k + 1) ≡ d * k + d * k + d
twice_odd d k = omega arith

next_multiple : (d m q : ℕ) → m ≡ q → d * suc m ≡ d * q + d
next_multiple d m q e = rw e (omega arith)

mul-two : (d q : ℕ) → d * (2 + q) ≡ d * q + d + d
mul-two d q = omega arith

mul-suc : (d q : ℕ) → d * suc q ≡ d * q + d
mul-suc d q = omega arith

-- The lower test with a positive k.
pub low_test :
    (d q r m : ℕ)
    → r < d
    → low_ok (pos (d * q + r + (d * q + r))) (pos (d * (m + m + 1))) (pos (suc m))
      ≡ leb (suc m) (rounded q r d)
low_test d q r m h = elim (lt_or_le q (suc m)) [
  | inr l ↦
      low_test_below d q r (suc m) (d * q) (d * suc m) (d * (m + m + 1)) h (twice_even d m) l
        (mul-le-mul_left d l)
  | inl l ↦ elim (lt_or_le q m) [
    | inr u ↦
        let e : m ≡ q = omega (arith, l, u) in
        low_test_at d q r (suc m) (d * q) (d * suc m) (d * (m + m + 1)) h (twice_even d m)
          (ap suc e) (next_multiple d m q e)
    | inl u ↦
        low_test_above d q r (suc m) (d * q) (d * suc m) (d * (m + m + 1)) h (twice_even d m)
          (omega (arith, u))
          (let i = mul-le-mul_left {m = 2 + q} {n = suc m} d (omega (arith, u)) in
            omega (arith, i, mul-two d q))
  ]
]

-- The upper test with a k that is not negative.
pub high_test :
    (d q r k : ℕ)
    → r < d
    → high_ok (pos (d * q + r + (d * q + r))) (pos (d * (k + k + 1))) (pos k)
      ≡ leb (rounded q r d) k
high_test d q r k h = elim (lt_or_le k q) [
  | inl l ↦
      high_test_below d q r k (d * q) (d * k) (d * (k + k + 1)) h (twice_odd d k) l
        (let i = mul-le-mul_left {m = suc k} {n = q} d l in omega (arith, i, mul-suc d k))
  | inr l ↦ elim (lt_or_le q k) [
    | inr u ↦
        let e : k ≡ q = omega (arith, l, u) in
        high_test_at d q r k (d * q) (d * k) (d * (k + k + 1)) h (twice_odd d k) e
          (ap (λ x. d * x) e)
    | inl u ↦
        high_test_above d q r k (d * q) (d * k) (d * (k + k + 1)) h (twice_odd d k) u
          (let i = mul-le-mul_left {m = suc q} {n = k} d u in omega (arith, i, mul-suc d q))
  ]
]
