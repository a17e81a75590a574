-- ===== src/Probe/Cadence/Grid.antt =====
-- The grid test of src/probe/cadence.cpp, which never divides, against the rounded quotient.
use mediadiff.Base.{
  Bool, and_then-some, ap, ap₂, arith, false, leb_ℤ, negsuc, pos, refl, some, suc, sym, true, zero,
  ℕ, ℤ, ◌%◌, ◌&&◌, ◌*ℤ◌, ◌*◌, ◌+ℤ◌, ◌+◌, ◌-ℤ◌, ◌/◌, ◌<ℤ◌, ◌<◌, ◌^◌, ◌∙◌, ◌≡◌, ◌≤◌,
}
use mediadiff.Core.CheckedArith.{checked_add, checked_mul, checked_sub}
use mediadiff.Core.CheckedArith.Exact.{
  checked_add-some, checked_mul-some, checked_sub-some, mul-pos,
}
use mediadiff.Probe.Cadence.{
  conforms_to_grid, grid_conformance_tolerance_ticks, high_bound, high_ok, low_bound, low_ok,
  max_packets_per_stream,
}
use mediadiff.Probe.Cadence.Bounds.{
  IsSmall, after_fits, before_fits, high_bound_fits, low_bound_fits, numerator_fits,
}
use mediadiff.Probe.Cadence.Rounding.{high_test, low_test, round_half_even, rounded}
use mathlib.Core.Option.{some-injective}
use native.Mathlib.Nat.{div-add-mod, mod-lt, mul-le-mul_left}

negative_multiple : (d m : ℕ) → 1 ≤ d → pos d *ℤ negsuc m <ℤ pos 0
unfolding ◌*ℤ◌
negative_multiple d m h =
    let i = mul-le-mul_left {m = 1} {n = suc m} d (omega arith) in ground (arith, i, h)

low_bound-some :
    (d : ℕ) (k low : ℤ) → low_bound (pos d) k ≡ some low → low ≡ pos d *ℤ (k *ℤ pos 2 -ℤ pos 1)
unfolding low_bound
low_bound-some d k low e =
    let (two_k, f, e2) = and_then-some (checked_mul k (pos 2)) _ low e in
    let (odd, g, e3) = and_then-some (checked_sub two_k (pos 1)) _ low e2 in
    checked_mul-some (pos d) odd low e3
    ∙ ap (λ x. pos d *ℤ x)
        (checked_sub-some two_k (pos 1) odd g
          ∙ ap (λ x. x -ℤ pos 1) (checked_mul-some k (pos 2) two_k f))

high_bound-some :
    (d : ℕ) (k high : ℤ) → high_bound (pos d) k ≡ some high → high ≡ pos d *ℤ (k *ℤ pos 2 +ℤ pos 1)
unfolding high_bound
high_bound-some d k high e =
    let (two_k, f, e2) = and_then-some (checked_mul k (pos 2)) _ high e in
    let (odd, g, e3) = and_then-some (checked_add two_k (pos 1)) _ high e2 in
    checked_mul-some (pos d) odd high e3
    ∙ ap (λ x. pos d *ℤ x)
        (checked_add-some two_k (pos 1) odd g
          ∙ ap (λ x. x +ℤ pos 1) (checked_mul-some k (pos 2) two_k f))

below_twice : (m : ℕ) → pos (suc m) *ℤ pos 2 -ℤ pos 1 ≡ pos (m + m + 1)
unfolding ◌*ℤ◌ ◌-ℤ◌
below_twice m = ground arith

below_zero : pos 0 *ℤ pos 2 -ℤ pos 1 ≡ negsuc 0
unfolding ◌*ℤ◌ ◌-ℤ◌
below_zero = refl

below_negative : (m : ℕ) → negsuc m *ℤ pos 2 -ℤ pos 1 ≡ negsuc (m + m + 2)
unfolding ◌*ℤ◌ ◌-ℤ◌
below_negative m = ground arith

above_twice : (m : ℕ) → pos m *ℤ pos 2 +ℤ pos 1 ≡ pos (m + m + 1)
unfolding ◌*ℤ◌ ◌+ℤ◌
above_twice m = ground arith

above_negative : (m : ℕ) → negsuc m *ℤ pos 2 +ℤ pos 1 ≡ negsuc (m + m)
unfolding ◌*ℤ◌ ◌+ℤ◌
above_negative m = ground arith

low_ok-negative : (n : ℕ) (low k : ℤ) → low <ℤ pos 0 → low_ok (pos n) low k ≡ true
low_ok-negative n low k h = ground (arith, h)

high_ok-negative : (n : ℕ) (high k : ℤ) → high <ℤ pos 0 → high_ok (pos n) high k ≡ false
high_ok-negative n high k h = ground (arith, h)

-- Each side of the test for any k.
low_side :
    (d q r : ℕ) (k low : ℤ)
    → r < d
    → low ≡ pos d *ℤ (k *ℤ pos 2 -ℤ pos 1)
    → low_ok (pos (d * q + r + (d * q + r))) low k ≡ leb_ℤ k (pos (rounded q r d))
low_side d q r (pos zero) low h e =
    low_ok-negative (d * q + r + (d * q + r)) low (pos 0)
      (rw (e, below_zero) (negative_multiple d 0 (omega (arith, h))))
    ∙ ground arith
low_side d q r (pos (suc m)) low h e =
    rw (e, below_twice m, mul-pos d (m + m + 1)) (low_test d q r m h ∙ ground arith)
low_side d q r (negsuc m) low h e =
    low_ok-negative (d * q + r + (d * q + r)) low (negsuc m)
      (rw (e, below_negative m) (negative_multiple d (m + m + 2) (omega (arith, h))))
    ∙ ground arith

high_side :
    (d q r : ℕ) (k high : ℤ)
    → r < d
    → high ≡ pos d *ℤ (k *ℤ pos 2 +ℤ pos 1)
    → high_ok (pos (d * q + r + (d * q + r))) high k ≡ leb_ℤ (pos (rounded q r d)) k
high_side d q r (pos m) high h e =
    rw (e, above_twice m, mul-pos d (m + m + 1)) (high_test d q r m h ∙ ground arith)
high_side d q r (negsuc m) high h e =
    high_ok-negative (d * q + r + (d * q + r)) high (negsuc m)
      (rw (e, above_negative m) (negative_multiple d (m + m) (omega (arith, h))))
    ∙ ground arith

twice-pos : (n d : ℕ) → pos n +ℤ pos n ≡ pos (d * (n / d) + n % d + (d * (n / d) + n % d))
unfolding ◌+ℤ◌
twice-pos n d = rw (div-add-mod n d) (ground arith)

-- What the test returns, where it returns something.
conforms_to_grid-some :
    (n d : ℕ) (actual_delta tolerance : ℤ) (on_grid : Bool)
    → 1 ≤ d
    → conforms_to_grid (pos n) (pos d) actual_delta tolerance ≡ some on_grid
    → on_grid
      ≡ leb_ℤ (actual_delta -ℤ tolerance) (pos (round_half_even n d))
        && leb_ℤ (pos (round_half_even n d)) (actual_delta +ℤ tolerance)
unfolding conforms_to_grid
conforms_to_grid-some n d a t on_grid h e =
    let (two, e1, f1) = and_then-some (checked_add (pos n) (pos n)) _ on_grid e in
    let (low_k, e2, f2) = and_then-some (checked_sub a t) _ on_grid f1 in
    let (low, e3, f3) = and_then-some (low_bound (pos d) low_k) _ on_grid f2 in
    let (high_k, e4, f4) = and_then-some (checked_add a t) _ on_grid f3 in
    let (high, e5, f5) = and_then-some (high_bound (pos d) high_k) _ on_grid f4 in
    let n_is = checked_add-some (pos n) (pos n) two e1 ∙ twice-pos n d in
    let low_is =
      low_side d (n / d) (n % d) low_k low (mod-lt n h) (low_bound-some d low_k low e3) in
    let high_is =
      high_side d (n / d) (n % d) high_k high (mod-lt n h) (high_bound-some d high_k high e5) in
    sym (some-injective _ _ f5)
    ∙ ap₂ (λ x y. x && y)
        (ap (λ x. low_ok x low low_k) n_is
          ∙ low_is
          ∙ ap (λ k. leb_ℤ k (pos (round_half_even n d))) (checked_sub-some a t low_k e2))
        (ap (λ x. high_ok x high high_k) n_is
          ∙ high_is
          ∙ ap (λ k. leb_ℤ (pos (round_half_even n d)) k) (checked_add-some a t high_k e4))

conforms_to_grid_returns :
    (n d : ℕ) (a : ℤ)
    → n < 2 ^ 62
    → d ≤ max_packets_per_stream
    → IsSmall a
    → (on_grid : Bool) × (conforms_to_grid (pos n) (pos d) a grid_conformance_tolerance_ticks
        ≡ some on_grid)
unfolding conforms_to_grid
conforms_to_grid_returns n d a h l s =
    let (b, bs) = before_fits a s in
    let (c, cs) = after_fits a s in
    let two = pos n +ℤ pos n in
    let low_k = a -ℤ pos 1 in
    let high_k = a +ℤ pos 1 in
    (
      low_ok two (pos d *ℤ (low_k *ℤ pos 2 -ℤ pos 1)) low_k
          && high_ok two (pos d *ℤ (high_k *ℤ pos 2 +ℤ pos 1)) high_k,
      rw (numerator_fits n h, b, low_bound_fits d low_k l bs, c, high_bound_fits d high_k l cs)
          refl,
    )

-- Let the numerator be below 2^62, the denominator positive and at most the packets of a stream,
-- and the delta at most 2^38 in size. Nothing overflows, and the test says whether the quotient,
-- rounded half to even, lies within one tick of the delta.
pub conforms_to_grid-IsRounded :
    (n d : ℕ) (actual_delta : ℤ)
    → n < 2 ^ 62
    → 1 ≤ d
    → d ≤ max_packets_per_stream
    → IsSmall actual_delta
    → conforms_to_grid (pos n) (pos d) actual_delta grid_conformance_tolerance_ticks
      ≡ some (
          leb_ℤ (actual_delta -ℤ pos 1) (pos (round_half_even n d))
          && leb_ℤ (pos (round_half_even n d)) (actual_delta +ℤ pos 1))
conforms_to_grid-IsRounded n d a h p l s =
    let (on_grid, e) = conforms_to_grid_returns n d a h l s in
    e ∙ ap some (conforms_to_grid-some n d a grid_conformance_tolerance_ticks on_grid p e)
