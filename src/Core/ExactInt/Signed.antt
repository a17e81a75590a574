-- ===== src/Core/ExactInt/Signed.antt =====
-- Sum, difference and comparison of src/core/exact_int.h are exact.
use mediadiff.Base.{
  All, Bool, Bool-cases, List, ap, arith, false, inl, inr, int_laws, length, negsuc, none, not, pos,
  some, true, ℕ, ℤ, ◌&&◌, ◌*◌, ◌+ℤ◌, ◌+◌, ◌-ℤ◌, ◌-◌, ◌<ℤ◌, ◌<◌, ◌==◌, ◌^◌, ◌≡◌, ◌≤◌, ◌⊎◌,
}
use mediadiff.Core.ExactInt.{
  ExactInt, add_limbs, add_magnitudes, all_zero, compare_exact_int, compare_magnitudes, is_zero,
  normalized, same_sign, subtract_magnitudes, try_add, try_sub,
}
use mediadiff.Core.ExactInt.Exact.{IsExactResult, exact_none, exact_some, shift_eight, signed}
use mediadiff.Core.ExactInt.Order.{Orders, compare_limbs-Orders}
use mediadiff.Core.ExactInt.Sum.{
  add_limbs-IsLimb, add_limbs-value, subtract_limbs-IsLimb, subtract_limbs-value,
}
use mediadiff.Core.ExactInt.Value.{
  IsExact, IsLimb, all_zero-value, exact_value, limbs_value, shift_limbs,
}

signed_add_same : (s : Bool) (m n : ℕ) → signed s m +ℤ signed s n ≡ signed s (m + n)
unfolding ◌+ℤ◌
signed_add_same s m n = ground arith

signed_add_ne :
    (s t : Bool) (m n : ℕ)
    → same_sign s t ≡ false
    → n ≤ m
    → signed s m +ℤ signed t n ≡ signed s (m - n)
unfolding ◌+ℤ◌
signed_add_ne s t m n e h = ground arith

signed_add_ne' :
    (s t : Bool) (m n : ℕ)
    → same_sign s t ≡ false
    → m ≤ n
    → signed s m +ℤ signed t n ≡ signed t (n - m)
unfolding ◌+ℤ◌
signed_add_ne' s t m n e h = ground arith

module _ (a b : ExactInt) (ha : IsExact a) (hb : IsExact b) where
  same_width : length a.mag ≡ length b.mag
  same_width = omega (arith, ha.width, hb.width)

  -- The loop orders the magnitudes.
  magnitudes-Orders : Orders (compare_magnitudes a b) (limbs_value a.mag) (limbs_value b.mag)
  unfolding compare_magnitudes
  magnitudes-Orders = compare_limbs-Orders a.mag b.mag same_width ha.limbs hb.limbs

  -- The difference of the magnitudes, where it is not negative.
  difference :
      limbs_value b.mag ≤ limbs_value a.mag
      → (length (subtract_magnitudes a b) ≡ 8)
        × All IsLimb (subtract_magnitudes a b)
        × (limbs_value (subtract_magnitudes a b) ≡ limbs_value a.mag - limbs_value b.mag)
  unfolding subtract_magnitudes
  difference h =
      let l = subtract_limbs-IsLimb a.mag b.mag 0 same_width ha.limbs in
      (
        omega (arith, l.0, ha.width),
        l.1,
        omega
            (arith, subtract_limbs-value a.mag b.mag 0 same_width ha.limbs hb.limbs (omega arith)),
      )

  difference_exact :
      (s : Bool)
      → limbs_value b.mag ≤ limbs_value a.mag
      → IsExactResult
          (some (normalized (subtract_magnitudes a b) s))
          (signed s (limbs_value a.mag - limbs_value b.mag))
  difference_exact s h =
      let d = difference h in rw (← d.2) (exact_some s (subtract_magnitudes a b) d.0 d.1)

  -- The sum of the magnitudes, or a carry out of the top limb.
  sum_exact :
      (s : Bool)
      → IsExactResult
          (elim (add_magnitudes a b) [ none ↦ none | some mag ↦ some (normalized mag s) ])
          (signed s (limbs_value a.mag + limbs_value b.mag))
  unfolding add_magnitudes
  sum_exact s = elim (Bool-cases (sum.1 == 0)) [
    | inl z ↦ rw z (rw (← total z) (exact_some s sum.0 (omega (arith, limbs.0, ha.width)) limbs.1))
    | inr nz ↦ rw nz (exact_none s (limbs_value a.mag + limbs_value b.mag) (over nz))
  ]
    where
      sum : List ℕ × ℕ
      sum = add_limbs a.mag b.mag 0

      limbs : (length sum.0 ≡ length a.mag) × All IsLimb sum.0
      limbs = add_limbs-IsLimb a.mag b.mag 0 same_width

      value : limbs_value sum.0 + 2 ^ 256 * sum.1 ≡ limbs_value a.mag + limbs_value b.mag
      value = omega (
        arith,
        (add_limbs-value a.mag b.mag 0 same_width ha.limbs hb.limbs (omega arith)).0,
        ap (λ n. shift_limbs n sum.1) ha.width,
        shift_eight sum.1,
      )

      total : (sum.1 == 0) ≡ true → limbs_value sum.0 ≡ limbs_value a.mag + limbs_value b.mag
      total z = ground (arith, value)

      over : (sum.1 == 0) ≡ false → 2 ^ 256 ≤ limbs_value a.mag + limbs_value b.mag
      over nz = ground (arith, value)

-- A sum is exact, and overflow is reported exactly when it needs more than 256 bits.
pub try_add-IsExactResult :
    (a b : ExactInt)
    → IsExact a
    → IsExact b
    → IsExactResult (try_add a b) (exact_value a +ℤ exact_value b)
unfolding try_add exact_value
try_add-IsExactResult a b ha hb = elim (Bool-cases (same_sign a.negative b.negative)) [
  | inl same ↦ rw (same, same_signs same, signed_add_same) (sum_exact a b ha hb a.negative)
  | inr ne ↦ rw ne (elim (magnitudes-Orders a b ha hb) [
    | inl lt ↦
        rw
          (
            lt.0,
            signed_add_ne' a.negative b.negative (limbs_value a.mag) (limbs_value b.mag) ne
                (omega arith),
          )
          (difference_exact b a hb ha b.negative (omega arith))
    | inr (inl eq) ↦
        rw
          (
            eq.0,
            signed_add_ne a.negative b.negative (limbs_value a.mag) (limbs_value b.mag) ne
                (omega arith),
          )
          (difference_exact a b ha hb a.negative (omega arith))
    | inr (inr gt) ↦
        rw
          (
            gt.0,
            signed_add_ne a.negative b.negative (limbs_value a.mag) (limbs_value b.mag) ne
                (omega arith),
          )
          (difference_exact a b ha hb a.negative (omega arith))
  ])
]
  where
    same_signs : same_sign a.negative b.negative ≡ true → b.negative ≡ a.negative
    same_signs h = ground arith

pub value_pos : (xs : List ℕ) → all_zero xs ≡ false → 0 < limbs_value xs
value_pos xs e = ground (arith, all_zero-value xs)

not_zero : (x z : Bool) → (not x && not z) ≡ true → z ≡ false
not_zero x z e = ground arith

negated-IsExact :
    (b : ExactInt)
    → IsExact b
    → IsExact (record b { negative = not b.negative && not (is_zero b) })
      × (exact_value (record b { negative = not b.negative && not (is_zero b) })
          ≡ pos 0 -ℤ exact_value b)
unfolding is_zero exact_value ◌-ℤ◌
negated-IsExact b h = (
  record {
    width = h.width;
    limbs = h.limbs;
    sign = λ e. value_pos b.mag (not_zero b.negative (all_zero b.mag) e);
  },
  ground (arith, all_zero-value b.mag),
)

-- A difference is exact, and overflow is reported exactly when it needs more than 256 bits.
pub try_sub-IsExactResult :
    (a b : ExactInt)
    → IsExact a
    → IsExact b
    → IsExactResult (try_sub a b) (exact_value a -ℤ exact_value b)
unfolding try_sub
try_sub-IsExactResult a b ha hb =
    let n = negated-IsExact b hb in
    let c : ExactInt = record b { negative = not b.negative && not (is_zero b) } in
    let e : exact_value a +ℤ (pos 0 -ℤ exact_value b) ≡ exact_value a -ℤ exact_value b =
      omega int_laws in
    rw (← e) (rw (← n.1) (try_add-IsExactResult a c ha n.0))

-- How a comparison orders two integers.
abbrev pub IsOrder : ℤ → ℤ → ℤ → Type 0
IsOrder o x y = (o ≡ negsuc 0) × (x <ℤ y) ⊎ (o ≡ pos 0) × (x ≡ y) ⊎ (o ≡ pos 1) × (y <ℤ x)

-- `compare` orders the values.
pub compare_exact_int-IsOrder :
    (a b : ExactInt)
    → IsExact a
    → IsExact b
    → IsOrder (compare_exact_int a b) (exact_value a) (exact_value b)
unfolding compare_exact_int exact_value ◌-ℤ◌
compare_exact_int-IsOrder a b ha hb = ground (arith, magnitudes-Orders a b ha hb, ha.sign, hb.sign)
