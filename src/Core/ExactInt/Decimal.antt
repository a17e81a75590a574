-- ===== src/Core/ExactInt/Decimal.antt =====
-- The base-10 rendering of src/core/exact_int.h: its digits stand for the magnitude, and the
-- loop ends by its test.
use mediadiff.Base.{
  All, Bool-cases, List, Text, [], abs_ℤ, arith, if◌then◌else◌, inl, inr, ltb_ℤ, pos, refl, suc,
  zero, ℕ, ℤ, ◌*◌, ◌++◌, ◌+◌, ◌-◌, ◌<◌, ◌^◌, ◌∷◌, ◌≡◌, ◌≤◌, ◌⊎◌,
}
use mediadiff.Core.ExactInt.{ExactInt, all_zero, digits_loop, div_limbs, is_zero, to_decimal}
use mediadiff.Core.ExactInt.Exact.{abs-signed, magnitude_lt}
use mediadiff.Core.ExactInt.Signed.{value_pos}
use mediadiff.Core.ExactInt.Value.{IsExact, IsLimb, all_zero-value, exact_value, limbs_value}
use mathlib.Core.List.{reverse}
use native.Mathlib.Nat.{pow-suc}

-- The number that a text of digits stands for, least significant digit first.
unfoldable pub reversed_value : Text → ℕ
reversed_value [] = 0
reversed_value (c ∷ cs) = (c - b'0') + 10 * reversed_value cs

pub div_limbs-value :
    (xs : List ℕ)
    → All IsLimb xs
    → (10 * limbs_value (div_limbs xs).0 + (div_limbs xs).1 ≡ limbs_value xs)
      × ((div_limbs xs).1 < 10)
      × All IsLimb (div_limbs xs).0
unfolding div_limbs limbs_value
div_limbs-value [] h = ground arith
div_limbs-value (x ∷ xs) h =
    let ih = div_limbs-value xs h.1 in (omega (arith, ih.0, ih.1), omega arith, (omega arith, ih.2))

-- Enough rounds for the digits render the magnitude.
pub digits_loop-value :
    (fuel : ℕ) (work : List ℕ)
    → All IsLimb work
    → limbs_value work < 10 ^ fuel
    → 0 < limbs_value work
    → reversed_value (digits_loop fuel work) ≡ limbs_value work
unfolding digits_loop reversed_value
digits_loop-value zero work h lt positive = absurd (omega arith)
digits_loop-value (suc fuel) work h lt positive =
    let d = div_limbs-value work h in
    let below : limbs_value (div_limbs work).0 < 10 ^ fuel = omega (arith, d.0, pow-suc 10 fuel) in
    let ih = digits_loop-value fuel (div_limbs work).0 d.2 below in
    elim (Bool-cases (all_zero (div_limbs work).0)) [
      | inl z ↦ rw z (omega (arith, d.0, (all_zero-value (div_limbs work).0).0 z))
      | inr nz ↦ rw nz (omega (arith, d.0, ih (value_pos (div_limbs work).0 nz)))
    ]

abbrev pub IsDigit : ℕ → Type 0
IsDigit c = (b'0' ≤ c) × (c ≤ b'9')

digits_loop-IsDigit :
    (fuel : ℕ) (work : List ℕ) → All IsLimb work → All IsDigit (digits_loop fuel work)
unfolding digits_loop
digits_loop-IsDigit zero work h = tt
digits_loop-IsDigit (suc fuel) work h =
    let d = div_limbs-value work h in
    let ih = digits_loop-IsDigit fuel (div_limbs work).0 d.2 in
    elim (Bool-cases (all_zero (div_limbs work).0)) [
      | inl z ↦ rw z ((omega (arith, d.1), omega (arith, d.1)), tt)
      | inr nz ↦ rw nz ((omega (arith, d.1), omega (arith, d.1)), ih)
    ]

-- The most significant digit, the last one here, is not zero.
abbrev pub EndsSolid : Text → Type 0
EndsSolid [] = ⊥
EndsSolid (c ∷ []) = b'0' < c
EndsSolid (c ∷ d ∷ cs) = EndsSolid (d ∷ cs)

EndsSolid-cons : (c : ℕ) (cs : Text) → EndsSolid cs → EndsSolid (c ∷ cs)
EndsSolid-cons c [] h = absurd h
EndsSolid-cons c (d ∷ cs) h = h

digits_loop-EndsSolid :
    (fuel : ℕ) (work : List ℕ)
    → All IsLimb work
    → limbs_value work < 10 ^ fuel
    → 0 < limbs_value work
    → EndsSolid (digits_loop fuel work)
unfolding digits_loop
digits_loop-EndsSolid zero work h lt positive = absurd (omega arith)
digits_loop-EndsSolid (suc fuel) work h lt positive =
    let d = div_limbs-value work h in
    let below : limbs_value (div_limbs work).0 < 10 ^ fuel = omega (arith, d.0, pow-suc 10 fuel) in
    let ih = digits_loop-EndsSolid fuel (div_limbs work).0 d.2 below in
    elim (Bool-cases (all_zero (div_limbs work).0)) [
      | inl z ↦ rw z (omega (arith, d.0, positive, (all_zero-value (div_limbs work).0).0 z))
      | inr nz ↦ rw nz (
          EndsSolid-cons (b'0' + (div_limbs work).1) (digits_loop fuel (div_limbs work).0)
            (ih (value_pos (div_limbs work).0 nz)))
    ]

-- A text of digits, most significant first, after an optional minus sign: the digit 0, or digits
-- without a leading zero.
abbrev pub IsRendering : Text → ℤ → Type 0
IsRendering t v =
    (digits : Text) × (t ≡ (if ltb_ℤ v (pos 0) then b'-' ∷ [] else []) ++ reverse digits)
    × All IsDigit digits
    × (reversed_value digits ≡ abs_ℤ v)
    × ((digits ≡ b'0' ∷ []) ⊎ EndsSolid digits)

-- `to_decimal` writes a minus sign exactly for negative values and then the digits of the
-- magnitude, at least one and none of them a leading zero; 78 rounds are enough for any magnitude
-- of 256 bits.
pub to_decimal-IsRendering : (a : ExactInt) → IsExact a → IsRendering (to_decimal a) (exact_value a)
unfolding to_decimal is_zero exact_value
to_decimal-IsRendering a h = elim (Bool-cases (all_zero a.mag)) [
  | inl z ↦ (
    b'0' ∷ [],
    ground (arith, all_zero-value a.mag, h.sign),
    ((omega arith, omega arith), tt),
    unfold reversed_value in ground (arith, all_zero-value a.mag),
    inl refl,
  )
  | inr nz ↦ (
    digits_loop 78 a.mag,
    ground (arith, value_pos a.mag nz),
    digits_loop-IsDigit 78 a.mag h.limbs,
    omega (
      arith,
      digits_loop-value 78 a.mag h.limbs (omega (arith, magnitude_lt a h)) (value_pos a.mag nz),
      abs-signed a.negative (limbs_value a.mag),
    ),
    inr (
        digits_loop-EndsSolid 78 a.mag h.limbs (omega (arith, magnitude_lt a h))
          (value_pos a.mag nz)),
  )
]
