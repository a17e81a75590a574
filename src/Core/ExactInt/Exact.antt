-- ===== src/Core/ExactInt/Exact.antt =====
-- The operations of src/core/exact_int.h are exact: they return the true result whenever its
-- magnitude fits 256 bits, and report overflow otherwise.
use mediadiff.Base.{
  All, Bool, Bool-cases, List, Option, [], abs_ℤ, ap, arith, false, if◌then◌else◌, inl, inr, length,
  neg_ℕ, none, not, pos, refl, some, subst, suc, true, zero, ℕ, ℤ, ◌&&◌, ◌*ℤ◌, ◌*◌, ◌++◌, ◌+◌, ◌<◌,
  ◌^◌, ◌∷◌, ◌≡◌, ◌≤◌,
}
use mediadiff.Core.ExactInt.{
  ExactInt, all_zero, drop, mul_rows, normalized, take, try_mul, xor, zeros,
}
use mediadiff.Core.ExactInt.Product.{IsProduct, mul_rows-IsProduct}
use mediadiff.Core.ExactInt.Value.{
  IsExact, IsLimb, all_zero-value, exact_value, limbs_value, limbs_value-lt, shift_limbs,
}

take-drop-value :
    (n : ℕ) (xs : List ℕ)
    → n ≤ length xs
    → limbs_value (take n xs) + shift_limbs n (limbs_value (drop n xs)) ≡ limbs_value xs
unfolding take drop limbs_value shift_limbs
take-drop-value zero xs h = omega arith
take-drop-value (suc n) [] h = absurd (omega arith)
take-drop-value (suc n) (x ∷ xs) h = omega (arith, take-drop-value n xs (omega arith))

take-limbs :
    (n : ℕ) (xs : List ℕ)
    → n ≤ length xs
    → All IsLimb xs
    → (length (take n xs) ≡ n) × All IsLimb (take n xs)
unfolding take
take-limbs zero xs h hx = (refl, tt)
take-limbs (suc n) [] h hx = absurd (omega arith)
take-limbs (suc n) (x ∷ xs) h hx =
    let ih = take-limbs n xs (omega arith) hx.1 in (ap suc ih.0, (hx.0, ih.1))

-- A result is the true value of an operation, or overflow where that needs more than 256 bits.
abbrev pub IsExactResult : Option ExactInt → ℤ → Type 0
IsExactResult (some r) v = IsExact r × (exact_value r ≡ v) × (abs_ℤ v < 2 ^ 256)
IsExactResult none v = 2 ^ 256 ≤ abs_ℤ v

pub shift_eight : (c : ℕ) → shift_limbs 8 c ≡ 2 ^ 256 * c
unfolding shift_limbs
shift_eight c = omega arith

pub magnitude_lt : (a : ExactInt) → IsExact a → limbs_value a.mag < 2 ^ 256
magnitude_lt a h =
    omega (arith, limbs_value-lt a.mag h.limbs, ap (λ n. shift_limbs n 1) h.width, shift_eight 1)

-- A sign and a magnitude as an integer.
abbrev pub signed : Bool → ℕ → ℤ
signed s m = if s then neg_ℕ m else pos m

signed_mul : (s t : Bool) (m n : ℕ) → signed s m *ℤ signed t n ≡ signed (xor s t) (m * n)
unfolding ◌*ℤ◌
signed_mul true true zero n = ground arith
signed_mul true true (suc m) zero = ground arith
signed_mul true true (suc m) (suc n) = ground arith
signed_mul true false zero n = ground arith
signed_mul true false (suc m) n = ground arith
signed_mul false true m zero = ground arith
signed_mul false true m (suc n) = ground arith
signed_mul false false m n = ground arith

signed_zero : (s : Bool) → signed s 0 ≡ pos 0
signed_zero true = refl
signed_zero false = refl

pub abs-signed : (s : Bool) (m : ℕ) → abs_ℤ (signed s m) ≡ m
abs-signed true zero = refl
abs-signed true (suc m) = ground arith
abs-signed false m = ground arith

-- The value of a result whose sign is dropped at zero.
IsExact-mag :
    (s : Bool) (mag : List ℕ)
    → length mag ≡ 8
    → All IsLimb mag
    → IsExact (normalized mag s) × (exact_value (normalized mag s) ≡ signed s (limbs_value mag))
unfolding normalized exact_value
IsExact-mag true mag w l = elim (Bool-cases (all_zero mag)) [
  | inl z ↦ (record { width = w; limbs = l; sign = ground arith }, rw (z, (all_zero-value mag).0 z))
  | inr nz ↦
      (record { width = w; limbs = l; sign = λ _. ground (arith, all_zero-value mag) }, rw nz)
]
IsExact-mag false mag w l = (record { width = w; limbs = l; sign = ground arith }, ground arith)

-- A magnitude of eight limbs is an exact result.
pub exact_some :
    (s : Bool) (mag : List ℕ)
    → length mag ≡ 8
    → All IsLimb mag
    → IsExactResult (some (normalized mag s)) (signed s (limbs_value mag))
exact_some s mag w l =
    let e = IsExact-mag s mag w l in
    (
      e.0,
      e.1,
      omega (
        arith,
        abs-signed s (limbs_value mag),
        limbs_value-lt mag l,
        ap (λ n. shift_limbs n 1) w,
        shift_eight 1,
      ),
    )

pub exact_none : (s : Bool) (m : ℕ) → 2 ^ 256 ≤ m → IsExactResult none (signed s m)
exact_none s m h = omega (arith, abs-signed s m)

and_not : (x z : Bool) → (x && not z) ≡ (if z then false else x)
and_not true true = refl
and_not true false = refl
and_not false true = refl
and_not false false = refl

limbs_value-zeros : (n : ℕ) → limbs_value (zeros n) ≡ 0
unfolding limbs_value
limbs_value-zeros zero = refl
limbs_value-zeros (suc n) = omega (arith, limbs_value-zeros n)

module _ (a b : ExactInt) (ha : IsExact a) (hb : IsExact b) where
  abbrev product_limbs : List ℕ
  product_limbs = mul_rows a.mag b.mag (zeros 16)

  product_lem : IsProduct a.mag b.mag (zeros 8) product_limbs
  product_lem =
      subst (λ n. IsProduct a.mag b.mag (zeros 8) (mul_rows a.mag b.mag (zeros 8 ++ zeros n)))
        ha.width
        (mul_rows-IsProduct a.mag b.mag (zeros 8) ha.limbs hb.limbs (omega arith)
          (omega (arith, hb.width)) (omega (arith, hb.width)))

  product_split :
      limbs_value (take 8 product_limbs) + 2 ^ 256 * limbs_value (drop 8 product_limbs)
      ≡ limbs_value a.mag * limbs_value b.mag
  product_split = omega (
    arith,
    take-drop-value 8 product_limbs (omega (arith, product_lem.width)),
    shift_eight (limbs_value (drop 8 product_limbs)),
    product_lem.total,
    limbs_value-zeros 8,
  )

  product_value :
      exact_value a *ℤ exact_value b
      ≡ signed (xor a.negative b.negative) (limbs_value a.mag * limbs_value b.mag)
  unfolding exact_value
  product_value = signed_mul a.negative b.negative (limbs_value a.mag) (limbs_value b.mag)

  try_mul_result : try_mul a b ≡ (
      if not (all_zero (drop 8 product_limbs))
      then none
      else some (normalized (take 8 product_limbs) (xor a.negative b.negative)))
  unfolding try_mul normalized
  try_mul_result = rw and_not

  -- A product is exact, and overflow is reported exactly when it needs more than 256 bits.
  pub try_mul-IsExactResult : IsExactResult (try_mul a b) (exact_value a *ℤ exact_value b)
  try_mul-IsExactResult =
      rw (try_mul_result, product_value)
        (elim (Bool-cases (all_zero (drop 8 product_limbs))) [
          | inl z ↦ rw z (
              rw (← fits z)
                (exact_some (xor a.negative b.negative) (take 8 product_limbs) taken.0 taken.1))
          | inr nz ↦ rw nz (
              exact_none (xor a.negative b.negative) (limbs_value a.mag * limbs_value b.mag)
                (over nz))
        ])
    where
      taken : (length (take 8 product_limbs) ≡ 8) × All IsLimb (take 8 product_limbs)
      taken = take-limbs 8 product_limbs (omega (arith, product_lem.width)) product_lem.limbs

      fits :
          all_zero (drop 8 product_limbs) ≡ true
          → limbs_value (take 8 product_limbs) ≡ limbs_value a.mag * limbs_value b.mag
      fits z = omega (arith, product_split, (all_zero-value (drop 8 product_limbs)).0 z)

      over :
          all_zero (drop 8 product_limbs) ≡ false → 2 ^ 256 ≤ limbs_value a.mag * limbs_value b.mag
      over nz = ground (arith, product_split, all_zero-value (drop 8 product_limbs))
