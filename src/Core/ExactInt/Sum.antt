-- ===== src/Core/ExactInt/Sum.antt =====
-- Sums and differences of src/core/exact_int.h.
use mediadiff.Base.{All, List, [], ap, arith, length, refl, suc, ℕ, ◌+◌, ◌∷◌, ◌≡◌, ◌≤◌}
use mediadiff.Core.ExactInt.{add_limbs, high_limb, subtract_limbs, u64}
use mediadiff.Core.ExactInt.Value.{IsLimb, limbs_value, shift_limbs}

pub add_limbs-value :
    (xs ys : List ℕ) (carry : ℕ)
    → length xs ≡ length ys
    → All IsLimb xs
    → All IsLimb ys
    → carry ≤ 1
    → (limbs_value (add_limbs xs ys carry).0 + shift_limbs (length xs) (add_limbs xs ys carry).1
        ≡ limbs_value xs + limbs_value ys + carry)
      × ((add_limbs xs ys carry).1 ≤ 1)
unfolding add_limbs limbs_value shift_limbs
add_limbs-value [] [] carry e hx hy hc = ground arith
add_limbs-value [] (y ∷ ys) carry e hx hy hc = absurd (omega arith)
add_limbs-value (x ∷ xs) [] carry e hx hy hc = absurd (omega arith)
add_limbs-value (x ∷ xs) (y ∷ ys) carry e hx hy hc =
    let ih =
      add_limbs-value xs ys (high_limb (u64 (x + y + carry))) (omega arith) hx.1 hy.1
        (omega arith) in
    (omega (arith, ih.0), ih.1)

pub add_limbs-IsLimb :
    (xs ys : List ℕ) (carry : ℕ)
    → length xs ≡ length ys
    → (length (add_limbs xs ys carry).0 ≡ length xs) × All IsLimb (add_limbs xs ys carry).0
unfolding add_limbs
add_limbs-IsLimb [] [] carry e = (refl, tt)
add_limbs-IsLimb [] (y ∷ ys) carry e = absurd (omega arith)
add_limbs-IsLimb (x ∷ xs) [] carry e = absurd (omega arith)
add_limbs-IsLimb (x ∷ xs) (y ∷ ys) carry e =
    let ih = add_limbs-IsLimb xs ys (high_limb (u64 (x + y + carry))) (omega arith) in
    (ap suc ih.0, (omega arith, ih.1))

pub subtract_limbs-value :
    (xs ys : List ℕ) (borrow : ℕ)
    → length xs ≡ length ys
    → All IsLimb xs
    → All IsLimb ys
    → borrow ≤ 1
    → limbs_value ys + borrow ≤ limbs_value xs
    → limbs_value (subtract_limbs xs ys borrow) + limbs_value ys + borrow ≡ limbs_value xs
unfolding subtract_limbs limbs_value
subtract_limbs-value [] [] borrow e hx hy hb h = omega arith
subtract_limbs-value [] (y ∷ ys) borrow e hx hy hb h = absurd (omega arith)
subtract_limbs-value (x ∷ xs) [] borrow e hx hy hb h = absurd (omega arith)
subtract_limbs-value (x ∷ xs) (y ∷ ys) borrow e hx hy hb h = ground (
  arith,
  subtract_limbs-value xs ys 0 (omega arith) hx.1 hy.1,
  subtract_limbs-value xs ys 1 (omega arith) hx.1 hy.1,
)

pub subtract_limbs-IsLimb :
    (xs ys : List ℕ) (borrow : ℕ)
    → length xs ≡ length ys
    → All IsLimb xs
    → (length (subtract_limbs xs ys borrow) ≡ length xs) × All IsLimb (subtract_limbs xs ys borrow)
unfolding subtract_limbs
subtract_limbs-IsLimb [] [] borrow e hx = (refl, tt)
subtract_limbs-IsLimb [] (y ∷ ys) borrow e hx = absurd (omega arith)
subtract_limbs-IsLimb (x ∷ xs) [] borrow e hx = absurd (omega arith)
subtract_limbs-IsLimb (x ∷ xs) (y ∷ ys) borrow e hx = ground (
  arith,
  subtract_limbs-IsLimb xs ys 0 (omega arith) hx.1,
  subtract_limbs-IsLimb xs ys 1 (omega arith) hx.1,
)
