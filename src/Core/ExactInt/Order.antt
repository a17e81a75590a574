-- ===== src/Core/ExactInt/Order.antt =====
-- Comparison of src/core/exact_int.h decides the order of the values.
use mediadiff.Base.{All, List, [], arith, length, negsuc, pos, ℕ, ℤ, ◌<◌, ◌∷◌, ◌≡◌, ◌⊎◌}
use mediadiff.Core.ExactInt.{compare_limbs}
use mediadiff.Core.ExactInt.Value.{IsLimb, limbs_value}

-- How the loop's result orders two magnitudes.
abbrev pub Orders : ℤ → ℕ → ℕ → Type 0
Orders o x y = (o ≡ negsuc 0) × (x < y) ⊎ (o ≡ pos 0) × (x ≡ y) ⊎ (o ≡ pos 1) × (y < x)

pub compare_limbs-Orders :
    (xs ys : List ℕ)
    → length xs ≡ length ys
    → All IsLimb xs
    → All IsLimb ys
    → Orders (compare_limbs xs ys) (limbs_value xs) (limbs_value ys)
unfolding compare_limbs limbs_value
compare_limbs-Orders [] [] e hx hy = ground arith
compare_limbs-Orders [] (y ∷ ys) e hx hy = absurd (omega arith)
compare_limbs-Orders (x ∷ xs) [] e hx hy = absurd (omega arith)
compare_limbs-Orders (x ∷ xs) (y ∷ ys) e hx hy =
    ground (arith, compare_limbs-Orders xs ys (omega arith) hx.1 hy.1)
