-- ===== src/Core/ExactInt.antt =====
-- src/core/exact_int.h: a signed integer with a magnitude of eight 32-bit limbs, the least
-- significant first. An array loop over the limbs is a recursion on the lists; a loop from the
-- top limb down looks at the rest of the list before its head.
pub mod Value
pub mod Sum
pub mod Product
pub mod Order
pub mod Exact
pub mod Signed
pub mod Decimal
use mediadiff.Base.{
  Bool, List, Option, Text, [], abs_ℤ, eqb_ℤ, false, if◌then◌else◌, leb, leb_ℤ, ltb, ltb_ℤ, negsuc,
  none, not, pos, some, suc, true, zero, ℕ, ℤ, ◌%◌, ◌&&◌, ◌*◌, ◌++◌, ◌+◌, ◌-ℤ◌, ◌-◌, ◌/◌, ◌==◌, ◌^◌,
  ◌∷◌,
}
use mathlib.Core.List.{reverse}

-- Number of limbs.
abbrev pub k_limbs : ℕ
k_limbs = 8

-- A product or sum in uint64_t.
abbrev pub u64 : ℕ → ℕ
u64 n = n % 2 ^ 64

-- `t & 0xFFFFFFFF` and `t >> 32`.
abbrev pub low_limb : ℕ → ℕ
low_limb t = t % 2 ^ 32

abbrev pub high_limb : ℕ → ℕ
high_limb t = t / 2 ^ 32

pub record ExactInt : Type 0 where
  pub mag : List ℕ
  pub negative : Bool

-- `std::array<std::uint32_t, n>{}`.
abbrev pub zeros : ℕ → List ℕ
zeros zero = []
zeros (suc n) = 0 ∷ zeros n

-- A default-constructed value.
abbrev pub exact_zero : ExactInt
exact_zero = record { mag = zeros k_limbs; negative = false }

unfoldable pub from_i64 : ℤ → ExactInt
from_i64 v =
    let magnitude = abs_ℤ v in
    record { mag = low_limb magnitude ∷ high_limb magnitude ∷ zeros 6; negative = ltb_ℤ v (pos 0) }

unfoldable pub all_zero : List ℕ → Bool
all_zero [] = true
all_zero (limb ∷ limbs) = (limb == 0) && all_zero limbs

unfoldable pub is_zero : ExactInt → Bool
unfolding all_zero
is_zero a = all_zero a.mag

unfoldable pub abs : ExactInt → ExactInt
abs a = record a { negative = false }

-- One row of the schoolbook product: `limb * b` is added into the product from this row's place
-- on, and the last carry is stored in the limb behind.
unfoldable pub mul_row : ℕ → List ℕ → List ℕ → ℕ → List ℕ
mul_row limb [] [] carry = []
mul_row limb [] (p ∷ ps) carry = carry ∷ ps
mul_row limb (b ∷ bs) [] carry = []
mul_row limb (b ∷ bs) (p ∷ ps) carry =
    let t = u64 (u64 (u64 (limb * b) + p) + carry) in low_limb t ∷ mul_row limb bs ps (high_limb t)

-- A row changes no limb below its own place, so the limb there is final after the row.
unfoldable pub mul_rows : List ℕ → List ℕ → List ℕ → List ℕ
unfolding mul_row
mul_rows [] bs product = product
mul_rows (limb ∷ limbs) bs [] = []
mul_rows (limb ∷ limbs) bs (p ∷ ps) =
    let row = if limb == 0 then p ∷ ps else mul_row limb bs (p ∷ ps) 0 in
    elim row [ [] ↦ [] | q ∷ qs ↦ q ∷ mul_rows limbs bs qs ]

unfoldable pub take : ℕ → List ℕ → List ℕ
take zero xs = []
take (suc n) [] = []
take (suc n) (x ∷ xs) = x ∷ take n xs

unfoldable pub drop : ℕ → List ℕ → List ℕ
drop zero xs = xs
drop (suc n) [] = []
drop (suc n) (x ∷ xs) = drop n xs

abbrev pub xor : Bool → Bool → Bool
xor true true = false
xor false false = false
xor true false = true
xor false true = true

unfoldable pub try_mul : ExactInt → ExactInt → Option ExactInt
unfolding mul_rows all_zero take drop
try_mul a b =
    let product = mul_rows a.mag b.mag (zeros (k_limbs + k_limbs)) in
    if not (all_zero (drop k_limbs product))
    then none
    else (let mag = take k_limbs product in
        some (record { mag = mag; negative = xor a.negative b.negative && not (all_zero mag) }))

-- -1, 0 or 1, from the top limb down.
unfoldable pub compare_limbs : List ℕ → List ℕ → ℤ
compare_limbs [] bs = pos 0
compare_limbs (a ∷ as') [] = pos 0
compare_limbs (a ∷ as') (b ∷ bs) =
    let above = compare_limbs as' bs in
    if eqb_ℤ above (pos 0)
    then (if a == b then pos 0 else if ltb a b then negsuc 0 else pos 1)
    else above

unfoldable pub compare_magnitudes : ExactInt → ExactInt → ℤ
unfolding compare_limbs
compare_magnitudes a b = compare_limbs a.mag b.mag

-- The limbs of the sum and the carry out of the top limb.
unfoldable pub add_limbs : List ℕ → List ℕ → ℕ → List ℕ × ℕ
add_limbs [] bs carry = ([], carry)
add_limbs (a ∷ as') [] carry = ([], carry)
add_limbs (a ∷ as') (b ∷ bs) carry =
    let t = u64 (a + b + carry) in
    let rest = add_limbs as' bs (high_limb t) in (low_limb t ∷ rest.0, rest.1)

unfoldable pub add_magnitudes : ExactInt → ExactInt → Option (List ℕ)
unfolding add_limbs
add_magnitudes a b = let sum = add_limbs a.mag b.mag 0 in if sum.1 == 0 then some sum.0 else none

unfoldable pub subtract_limbs : List ℕ → List ℕ → ℕ → List ℕ
subtract_limbs [] bs borrow = []
subtract_limbs (a ∷ as') [] borrow = []
subtract_limbs (a ∷ as') (b ∷ bs) borrow =
    let subtrahend = u64 (b + borrow) in
    if leb subtrahend a
    then (a - subtrahend) ∷ subtract_limbs as' bs 0
    else low_limb (a + 2 ^ 32 - subtrahend) ∷ subtract_limbs as' bs 1

unfoldable pub subtract_magnitudes : ExactInt → ExactInt → List ℕ
unfolding subtract_limbs
subtract_magnitudes a b = subtract_limbs a.mag b.mag 0

-- Zero is never negative.
unfoldable pub normalized : List ℕ → Bool → ExactInt
unfolding all_zero
normalized mag negative = record { mag = mag; negative = if all_zero mag then false else negative }

abbrev pub same_sign : Bool → Bool → Bool
same_sign x y = not (xor x y)

unfoldable pub try_add : ExactInt → ExactInt → Option ExactInt
unfolding add_magnitudes compare_magnitudes subtract_magnitudes normalized
try_add a b =
    if same_sign a.negative b.negative
    then (elim (add_magnitudes a b) [ none ↦ none | some mag ↦ some (normalized mag a.negative) ])
    else if leb_ℤ (pos 0) (compare_magnitudes a b)
    then some (normalized (subtract_magnitudes a b) a.negative)
    else some (normalized (subtract_magnitudes b a) b.negative)

unfoldable pub try_sub : ExactInt → ExactInt → Option ExactInt
unfolding try_add is_zero
try_sub a b = try_add a (record b { negative = not b.negative && not (is_zero b) })

-- Negative, zero or positive as a < b, a = b or a > b.
unfoldable pub compare_exact_int : ExactInt → ExactInt → ℤ
unfolding compare_magnitudes ◌-ℤ◌
compare_exact_int a b =
    if xor a.negative b.negative
    then (if a.negative then negsuc 0 else pos 1)
    else (let magnitude_order = compare_magnitudes a b in
        if a.negative then pos 0 -ℤ magnitude_order else magnitude_order)

-- work /= 10, from the top limb down: the quotient's limbs and the remainder.
unfoldable pub div_limbs : List ℕ → List ℕ × ℕ
div_limbs [] = ([], 0)
div_limbs (x ∷ xs) =
    let above = div_limbs xs in
    let current = u64 (above.1 * 2 ^ 32 + x) in ((low_limb (current / 10)) ∷ above.0, current % 10)

-- The digits of a magnitude, least significant first, with fuel for the rounds. A round is run
-- before the test.
unfoldable pub digits_loop : ℕ → List ℕ → Text
unfolding div_limbs all_zero
digits_loop zero work = []
digits_loop (suc fuel) work =
    let divided = div_limbs work in
    let rest = digits_loop fuel divided.0 in
    (b'0' + divided.1) ∷ (if all_zero divided.0 then [] else rest)

-- Base-10 rendering. A magnitude of 256 bits has at most 78 digits.
unfoldable pub to_decimal : ExactInt → Text
unfolding is_zero
to_decimal a =
    if is_zero a
    then b'0' ∷ []
    else (if a.negative then b'-' ∷ [] else []) ++ reverse (digits_loop 78 a.mag)
