-- ===== src/Compare/Verdicts.antt =====
-- The verdict of src/compare/tol.cpp is that of unbounded integers: 256 bits are enough.
use mediadiff.Base.{
  Bool, Option, Text, abs_ℤ, ap, ap₂, arith, false, if◌then◌else◌, inl, inr, leb_ℤ, neg_ℕ, negsuc,
  none, pos, refl, some, subst, suc, sym, true, zero, ℕ, ℤ, ◌*ℤ◌, ◌*◌, ◌+◌, ◌-ℤ◌, ◌<◌, ◌^◌, ◌↔◌,
  ◌∙◌, ◌≡◌, ◌≤ℤ◌, ◌≤◌,
}
use mediadiff.Compare.Verdict.{
  Magnitude, Ranged, at_most, exact_delta, in_range, range_then, test_thresholds, widen,
}
use mediadiff.Core.CheckedArith.{IsInt64}
use mediadiff.Core.ExactInt.{ExactInt, abs, compare_exact_int, from_i64, try_mul, try_sub}
use mediadiff.Core.ExactInt.Exact.{IsExactResult, try_mul-IsExactResult}
use mediadiff.Core.ExactInt.Signed.{IsOrder, compare_exact_int-IsOrder, try_sub-IsExactResult}
use mediadiff.Core.ExactInt.Value.{
  IsExact, exact_value, from_i64-IsExact, from_i64-value, limbs_value,
}
use mathlib.Core.Bool.{false≢true}
use mathlib.Core.Path.{subst₂}
use native.Mathlib.Nat.{mul-le-mul_left, mul-le-mul_right}

-- An integer of 256 bits with its value and a bound of it.
pub record HasValue (e : ExactInt) (v : ℤ) (bound : ℕ) : Type 0 where
  pub exact : IsExact e
  pub value : exact_value e ≡ v
  pub below : abs_ℤ v ≤ bound

mul_le : (a b m n : ℕ) → a ≤ m → b ≤ n → a * b ≤ m * n
mul_le a b m n h k = omega (arith, mul-le-mul_left a k, mul-le-mul_right n h)

abs-mul : (x y : ℤ) → abs_ℤ (x *ℤ y) ≡ abs_ℤ x * abs_ℤ y
unfolding ◌*ℤ◌
abs-mul (pos a) (pos b) = ground arith
abs-mul (pos a) (negsuc b) = ground arith
abs-mul (negsuc a) (pos b) = ground arith
abs-mul (negsuc a) (negsuc b) = ground arith

abs-sub : (x y : ℤ) → abs_ℤ (x -ℤ y) ≤ abs_ℤ x + abs_ℤ y
unfolding ◌-ℤ◌
abs-sub x y = ground arith

-- A result in range with its value and a bound of it.
abbrev pub Gives : Option ExactInt → ℤ → ℕ → Type 0
Gives o v bound = (r : ExactInt) × (o ≡ some r) × HasValue r v bound

exact_result-Gives :
    (o : Option ExactInt) (v : ℤ) (bound : ℕ)
    → IsExactResult o v
    → abs_ℤ v ≤ bound
    → bound < 2 ^ 256
    → Gives o v bound
exact_result-Gives none v bound h k l = absurd (omega (arith, h, k, l))
exact_result-Gives (some r) v bound h k l =
    (r, refl, record { exact = h.0; value = h.1; below = k })

pub try_mul-Gives :
    (a b : ExactInt) (x y : ℤ) (m n : ℕ)
    → HasValue a x m
    → HasValue b y n
    → m * n < 2 ^ 256
    → Gives (try_mul a b) (x *ℤ y) (m * n)
try_mul-Gives a b x y m n h k l =
    exact_result-Gives (try_mul a b) (x *ℤ y) (m * n)
      (subst (IsExactResult (try_mul a b)) (ap₂ (λ u v. u *ℤ v) h.value k.value)
        (try_mul-IsExactResult a b h.exact k.exact))
      (subst (λ t. t ≤ m * n) (sym (abs-mul x y)) (mul_le (abs_ℤ x) (abs_ℤ y) m n h.below k.below))
      l

try_sub-Gives :
    (a b : ExactInt) (x y : ℤ) (m n : ℕ)
    → HasValue a x m
    → HasValue b y n
    → m + n < 2 ^ 256
    → Gives (try_sub a b) (x -ℤ y) (m + n)
try_sub-Gives a b x y m n h k l =
    exact_result-Gives (try_sub a b) (x -ℤ y) (m + n)
      (subst (IsExactResult (try_sub a b)) (ap₂ (λ u v. u -ℤ v) h.value k.value)
        (try_sub-IsExactResult a b h.exact k.exact))
      (omega (arith, abs-sub x y, h.below, k.below)) l

pub from_i64-HasValue : (v : ℤ) → IsInt64 v → HasValue (from_i64 v) v (2 ^ 63)
from_i64-HasValue v h = record {
  exact = from_i64-IsExact v h;
  value = from_i64-value v h;
  below = ground arith;
}

pub abs-HasValue :
    (a : ExactInt) (x : ℤ) (m : ℕ) → HasValue a x m → HasValue (abs a) (pos (abs_ℤ x)) m
unfolding exact_value abs
abs-HasValue a x m h = record {
  exact = record {
    width = h.exact.width;
    limbs = h.exact.limbs;
    sign = λ e. absurd (false≢true e);
  };
  value = ap pos (magnitude-abs a.negative (limbs_value a.mag) ∙ ap abs_ℤ h.value);
  below = ground (arith, h.below);
}
  where
    magnitude-abs : (s : Bool) (n : ℕ) → n ≡ abs_ℤ (if s then neg_ℕ n else pos n)
    magnitude-abs true zero = refl
    magnitude-abs true (suc n) = ground arith
    magnitude-abs false n = ground arith

IsOrder-of :
    (a b : ExactInt) (x y : ℤ) (m n : ℕ)
    → HasValue a x m
    → HasValue b y n
    → IsOrder (compare_exact_int a b) x y
IsOrder-of a b x y m n h k =
    subst₂ (IsOrder (compare_exact_int a b)) h.value k.value
      (compare_exact_int-IsOrder a b h.exact k.exact)

order_iff :
    (o x y : ℤ)
    → IsOrder o x y
    → ((leb_ℤ o (pos 0) ≡ true) ↔ (x ≤ℤ y)) × ((leb_ℤ (pos 0) o ≡ true) ↔ (y ≤ℤ x))
order_iff o x y h = elim h [
  | inl (e, l) ↦ rw e (
    (λ t. omega (arith, l), λ t. refl),
    (λ t. absurd (false≢true t), λ t. absurd (omega (arith, l, t))),
  )
  | inr r ↦ elim r [
    | inl (e, l) ↦ rw e ((λ t. ground (arith, l), λ t. refl), (λ t. ground (arith, l), λ t. refl))
    | inr (e, l) ↦ rw e (
      (λ t. absurd (false≢true t), λ t. absurd (omega (arith, l, t))),
      (λ t. omega (arith, l), λ t. refl),
    )
  ]
]

at_most_iff :
    (a b : ExactInt) (x y : ℤ) (m n : ℕ)
    → HasValue a x m
    → HasValue b y n
    → (at_most a b ≡ true) ↔ (x ≤ℤ y)
at_most_iff a b x y m n h k = (order_iff (compare_exact_int a b) x y (IsOrder-of a b x y m n h k)).0

pub at_least_iff :
    (a b : ExactInt) (x y : ℤ) (m n : ℕ)
    → HasValue a x m
    → HasValue b y n
    → (leb_ℤ (pos 0) (compare_exact_int a b) ≡ true) ↔ (y ≤ℤ x)
at_least_iff a b x y m n h k =
    (order_iff (compare_exact_int a b) x y (IsOrder-of a b x y m n h k)).1

abbrev pub RangedGives : Ranged ExactInt → ℤ → ℕ → Type 0
RangedGives o v bound = (r : ExactInt) × (o ≡ in_range r) × HasValue r v bound

pub range_then-Gives :
    (what : Text) (o : Option ExactInt) (v : ℤ) (bound : ℕ)
    → Gives o v bound
    → RangedGives (range_then what o in_range) v bound
range_then-Gives what o v bound (r, e, h) = (r, ap (λ p. range_then what p in_range) e, h)

-- What a test compares with: three times the threshold for an estimated measurement.
abbrev pub widened_value : Bool → ℤ → ℤ
widened_value widened num = if widened then num *ℤ pos 3 else num

pub widen-Gives :
    (what : Text) (widened : Bool) (num : ℤ)
    → IsInt64 num
    → RangedGives (widen what widened num) (widened_value widened num) (2 ^ 65)
unfolding widen
widen-Gives what true num h =
    let g =
      try_mul-Gives (from_i64 num) (from_i64 (pos 3)) num (pos 3) (2 ^ 63) 3
        (from_i64-HasValue num h) three (omega arith) in
    range_then-Gives what (try_mul (from_i64 num) (from_i64 (pos 3))) (num *ℤ pos 3) (2 ^ 65)
      (g.0, g.1, record { exact = g.2.exact; value = g.2.value; below = omega (arith, g.2.below) })
  where
    three : HasValue (from_i64 (pos 3)) (pos 3) 3
    three = record {
      exact = from_i64-IsExact (pos 3) (omega arith);
      value = from_i64-value (pos 3) (omega arith);
      below = omega arith;
    }
widen-Gives what false num h =
    let v = from_i64-HasValue num h in
    (
      from_i64 num,
      refl,
      record { exact = v.exact; value = v.value; below = omega (arith, v.below) },
    )

-- The operands of both magnitudes are int64_t.
abbrev pub IsMagnitude64 : Magnitude → Type 0
IsMagnitude64 m = IsInt64 m.num × IsInt64 m.den

-- candidate - baseline over the product of the denominators.
abbrev pub delta_num_of : Magnitude → Magnitude → ℤ
delta_num_of baseline candidate = (candidate.num *ℤ baseline.den) -ℤ (baseline.num *ℤ candidate.den)

abbrev pub delta_den_of : Magnitude → Magnitude → ℤ
delta_den_of baseline candidate = baseline.den *ℤ candidate.den

pub exact_delta-Gives :
    (b c : Magnitude)
    → IsMagnitude64 b
    → IsMagnitude64 c
    → (dn : ExactInt) × (dd : ExactInt) × (exact_delta b c ≡ in_range (dn, dd))
      × HasValue dn (delta_num_of b c) (2 ^ 127)
      × HasValue dd (delta_den_of b c) (2 ^ 126)
unfolding exact_delta
exact_delta-Gives b c hb hc =
    let bn = from_i64-HasValue b.num hb.0 in
    let bd = from_i64-HasValue b.den hb.1 in
    let cn = from_i64-HasValue c.num hc.0 in
    let cd = from_i64-HasValue c.den hc.1 in
    let d =
      try_mul-Gives (from_i64 b.den) (from_i64 c.den) b.den c.den (2 ^ 63) (2 ^ 63) bd cd
        (omega arith) in
    let l =
      try_mul-Gives (from_i64 c.num) (from_i64 b.den) c.num b.den (2 ^ 63) (2 ^ 63) cn bd
        (omega arith) in
    let r =
      try_mul-Gives (from_i64 b.num) (from_i64 c.den) b.num c.den (2 ^ 63) (2 ^ 63) bn cd
        (omega arith) in
    let s =
      try_sub-Gives l.0 r.0 (c.num *ℤ b.den) (b.num *ℤ c.den) (2 ^ 63 * 2 ^ 63) (2 ^ 63 * 2 ^ 63)
        l.2 r.2 (omega arith) in
    (s.0, d.0, rw (d.1, l.1, r.1, s.1) refl, s.2, d.2)

-- The tests of one left side against the right sides of the thresholds.
pub test_thresholds-none :
    (left : Ranged ExactInt) (right_of : Text → ExactInt → Ranged ExactInt) (what what_warn : Text)
    (threshold : ExactInt) (x y : ℤ) (m n : ℕ)
    → RangedGives left x m
    → RangedGives (right_of what threshold) y n
    → (f : Bool) × (test_thresholds left right_of what what_warn threshold none
        ≡ in_range (f, false))
      × ((f ≡ true) ↔ (x ≤ℤ y))
unfolding test_thresholds
test_thresholds-none left right_of what what_warn threshold x y m n (l, el, hl) (r, er, hr) =
    (at_most l r, rw (el, er) refl, at_most_iff l r x y m n hl hr)

pub test_thresholds-some :
    (left : Ranged ExactInt) (right_of : Text → ExactInt → Ranged ExactInt) (what what_warn : Text)
    (threshold warn_threshold : ExactInt) (x y z : ℤ) (m n : ℕ)
    → RangedGives left x m
    → RangedGives (right_of what threshold) y n
    → RangedGives (right_of what_warn warn_threshold) z n
    → (f : Bool) × (w : Bool) × (test_thresholds left right_of what what_warn threshold
          (some warn_threshold)
        ≡ in_range (f, w))
      × ((f ≡ true) ↔ (x ≤ℤ y))
      × ((w ≡ true) ↔ (x ≤ℤ z))
unfolding test_thresholds
test_thresholds-some left right_of what what_warn threshold warn_threshold x y z m n (l, el, hl)
      (r, er, hr) (w, ew, hw) =
    (
      at_most l r,
      at_most l w,
      rw (el, er, ew) refl,
      at_most_iff l r x y m n hl hr,
      at_most_iff l w x z m n hl hw,
    )
