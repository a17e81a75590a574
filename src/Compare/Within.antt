-- ===== src/Compare/Within.antt =====
-- The threshold tests of src/compare/tol.cpp as inequalities of unbounded integers.
use mediadiff.Base.{
  Bool, Bool-cases, Option, Returns, Text, abs_ℤ, ap, arith, false, inl, inr, none, pos, refl, some,
  text, true, ℤ, ◌*ℤ◌, ◌*◌, ◌^◌, ◌↔◌, ◌∙◌, ◌≡◌, ◌≤ℤ◌,
}
use mediadiff.Compare.Verdict.{
  Magnitude, Ranged, absolute_left, absolute_right, absolute_warn_what, absolute_what, delta_tests,
  in_range, ranged_then, relative_left, relative_right, relative_warn_what, relative_what,
  tests_for, threshold_tests, tolerance_tests,
}
use mediadiff.Compare.Verdicts.{
  HasValue, IsMagnitude64, RangedGives, abs-HasValue, delta_den_of, delta_num_of, exact_delta-Gives,
  from_i64-HasValue, range_then-Gives, test_thresholds-none, test_thresholds-some, try_mul-Gives,
  widen-Gives, widened_value,
}
use mediadiff.Core.CheckedArith.{IsInt64}
use mediadiff.Core.ExactInt.{ExactInt, abs, from_i64, try_mul}
use mediadiff.Core.Tolerance.{Tolerance}
use mathlib.Core.Bool.{false≢true}

-- Both sides of the inequality |delta| <= threshold, multiplied out; the relative one takes the
-- threshold as percent of the baseline.
abbrev pub left_value : Bool → ℤ → Magnitude → Magnitude → ℤ
left_value true den b c = (pos (abs_ℤ (delta_num_of b c)) *ℤ den) *ℤ pos 100
left_value false den b c = pos (abs_ℤ (delta_num_of b c)) *ℤ den

abbrev pub right_value : Bool → ℤ → Magnitude → Magnitude → ℤ
right_value true threshold b c = (threshold *ℤ pos (abs_ℤ b.num)) *ℤ c.den
right_value false threshold b c = threshold *ℤ delta_den_of b c

abbrev pub IsWithin : Tolerance → Bool → Magnitude → Magnitude → ℤ → Type 0
IsWithin t widened b c num =
    left_value t.is_relative t.den b c ≤ℤ right_value t.is_relative (widened_value widened num) b c

-- The property of a threshold, which no absent threshold has.
abbrev pub HoldsFor : (ℤ → Type 0) → Option ℤ → Type 0
HoldsFor P none = ⊥
HoldsFor P (some num) = P num

module _ (dn dd : ExactInt) (b c : Magnitude) (hb : IsMagnitude64 b) (hc : IsMagnitude64 c)
    (hn : HasValue dn (delta_num_of b c) (2 ^ 127)) (hd : HasValue dd (delta_den_of b c) (2 ^ 126))
    (den : ℤ) (hden : IsInt64 den) where
  absolute_left-Gives :
      RangedGives (absolute_left (abs dn) (from_i64 den)) (left_value false den b c) (2 ^ 190)
  unfolding absolute_left
  absolute_left-Gives =
      range_then-Gives _ (try_mul (abs dn) (from_i64 den)) (left_value false den b c) (2 ^ 190) (
        try_mul-Gives (abs dn) (from_i64 den) (pos (abs_ℤ (delta_num_of b c))) den (2 ^ 127)
          (2 ^ 63) (abs-HasValue dn (delta_num_of b c) (2 ^ 127) hn) (from_i64-HasValue den hden)
          (omega arith))

  absolute_right-Gives :
      (what : Text) (threshold : ExactInt) (v : ℤ)
      → HasValue threshold v (2 ^ 65)
      → RangedGives (absolute_right dd what threshold) (right_value false v b c) (2 ^ 191)
  unfolding absolute_right
  absolute_right-Gives what threshold v h =
      range_then-Gives what (try_mul threshold dd) (right_value false v b c) (2 ^ 191)
        (try_mul-Gives threshold dd v (delta_den_of b c) (2 ^ 65) (2 ^ 126) h hd (omega arith))

  relative_left-Gives :
      RangedGives (relative_left (abs dn) (from_i64 den)) (left_value true den b c) (2 ^ 253)
  unfolding relative_left
  relative_left-Gives =
      let l =
        try_mul-Gives (abs dn) (from_i64 den) (pos (abs_ℤ (delta_num_of b c))) den (2 ^ 127)
          (2 ^ 63) (abs-HasValue dn (delta_num_of b c) (2 ^ 127) hn) (from_i64-HasValue den hden)
          (omega arith) in
      let r =
        try_mul-Gives l.0 (from_i64 (pos 100)) (left_value false den b c) (pos 100)
          (2 ^ 127 * 2 ^ 63) (2 ^ 63) l.2 (from_i64-HasValue (pos 100) (omega arith))
          (omega arith) in
      (r.0, rw (l.1, r.1) refl, r.2)

  relative_right-Gives :
      (what : Text) (threshold : ExactInt) (v : ℤ)
      → HasValue threshold v (2 ^ 65)
      → RangedGives
          (relative_right (abs (from_i64 b.num)) (from_i64 c.den) what threshold)
          (right_value true v b c)
          (2 ^ 191)
  unfolding relative_right
  relative_right-Gives what threshold v h =
      let l =
        try_mul-Gives threshold (abs (from_i64 b.num)) v (pos (abs_ℤ b.num)) (2 ^ 65) (2 ^ 63) h
          (abs-HasValue (from_i64 b.num) b.num (2 ^ 63) (from_i64-HasValue b.num hb.0))
          (omega arith) in
      let r =
        try_mul-Gives l.0 (from_i64 c.den) (v *ℤ pos (abs_ℤ b.num)) c.den (2 ^ 65 * 2 ^ 63) (2 ^ 63)
          l.2 (from_i64-HasValue c.den hc.1) (omega arith) in
      (r.0, rw (l.1, r.1) refl, r.2)

  -- The tests of a left side against its right sides, for either kind of tolerance.
  threshold_tests-none :
      (t : Tolerance) (threshold : ExactInt) (v : ℤ)
      → t.den ≡ den
      → HasValue threshold v (2 ^ 65)
      → (f : Bool) × (threshold_tests t b c dn dd threshold none ≡ in_range (f, false))
        × ((f ≡ true) ↔ (left_value t.is_relative den b c ≤ℤ right_value t.is_relative v b c))
  unfolding threshold_tests
  threshold_tests-none t threshold v e h = elim (Bool-cases t.is_relative) [
    | inl rel ↦
        rw (rel, e)
          (test_thresholds-none (relative_left (abs dn) (from_i64 den))
            (relative_right (abs (from_i64 b.num)) (from_i64 c.den)) relative_what
            relative_warn_what threshold (left_value true den b c) (right_value true v b c)
            (2 ^ 253) (2 ^ 191) relative_left-Gives (relative_right-Gives _ threshold v h))
    | inr abl ↦
        rw (abl, e)
          (test_thresholds-none (absolute_left (abs dn) (from_i64 den)) (absolute_right dd)
            absolute_what absolute_warn_what threshold (left_value false den b c)
            (right_value false v b c) (2 ^ 190) (2 ^ 191) absolute_left-Gives
            (absolute_right-Gives _ threshold v h))
  ]

  threshold_tests-some :
      (t : Tolerance) (threshold warn_threshold : ExactInt) (v w : ℤ)
      → t.den ≡ den
      → HasValue threshold v (2 ^ 65)
      → HasValue warn_threshold w (2 ^ 65)
      → (f : Bool) × (g : Bool) × (threshold_tests t b c dn dd threshold (some warn_threshold)
          ≡ in_range (f, g))
        × ((f ≡ true) ↔ (left_value t.is_relative den b c ≤ℤ right_value t.is_relative v b c))
        × ((g ≡ true) ↔ (left_value t.is_relative den b c ≤ℤ right_value t.is_relative w b c))
  unfolding threshold_tests
  threshold_tests-some t threshold warn_threshold v w e h k = elim (Bool-cases t.is_relative) [
    | inl rel ↦
        rw (rel, e)
          (test_thresholds-some (relative_left (abs dn) (from_i64 den))
            (relative_right (abs (from_i64 b.num)) (from_i64 c.den)) relative_what
            relative_warn_what threshold warn_threshold (left_value true den b c)
            (right_value true v b c) (right_value true w b c) (2 ^ 253) (2 ^ 191)
            relative_left-Gives (relative_right-Gives _ threshold v h)
            (relative_right-Gives _ warn_threshold w k))
    | inr abl ↦
        rw (abl, e)
          (test_thresholds-some (absolute_left (abs dn) (from_i64 den)) (absolute_right dd)
            absolute_what absolute_warn_what threshold warn_threshold (left_value false den b c)
            (right_value false v b c) (right_value false w b c) (2 ^ 190) (2 ^ 191)
            absolute_left-Gives (absolute_right-Gives _ threshold v h)
            (absolute_right-Gives _ warn_threshold w k))
  ]

-- What the two tests decide.
abbrev pub Decides :
    Tolerance → Bool → Magnitude → Magnitude → Option ℤ → Ranged (Bool × Bool) → Type 0
Decides t widened b c warn_num result =
    (f : Bool) × (g : Bool) × (result ≡ in_range (f, g))
    × ((f ≡ true) ↔ IsWithin t widened b c t.num)
    × ((g ≡ true) ↔ HoldsFor (IsWithin t widened b c) warn_num)

tests_for-Decides :
    (t : Tolerance) (widened : Bool) (b c : Magnitude) (dn dd threshold : ExactInt)
    (warn_num : Option ℤ)
    → IsMagnitude64 b
    → IsMagnitude64 c
    → IsInt64 t.den
    → HasValue dn (delta_num_of b c) (2 ^ 127)
    → HasValue dd (delta_den_of b c) (2 ^ 126)
    → HasValue threshold (widened_value widened t.num) (2 ^ 65)
    → Returns IsInt64 warn_num
    → Decides t widened b c warn_num (tests_for t widened b c (dn, dd) threshold warn_num)
tests_for-Decides t widened b c dn dd threshold none hb hc ht hn hd h w =
    let r =
      threshold_tests-none dn dd b c hb hc hn hd t.den ht t threshold (widened_value widened t.num)
        refl h in
    (r.0, false, r.1, r.2, (λ e. absurd (false≢true e), λ n. absurd n))
tests_for-Decides t widened b c dn dd threshold (some warn_num) hb hc ht hn hd h w =
    let k =
      widen-Gives (text "estimated-measurement tolerance widening (warn threshold * 3)") widened
        warn_num w in
    let r =
      threshold_tests-some dn dd b c hb hc hn hd t.den ht t threshold k.0
        (widened_value widened t.num) (widened_value widened warn_num) refl h k.2 in
    (
      r.0,
      r.1,
      ap (λ o. ranged_then o λ q. threshold_tests t b c dn dd threshold (some q)) k.1 ∙ r.2,
      r.3,
      r.4,
    )

pub delta_tests-Decides :
    (t : Tolerance) (widened : Bool) (b c : Magnitude) (dn dd : ExactInt)
    → IsMagnitude64 b
    → IsMagnitude64 c
    → HasValue dn (delta_num_of b c) (2 ^ 127)
    → HasValue dd (delta_den_of b c) (2 ^ 126)
    → IsInt64 t.num
    → IsInt64 t.den
    → Returns IsInt64 t.warn_num
    → Decides t widened b c t.warn_num (delta_tests t widened b c (dn, dd))
delta_tests-Decides t widened b c dn dd hb hc hn hd hnum hden hwarn =
    let k =
      widen-Gives (text "estimated-measurement tolerance widening (fail threshold * 3)") widened
        t.num hnum in
    let r = tests_for-Decides t widened b c dn dd k.0 t.warn_num hb hc hden hn hd k.2 hwarn in
    (r.0, r.1, rw k.1 r.2, r.3, r.4)

-- For two magnitudes and a tolerance of int64_t operands, whatever their values, the threshold
-- tests never leave the 256-bit range, and each is true exactly when the difference of the
-- magnitudes, multiplied out over unbounded integers, is within its threshold, three times as large
-- for an estimated measurement.
pub tolerance_tests-Decides :
    (t : Tolerance) (widened : Bool) (b c : Magnitude)
    → IsMagnitude64 b
    → IsMagnitude64 c
    → IsInt64 t.num
    → IsInt64 t.den
    → Returns IsInt64 t.warn_num
    → Decides t widened b c t.warn_num (tolerance_tests t widened b c)
unfolding tolerance_tests
tolerance_tests-Decides t widened b c hb hc hnum hden hwarn =
    let d = exact_delta-Gives b c hb hc in
    let r = delta_tests-Decides t widened b c d.0 d.1 hb hc d.3 d.4 hnum hden hwarn in
    (r.0, r.1, ap (λ o. ranged_then o (delta_tests t widened b c)) d.2 ∙ r.2, r.3, r.4)
