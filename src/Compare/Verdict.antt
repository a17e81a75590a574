-- ===== src/Compare/Verdict.antt =====
-- The exact part of src/compare/tol.cpp: the difference of two magnitudes, the ceiling crossing and
-- the two threshold tests, on 256-bit integers.
use mediadiff.Base.{Bool, Option, Text, false, if◌then◌else◌, leb_ℤ, none, pos, some, text, true, ℤ}
use mediadiff.Compare.{escalate}
use mediadiff.Core.ExactInt.{ExactInt, abs, compare_exact_int, from_i64, try_mul, try_sub}
use mediadiff.Core.Model.{Status, Value, failed, int64_value, passed, rational_value, warned}
use mediadiff.Core.Registry.{Severity}
use mediadiff.Core.Ticks.{Rational}
use mediadiff.Core.Tolerance.{Tolerance}

-- `Magnitude`; its time base only gives the sign of the message.
pub record Magnitude : Type 0 where
  pub num : ℤ
  pub den : ℤ
  pub tb : Rational

unfoldable pub extract_magnitude : Value → Option Magnitude
extract_magnitude (rational_value r) = some (record { num = r.num; den = r.den; tb = r.tb })
extract_magnitude (int64_value i) =
    some (record { num = i; den = pos 1; tb = record { num = pos 1; den = pos 1 } })
extract_magnitude _ = none

-- A result, or what left the 256-bit range: `range_finding`.
pub data Ranged (A : Type 0) : Type 0 where
  in_range : A → Ranged A
  out_of_range : Text → Ranged A

-- `if (!ExactInt::try_…(…, &r)) return range_finding(what); …`
abbrev pub range_then : {A B : Type 0} → Text → Option A → (A → Ranged B) → Ranged B
range_then what none rest = out_of_range what
range_then what (some a) rest = rest a

-- candidate - baseline over the product of the denominators.
unfoldable pub exact_delta : Magnitude → Magnitude → Ranged (ExactInt × ExactInt)
unfolding from_i64 try_mul try_sub
exact_delta baseline candidate =
    range_then (text "delta_den (baseline_den * candidate_den)")
      (try_mul (from_i64 baseline.den) (from_i64 candidate.den))
      λ delta_den.
        range_then (text "delta_num (num * den cross-products)")
          (try_mul (from_i64 candidate.num) (from_i64 baseline.den))
          λ lhs.
            range_then (text "delta_num (num * den cross-products)")
              (try_mul (from_i64 baseline.num) (from_i64 candidate.den))
              λ rhs.
                range_then (text "delta_num (cross-product subtraction)") (try_sub lhs rhs)
                  λ delta_num. in_range (delta_num, delta_den)

-- A threshold, three times as large for an estimated measurement: `kEstimatedToleranceFactor`.
unfoldable pub widen : Text → Bool → ℤ → Ranged ExactInt
unfolding from_i64 try_mul
widen what widened num =
    if widened
    then range_then what (try_mul (from_i64 num) (from_i64 (pos 3))) in_range
    else in_range (from_i64 num)

abbrev pub at_most : ExactInt → ExactInt → Bool
at_most lhs rhs = leb_ℤ (compare_exact_int lhs rhs) (pos 0)

abbrev pub ranged_then : {A B : Type 0} → Ranged A → (A → Ranged B) → Ranged B
ranged_then (in_range a) rest = rest a
ranged_then (out_of_range what) rest = out_of_range what

-- The two tests, `within_fail` and `within_warn`; the second is false without a warn threshold.
unfoldable pub test_thresholds :
    Ranged ExactInt
    → (Text → ExactInt → Ranged ExactInt)
    → Text
    → Text
    → ExactInt
    → Option ExactInt
    → Ranged (Bool × Bool)
unfolding compare_exact_int
test_thresholds left right_of what what_warn threshold none =
    ranged_then left
      λ lhs. ranged_then (right_of what threshold) λ rhs. in_range (at_most lhs rhs, false)
test_thresholds left right_of what what_warn threshold (some warn_threshold) =
    ranged_then left λ lhs. ranged_then (right_of what threshold) λ rhs.
      ranged_then (right_of what_warn warn_threshold)
        λ rhs_warn. in_range (at_most lhs rhs, at_most lhs rhs_warn)

-- |delta| * tolerance_den, against threshold * delta_den.
unfoldable pub absolute_left : ExactInt → ExactInt → Ranged ExactInt
unfolding try_mul
absolute_left abs_delta_num tolerance_den =
    range_then (text "absolute-tolerance lhs (|delta| * tolerance_den)")
      (try_mul abs_delta_num tolerance_den) in_range

unfoldable pub absolute_right : ExactInt → Text → ExactInt → Ranged ExactInt
unfolding try_mul
absolute_right delta_den what threshold = range_then what (try_mul threshold delta_den) in_range

-- |delta| * tolerance_den * 100, against percent * |baseline| * candidate_den.
unfoldable pub relative_left : ExactInt → ExactInt → Ranged ExactInt
unfolding try_mul from_i64
relative_left abs_delta_num tolerance_den =
    range_then (text "relative-tolerance lhs (|delta| * tolerance_den * 100)")
      (try_mul abs_delta_num tolerance_den)
      λ lhs.
        range_then (text "relative-tolerance lhs (|delta| * tolerance_den * 100)")
          (try_mul lhs (from_i64 (pos 100))) in_range

unfoldable pub relative_right : ExactInt → ExactInt → Text → ExactInt → Ranged ExactInt
unfolding try_mul
relative_right abs_baseline_num candidate_den what threshold =
    range_then what (try_mul threshold abs_baseline_num)
      λ rhs. range_then what (try_mul rhs candidate_den) in_range

-- What a product that left the range is called.
abbrev pub relative_what : Text
relative_what = text "relative-tolerance rhs (tolerance_num * |baseline| * candidate_den)"

abbrev pub relative_warn_what : Text
relative_warn_what = text "relative-tolerance warn rhs (warn_num * |baseline| * candidate_den)"

abbrev pub absolute_what : Text
absolute_what = text "absolute-tolerance rhs (tolerance_num * delta_den)"

abbrev pub absolute_warn_what : Text
absolute_warn_what = text "absolute-tolerance warn rhs (warn_num * delta_den)"

unfoldable pub threshold_tests :
    Tolerance
    → Magnitude
    → Magnitude
    → ExactInt
    → ExactInt
    → ExactInt
    → Option ExactInt
    → Ranged (Bool × Bool)
unfolding test_thresholds absolute_left absolute_right relative_left relative_right abs from_i64
threshold_tests tolerance baseline candidate delta_num delta_den threshold warn_threshold =
    if tolerance.is_relative
    then test_thresholds (relative_left (abs delta_num) (from_i64 tolerance.den))
        (relative_right (abs (from_i64 baseline.num)) (from_i64 candidate.den)) relative_what
        relative_warn_what threshold warn_threshold
    else test_thresholds (absolute_left (abs delta_num) (from_i64 tolerance.den))
        (absolute_right delta_den) absolute_what absolute_warn_what threshold warn_threshold

-- With a warn threshold the zone decides, without one the check's severity does.
abbrev pub tolerance_verdict : Severity → Bool → Bool × Bool → Status
tolerance_verdict severity true (within_fail, within_warn) =
    if within_warn then passed else if within_fail then warned else failed
tolerance_verdict severity false (within_fail, within_warn) =
    if within_fail then passed else escalate severity

abbrev pub tests_for :
    Tolerance
    → Bool
    → Magnitude
    → Magnitude
    → ExactInt × ExactInt
    → ExactInt
    → Option ℤ
    → Ranged (Bool × Bool)
tests_for tolerance widened baseline candidate (delta_num, delta_den) threshold none =
    threshold_tests tolerance baseline candidate delta_num delta_den threshold none
tests_for tolerance widened baseline candidate (delta_num, delta_den) threshold (some warn_num) =
    ranged_then
      (widen (text "estimated-measurement tolerance widening (warn threshold * 3)") widened
        warn_num)
      λ warn_threshold.
        threshold_tests tolerance baseline candidate delta_num delta_den threshold
          (some warn_threshold)

-- `within_fail` and `within_warn` of a difference; `widened` if a measurement is estimated.
abbrev pub delta_tests :
    Tolerance → Bool → Magnitude → Magnitude → ExactInt × ExactInt → Ranged (Bool × Bool)
delta_tests tolerance widened baseline candidate delta =
    ranged_then
      (widen (text "estimated-measurement tolerance widening (fail threshold * 3)") widened
        tolerance.num)
      λ threshold. tests_for tolerance widened baseline candidate delta threshold tolerance.warn_num

unfoldable pub tolerance_tests : Tolerance → Bool → Magnitude → Magnitude → Ranged (Bool × Bool)
unfolding exact_delta widen threshold_tests
tolerance_tests tolerance widened baseline candidate =
    ranged_then (exact_delta baseline candidate)
      λ delta. delta_tests tolerance widened baseline candidate delta
