-- ===== src/Compare/Tol.antt =====
-- `compare_tol` of src/compare/tol.cpp, around the threshold tests: the adjusted magnitudes, the
-- gate on the end delta and the crossing of a ceiling, which the sides' evidence asks for.
-- `AdjustedMagnitudePreference`.
pub mod Run
pub mod Gates
pub mod Compared
use mediadiff.Base.{
  Bool, Error, Expected, Option, Text, [], err, false, if◌then◌else◌, internal, leb_ℤ, ltb_ℤ, none,
  not, ok, pos, some, text, true, ℤ, ◌&&◌, ◌++◌,
}
use mediadiff.Compare.{escalate}
use mediadiff.Compare.Verdict.{
  Magnitude, Ranged, delta_tests, exact_delta, extract_magnitude, in_range, range_then, ranged_then,
  threshold_tests, widen,
}
use mediadiff.Core.CheckedArith.{checked_negate, checked_sub}
use mediadiff.Core.ExactInt.{ExactInt, abs, compare_exact_int, from_i64, to_decimal, try_mul}
use mediadiff.Core.Model.{Status, Value, failed, passed, warned}
use mediadiff.Core.Registry.{CheckDef, Severity, size, unit_suffix}
use mediadiff.Core.Ticks.{compare_ticks}
use mediadiff.Core.Tolerance.{Tolerance}

pub record AdjustedMagnitudePreference : Type 0 where
  pub prefers_adjusted : Bool
  pub num : ℤ
  pub den : Option ℤ

abbrev pub no_preference : AdjustedMagnitudePreference
no_preference = record { prefers_adjusted = false; num = pos 0; den = none }

-- `kDriftAdjustedMagnitudeDen` and `kDriftEpsilonMs`.
abbrev pub adjusted_magnitude_den : ℤ
adjusted_magnitude_den = pos 1000000000

abbrev pub drift_epsilon_ms : ℤ
drift_epsilon_ms = pos 2

-- `kCeilingCrossingDeadbandNum` over `kCeilingCrossingDeadbandDen`.
abbrev pub deadband_num : ℤ
deadband_num = pos 10

abbrev pub deadband_den : ℤ
deadband_den = pos 1000

abbrev pub with_den : Option ℤ → Magnitude → Magnitude
with_den none m = m
with_den (some den) m = record m { den = den }

abbrev pub adjust : AdjustedMagnitudePreference → Magnitude → Magnitude
adjust preference m = with_den preference.den (record m { num = preference.num })

-- The adjusted magnitudes, where both sides prefer them.
unfoldable pub adjusted_pair :
    AdjustedMagnitudePreference
    → AdjustedMagnitudePreference
    → Magnitude × Magnitude
    → Magnitude × Magnitude
adjusted_pair baseline candidate (b, c) =
    if baseline.prefers_adjusted && candidate.prefers_adjusted
    then (adjust baseline b, adjust candidate c)
    else (b, c)

unfoldable pub extract_pair : Value → Value → Expected (Magnitude × Magnitude)
unfolding extract_magnitude
extract_pair baseline candidate = elim (extract_magnitude baseline) [
  | none ↦ err unsupported
  | some b ↦ elim (extract_magnitude candidate) [ none ↦ err unsupported | some c ↦ ok (b, c) ]
]
  where
    unsupported : Error
    unsupported = record {
      kind = internal;
      message = text "tol comparator received an unsupported value kind";
    }

unfoldable pub sign_text : Magnitude → Magnitude → Text
unfolding compare_ticks
sign_text baseline candidate =
    let order =
      compare_ticks (record { value = candidate.num; tb = candidate.tb })
        (record { value = baseline.num; tb = baseline.tb }) in
    if ltb_ℤ (pos 0) order then text "+" else if ltb_ℤ order (pos 0) then text "-" else []

-- The size of a change of the end delta.
unfoldable pub abs_change : ℤ → Option ℤ
unfolding checked_negate
abs_change change = if ltb_ℤ change (pos 0) then checked_negate change else some change

-- Whether the end delta changed by the epsilon or more; `out_of_range` where that overflows.
unfoldable pub end_delta_gate : Option ℤ → Option ℤ → Ranged Bool
unfolding checked_sub abs_change
end_delta_gate (some baseline) (some candidate) =
    range_then (text "end_delta_change (D-07 gate)") (checked_sub candidate baseline) (λ change.
      range_then (text "abs_end_delta_change (D-07 gate)") (abs_change change)
        λ size. in_range (leb_ℤ drift_epsilon_ms size))
end_delta_gate _ _ = in_range true

-- The rise of a crossing is at least the deadband; false without a crossing.
unfoldable pub crossing_material : Bool → ExactInt × ExactInt → Ranged Bool
unfolding try_mul from_i64 compare_exact_int
crossing_material crossed (delta_num, delta_den) =
    let what = text "ceiling crossing deadband comparison (delta * deadband cross-product)" in
    if crossed
    then range_then what (try_mul delta_num (from_i64 deadband_den)) (λ lhs.
      range_then what (try_mul (from_i64 deadband_num) delta_den)
        λ rhs. in_range (leb_ℤ (pos 0) (compare_exact_int lhs rhs)))
    else in_range false

-- What the messages and the status are made of.
pub record TolComparison : Type 0 where
  pub delta : ExactInt × ExactInt
  pub material : Bool
  pub tests : Bool × Bool

abbrev pub with_tests : ExactInt × ExactInt → Bool → Bool × Bool → Ranged TolComparison
with_tests delta material tests =
    in_range (record { delta = delta; material = material; tests = tests })

abbrev pub with_material :
    Tolerance → Bool → Magnitude → Magnitude → ExactInt × ExactInt → Bool → Ranged TolComparison
with_material tolerance widened baseline candidate delta material =
    ranged_then (delta_tests tolerance widened baseline candidate delta) (with_tests delta material)

abbrev pub with_delta :
    Tolerance → Bool → Bool → Magnitude → Magnitude → ExactInt × ExactInt → Ranged TolComparison
with_delta tolerance crossed widened baseline candidate delta =
    ranged_then (crossing_material crossed delta)
      (with_material tolerance widened baseline candidate delta)

unfoldable pub compare_pair : Tolerance → Bool → Bool → Magnitude → Magnitude → Ranged TolComparison
unfolding exact_delta crossing_material widen threshold_tests
compare_pair tolerance crossed widened baseline candidate =
    ranged_then (exact_delta baseline candidate)
      (with_delta tolerance crossed widened baseline candidate)

-- `finding.status` and `finding.message`.
pub record Outcome : Type 0 where
  pub status : Status
  pub message : Text

abbrev pub status_is_pass : Status → Bool
status_is_pass passed = true
status_is_pass _ = false

unfoldable pub apply_end_delta_gate : Bool → Outcome → Outcome
apply_end_delta_gate clears outcome =
    if not clears && not (status_is_pass outcome.status)
    then record {
      status = passed;
      message =
          outcome.message ++ text " (D-07: end delta change below 2ms epsilon, rate delta ignored)";
    }
    else outcome

unfoldable pub apply_ceiling_escalation : Bool → Bool → Outcome → Outcome
apply_ceiling_escalation crossed material outcome =
    if not crossed
    then outcome
    else if material
    then record {
      status = failed;
      message =
          outcome.message
          ++ text " (asymmetric ceiling crossing: baseline under, candidate above -- escalated "
          ++ text "regardless of tolerance)";
    }
    else record {
      status = outcome.status;
      message =
          outcome.message
          ++ text " (ceiling crossing inside the 0.010 deadband: baseline under, candidate above, "
          ++ text "rise below the deadband -- not escalated)";
    }

abbrev pub widened_suffix : Bool → Text
widened_suffix widened =
    if widened then text " (estimated measurement, tolerance widened 3x)" else []

-- `delta <sign><num>/<den><unit><zone><suffix>`.
unfoldable pub delta_message : Text → ExactInt × ExactInt → Text → Text → Bool → Text
unfolding to_decimal abs
delta_message sign (delta_num, delta_den) unit zone widened =
    text "delta "
    ++ sign
    ++ to_decimal (abs delta_num)
    ++ text "/"
    ++ to_decimal delta_den
    ++ unit
    ++ zone
    ++ widened_suffix widened

abbrev pub unit_text : Tolerance → CheckDef → Text
unit_text tolerance check = if tolerance.is_relative then text "%" else unit_suffix check.unit

-- The zone of the two thresholds, or the single threshold and the severity.
unfoldable pub zone_outcome : (Text → Text) → Bool → Severity → Bool → Bool × Bool → Outcome
zone_outcome message_of widened severity true (within_fail, within_warn) =
    if within_warn
    then record { status = passed; message = message_of (text " within warn threshold") }
    else if within_fail
    then record { status = warned; message = message_of (text " between warn and fail thresholds") }
    else record { status = failed; message = message_of (text " beyond fail threshold") }
zone_outcome message_of widened severity false (within_fail, within_warn) =
    if within_fail
    then record {
      status = passed;
      message = text "delta within tolerance" ++ widened_suffix widened;
    }
    else record { status = escalate severity; message = message_of (text " exceeds tolerance") }

-- A finding that passes its single threshold is not gated.
abbrev pub gated : Bool → Bool → Bool × Bool → Outcome → Outcome
gated has_warn clears (within_fail, within_warn) outcome =
    if not has_warn && within_fail then outcome else apply_end_delta_gate clears outcome
