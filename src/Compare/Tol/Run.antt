-- ===== src/Compare/Tol/Run.antt =====
-- The finding of `compare_tol`, src/compare/tol.cpp.
use mediadiff.Base.{
  Bool, Expected, Option, Text, and_then, false, if◌then◌else◌, is_some, none, not, ok, some, text,
  text_eq, thrown, true, ℤ, ◌&&◌, ◌++◌, ◌>>=◌, ◌||◌,
}
use mediadiff.Compare.{Comparator, start_finding}
use mediadiff.Compare.Tol.{
  AdjustedMagnitudePreference, Outcome, TolComparison, adjusted_magnitude_den, adjusted_pair,
  apply_ceiling_escalation, apply_end_delta_gate, compare_pair, delta_message, end_delta_gate,
  extract_pair, gated, no_preference, sign_text, unit_text, zone_outcome,
}
use mediadiff.Compare.Verdict.{Magnitude, Ranged, in_range, out_of_range}
use mediadiff.Core.Model.{Finding, Measurement, Vendor, errored}
use mediadiff.Core.Policy.{Policy}
use mediadiff.Core.Policy.Resolve.{resolve_severity}
use mediadiff.Core.Registry.{CheckDef, Severity, tolerance_for, unit_suffix}
use mediadiff.Core.Tolerance.{Tolerance, parse_tolerance}

abbrev pub overflow_message : Text → Text
overflow_message what =
    text "tol comparator: "
    ++ what
    ++ text " overflowed int64_t during cross-multiplication; cannot determine a verdict"

abbrev pub range_message : Text → Text
range_message what =
    text "tol comparator: "
    ++ what
    ++ text " exceeded the comparator's 256-bit exact range; cannot determine a verdict"

-- An error with its message where a computation left its range.
abbrev pub or_errored : {A : Type 0} → (Text → Text) → Ranged A → (A → Outcome) → Outcome
or_errored message (in_range a) rest = rest a
or_errored message (out_of_range what) rest = record { status = errored; message = message what }

module _ (V : Vendor) where
  -- `contains` and the type test of a member of the evidence; nothing where it is no object.
  abbrev pub evidence_member : V.Json → Text → Option V.Json
  evidence_member evidence name = if V.is_object evidence then V.member evidence name else none

  unfoldable pub side_end_delta_ms : Measurement V.Json → Option ℤ
  side_end_delta_ms side = and_then (evidence_member side.evidence (text "end_delta_ms")) V.as_int64

  unfoldable pub side_ceiling_state : Measurement V.Json → Option Text
  side_ceiling_state side =
      and_then (evidence_member side.evidence (text "ceiling_state")) V.as_string

  abbrev pub is_state : Text → Option Text → Bool
  is_state name none = false
  is_state name (some s) = text_eq s name

  unfoldable pub ceiling_crossed_upward : Measurement V.Json → Measurement V.Json → Bool
  unfolding side_ceiling_state
  ceiling_crossed_upward baseline candidate =
      is_state (text "under") (side_ceiling_state baseline)
      && is_state (text "above") (side_ceiling_state candidate)

  -- The adjusted magnitude under a name, where the basis under another one is "adjusted"; `value`
  -- throws where the basis is there and no string.
  abbrev pub adjusted_under :
      V.Json
      → Text
      → Text
      → Option ℤ
      → Expected AdjustedMagnitudePreference
      → Expected AdjustedMagnitudePreference
  adjusted_under evidence basis name den otherwise = elim (V.value_string evidence basis) [
    | none ↦ thrown
    | some value ↦
        if text_eq value (text "adjusted")
        then elim (and_then (V.member evidence name) V.as_int64) [
          | none ↦ otherwise
          | some num ↦ ok (record { prefers_adjusted = true; num = num; den = den })
        ]
        else otherwise
  ]

  unfoldable pub side_adjusted_preference :
      Measurement V.Json → Expected AdjustedMagnitudePreference
  side_adjusted_preference side =
      if not (V.is_object side.evidence)
      then ok no_preference
      else adjusted_under side.evidence (text "comparison_basis") (text "adjusted_offset_ms") none (
          adjusted_under side.evidence (text "span_basis") (text "adjusted_magnitude")
            (some adjusted_magnitude_den) (ok no_preference))

  unfoldable pub tol_outcome :
      CheckDef → Severity → Tolerance → Bool → Bool → Bool → Text → TolComparison → Outcome
  unfolding zone_outcome apply_end_delta_gate apply_ceiling_escalation delta_message unit_suffix
  tol_outcome check severity tolerance clears crossed widened sign comparison =
      apply_ceiling_escalation crossed comparison.material (
        gated (is_some tolerance.warn_num) clears comparison.tests (
          zone_outcome
            (λ zone. delta_message sign comparison.delta (unit_text tolerance check) zone widened)
            widened severity (is_some tolerance.warn_num) comparison.tests))

  -- The outcome over a magnitude pair, once the gate is known.
  abbrev pub gated_outcome :
      CheckDef
      → Measurement V.Json
      → Measurement V.Json
      → Severity
      → Tolerance
      → Magnitude × Magnitude
      → Bool
      → Outcome
  gated_outcome check baseline candidate severity tolerance (b, c) clears =
      let crossed = ceiling_crossed_upward baseline candidate in
      let widened = baseline.estimated || candidate.estimated in
      or_errored range_message (compare_pair tolerance crossed widened b c)
        (tol_outcome check severity tolerance clears crossed widened (sign_text b c))

  unfoldable pub compared_outcome :
      CheckDef
      → Measurement V.Json
      → Measurement V.Json
      → Severity
      → Tolerance
      → Magnitude × Magnitude
      → Outcome
  unfolding end_delta_gate compare_pair tol_outcome ceiling_crossed_upward side_end_delta_ms
      sign_text
  compared_outcome check baseline candidate severity tolerance pair =
      or_errored overflow_message
        (end_delta_gate (side_end_delta_ms baseline) (side_end_delta_ms candidate))
        (gated_outcome check baseline candidate severity tolerance pair)

  abbrev pub outcome_finding :
      CheckDef → Measurement V.Json → Measurement V.Json → Policy → Outcome → Finding V.Json
  outcome_finding check baseline candidate policy outcome =
      start_finding V check baseline candidate policy outcome.status outcome.message

  unfoldable pub compare_tol : Comparator V.Json
  unfolding start_finding parse_tolerance tolerance_for extract_pair side_adjusted_preference
      adjusted_pair compared_outcome
  compare_tol check baseline candidate policy =
      parse_tolerance (tolerance_for check policy.profile) check.unit >>= (λ tolerance.
        extract_pair baseline.value candidate.value >>= (λ magnitudes.
          side_adjusted_preference baseline >>= (λ baseline_preference.
            side_adjusted_preference candidate >>= (λ candidate_preference. ok (
              outcome_finding check baseline candidate policy (
                compared_outcome check baseline candidate (resolve_severity check policy) tolerance
                  (adjusted_pair baseline_preference candidate_preference magnitudes)))))))
