-- ===== src/Compare/Exact.antt =====
-- src/compare/exact.cpp. The two products of `derive_transform_target` are not checked in C++; an
-- overflow is undefined there, and the model keeps the true product.
use mediadiff.Base.{
  Bool, Error, Expected, Option, Text, eqb_ℤ, err, false, if◌then◌else◌, internal, none, not, ok,
  pos, some, text, usage, ℤ, ◌&&◌, ◌*ℤ◌, ◌++◌, ◌-ℤ◌, ◌>>=◌, ◌||◌,
}
use mediadiff.Compare.{Comparator, escalate, start_finding}
use mediadiff.Compare.Values.{value_eq}
use mediadiff.Core.CheckedArith.{trunc_div}
use mediadiff.Core.Model.{Finding, Measurement, Value, Vendor, passed, string_value}
use mediadiff.Core.Policy.{Policy, to_string}
use mediadiff.Core.Policy.Resolve.{resolve_severity}
use mediadiff.Core.Profiles.{
  Dimensions, ResolutionExpectation, parse_dimensions, parse_resolution_expectation,
}
use mediadiff.Core.Registry.{CheckDef, profile_eq, transform}

unfoldable pub rem_ℤ : ℤ → ℤ → ℤ
unfolding ◌-ℤ◌ ◌*ℤ◌
rem_ℤ a b = a -ℤ trunc_div a b *ℤ b

abbrev pub dimensions_eq : Dimensions → Dimensions → Bool
dimensions_eq a b = eqb_ℤ a.width b.width && eqb_ℤ a.height b.height

unfoldable pub dimensions_text : Dimensions → Text
unfolding to_string
dimensions_text d = to_string d.width ++ text "x" ++ to_string d.height

unfoldable pub inexact_error : Text → Dimensions → Error
unfolding dimensions_text
inexact_error raw baseline = record {
  kind = usage;
  message =
      text "transform expectation '"
      ++ raw
      ++ text "' applied to baseline resolution "
      ++ dimensions_text baseline
      ++ text " does not derive an exact integer resolution";
}

abbrev pub not_a_string_error : Error
not_a_string_error = record {
  kind = internal;
  message = text "transform-affected check's baseline value is not a resolution string";
}

abbrev pub not_a_resolution_error : Error
not_a_resolution_error = record {
  kind = internal;
  message =
      text "transform-affected check's baseline value is not a \"WIDTHxHEIGHT\" resolution string";
}

-- The baseline's dimensions times the scale, where both are whole numbers.
unfoldable pub scaled_target :
    ResolutionExpectation → Text → Option Dimensions → Expected Dimensions
unfolding ◌*ℤ◌ rem_ℤ inexact_error
scaled_target expectation raw none = err not_a_resolution_error
scaled_target expectation raw (some baseline) =
    let width_num = baseline.width *ℤ expectation.scale_num in
    let height_num = baseline.height *ℤ expectation.scale_num in
    if not (eqb_ℤ (rem_ℤ width_num expectation.scale_den) (pos 0))
      || not (eqb_ℤ (rem_ℤ height_num expectation.scale_den) (pos 0))
    then err (inexact_error raw baseline)
    else ok (record {
      width = trunc_div width_num expectation.scale_den;
      height = trunc_div height_num expectation.scale_den;
    })

abbrev pub scaled_baseline : ResolutionExpectation → Text → Value → Expected Dimensions
scaled_baseline expectation raw (string_value baseline_text) =
    scaled_target expectation raw (parse_dimensions baseline_text)
scaled_baseline expectation raw _ = err not_a_string_error

unfoldable pub derive_transform_target : ResolutionExpectation → Text → Value → Expected Dimensions
unfolding scaled_target parse_dimensions
derive_transform_target expectation raw baseline =
    if not expectation.is_scale_factor
    then ok expectation.absolute
    else scaled_baseline expectation raw baseline

-- The candidate's dimensions are there and the expected ones.
abbrev pub matches_target : Value → Dimensions → Bool
matches_target (string_value candidate_text) target = elim (parse_dimensions candidate_text) [
  | none ↦ false
  | some dims ↦ dimensions_eq dims target
]
matches_target _ target = false

-- The resolution that the policy expects of the check, where the `transform` profile is active.
abbrev pub active_expectation : CheckDef → Policy → Option Text
active_expectation check policy =
    if profile_eq policy.profile transform && check.transform_affected
    then policy.transform_expectation.resolution
    else none

module _ (V : Vendor) where
  unfoldable pub target_finding :
      CheckDef → Measurement V.Json → Measurement V.Json → Policy → Dimensions → Finding V.Json
  unfolding start_finding dimensions_text parse_dimensions
  target_finding check baseline candidate policy target =
      if matches_target candidate.value target
      then start_finding V check baseline candidate policy passed
          (text "candidate resolution matches derived expectation " ++ dimensions_text target)
      else start_finding V check baseline candidate policy
          (escalate (resolve_severity check policy))
          (text "candidate resolution does not match derived expectation "
            ++ dimensions_text target)

  unfoldable pub equality_finding :
      CheckDef → Measurement V.Json → Measurement V.Json → Policy → Finding V.Json
  unfolding start_finding value_eq
  equality_finding check baseline candidate policy =
      if value_eq baseline.value candidate.value
      then start_finding V check baseline candidate policy passed (text "values match")
      else start_finding V check baseline candidate policy
          (escalate (resolve_severity check policy)) (text "values differ")

  abbrev pub exact_against : Option Text → Comparator V.Json
  exact_against none check baseline candidate policy =
      ok (equality_finding check baseline candidate policy)
  exact_against (some raw) check baseline candidate policy =
      parse_resolution_expectation raw >>= (λ expectation.
        derive_transform_target expectation raw baseline.value
        >>= (λ target. ok (target_finding check baseline candidate policy target)))

  unfoldable pub compare_exact : Comparator V.Json
  unfolding parse_resolution_expectation derive_transform_target target_finding equality_finding
  compare_exact check baseline candidate policy =
      exact_against (active_expectation check policy) check baseline candidate policy
