-- ===== src/Compare/Tol/Compared.antt =====
-- What `compare_tol` of src/compare/tol.cpp decides about two measurements.
-- The tests of a finding and what they mean.
use mediadiff.Base.{
  Accepts, Bool, Option, Returns, arith, is_some, none, ok, refl, some, subst, true, ℤ, ◌||◌, ◌↔◌,
  ◌≡◌, ◌≤ℤ◌,
}
use mediadiff.Compare.{start_finding}
use mediadiff.Compare.Tol.{
  AdjustedMagnitudePreference, adjusted_pair, end_delta_gate, extract_pair, sign_text,
}
use mediadiff.Compare.Tol.Gates.{IsMaterial, compare_pair-Compares, tol_outcome-status, tol_status}
use mediadiff.Compare.Tol.Run.{
  ceiling_crossed_upward, compare_tol, compared_outcome, outcome_finding, side_adjusted_preference,
  side_end_delta_ms,
}
use mediadiff.Compare.Verdict.{Magnitude, in_range}
use mediadiff.Compare.Verdicts.{IsMagnitude64}
use mediadiff.Compare.Within.{HoldsFor, IsWithin}
use mediadiff.Core.CheckedArith.{IsInt64}
use mediadiff.Core.Model.{Finding, Measurement, Status, Vendor}
use mediadiff.Core.Policy.{Policy}
use mediadiff.Core.Policy.Resolve.{resolve_severity}
use mediadiff.Core.Registry.{CheckDef, Severity, tolerance_for}
use mediadiff.Core.Tolerance.{Tolerance, parse_tolerance}
use mediadiff.Core.Tolerance.Bounds.{IsNatural64}
use mediadiff.Core.Tolerance.WellFormed.{IsTolerance, parse_tolerance-IsTolerance}

abbrev pub Verdict :
    Severity → Tolerance → Bool → Bool → Bool → Magnitude × Magnitude → Status → Type 0
Verdict severity t clears crossed widened (b, c) status =
    (material : Bool) × (within_fail : Bool) × (within_warn : Bool) × ((material ≡ true)
      ↔ IsMaterial crossed b c)
    × ((within_fail ≡ true) ↔ IsWithin t widened b c t.num)
    × ((within_warn ≡ true) ↔ HoldsFor (IsWithin t widened b c) t.warn_num)
    × (status ≡ tol_status severity (is_some t.warn_num) clears material (within_fail, within_warn))

module _ (V : Vendor) (check : CheckDef) (b c : Measurement V.Json) (policy : Policy) where
  compared_outcome-Verdict :
      (severity : Severity) (t : Tolerance) (clears : Bool) (pair : Magnitude × Magnitude)
      → IsTolerance check.unit t
      → IsMagnitude64 pair.0
      → IsMagnitude64 pair.1
      → end_delta_gate (side_end_delta_ms V b) (side_end_delta_ms V c) ≡ in_range clears
      → Verdict severity t clears
          (ceiling_crossed_upward V b c)
          (b.estimated || c.estimated)
          pair
          (compared_outcome V check b c severity t pair).status
  unfolding compared_outcome
  compared_outcome-Verdict severity t clears pair ht hb hc g =
      let crossed = ceiling_crossed_upward V b c in
      let widened = b.estimated || c.estimated in
      let r =
        compare_pair-Compares t crossed widened pair.0 pair.1 hb hc (omega (arith, ht.num_bounds))
          (omega (arith, ht.den_bounds)) (warn_int64 t.warn_num ht.warn_bounds) in
      (
        r.0.material,
        r.0.tests.0,
        r.0.tests.1,
        r.2,
        r.3,
        r.4,
        rw (g, r.1)
            (tol_outcome-status V check severity t clears crossed widened (sign_text pair.0 pair.1)
              r.0 (λ e. (r.2.0 e).0)),
      )
    where
      warn_int64 :
          (w : Option ℤ) → Returns (λ w. IsNatural64 w × (w ≤ℤ t.num)) w → Returns IsInt64 w
      warn_int64 none h = tt
      warn_int64 (some w) h = omega (arith, h.0)

  -- Where the tolerance text is a tolerance, both values are magnitudes of int64_t operands, the
  -- evidence has the bases that it names as texts and the change of the end delta is an int64_t,
  -- `compare_tol` returns a finding and never an error status. It fails on a ceiling crossed upward
  -- by the deadband or more, passes where the end delta changed by less than the epsilon, and
  -- otherwise has the status of the zone that the exact difference falls in.
  pub compare_tol-Verdict :
      (t : Tolerance) (magnitudes : Magnitude × Magnitude)
      (preference other : AdjustedMagnitudePreference) (clears : Bool)
      → parse_tolerance (tolerance_for check policy.profile) check.unit ≡ ok t
      → extract_pair b.value c.value ≡ ok magnitudes
      → side_adjusted_preference V b ≡ ok preference
      → side_adjusted_preference V c ≡ ok other
      → IsMagnitude64 (adjusted_pair preference other magnitudes).0
      → IsMagnitude64 (adjusted_pair preference other magnitudes).1
      → end_delta_gate (side_end_delta_ms V b) (side_end_delta_ms V c) ≡ in_range clears
      → (f : Finding V.Json) × (compare_tol V check b c policy ≡ ok f)
        × Verdict
            (resolve_severity check policy)
            t
            clears
            (ceiling_crossed_upward V b c)
            (b.estimated || c.estimated)
            (adjusted_pair preference other magnitudes)
            f.status
  unfolding compare_tol start_finding
  compare_tol-Verdict t magnitudes preference other clears et em ep eo hb hc g =
      let pair = adjusted_pair preference other magnitudes in
      (
        outcome_finding V check b c policy
            (compared_outcome V check b c (resolve_severity check policy) t pair),
        rw (et, em, ep, eo) refl,
        compared_outcome-Verdict (resolve_severity check policy) t clears pair
            (subst (Accepts (IsTolerance check.unit)) et
              (parse_tolerance-IsTolerance (tolerance_for check policy.profile) check.unit))
            hb hc g,
      )
