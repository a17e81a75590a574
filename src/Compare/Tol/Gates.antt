-- ===== src/Compare/Tol/Gates.antt =====
-- The status that `compare_tol` of src/compare/tol.cpp gives, over unbounded integers.
use mediadiff.Base.{
  Bool, Bool-cases, Returns, Text, abs_ℤ, ap, arith, false, if◌then◌else◌, inl, inr, is_some, leb,
  leb_ℤ, none, pos, refl, some, true, ℕ, ℤ, ◌*ℤ◌, ◌*◌, ◌-ℤ◌, ◌<◌, ◌^◌, ◌↔◌, ◌∙◌, ◌≡◌, ◌≤ℤ◌, ◌≤◌,
  ◌⊎◌,
}
use mediadiff.Compare.Tol.{
  Outcome, TolComparison, abs_change, apply_ceiling_escalation, apply_end_delta_gate, compare_pair,
  crossing_material, deadband_den, deadband_num, delta_message, drift_epsilon_ms, end_delta_gate,
  gated, unit_text, with_delta, with_material, with_tests, zone_outcome,
}
use mediadiff.Compare.Tol.Run.{tol_outcome}
use mediadiff.Compare.Verdict.{
  Magnitude, Ranged, in_range, out_of_range, ranged_then, tolerance_verdict,
}
use mediadiff.Compare.Verdicts.{
  HasValue, IsMagnitude64, at_least_iff, delta_den_of, delta_num_of, exact_delta-Gives,
  from_i64-HasValue, try_mul-Gives,
}
use mediadiff.Compare.Within.{HoldsFor, IsWithin, delta_tests-Decides}
use mediadiff.Core.CheckedArith.{IsInt64, checked_negate, fits_int64}
use mediadiff.Core.CheckedArith.Exact.{checked_sub-eq-exact}
use mediadiff.Core.ExactInt.{ExactInt, compare_exact_int, from_i64}
use mediadiff.Core.Model.{Status, Vendor, errored, failed, informed, passed, skipped, warned}
use mediadiff.Core.Registry.{CheckDef, Severity}
use mediadiff.Core.Tolerance.{Tolerance}
use mathlib.Core.Bool.{false≢true}

-- A crossing whose rise is at least 10/1000, multiplied out.
abbrev pub IsMaterial : Bool → Magnitude → Magnitude → Type 0
IsMaterial crossed b c =
    (crossed ≡ true) × ((deadband_num *ℤ delta_den_of b c) ≤ℤ (delta_num_of b c *ℤ deadband_den))

crossing_material-Decides :
    (crossed : Bool) (b c : Magnitude) (dn dd : ExactInt)
    → HasValue dn (delta_num_of b c) (2 ^ 127)
    → HasValue dd (delta_den_of b c) (2 ^ 126)
    → (m : Bool) × (crossing_material crossed (dn, dd) ≡ in_range m)
      × ((m ≡ true) ↔ IsMaterial crossed b c)
unfolding crossing_material
crossing_material-Decides false b c dn dd hn hd =
    (false, refl, (λ e. absurd (false≢true e), λ h. h.0))
crossing_material-Decides true b c dn dd hn hd =
    let l =
      try_mul-Gives dn (from_i64 deadband_den) (delta_num_of b c) deadband_den (2 ^ 127) (2 ^ 63) hn
        (from_i64-HasValue deadband_den (omega arith)) (omega arith) in
    let r =
      try_mul-Gives (from_i64 deadband_num) dd deadband_num (delta_den_of b c) (2 ^ 63) (2 ^ 126)
        (from_i64-HasValue deadband_num (omega arith)) hd (omega arith) in
    let e =
      at_least_iff l.0 r.0 (delta_num_of b c *ℤ deadband_den) (deadband_num *ℤ delta_den_of b c)
        (2 ^ 127 * 2 ^ 63) (2 ^ 63 * 2 ^ 126) l.2 r.2 in
    (
      leb_ℤ (pos 0) (compare_exact_int l.0 r.0),
      rw (l.1, r.1) refl,
      (λ h. (refl, e.0 h), λ h. e.1 h.1),
    )

-- What the comparison of two magnitudes comes to.
abbrev pub Compares :
    Tolerance → Bool → Bool → Magnitude → Magnitude → Ranged TolComparison → Type 0
Compares t crossed widened b c result =
    (comparison : TolComparison) × (result ≡ in_range comparison)
    × ((comparison.material ≡ true) ↔ IsMaterial crossed b c)
    × ((comparison.tests.0 ≡ true) ↔ IsWithin t widened b c t.num)
    × ((comparison.tests.1 ≡ true) ↔ HoldsFor (IsWithin t widened b c) t.warn_num)

pub compare_pair-Compares :
    (t : Tolerance) (crossed widened : Bool) (b c : Magnitude)
    → IsMagnitude64 b
    → IsMagnitude64 c
    → IsInt64 t.num
    → IsInt64 t.den
    → Returns IsInt64 t.warn_num
    → Compares t crossed widened b c (compare_pair t crossed widened b c)
unfolding compare_pair
compare_pair-Compares t crossed widened b c hb hc hnum hden hwarn =
    let d = exact_delta-Gives b c hb hc in
    let m = crossing_material-Decides crossed b c d.0 d.1 d.3 d.4 in
    let r = delta_tests-Decides t widened b c d.0 d.1 hb hc d.3 d.4 hnum hden hwarn in
    (
      record { delta = (d.0, d.1); material = m.0; tests = (r.0, r.1) },
      ap (λ o. ranged_then o (with_delta t crossed widened b c)) d.2
          ∙ ap (λ o. ranged_then o (with_material t widened b c (d.0, d.1))) m.1
          ∙ ap (λ o. ranged_then o (with_tests (d.0, d.1) m.0)) r.2,
      m.2,
      r.3,
      r.4,
    )

apply_end_delta_gate-status :
    (clears : Bool) (outcome : Outcome)
    → (apply_end_delta_gate clears outcome).status ≡ (if clears then outcome.status else passed)
unfolding apply_end_delta_gate
apply_end_delta_gate-status true outcome = refl
apply_end_delta_gate-status false outcome = by_status outcome.status outcome.message
  where
    by_status :
        (status : Status) (message : Text)
        → (apply_end_delta_gate false (record { status = status; message = message })).status
          ≡ passed
    by_status passed message = refl
    by_status informed message = refl
    by_status warned message = refl
    by_status failed message = refl
    by_status skipped message = refl
    by_status errored message = refl

-- The status: a material crossing fails, a small change of the end delta passes, and otherwise the
-- two tests decide.
abbrev pub tol_status : Severity → Bool → Bool → Bool → Bool × Bool → Status
tol_status severity has_warn clears material tests =
    if material
    then failed
    else if clears
    then tolerance_verdict severity has_warn tests
    else passed

gated-status :
    (message_of : Text → Text) (widened : Bool) (severity : Severity) (has_warn clears : Bool)
    (tests : Bool × Bool)
    → (gated has_warn clears tests (zone_outcome message_of widened severity has_warn tests)).status
      ≡ (if clears then tolerance_verdict severity has_warn tests else passed)
unfolding zone_outcome
gated-status message_of widened severity true clears (true, true) =
    apply_end_delta_gate-status clears _
gated-status message_of widened severity true clears (true, false) =
    apply_end_delta_gate-status clears _
gated-status message_of widened severity true clears (false, true) =
    apply_end_delta_gate-status clears _
gated-status message_of widened severity true clears (false, false) =
    apply_end_delta_gate-status clears _
gated-status message_of widened severity false true (true, w) = refl
gated-status message_of widened severity false false (true, w) = refl
gated-status message_of widened severity false clears (false, w) =
    apply_end_delta_gate-status clears _

apply_ceiling_escalation-status :
    (crossed material : Bool) (outcome : Outcome)
    → (material ≡ true → crossed ≡ true)
    → (apply_ceiling_escalation crossed material outcome).status
      ≡ (if material then failed else outcome.status)
unfolding apply_ceiling_escalation
apply_ceiling_escalation-status true true outcome h = refl
apply_ceiling_escalation-status true false outcome h = refl
apply_ceiling_escalation-status false true outcome h = absurd (false≢true (h refl))
apply_ceiling_escalation-status false false outcome h = refl

module _ (V : Vendor) where
  pub tol_outcome-status :
      (check : CheckDef) (severity : Severity) (t : Tolerance) (clears crossed widened : Bool)
      (sign : Text) (comparison : TolComparison)
      → (comparison.material ≡ true → crossed ≡ true)
      → (tol_outcome V check severity t clears crossed widened sign comparison).status
        ≡ tol_status severity (is_some t.warn_num) clears comparison.material comparison.tests
  unfolding tol_outcome
  tol_outcome-status check severity t clears crossed widened sign comparison h =
      apply_ceiling_escalation-status crossed comparison.material _ h
      ∙ ap (λ (s : Status). if comparison.material then failed else s)
          (gated-status
            (λ zone. delta_message sign comparison.delta (unit_text t check) zone widened) widened
            severity (is_some t.warn_num) clears comparison.tests)

abs_change-eq :
    (d : ℤ)
    → IsInt64 d
    → ((abs_ℤ d < 2 ^ 63) × (abs_change d ≡ some (pos (abs_ℤ d))))
      ⊎ ((2 ^ 63 ≤ abs_ℤ d) × (abs_change d ≡ none))
unfolding abs_change checked_negate ◌-ℤ◌
abs_change-eq d h = ground (arith, h)

-- For two int64_t end deltas the gate clears exactly when they differ by 2 or more, and is out of
-- range exactly when the size of their true difference is no int64_t.
pub end_delta_gate-IsGate :
    (b c : ℤ)
    → IsInt64 b
    → IsInt64 c
    → ((abs_ℤ (c -ℤ b) < 2 ^ 63)
        × (end_delta_gate (some b) (some c) ≡ in_range (leb 2 (abs_ℤ (c -ℤ b)))))
      ⊎ ((2 ^ 63 ≤ abs_ℤ (c -ℤ b))
          × ((what : Text) × (end_delta_gate (some b) (some c) ≡ out_of_range what)))
unfolding end_delta_gate
end_delta_gate-IsGate b c hb hc =
    rw (checked_sub-eq-exact c b hc hb) (elim (Bool-cases (fits_int64 (c -ℤ b))) [
      | inl f ↦ elim (abs_change-eq (c -ℤ b) (ground (arith, f))) [
        | inl (l, e) ↦ rw (f, e) (inl (l, ap in_range (same_test (abs_ℤ (c -ℤ b)))))
        | inr (g, e) ↦ rw (f, e) (inr (g, (_, refl)))
      ]
      | inr n ↦ rw n (inr (ground (arith, n), (_, refl)))
    ])
  where
    same_test : (n : ℕ) → leb_ℤ drift_epsilon_ms (pos n) ≡ leb 2 n
    same_test n = ground arith
