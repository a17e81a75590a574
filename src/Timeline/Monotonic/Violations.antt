-- ===== src/Timeline/Monotonic/Violations.antt =====
-- `count_dts_violations` of src/analyzers/timeline/monotonic.cpp.
use mediadiff.Base.{
  Bool, List, [], arith, false, if◌then◌else◌, inl, inr, leb_ℤ, refl, some, true, ◌<ℤ◌, ◌∷◌, ◌≡◌,
  ◌≤ℤ◌, ◌≤◌, ◌⊎◌,
}
use mediadiff.Timeline.{AxisSample, AxisView}
use mediadiff.Timeline.Monotonic.{
  MonotonicResult, add_violation, count_dts_violations, no_violations, violations_from,
  violations_in,
}

-- Each sample has a larger value than the one before it.
abbrev pub IncreasingAfter : AxisSample → List AxisSample → Type 0
IncreasingAfter prev [] = Unit
IncreasingAfter prev (s ∷ others) = (prev.value <ℤ s.value) × IncreasingAfter s others

-- The first sample whose value is not above that of the one before it.
pub data IsFirstViolation : AxisSample → List AxisSample → AxisSample → Type 0 where
  at_once :
      {prev s : AxisSample} {others : List AxisSample}
      → s.value ≤ℤ prev.value
      → IsFirstViolation prev (s ∷ others) s
  after_one :
      {prev o s : AxisSample} {others : List AxisSample}
      → prev.value <ℤ o.value
      → IsFirstViolation o others s
      → IsFirstViolation prev (o ∷ others) s

-- A result that reports a violation and names this sample.
abbrev pub Names : AxisSample → MonotonicResult → Type 0
Names s result =
    (1 ≤ result.violation_count)
    × (result.first_violation_index ≡ some s.packet_index)
    × (result.first_violation_pos ≡ some s.pos)

abbrev pub IsMonotonicAfter : AxisSample → List AxisSample → MonotonicResult → Type 0
IsMonotonicAfter prev others result =
    ((result ≡ no_violations) × IncreasingAfter prev others)
    ⊎ ((s : AxisSample) × IsFirstViolation prev others s × Names s result)

abbrev pub IsMonotonicResult : List AxisSample → MonotonicResult → Type 0
IsMonotonicResult [] result = result ≡ no_violations
IsMonotonicResult (s ∷ others) result = IsMonotonicAfter s others result

add_violation-Names :
    (first s : AxisSample) (b : Bool) (result : MonotonicResult)
    → Names first result
    → Names first (if b then add_violation s result else result)
add_violation-Names first s true result (h, i, p) = (omega (arith, h), rw i refl, rw p refl)
add_violation-Names first s false result h = h

violations_from-Names :
    (first prev : AxisSample) (others : List AxisSample) (result : MonotonicResult)
    → Names first result
    → Names first (violations_from prev others result)
unfolding violations_from
violations_from-Names first prev [] result h = h
violations_from-Names first prev (s ∷ others) result h =
    violations_from-Names first s others
      (if leb_ℤ s.value prev.value then add_violation s result else result)
      (add_violation-Names first s (leb_ℤ s.value prev.value) result h)

IsMonotonicAfter-step :
    (prev o : AxisSample) (others : List AxisSample) (result : MonotonicResult)
    → prev.value <ℤ o.value
    → IsMonotonicAfter o others result
    → IsMonotonicAfter prev (o ∷ others) result
IsMonotonicAfter-step prev o others result h (inl (e, i)) = inl (e, (h, i))
IsMonotonicAfter-step prev o others result h (inr (s, f, n)) = inr (s, after_one h f, n)

violation_step :
    (prev s : AxisSample) (others : List AxisSample) (b : Bool)
    → leb_ℤ s.value prev.value ≡ b
    → IsMonotonicAfter s others (violations_from s others no_violations)
    → IsMonotonicAfter prev
        (s ∷ others)
        (violations_from s others (if b then add_violation s no_violations else no_violations))
violation_step prev s others true e rest = inr (
  s,
  at_once (ground (arith, e)),
  violations_from-Names s s others (add_violation s no_violations) (omega arith, refl, refl),
)
violation_step prev s others false e rest =
    IsMonotonicAfter-step prev s others (violations_from s others no_violations) (ground (arith, e))
      rest

violations_from-IsMonotonic :
    (prev : AxisSample) (others : List AxisSample)
    → IsMonotonicAfter prev others (violations_from prev others no_violations)
unfolding violations_from
violations_from-IsMonotonic prev [] = inl (refl, tt)
violations_from-IsMonotonic prev (s ∷ others) =
    violation_step prev s others (leb_ℤ s.value prev.value) refl
      (violations_from-IsMonotonic s others)

pub violations_in-IsMonotonic :
    (found : List AxisSample) → IsMonotonicResult found (violations_in found)
violations_in-IsMonotonic [] = refl
violations_in-IsMonotonic (s ∷ others) = violations_from-IsMonotonic s others

-- The result reports no violation exactly when each value is above the one before it. Otherwise its
-- count is positive, and its index and position are those of the first sample that is not.
pub count_dts_violations-IsMonotonic :
    (view : AxisView) → IsMonotonicResult view.samples (count_dts_violations view)
unfolding count_dts_violations
count_dts_violations-IsMonotonic view = violations_in-IsMonotonic view.samples
