-- ===== src/Tests/SpanRuns.antt =====
-- Runs of src/compare/span.cpp and of `comparator_for` with an insertion sort.
use mediadiff.Base.{
  Accepts, Bool, List, Text, [], false, if◌then◌else◌, leb_ℤ, pos, refl, text, true, ℤ, ◌∷◌,
}
use mediadiff.Compare.Engine.{all_keys, index_from}
use mediadiff.Compare.Order.{Reports}
use mediadiff.Compare.Pairs.{compare_fingerprints}
use mediadiff.Compare.Semantics.{comparator_for}
use mediadiff.Compare.Semantics.Ids.{comparator_for-Reports}
use mediadiff.Compare.Spans.{Flagged}
use mediadiff.Compare.Total.{ReturnsOrStops, compare_fingerprints-ReturnsOrStops}
use mediadiff.Core.Model.{Measurement, RationalValue, Span, int64_value, span_value}
use mediadiff.Core.Registry.{at}
use mediadiff.Tests.Policies.{a_check, base_policy, two_checks}
use mediadiff.Tests.Runs.{fingerprint, measured, plain}
use mathlib.Core.List.{Memᴰ}

abbrev insert_span : Span → List Span → List Span
insert_span s [] = s ∷ []
insert_span s (o ∷ rest) =
    let later = insert_span s rest in
    if leb_ℤ s.start.num o.start.num then s ∷ o ∷ rest else o ∷ later

abbrev insertion_sort : List Span → List Span
insertion_sort [] = []
insertion_sort (s ∷ rest) = insert_span s (insertion_sort rest)

abbrev sort_by_insertion : List Span → Bool → Flagged (List Span)
sort_by_insertion spans overflowed = (insertion_sort spans, overflowed)

abbrev ms_at : ℤ → RationalValue
ms_at n = record { num = n; den = pos 1; tb = record { num = pos 1; den = pos 1 } }

abbrev span_ms : ℤ → ℤ → Span
span_ms m n = record { start = ms_at m; finish = ms_at n }

abbrev gaps : List Span → Measurement (List (Text × Text))
gaps spans = measured 0 (span_value (record { spans = spans }))

comparator_for-Reports_example :
    Accepts
      (Reports two_checks (
        all_keys
          (index_from [] (measured 0 (int64_value (pos 3)) ∷ []))
          (index_from [] (measured 0 (int64_value (pos 4)) ∷ []))))
      (compare_fingerprints plain
        (comparator_for plain sort_by_insertion)
        (fingerprint (measured 0 (int64_value (pos 3)) ∷ []))
        (fingerprint (measured 0 (int64_value (pos 4)) ∷ []))
        base_policy
        two_checks)
comparator_for-Reports_example =
    comparator_for-Reports plain sort_by_insertion
      (fingerprint (measured 0 (int64_value (pos 3)) ∷ []))
      (fingerprint (measured 0 (int64_value (pos 4)) ∷ [])) base_policy two_checks

-- The program's own comparators on two fingerprints.
compare_fingerprints-ReturnsOrStops_example :
    ReturnsOrStops plain
      (comparator_for plain sort_by_insertion)
      (measured 0 (int64_value (pos 3)) ∷ measured 1 (int64_value (pos 5)) ∷ [])
      (measured 0 (int64_value (pos 4)) ∷ [])
      two_checks
      base_policy
      (compare_fingerprints plain
        (comparator_for plain sort_by_insertion)
        (fingerprint (measured 0 (int64_value (pos 3)) ∷ measured 1 (int64_value (pos 5)) ∷ []))
        (fingerprint (measured 0 (int64_value (pos 4)) ∷ []))
        base_policy
        two_checks)
unfolding at
compare_fingerprints-ReturnsOrStops_example =
    compare_fingerprints-ReturnsOrStops plain (comparator_for plain sort_by_insertion)
      (fingerprint (measured 0 (int64_value (pos 3)) ∷ measured 1 (int64_value (pos 5)) ∷ []))
      (fingerprint (measured 0 (int64_value (pos 4)) ∷ [])) base_policy two_checks refl
      ((a_check (text "video.a") false, refl), ((a_check (text "video.b") true, refl), tt))
      ((a_check (text "video.a") false, refl), tt)
