-- ===== src/Compare/Spans.antt =====
-- src/compare/span.cpp. The flag `overflowed` is passed on as state. `std::sort` is a parameter:
-- a function of the spans and of the flag that the comparisons set.
-- A result with the flag.
pub mod Milliseconds
pub mod Merge
pub mod Verdict
use mediadiff.Base.{
  Bool, List, Option, [], false, if◌then◌else◌, is_empty, leb_ℤ, length, ltb_ℤ, none, not, ok, pos,
  some, text, true, ℤ, ◌&&◌, ◌++◌, ◌∷◌,
}
use mediadiff.Compare.{Comparator, escalate, start_finding}
use mediadiff.Compare.Tol.{Outcome}
use mediadiff.Compare.Tol.Run.{outcome_finding}
use mediadiff.Compare.Values.{rational_eq}
use mediadiff.Core.CheckedArith.{checked_add}
use mediadiff.Core.Model.{RationalValue, Span, Value, Vendor, errored, informed, passed, span_value}
use mediadiff.Core.Policy.{to_string}
use mediadiff.Core.Policy.Resolve.{resolve_severity}
use mediadiff.Core.Registry.{Severity}
use mediadiff.Core.Ticks.{Ticks, compare_ticks_checked}

abbrev pub Flagged : Type 0 → Type 0
Flagged A = A × Bool

abbrev pub to_ticks : RationalValue → Ticks
to_ticks v = record { value = v.num; tb = v.tb }

unfoldable pub ticks_less : RationalValue → RationalValue → Bool → Flagged Bool
unfolding compare_ticks_checked
ticks_less a b overflowed =
    let result = compare_ticks_checked (to_ticks a) (to_ticks b) in
    if result.overflowed then (false, true) else (ltb_ℤ result.order (pos 0), overflowed)

unfoldable pub ticks_less_equal : RationalValue → RationalValue → Bool → Flagged Bool
unfolding compare_ticks_checked
ticks_less_equal a b overflowed =
    let result = compare_ticks_checked (to_ticks a) (to_ticks b) in
    if result.overflowed then (false, true) else (leb_ℤ result.order (pos 0), overflowed)

abbrev pub within_threshold : ℤ → Bool → Option ℤ → Flagged Bool
within_threshold start overflowed none = (false, true)
within_threshold start overflowed (some threshold) = (leb_ℤ start threshold, overflowed)

-- The span starts at most one tick after the last one's end, where their timebases agree.
unfoldable pub adjacent_or_overlapping : Span → Span → Bool → Flagged Bool
unfolding checked_add ticks_less_equal
adjacent_or_overlapping last next overflowed =
    if rational_eq last.finish.tb next.start.tb
    then within_threshold next.start.num overflowed (checked_add last.finish.num (pos 1))
    else ticks_less_equal next.start last.finish overflowed

abbrev pub extended : Span → Span → Bool → Span
extended last next longer = if longer then record last { finish = next.finish } else last

-- The rest of the loop, after the last merged span.
unfoldable pub merge_from : Span → List Span → Bool → Flagged (List Span)
unfolding adjacent_or_overlapping ticks_less
merge_from last [] overflowed = (last ∷ [], overflowed)
merge_from last (next ∷ rest) overflowed =
    let adjacent = adjacent_or_overlapping last next overflowed in
    let longer = ticks_less last.finish next.finish adjacent.1 in
    let joined = merge_from (extended last next longer.0) rest longer.1 in
    let apart = merge_from next rest adjacent.1 in
    if adjacent.0 then joined else (last ∷ apart.0, apart.1)

unfoldable pub merge_sorted : List Span → Bool → Flagged (List Span)
unfolding merge_from
merge_sorted [] overflowed = ([], overflowed)
merge_sorted (next ∷ rest) overflowed = merge_from next rest overflowed

unfoldable pub overlaps : Span → Span → Bool → Flagged Bool
unfolding ticks_less
overlaps a b overflowed =
    let first = ticks_less a.start b.finish overflowed in
    if first.0 then ticks_less b.start a.finish first.1 else first

unfoldable pub overlaps_any : Span → List Span → Bool → Flagged Bool
unfolding overlaps
overlaps_any s [] overflowed = (false, overflowed)
overlaps_any s (o ∷ others) overflowed =
    let here = overlaps s o overflowed in
    let rest = overlaps_any s others here.1 in if here.0 then here else rest

-- The spans that overlap none of the others.
unfoldable pub without_overlap : List Span → List Span → Bool → Flagged (List Span)
unfolding overlaps_any
without_overlap [] others overflowed = ([], overflowed)
without_overlap (s ∷ rest) others overflowed =
    let here = overlaps_any s others overflowed in
    let later = without_overlap rest others here.1 in
    (if here.0 then later.0 else s ∷ later.0, later.1)

abbrev pub spans_of : Value → List Span
spans_of (span_value s) = s.spans
spans_of _ = []

unfoldable pub span_outcome : Severity → List Span → List Span → Bool → Outcome
unfolding to_string
span_outcome severity introduced removed overflowed =
    if overflowed
    then record {
      status = errored;
      message =
          text "span comparator: a tick comparison overflowed int64_t; cannot determine a verdict";
    }
    else if is_empty introduced && is_empty removed
    then record { status = passed; message = text "spans match" }
    else if not (is_empty introduced)
    then record {
      status = escalate severity;
      message = text "+" ++ to_string (pos (length introduced)) ++ text " introduced span(s)";
    }
    else record {
      status = informed;
      message = text "-" ++ to_string (pos (length removed)) ++ text " removed span(s)";
    }

-- The introduced and the removed spans, with the flag.
unfoldable pub span_difference :
    (List Span → Bool → Flagged (List Span))
    → List Span
    → List Span
    → (List Span × List Span) × Bool
unfolding merge_sorted without_overlap
span_difference sort_spans baseline candidate =
    let b_sorted = sort_spans baseline false in
    let b = merge_sorted b_sorted.0 b_sorted.1 in
    let c_sorted = sort_spans candidate b.1 in
    let c = merge_sorted c_sorted.0 c_sorted.1 in
    let introduced = without_overlap c.0 b.0 c.1 in
    let removed = without_overlap b.0 c.0 introduced.1 in ((introduced.0, removed.0), removed.1)

module _ (V : Vendor) (sort_spans : List Span → Bool → Flagged (List Span)) where
  unfoldable pub compare_span : Comparator V.Json
  unfolding start_finding span_difference span_outcome
  compare_span check baseline candidate policy =
      let d = span_difference sort_spans (spans_of baseline.value) (spans_of candidate.value) in
      ok (
        outcome_finding V check baseline candidate policy
          (span_outcome (resolve_severity check policy) d.0.0 d.0.1 d.1))
