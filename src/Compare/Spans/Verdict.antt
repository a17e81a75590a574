-- ===== src/Compare/Spans/Verdict.antt =====
-- The verdict of `compare_span`, src/compare/span.cpp, on spans in milliseconds.
use mediadiff.Base.{All, Bool, List, [], ℤ, ◌<ℤ◌, ◌↔◌, ◌∷◌, ◌≡◌, ◌⊎◌}
use mediadiff.Compare.{escalate}
use mediadiff.Compare.Spans.{Flagged}
use mediadiff.Compare.Spans.Merge.{AnySpan, HasEndsOf, HoldsTick, IsApart, IsByStart, WithinAny}
use mediadiff.Compare.Spans.Milliseconds.{IsMsSpan}
use mediadiff.Core.Model.{Span, Status, informed, passed}
use mediadiff.Core.Policy.{Policy}
use mediadiff.Core.Registry.{Severity}
use mathlib.Core.List.{Memᴰ}

-- `std::sort` by the starts: it keeps the elements, and no comparison overflows on milliseconds.
abbrev pub SortsSpans : (List Span → Bool → Flagged (List Span)) → Type 0
SortsSpans sort_spans =
    (spans : List Span) (overflowed : Bool)
    → All IsMsSpan spans
    → ((sort_spans spans overflowed).1 ≡ overflowed)
      × IsByStart (sort_spans spans overflowed).0
      × ((s : Span) → Memᴰ s (sort_spans spans overflowed).0 ↔ Memᴰ s spans)

-- The merged spans: each span lies within one of them, they stand more than a tick apart, they hold
-- only ticks that a span holds, and each starts where a span starts and ends where a span ends.
pub record Merged (input out : List Span) : Type 0 where
  pub covers : (s : Span) → Memᴰ s input → WithinAny s out
  pub apart : IsApart out
  pub ticks : (v : ℤ) → AnySpan (HoldsTick v) out → AnySpan (HoldsTick v) input
  pub ends : All (HasEndsOf input) out
  pub spans : All IsMsSpan out

-- The two spans have a stretch in common.
abbrev pub Meet : Span → Span → Type 0
Meet a b = (a.start.num <ℤ b.finish.num) × (b.start.num <ℤ a.finish.num)

abbrev pub MeetsOne : Span → List Span → Type 0
MeetsOne s [] = ⊥
MeetsOne s (o ∷ others) = Meet s o ⊎ MeetsOne s others

abbrev pub AllMeet : List Span → List Span → Type 0
AllMeet spans others = All (λ s. MeetsOne s others) spans

-- Introduced spans have the status of the check's severity, removed ones alone are for information.
abbrev pub IsSpanVerdict : Severity → List Span → List Span → Status → Type 0
IsSpanVerdict severity baseline candidate status =
    (AllMeet candidate baseline × AllMeet baseline candidate × (status ≡ passed))
    ⊎ (¬ AllMeet candidate baseline × (status ≡ escalate severity))
    ⊎ (AllMeet candidate baseline × ¬ AllMeet baseline candidate × (status ≡ informed))
