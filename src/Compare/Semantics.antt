-- ===== src/Compare/Semantics.antt =====
-- `comparator_for` of src/compare/exact.cpp: the comparator of each semantic.
pub mod Ids
use mediadiff.Base.{Bool, List}
use mediadiff.Compare.{Comparator}
use mediadiff.Compare.Dist.{compare_dist}
use mediadiff.Compare.Exact.{compare_exact}
use mediadiff.Compare.Hash.{compare_hash}
use mediadiff.Compare.Simple.{compare_presence, compare_set, compare_state}
use mediadiff.Compare.Spans.{Flagged, compare_span}
use mediadiff.Compare.Tol.Run.{compare_tol}
use mediadiff.Core.Model.{Span, Vendor}
use mediadiff.Core.Registry.{Semantic, dist, exact, hash, presence, set, span, state, tol}

unfoldable pub comparator_for :
    (V : Vendor) → (List Span → Bool → Flagged (List Span)) → Semantic → Comparator V.Json
unfolding compare_exact compare_tol compare_set compare_presence compare_hash compare_dist
    compare_span compare_state
comparator_for V sort_spans exact = compare_exact V
comparator_for V sort_spans tol = compare_tol V
comparator_for V sort_spans set = compare_set V
comparator_for V sort_spans presence = compare_presence V
comparator_for V sort_spans hash = compare_hash V
comparator_for V sort_spans dist = compare_dist V
comparator_for V sort_spans span = compare_span V sort_spans
comparator_for V sort_spans state = compare_state V
